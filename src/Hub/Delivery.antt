-- ===== src/Hub/Delivery.antt =====
-- What a subscriber gets of a broadcast.
use server_monitor.Common.{ℕ, Bool, true, ◌==◌, List, [], ◌∷◌, any}
use server_monitor.Hub.{Point, Hub}

-- Whether a subscriber with the metrics takes a point; no metrics stand for all.
abbrev pub takes : List ℕ → Point → Bool
takes [] p = true
takes (m ∷ ms) p = any (◌==◌ p.metric) (m ∷ ms)

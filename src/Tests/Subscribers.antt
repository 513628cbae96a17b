-- ===== src/Tests/Subscribers.antt =====
-- The hub of internal/server/sse at concrete inputs.
use server_monitor.Common.{ℕ, Option, some, List, [], ◌∷◌}
use server_monitor.Hub.{sub_points, Point, Sub, Hub}

-- A subscriber for one metric of every host, whose channel is empty.
abbrev viewer : Sub
viewer = record { host_id = 0; kind = sub_points; metrics = 4 ∷ []; ch = []; capacity = 1024 }

abbrev one_viewer : Hub
one_viewer = (1, viewer) ∷ []

abbrev sent_points : List Point
sent_points = record { metric = 4; value = 9 } ∷ record { metric = 5; value = 2 } ∷ []

-- The metrics of the points.
abbrev encode_metrics : ℕ → List Point → Option (List ℕ)
encode_metrics host [] = some []
encode_metrics host (p ∷ ps) = some (host ∷ p.metric ∷ [])

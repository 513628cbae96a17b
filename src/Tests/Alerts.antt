-- ===== src/Tests/Alerts.antt =====
-- The evaluator of internal/server/alerting at concrete inputs.
use server_monitor.Common.{
  ℕ, ◌*◌, ◌≡◌, refl, arith, Bool, true, false, none, [], ◌∷◌, if◌then◌else◌, List, ℕ_discrete,
}
use server_monitor.Common.Assoc.{lookup}
use server_monitor.Alerting.{
  Rule, ok, pending, firing, gt, Key, Key-discrete, World, AlertState, transition, exec,
}
use server_monitor.Alerting.Delays.{
  Sample, evaluate_samples, expected, held_since, state_of, evaluate_samples-expected,
}
use server_monitor.Alerting.Incidents.{OpenInv, evaluate_samples-OpenInv}
use server_monitor.Alerting.Evaluation.{sweep_orphans}
use server_monitor.Alerting.Orphans.{is_orphan, sweep_orphans-state}
use server_monitor.Alerting.Records.{transition-failed}

-- A rule on the sixth metric: above one for a minute.
abbrev busy : Rule
busy = record {
  id = 6;
  comparator = gt;
  threshold = 0x3ff0000000000000;
  for_s = 60;
  cooldown_s = 600;
  channel_ids = 1 ∷ 2 ∷ [];
  enabled = true;
}

abbrev cpu : Key
cpu = (6, 1, [])

abbrev disk : Key
disk = (6, 2, [])

abbrev fresh : World
fresh = record { states = []; history = []; statements = 0; sent = [] }

abbrev is_pending : AlertState
is_pending = record { state = pending; since = 5; last_notified = none; last_value = 0 }

abbrev one_pending : World
one_pending = record { states = (disk, is_pending) ∷ []; history = []; statements = 0; sent = [] }

abbrev sample : ℕ → Bool → Sample
sample seconds holds = record {
  at = seconds * 1000000000;
  holds = holds;
  value = 0x4000000000000000;
}

-- It holds at 15 s, and is above the threshold until 90 s.
abbrev minute : List Sample
minute = sample 90 true ∷ sample 45 true ∷ sample 15 true ∷ sample 0 false ∷ []

evaluate_samples-expected_example :
    state_of
      (lookup Key-discrete cpu (evaluate_samples (λ _. false) busy cpu [] minute fresh).states)
    ≡ expected busy minute
unfolding lookup
evaluate_samples-expected_example =
    evaluate_samples-expected (λ _. false) busy cpu [] minute fresh (λ _. refl) refl
      (omega arith, (omega arith, (omega arith, (tt, tt))))

run_fires : expected busy minute ≡ firing
unfolding expected held_since
run_fires = refl

evaluate_samples-OpenInv_example :
    OpenInv cpu (evaluate_samples (λ _. false) busy cpu [] minute fresh)
unfolding lookup
evaluate_samples-OpenInv_example =
    evaluate_samples-OpenInv (λ _. false) busy cpu [] minute fresh (λ _. refl) refl

sweep_orphans-state_example :
    state_of (
      lookup Key-discrete disk
        (sweep_orphans
          (λ _. false)
          ((6, busy) ∷ [])
          ((6, 1 ∷ []) ∷ [])
          (6 ∷ [])
          100
          []
          one_pending).states)
    ≡ (if is_orphan ((6, busy) ∷ []) ((6, 1 ∷ []) ∷ []) (6 ∷ []) disk then ok else pending)
unfolding lookup Key-discrete ℕ_discrete
sweep_orphans-state_example =
    sweep_orphans-state (λ _. false) ((6, busy) ∷ []) ((6, 1 ∷ []) ∷ []) (6 ∷ []) 100 [] one_pending
      disk (λ _. refl) (refl, tt)

transition-failed_example : (transition (λ _. true) busy cpu true 7 100 [] fresh).0.sent ≡ []
unfolding transition exec
transition-failed_example = transition-failed (λ _. true) busy cpu true 7 100 [] fresh refl

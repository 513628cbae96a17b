-- ===== src/Alerting/Incidents.antt =====
-- The history of alerts and their open incidents.
use server_monitor.Common.{
  ℕ, suc, ◌+◌, ◌-◌, ◌≡◌, refl, arith, Bool, true, false, not, if◌then◌else◌, Option, none, some,
  List, [], ◌∷◌, ite, is_some,
}
use server_monitor.Common.Assoc.{lookup, lookup-insert_self}
use server_monitor.Alerting.{
  Rule, State, ok, pending, firing, AlertState, Key, Key-discrete, Incident, Channels, World,
  dispatch, resolve_incident, exec, fire_or_wait, start_pending, stay_firing, settle,
  dispatch_state, state_or_ok, transition,
}
use server_monitor.Alerting.Delays.{NeverFails, Sample, evaluate_samples, state_of}

abbrev pub is_open : Key → Incident → Bool
is_open key i = ite (Key-discrete i.key key) (not (is_some i.resolved_at)) false

-- The open incidents of a key.
abbrev pub open_count : Key → List Incident → ℕ
open_count key [] = 0
open_count key (i ∷ is) = if is_open key i then suc (open_count key is) else open_count key is

abbrev pub fires : State → ℕ
fires ok = 0
fires pending = 0
fires firing = 1

abbrev pub OpenInv : Key → World → Type 0
OpenInv key w = open_count key w.history ≡ fires (state_of (lookup Key-discrete key w.states))

open_count-resolve :
    (key : Key) (now : ℕ) (h : List Incident)
    → open_count key (resolve_incident key now h) ≡ open_count key h - 1
unfolding resolve_incident
open_count-resolve key now [] = refl
open_count-resolve key now (i ∷ is) = ground (arith, open_count-resolve key now is)

open_count-new :
    (key : Key) (i : Incident) (h : List Incident)
    → i.key ≡ key
    → i.resolved_at ≡ none
    → open_count key (i ∷ h) ≡ suc (open_count key h)
open_count-new key i h e f = ground arith

dispatch_state-OpenInv :
    (fails : ℕ → Bool) (s : State) (p : Bool) (r : Rule) (key : Key) (st : AlertState)
    (value now : ℕ) (cs : Channels) (w : World)
    → NeverFails fails
    → s ≡ st.state
    → open_count key w.history ≡ fires s
    → state_of (lookup Key-discrete key w.states) ≡ s
    → OpenInv key (dispatch_state fails s p r key st value now cs w).0
unfolding dispatch_state start_pending fire_or_wait stay_firing settle exec dispatch
dispatch_state-OpenInv fails ok true r key st value now cs w nf e h g =
    grind (arith, nf, lookup-insert_self, open_count-new)
dispatch_state-OpenInv fails pending true r key st value now cs w nf e h g =
    grind (arith, nf, lookup-insert_self, open_count-new)
dispatch_state-OpenInv fails firing true r key st value now cs w nf e h g =
    grind (arith, nf, lookup-insert_self)
dispatch_state-OpenInv fails firing false r key st value now cs w nf e h g =
    grind (arith, nf, lookup-insert_self, open_count-resolve)
dispatch_state-OpenInv fails pending false r key st value now cs w nf e h g =
    grind (arith, nf, lookup-insert_self)
dispatch_state-OpenInv fails ok false r key st value now cs w nf e h g = grind arith

state_of-state_or_ok : (now : ℕ) (o : Option AlertState) → state_of o ≡ (state_or_ok now o).state
state_of-state_or_ok now none = refl
state_of-state_or_ok now (some st) = refl

transition-OpenInv :
    (fails : ℕ → Bool) (r : Rule) (key : Key) (p : Bool) (value now : ℕ) (cs : Channels) (w : World)
    → NeverFails fails
    → OpenInv key w
    → OpenInv key (transition fails r key p value now cs w).0
unfolding transition exec
transition-OpenInv fails r key p value now cs w nf h =
    let st = state_or_ok now (lookup Key-discrete key w.states) in
    let w' = record w { statements = w.statements + 1 } in
    let e = state_of-state_or_ok now (lookup Key-discrete key w.states) in
    let main =
      dispatch_state-OpenInv fails st.state p r key st value now cs w' nf refl
        (ground (arith, h, e)) e in
    ground (arith, nf w.statements, main)

-- Where no statement fails, every history of evaluations keeps one open incident of a firing alert, and none of
-- an alert that is pending or ok.
pub evaluate_samples-OpenInv :
    (fails : ℕ → Bool) (r : Rule) (key : Key) (cs : Channels) (xs : List Sample) (w : World)
    → NeverFails fails
    → OpenInv key w
    → OpenInv key (evaluate_samples fails r key cs xs w)
unfolding evaluate_samples
evaluate_samples-OpenInv fails r key cs [] w nf h = h
evaluate_samples-OpenInv fails r key cs (x ∷ xs) w nf h =
    transition-OpenInv fails r key x.holds x.value x.at cs (evaluate_samples fails r key cs xs w) nf
      (evaluate_samples-OpenInv fails r key cs xs w nf h)

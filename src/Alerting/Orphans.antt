-- ===== src/Alerting/Orphans.antt =====
-- What the sweep leaves (sweepOrphans).
use mathlib.Core.Path.{subst}
use mathlib.Core.Logic.{if_pos, if_neg}
use server_monitor.Common.{
  ℕ, ◌+◌, ◌≡◌, refl, sym, ap, ◌∙◌, arith, Bool, true, false, ◌&&◌, ◌||◌, if◌then◌else◌, Option,
  none, some, List, [], ◌∷◌, ite, is_some, not, any, ◌==◌, ℕ_discrete,
}
use server_monitor.Common.Assoc.{lookup, UniqueKeys}
use server_monitor.Alerting.{
  Rule, State, ok, pending, firing, AlertState, Key, Key-discrete, Channels, World, exec,
  transition,
}
use server_monitor.Alerting.Delays.{NeverFails, phase, quiet, phase_of, state_of, transition-phase}
use server_monitor.Alerting.Records.{transition-frame}
use server_monitor.Alerting.Evaluation.{
  is_active, orphan_rule, Orphan, cons_orphan, orphans, settle_orphans, sweep_orphans,
}

quiet-State : (s : State) (since : ℕ) → phase_of s since ≡ quiet → s ≡ ok
quiet-State ok since h = refl
quiet-State pending since h = grind arith
quiet-State firing since h = grind arith

quiet-ok : (o : Option AlertState) → phase o ≡ quiet → state_of o ≡ ok
quiet-ok none h = refl
quiet-ok (some st) h = quiet-State st.state st.since h

-- Some orphan of the list has the key.
abbrev is_listed : Key → List Orphan → Bool
is_listed key [] = false
is_listed key ((rule, j, value) ∷ os) = ite (Key-discrete j key) true (is_listed key os)

settle_one :
    (fails : ℕ → Bool) (r : Rule) (key j : Key) (value now : ℕ) (cs : Channels) (w : World)
    → NeverFails fails
    → state_of (lookup Key-discrete key (transition fails r j false value now cs w).0.states)
      ≡ ite (Key-discrete j key) ok (state_of (lookup Key-discrete key w.states))
settle_one fails r key j value now cs w nf = elim (Key-discrete j key) [
  | yes e ↦
      let sent =
        quiet-ok (lookup Key-discrete key (transition fails r j false value now cs w).0.states) (
          subst
            (λ k.
              phase (lookup Key-discrete k (transition fails r j false value now cs w).0.states)
              ≡ quiet)
            e (transition-phase fails r j false value now cs w nf)) in
      sent ∙ sym (if_pos (Key-discrete j key) e ok (state_of (lookup Key-discrete key w.states)))
  | no ne ↦
      ap state_of (transition-frame fails r j key false value now cs w ne)
      ∙ sym (if_neg (Key-discrete j key) ne ok (state_of (lookup Key-discrete key w.states)))
]

settle_orphans-state :
    (fails : ℕ → Bool) (now : ℕ) (cs : Channels) (os : List Orphan) (key : Key) (w : World)
    → NeverFails fails
    → state_of (lookup Key-discrete key (settle_orphans fails now cs os w).states)
      ≡ (if is_listed key os then ok else state_of (lookup Key-discrete key w.states))
unfolding settle_orphans
settle_orphans-state fails now cs [] key w nf = refl
settle_orphans-state fails now cs ((rule, j, value) ∷ os) key w nf = ground (
  arith,
  settle_orphans-state fails now cs os key (transition fails rule j false value now cs w).0 nf,
  settle_one fails rule key j value now cs w nf,
)

abbrev active_row : Option AlertState → Bool
active_row none = false
active_row (some st) = is_active st.state

inactive-State : (s : State) → is_active s ≡ false → s ≡ ok
inactive-State ok h = refl
inactive-State pending h = ground arith
inactive-State firing h = ground arith

inactive-ok : (o : Option AlertState) → active_row o ≡ false → state_of o ≡ ok
inactive-ok none h = refl
inactive-ok (some st) h = inactive-State st.state h

module _ (rules : List (ℕ × Rule)) (matched : List (ℕ × List ℕ)) (known : List ℕ) where
  -- The hosts that a rule matches.
  abbrev pub hosts_of : Option (List ℕ) → List ℕ
  hosts_of none = []
  hosts_of (some hosts) = hosts

  -- The rule of an alert is in the list, and it is disabled, or its hosts were found and the alert's is not one of them.
  abbrev pub is_orphan : Key → Bool
  is_orphan key = elim (lookup ℕ_discrete key.0 rules) [
    | none ↦ false
    | some rule ↦
        not rule.enabled
        || (any (◌==◌ key.0) known
            && not (any (◌==◌ key.1) (hosts_of (lookup ℕ_discrete key.0 matched))))
  ]

  is_some-orphan_rule : (key : Key) → is_some (orphan_rule rules matched known key) ≡ is_orphan key
  unfolding orphan_rule
  is_some-orphan_rule key = ground arith

  is_listed-cons :
      (b : Bool) (o : Option Rule) (j key : Key) (value : ℕ) (os : List Orphan)
      → is_listed key (cons_orphan b o j value os)
        ≡ ite (Key-discrete j key) (b && is_some o || is_listed key os) (is_listed key os)
  is_listed-cons true (some r) j key value os = ground arith
  is_listed-cons true none j key value os = ground arith
  is_listed-cons false o j key value os = ground arith

  is_listed-orphans :
      (key : Key) (rows : List (Key × AlertState))
      → UniqueKeys Key-discrete rows
      → is_listed key (orphans rules matched known rows)
        ≡ active_row (lookup Key-discrete key rows) && is_orphan key
  unfolding orphans lookup
  is_listed-orphans key [] u = refl
  is_listed-orphans key ((j, st) ∷ rows) u =
      let here =
        is_listed-cons (is_active st.state) (orphan_rule rules matched known j) j key st.last_value
          (orphans rules matched known rows) in
      ground (
        arith,
        here,
        is_some-orphan_rule j,
        is_some-orphan_rule key,
        is_listed-orphans key rows u.1,
      )

-- Where no statement fails and each key has one row, the sweep leaves an alert at ok whose rule is in the list, and is
-- disabled or has hosts that were found and do not hold the alert's; and the state of every other alert as it was.
pub sweep_orphans-state :
    (fails : ℕ → Bool) (rules : List (ℕ × Rule)) (matched : List (ℕ × List ℕ)) (known : List ℕ)
    (now : ℕ) (cs : Channels) (w : World) (key : Key)
    → NeverFails fails
    → UniqueKeys Key-discrete w.states
    → state_of (lookup Key-discrete key (sweep_orphans fails rules matched known now cs w).states)
      ≡ (if is_orphan rules matched known key
          then ok
          else state_of (lookup Key-discrete key w.states))
unfolding sweep_orphans exec
sweep_orphans-state fails rules matched known now cs w key nf u =
    let w' = record w { statements = w.statements + 1 } in
    let os = orphans rules matched known w.states in
    let listed = is_listed-orphans rules matched known key w.states u in
    let settled = settle_orphans-state fails now cs os key w' nf in
    let row = inactive-ok (lookup Key-discrete key w.states) in
    ground (arith, nf w.statements, listed, settled, row)

-- ===== src/Alerting/Delays.antt =====
-- The delay of a rule, for_s: the state of an alert as a function of its samples.
use mathlib.Core.Path.{subst}
use server_monitor.Common.{
  ℕ, ◌+◌, ◌*◌, ◌≤◌, ◌≡◌, refl, sym, arith, Bool, true, false, ltb, Option, none, some, List, [],
  ◌∷◌, if◌then◌else◌,
}
use server_monitor.Common.Assoc.{lookup, lookup-insert_self}
use server_monitor.Alerting.{
  Rule, State, ok, pending, firing, AlertState, Key, Key-discrete, Channels, World, dispatch, exec,
  write_state, fire_or_wait, start_pending, stay_firing, settle, dispatch_state, state_or_ok,
  transition,
}

abbrev pub NeverFails : (ℕ → Bool) → Type 0
NeverFails fails = (n : ℕ) → fails n ≡ false

-- What a row says of an alert: nothing, that its condition holds since some time, or that it fires since some time.
pub data Phase : Type 0 where
  quiet : Phase
  waiting : ℕ → Phase
  active : ℕ → Phase

abbrev pub phase_of : State → ℕ → Phase
phase_of ok since = quiet
phase_of pending since = waiting since
phase_of firing since = active since

abbrev pub phase : Option AlertState → Phase
phase none = quiet
phase (some st) = phase_of st.state st.since

-- What a sample does to it.
abbrev pub ripen : Rule → ℕ → ℕ → Phase
ripen r since now = if ltb now (since + r.for_s * 1000000000) then waiting since else active now

abbrev pub next_phase : Rule → Bool → ℕ → Phase → Phase
next_phase r true now quiet = ripen r now now
next_phase r true now (waiting since) = ripen r since now
next_phase r true now (active since) = active since
next_phase r false now ph = quiet

abbrev pub row : Key → World → Option AlertState
row key w = lookup Key-discrete key w.states

row-write : (key : Key) (st : AlertState) (w : World) → row key (write_state key st w) ≡ some st
row-write key st w = lookup-insert_self Key-discrete key st w.states

dispatch_state-phase :
    (fails : ℕ → Bool) (s : State) (p : Bool) (r : Rule) (key : Key) (st : AlertState)
    (value now : ℕ) (cs : Channels) (w : World)
    → NeverFails fails
    → phase (row key w) ≡ phase_of s st.since
    → s ≡ st.state
    → phase (row key (dispatch_state fails s p r key st value now cs w).0)
      ≡ next_phase r p now (phase_of s st.since)
unfolding dispatch_state start_pending fire_or_wait stay_firing settle exec dispatch
dispatch_state-phase fails ok true r key st value now cs w nf h e =
    grind (arith, nf, lookup-insert_self)
dispatch_state-phase fails pending true r key st value now cs w nf h e =
    grind (arith, nf, lookup-insert_self)
dispatch_state-phase fails firing true r key st value now cs w nf h e =
    grind (arith, nf, lookup-insert_self)
dispatch_state-phase fails firing false r key st value now cs w nf h e =
    grind (arith, nf, lookup-insert_self)
dispatch_state-phase fails pending false r key st value now cs w nf h e =
    grind (arith, nf, lookup-insert_self)
dispatch_state-phase fails ok false r key st value now cs w nf h e = h

phase_of-state_or_ok :
    (now : ℕ) (o : Option AlertState)
    → phase o ≡ phase_of (state_or_ok now o).state (state_or_ok now o).since
phase_of-state_or_ok now none = refl
phase_of-state_or_ok now (some st) = refl

pub transition-phase :
    (fails : ℕ → Bool) (r : Rule) (key : Key) (p : Bool) (value now : ℕ) (cs : Channels) (w : World)
    → NeverFails fails
    → phase (row key (transition fails r key p value now cs w).0)
      ≡ next_phase r p now (phase (row key w))
unfolding transition exec
transition-phase fails r key p value now cs w nf =
    let st = state_or_ok now (row key w) in
    let w' = record w { statements = w.statements + 1 } in
    let e = phase_of-state_or_ok now (row key w) in
    let main = dispatch_state-phase fails st.state p r key st value now cs w' nf e refl in
    ground (arith, nf w.statements, main, e)

-- One evaluation of the rule for the key.
pub record Sample : Type 0 where
  pub at : ℕ
  pub holds : Bool
  pub value : ℕ

-- The evaluations of a rule for one key, the latest first.
unfoldable pub evaluate_samples : (ℕ → Bool) → Rule → Key → Channels → List Sample → World → World
evaluate_samples fails r key cs [] w = w
evaluate_samples fails r key cs (x ∷ xs) w =
    (transition fails r key x.holds x.value x.at cs (evaluate_samples fails r key cs xs w)).0

abbrev since_or : ℕ → Option ℕ → ℕ
since_or now none = now
since_or now (some s) = s

-- The time of the first sample of the last unbroken run of samples at which the condition holds.
unfoldable pub held_since : List Sample → Option ℕ
held_since [] = none
held_since (x ∷ xs) = if x.holds then some (since_or x.at (held_since xs)) else none

-- The latest sample is not after a time.
abbrev pub UpTo : ℕ → List Sample → Type 0
UpTo t [] = Unit
UpTo t (x ∷ xs) = x.at ≤ t

-- The times of the samples never go back.
abbrev pub Ordered : List Sample → Type 0
Ordered [] = Unit
Ordered (x ∷ xs) = UpTo x.at xs × Ordered xs

-- The latest sample is not before a time.
abbrev RipeAt : ℕ → List Sample → Type 0
RipeAt t [] = ⊥
RipeAt t (x ∷ xs) = t ≤ x.at

abbrev pub state_of : Option AlertState → State
state_of none = ok
state_of (some st) = st.state

-- The state that a rule should be in: pending until its condition has held for for_s seconds.
unfoldable pub expected : Rule → List Sample → State
unfolding held_since
expected r [] = ok
expected r (x ∷ xs) =
    if x.holds
    then (if ltb x.at (since_or x.at (held_since xs) + r.for_s * 1000000000)
        then pending
        else firing)
    else ok

abbrev Agrees : Rule → List Sample → Phase → Type 0
Agrees r xs quiet = (expected r xs ≡ ok) × (held_since xs ≡ none)
Agrees r xs (waiting s) = (expected r xs ≡ pending) × (held_since xs ≡ some s)
Agrees r xs (active _) =
    (expected r xs ≡ firing)
    × (s : ℕ) × (held_since xs ≡ some s)
    × RipeAt (s + r.for_s * 1000000000) xs

ripen-Agrees :
    (r : Rule) (x : Sample) (xs : List Sample) (s : ℕ) (early : Bool)
    → x.holds ≡ true
    → since_or x.at (held_since xs) ≡ s
    → ltb x.at (s + r.for_s * 1000000000) ≡ early
    → Agrees r (x ∷ xs) (if early then waiting s else active x.at)
unfolding expected held_since
ripen-Agrees r x xs s true h e l = (grind arith, grind arith)
ripen-Agrees r x xs s false h e l = (grind arith, s, grind arith, grind arith)

next_phase-Agrees :
    (r : Rule) (x : Sample) (xs : List Sample) (ph : Phase) (p : Bool)
    → x.holds ≡ p
    → Ordered (x ∷ xs)
    → Agrees r xs ph
    → Agrees r (x ∷ xs) (next_phase r p x.at ph)
unfolding expected held_since
next_phase-Agrees r x xs quiet false e o a = (grind arith, grind arith)
next_phase-Agrees r x xs (waiting s) false e o a = (grind arith, grind arith)
next_phase-Agrees r x xs (active s) false e o a = (grind arith, grind arith)
next_phase-Agrees r x xs quiet true e o a =
    ripen-Agrees r x xs x.at (ltb x.at (x.at + r.for_s * 1000000000)) e (grind arith) refl
next_phase-Agrees r x xs (waiting s) true e o a =
    ripen-Agrees r x xs s (ltb x.at (s + r.for_s * 1000000000)) e (grind arith) refl
next_phase-Agrees r x [] (active t) true e o a = absurd a.3
next_phase-Agrees r x (y ∷ ys) (active t) true e o a = (grind arith, a.1, grind arith, grind arith)

evaluate_samples-Agrees :
    (fails : ℕ → Bool) (r : Rule) (key : Key) (cs : Channels) (xs : List Sample) (w : World)
    → NeverFails fails
    → phase (row key w) ≡ quiet
    → Ordered xs
    → Agrees r xs (phase (row key (evaluate_samples fails r key cs xs w)))
unfolding evaluate_samples expected held_since
evaluate_samples-Agrees fails r key cs [] w nf q o = subst (Agrees r []) (sym q) (refl, refl)
evaluate_samples-Agrees fails r key cs (x ∷ xs) w nf q o =
    let w' = evaluate_samples fails r key cs xs w in
    let before = evaluate_samples-Agrees fails r key cs xs w nf q o.1 in
    let after = next_phase-Agrees r x xs (phase (row key w')) x.holds refl o before in
    subst (Agrees r (x ∷ xs)) (sym (transition-phase fails r key x.holds x.value x.at cs w' nf))
      after

state-Agrees :
    (r : Rule) (xs : List Sample) (s : State) (since : ℕ)
    → Agrees r xs (phase_of s since)
    → s ≡ expected r xs
state-Agrees r xs ok since a = sym a.0
state-Agrees r xs pending since a = sym a.0
state-Agrees r xs firing since a = sym a.0

Agrees-state :
    (r : Rule) (xs : List Sample) (st : Option AlertState)
    → Agrees r xs (phase st)
    → state_of st ≡ expected r xs
Agrees-state r xs none a = sym a.0
Agrees-state r xs (some st) a = state-Agrees r xs st.state st.since a

-- Where no statement fails and the times of the samples never go back, an alert that is neither pending nor firing
-- is, after any samples, in the expected state: ok where the last sample does not hold, pending while the
-- condition has held for less than for_s seconds, and firing from then on until a sample does not hold.
pub evaluate_samples-expected :
    (fails : ℕ → Bool) (r : Rule) (key : Key) (cs : Channels) (xs : List Sample) (w : World)
    → NeverFails fails
    → phase (row key w) ≡ quiet
    → Ordered xs
    → state_of (lookup Key-discrete key (evaluate_samples fails r key cs xs w).states)
      ≡ expected r xs
evaluate_samples-expected fails r key cs xs w nf q o =
    Agrees-state r xs (row key (evaluate_samples fails r key cs xs w))
      (evaluate_samples-Agrees fails r key cs xs w nf q o)

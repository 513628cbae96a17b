-- ===== src/Ipban/Manager/Events.antt =====
-- The buffer of events between the agent and the server.
use mathlib.Core.List.{append_assoc}
use mathlib.Core.Path.{subst}
use server_monitor.Common.{
  ℕ, ◌+◌, ◌≤◌, ◌<◌, ◌≡◌, ◌≢◌, refl, sym, ap, ◌∙◌, inl, inr, arith, true, false, not, ltb, leb,
  if◌then◌else◌, List, [], ◌∷◌, ◌++◌, length, length-append, All, take, drop, keep,
  take-append-drop, Bool-cases, leb→le,
}
use server_monitor.Ipban.Manager.{
  Event, Env, Manager, push_event, max_buffered_events, max_events_per_report,
}
use server_monitor.Ipban.Manager.Handling.{reported_events, is_acked, acknowledge_events}

-- An id that was drawn, before `drawn` draws.
abbrev pub Drawn : Env → ℕ → Event → Type 0
Drawn env drawn ev = (k : ℕ) × (k < drawn) × (ev.id ≡ env.new_id k)

abbrev pub Differs : Event → List Event → Type 0
Differs ev = All (λ other. ev.id ≢ other.id)

abbrev pub Distinct : List Event → Type 0
Distinct [] = Unit
Distinct (ev ∷ evs) = Differs ev evs × Distinct evs

-- The buffer is within its limit, and its events have ids of their own.
pub record EventsInv (env : Env) (m : Manager) : Type 0 where
  pub bounded : length m.events ≤ max_buffered_events
  pub drawn : All (Drawn env m.ids_drawn) m.events
  pub distinct : Distinct m.events

-- The ids that are drawn do not repeat.
abbrev pub FreshIds : Env → Type 0
FreshIds env = (a b : ℕ) → env.new_id a ≡ env.new_id b → a ≡ b

All-append {ℓ κ} :
    {A : Type ℓ} (P : A → Type κ) (xs ys : List A) → All P xs → All P ys → All P (xs ++ ys)
All-append P [] ys hx hy = hy
All-append P (x ∷ xs) ys hx hy = (hx.0, All-append P xs ys hx.1 hy)

Distinct-append :
    (xs : List Event) (ev : Event)
    → Distinct xs
    → All (λ x. x.id ≢ ev.id) xs
    → Distinct (xs ++ (ev ∷ []))
Distinct-append [] ev d h = (tt, tt)
Distinct-append (x ∷ xs) ev d h = (
  All-append (λ other. x.id ≢ other.id) xs (ev ∷ []) d.0 (h.0, tt),
  Distinct-append xs ev d.1 h.1,
)

Drawn-add_one :
    (env : Env) (n : ℕ) (evs : List Event) → All (Drawn env n) evs → All (Drawn env (n + 1)) evs
Drawn-add_one env n [] h = tt
Drawn-add_one env n (ev ∷ evs) h =
    ((h.0.0, omega (arith, h.0.1), h.0.2), Drawn-add_one env n evs h.1)

Drawn-ne :
    (env : Env) (n : ℕ) (ev : Event) (evs : List Event)
    → FreshIds env
    → ev.id ≡ env.new_id n
    → All (Drawn env n) evs
    → All (λ x. x.id ≢ ev.id) evs
Drawn-ne env n ev [] fresh e h = tt
Drawn-ne env n ev (x ∷ evs) fresh e h = (
  λ same. absurd (omega (arith, h.0.1, fresh h.0.0 n (sym h.0.2 ∙ same ∙ e))),
  Drawn-ne env n ev evs fresh e h.1,
)

All-drop {ℓ κ} : {A : Type ℓ} (P : A → Type κ) (xs : List A) → All P xs → All P (drop 1 xs)
All-drop P [] h = tt
All-drop P (x ∷ xs) h = h.1

Distinct-drop : (xs : List Event) → Distinct xs → Distinct (drop 1 xs)
Distinct-drop [] d = tt
Distinct-drop (x ∷ xs) d = d.1

length-drop : (xs : List Event) → 0 < length xs → length (drop 1 xs) + 1 ≡ length xs
length-drop [] h = absurd (omega arith)
length-drop (x ∷ xs) h = omega arith

append_event-EventsInv :
    (env : Env) (m : Manager) (evs : List Event) (ev : Event)
    → FreshIds env
    → length evs < max_buffered_events
    → All (Drawn env m.ids_drawn) evs
    → Distinct evs
    → ev.id ≡ env.new_id m.ids_drawn
    → (length (evs ++ (ev ∷ [])) ≤ max_buffered_events)
      × All (Drawn env (m.ids_drawn + 1)) (evs ++ (ev ∷ []))
      × Distinct (evs ++ (ev ∷ []))
append_event-EventsInv env m evs ev fresh h dr di e = (
  omega (arith, length-append evs (ev ∷ [])),
  All-append (Drawn env (m.ids_drawn + 1)) evs (ev ∷ []) (Drawn-add_one env m.ids_drawn evs dr)
      ((m.ids_drawn, omega arith, e), tt),
  Distinct-append evs ev di (Drawn-ne env m.ids_drawn ev evs fresh e dr),
)

-- The ids that are drawn do not repeat; the clock that newEventID takes without random bytes may repeat one. Then
-- pushEvent keeps the buffer within 2000 events and their ids distinct. It adds its event at the end, with the next id,
-- and a full buffer drops its first event, which is counted: buffered and dropped events grow by one together.
pub push_event-EventsInv :
    (env : Env) (ev : Event) (m : Manager)
    → FreshIds env
    → EventsInv env m
    → EventsInv env (push_event env ev m)
      × (length (push_event env ev m).events + (push_event env ev m).dropped_events
          ≡ length m.events + m.dropped_events + 1)
      × ((push_event env ev m).events
          ≡ (if ltb (length m.events) max_buffered_events then m.events else drop 1 m.events)
            ++ (record ev { id = env.new_id m.ids_drawn } ∷ []))
unfolding push_event
push_event-EventsInv env ev m fresh v =
    elim (Bool-cases (leb max_buffered_events (length m.events))) [
      | inl full ↦
          let l : max_buffered_events ≤ length m.events = leb→le _ _ full in
          let a =
            append_event-EventsInv env m (drop 1 m.events)
              (record ev { id = env.new_id m.ids_drawn }) fresh
              (omega (arith, length-drop m.events))
              (All-drop (Drawn env m.ids_drawn) m.events v.drawn)
              (Distinct-drop m.events v.distinct) refl in
          rw full (
            record { bounded = a.0; drawn = a.1; distinct = a.2 },
            omega (
              arith,
              length-drop m.events,
              length-append (drop 1 m.events) (record ev { id = env.new_id m.ids_drawn } ∷ []),
            ),
            ground (arith, l),
          )
      | inr room ↦
          let a =
            append_event-EventsInv env m m.events (record ev { id = env.new_id m.ids_drawn }) fresh
              (ground arith) v.drawn v.distinct refl in
          rw room (
            record { bounded = a.0; drawn = a.1; distinct = a.2 },
            omega (arith, length-append m.events (record ev { id = env.new_id m.ids_drawn } ∷ [])),
            ground (arith, room),
          )
    ]

acked_more :
    (a : Event) (acked evs : List Event)
    → All (λ ev. is_acked acked ev ≡ true) evs
    → All (λ ev. is_acked (a ∷ acked) ev ≡ true) evs
acked_more a acked [] h = tt
acked_more a acked (ev ∷ evs) h = (ground arith, acked_more a acked evs h.1)

acked_self : (evs : List Event) → All (λ ev. is_acked evs ev ≡ true) evs
acked_self [] = tt
acked_self (ev ∷ evs) = (ground arith, acked_more ev evs evs (acked_self evs))

not_acked :
    (acked : List Event) (ev : Event) → All (λ a. a.id ≢ ev.id) acked → is_acked acked ev ≡ false
not_acked [] ev h = refl
not_acked (a ∷ acked) ev h = ground (arith, not_acked acked ev h.1)

keep_acked :
    (acked evs rest : List Event)
    → All (λ ev. is_acked acked ev ≡ true) evs
    → keep (λ ev. not (is_acked acked ev)) (evs ++ rest) ≡ keep (λ ev. not (is_acked acked ev)) rest
keep_acked acked [] rest h = refl
keep_acked acked (ev ∷ evs) rest h = rw h.0 (keep_acked acked evs rest h.1)

keep_unacked :
    (acked rest : List Event)
    → All (λ ev. All (λ a. a.id ≢ ev.id) acked) rest
    → keep (λ ev. not (is_acked acked ev)) rest ≡ rest
keep_unacked acked [] h = refl
keep_unacked acked (ev ∷ rest) h =
    rw (not_acked acked ev h.0) (ap (◌∷◌ ev) (keep_unacked acked rest h.1))

Differs-append : (ev : Event) (xs ys : List Event) → Differs ev (xs ++ ys) → Differs ev ys
Differs-append ev [] ys h = h
Differs-append ev (x ∷ xs) ys h = Differs-append ev xs ys h.1

Distinct-append_ne :
    (xs ys : List Event) → Distinct (xs ++ ys) → All (λ ev. All (λ a. a.id ≢ ev.id) xs) ys
Distinct-append_ne [] ys d = trivial ys
  where
    trivial : (ys : List Event) → All (λ ev. Unit {0}) ys
    trivial [] = tt
    trivial (y ∷ ys) = (tt, trivial ys)
Distinct-append_ne (x ∷ xs) ys d =
    both ys (Differs-append x xs ys d.0) (Distinct-append_ne xs ys d.1)
  where
    both :
        (ys : List Event)
        → Differs x ys
        → All (λ ev. All (λ a. a.id ≢ ev.id) xs) ys
        → All (λ ev. All (λ a. a.id ≢ ev.id) (x ∷ xs)) ys
    both [] p q = tt
    both (y ∷ ys) p q = ((p.0, q.0), both ys p.1 q.1)

-- When the server acknowledges what a report carried, the agent forgets just that: the events past the
-- report's limit and those that came after it stay, in order. The ids are distinct.
pub acknowledge-reported :
    (m : Manager) (later : List Event)
    → Distinct (m.events ++ later)
    → (acknowledge_events (reported_events m) (record m { events = m.events ++ later })).events
      ≡ drop max_events_per_report m.events ++ later
unfolding acknowledge_events reported_events
acknowledge-reported m later d =
    let sent = take max_events_per_report m.events in
    let rest = drop max_events_per_report m.events ++ later in
    let split : m.events ++ later ≡ sent ++ rest =
      ap (λ l. l ++ later) (sym (take-append-drop max_events_per_report m.events))
      ∙ append_assoc sent (drop max_events_per_report m.events) later in
    ap (keep (λ ev. not (is_acked sent ev))) split
    ∙ keep_acked sent sent rest (acked_self sent)
    ∙ keep_unacked sent rest (Distinct-append_ne sent rest (subst Distinct split d))

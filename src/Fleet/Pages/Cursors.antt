-- ===== src/Fleet/Pages/Cursors.antt =====
-- internal/server/ipban/service.go: where a page of StreamEvents ends, the next one starts.
use mathlib.Core.Path.{subst}
use server_monitor.Common.{
  ℕ, zero, suc, ◌≡◌, refl, ap, ◌∙◌, ◌≤◌, ◌<◌, arith, Bool, true, false, ◌&&◌, List, [], ◌∷◌, keep,
  take, drop, All, Option, if-holds_given, Bool-cases, inl, inr,
}
use server_monitor.Common.Int64.{two63, lt_i64}
use server_monitor.Netip.{Addr}
use server_monitor.Fleet.{EventRow}
use server_monitor.Fleet.Pages.{
  is_newer_event, sort_events, last_event, matches, of_host, of_ip, is_before, select_events,
}
use server_monitor.Fleet.Pages.Sorting.{
  All-sort_events, IsDescending, HasDistinctIds, sort_events-IsDescending, keep-HasDistinctIds,
  keep-sort_events, keep-last_event,
}

-- What the database gives an event: a time, and a positive id.
abbrev pub IsStored : EventRow → Type 0
IsStored e = (1 ≤ e.time) × ((1 ≤ e.id) × (e.id < two63))

keep-fuse :
    (p q r : EventRow → Bool) (es : List EventRow)
    → ((e : EventRow) → q e ≡ (r e && p e))
    → keep q es ≡ keep p (keep r es)
keep-fuse p q r [] h = refl
keep-fuse p q r (e ∷ es) h = ground (arith, h e, keep-fuse p q r es h)

is_before-last :
    (last e : EventRow) → IsStored last → is_before last.time last.id e ≡ is_newer_event last e
is_before-last last e (t, (p, b)) =
    let positive : lt_i64 0 last.id ≡ true = ground (arith, p, b) in ground (arith, t, positive)

is_before_trans :
    (before id : ℕ) (last e : EventRow)
    → is_before before id last ≡ true
    → is_newer_event last e ≡ true
    → is_before before id e ≡ true
is_before_trans before id last e h n = elim (Bool-cases (lt_i64 0 id)) [
  | inl on ↦ ground (arith, on, h, n)
  | inr off ↦ ground (arith, off, h, n)
]

both :
    {b c d : Bool} (x y : Bool)
    → b ≡ true
    → c ≡ true
    → d ≡ true
    → (x && y && b) ≡ ((x && y && c) && d)
both x y h h' h'' = ground (arith, h, h', h'')

neither : {b d : Bool} (x y c : Bool) → b ≡ false → d ≡ false → (x && y && b) ≡ ((x && y && c) && d)
neither x y c h h' = ground (arith, h, h')

-- After an event that matches, the next filter selects what is older.
matches-next :
    (host : ℕ) (ip : Option Addr) (before id : ℕ) (last e : EventRow)
    → IsStored last
    → is_before before id last ≡ true
    → matches host ip last.time last.id e ≡ (matches host ip before id e && is_newer_event last e)
matches-next host ip before id last e s m = elim (Bool-cases (is_newer_event last e)) [
  | inl on ↦
      both (of_host host e) (of_ip ip e) (is_before-last last e s ∙ on)
        (is_before_trans before id last e m on) on
  | inr off ↦
      neither (of_host host e) (of_ip ip e) (is_before before id e) (is_before-last last e s ∙ off)
        off
]

All-keep_given :
    (P : EventRow → Type 0) (p : EventRow → Bool) (es : List EventRow)
    → All P es
    → All (λ e. P e × (p e ≡ true)) (keep p es)
All-keep_given P p [] h = tt
All-keep_given P p (e ∷ es) (h, hs) =
    if-holds_given (λ l. All (λ e. P e × (p e ≡ true)) l) (p e) (e ∷ keep p es) (keep p es)
      (λ m. ((h, m), All-keep_given P p es hs)) (λ _. All-keep_given P p es hs)

last_event-All :
    (P : EventRow → Type 0) (n : ℕ) (x : EventRow) (xs : List EventRow)
    → All P (x ∷ xs)
    → P (last_event x (take n xs))
last_event-All P zero x xs (h, hs) = h
last_event-All P (suc n) x [] (h, hs) = h
last_event-All P (suc n) x (y ∷ ys) (h, hs) = last_event-All P n y ys hs

-- A page with all its events, and then the next selection.
pub select_events-next :
    (host : ℕ) (ip : Option Addr) (before id n : ℕ) (es : List EventRow) (x : EventRow)
    (xs : List EventRow)
    → HasDistinctIds es
    → All IsStored es
    → select_events host ip before id es ≡ x ∷ xs
    → let last = last_event x (take n xs) in select_events host ip last.time last.id es ≡ drop n xs
unfolding select_events
select_events-next host ip before id n es x xs d stored e =
    let last = last_event x (take n xs) in
    let m = matches host ip before id in
    let kept = keep m es in
    let both : IsStored last × (m last ≡ true) =
      last_event-All (λ e. IsStored e × (m e ≡ true)) n x xs
        (subst (λ l. All (λ e. IsStored e × (m e ≡ true)) l) e
          (All-sort_events (λ e. IsStored e × (m e ≡ true)) kept
            (All-keep_given IsStored m es stored))) in
    let before_last : is_before before id last ≡ true = ground (arith, both.1) in
    let desc : IsDescending (x ∷ xs) =
      subst IsDescending e (sort_events-IsDescending kept (keep-HasDistinctIds m es d)) in
    ap sort_events (
      keep-fuse (is_newer_event last) (matches host ip last.time last.id) m es
        (λ e. matches-next host ip before id last e both.0 before_last))
    ∙ keep-sort_events (is_newer_event last) kept (keep-HasDistinctIds m es d)
    ∙ ap (λ l. keep (is_newer_event last) l) e
    ∙ keep-last_event n x xs desc

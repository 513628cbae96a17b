-- ===== src/Fleet/Pages/Sorting.antt =====
-- internal/server/ipban/service.go: the order of the events, and where a page of them ends.
use server_monitor.Common.{
  ℕ, zero, suc, ◌≡◌, refl, arith, Bool, true, false, ◌==◌, List, [], ◌∷◌, keep, take, drop, All,
  if-holds, if-holds_given, Bool-cases, inl, inr, if◌then◌else◌,
}
use server_monitor.Fleet.{EventRow}
use server_monitor.Fleet.Pages.{is_newer_event, insert_event, sort_events, last_event}

-- Every event is newer than those after it.
abbrev pub IsDescending : List EventRow → Type 0
IsDescending [] = Unit
IsDescending (x ∷ xs) = All (λ y. is_newer_event x y ≡ true) xs × IsDescending xs

-- The ids are the primary key of the table.
abbrev pub HasDistinctIds : List EventRow → Type 0
HasDistinctIds [] = Unit
HasDistinctIds (x ∷ xs) = All (λ y. (y.id == x.id) ≡ false) xs × HasDistinctIds xs

is_newer_event_trans :
    (a b c : EventRow)
    → is_newer_event a b ≡ true
    → is_newer_event b c ≡ true
    → is_newer_event a c ≡ true
is_newer_event_trans a b c h h' = ground (arith, h, h')

All-newer :
    (a b : EventRow) (xs : List EventRow)
    → is_newer_event a b ≡ true
    → All (λ y. is_newer_event b y ≡ true) xs
    → All (λ y. is_newer_event a y ≡ true) xs
All-newer a b [] h hs = tt
All-newer a b (x ∷ xs) h (e, hs) = (is_newer_event_trans a b x h e, All-newer a b xs h hs)

All-insert_event {κ} :
    (P : EventRow → Type κ) (e : EventRow) (xs : List EventRow)
    → P e
    → All P xs
    → All P (insert_event e xs)
unfolding insert_event
All-insert_event P e [] p ps = (p, tt)
All-insert_event P e (x ∷ xs) p (q, ps) =
    if-holds (λ l. All P l) (is_newer_event x e) (x ∷ insert_event e xs) (e ∷ x ∷ xs)
      (q, All-insert_event P e xs p ps) (p, (q, ps))

insert_event-IsDescending :
    (e : EventRow) (xs : List EventRow)
    → All (λ y. (y.id == e.id) ≡ false) xs
    → IsDescending xs
    → IsDescending (insert_event e xs)
unfolding insert_event
insert_event-IsDescending e [] d h = (tt, tt)
insert_event-IsDescending e (x ∷ xs) (n, d) (a, h) =
    if-holds_given IsDescending (is_newer_event x e) (x ∷ insert_event e xs) (e ∷ x ∷ xs)
      (λ on. (
        All-insert_event (λ y. is_newer_event x y ≡ true) e xs on a,
        insert_event-IsDescending e xs d h,
      ))
      (λ off.
        let first : is_newer_event e x ≡ true = ground (arith, off, n) in
        ((first, All-newer e x xs first a), (a, h)))

pub All-sort_events {κ} :
    (P : EventRow → Type κ) (xs : List EventRow) → All P xs → All P (sort_events xs)
unfolding sort_events
All-sort_events P [] ps = tt
All-sort_events P (x ∷ xs) (p, ps) =
    All-insert_event P x (sort_events xs) p (All-sort_events P xs ps)

pub sort_events-IsDescending :
    (xs : List EventRow) → HasDistinctIds xs → IsDescending (sort_events xs)
unfolding sort_events
sort_events-IsDescending [] h = tt
sort_events-IsDescending (x ∷ xs) (d, h) =
    insert_event-IsDescending x (sort_events xs)
      (All-sort_events (λ y. (y.id == x.id) ≡ false) xs d) (sort_events-IsDescending xs h)

All-keep {κ} :
    (P : EventRow → Type κ) (p : EventRow → Bool) (xs : List EventRow)
    → All P xs
    → All P (keep p xs)
All-keep P p [] hs = tt
All-keep P p (x ∷ xs) (h, hs) =
    if-holds (λ l. All P l) (p x) (x ∷ keep p xs) (keep p xs) (h, All-keep P p xs hs)
      (All-keep P p xs hs)

pub keep-HasDistinctIds :
    (p : EventRow → Bool) (xs : List EventRow) → HasDistinctIds xs → HasDistinctIds (keep p xs)
keep-HasDistinctIds p [] h = tt
keep-HasDistinctIds p (x ∷ xs) (d, h) =
    if-holds HasDistinctIds (p x) (x ∷ keep p xs) (keep p xs)
      (All-keep (λ y. (y.id == x.id) ≡ false) p xs d, keep-HasDistinctIds p xs h)
      (keep-HasDistinctIds p xs h)

-- An event goes before those that are not newer.
insert_event_first :
    (e : EventRow) (xs : List EventRow)
    → All (λ y. is_newer_event y e ≡ false) xs
    → insert_event e xs ≡ e ∷ xs
unfolding insert_event
insert_event_first e [] h = refl
insert_event_first e (x ∷ xs) (h, hs) = ground (arith, h)

All-not_newer :
    (x e : EventRow) (xs : List EventRow)
    → is_newer_event x e ≡ false
    → All (λ y. is_newer_event x y ≡ true) xs
    → All (λ y. is_newer_event y e ≡ false) xs
All-not_newer x e [] off h = tt
All-not_newer x e (y ∷ ys) off (h, hs) = (ground (arith, off, h), All-not_newer x e ys off hs)

keep-insert_event :
    (p : EventRow → Bool) (e : EventRow) (xs : List EventRow)
    → IsDescending xs
    → keep p (insert_event e xs) ≡ (if p e then insert_event e (keep p xs) else keep p xs)
unfolding insert_event
keep-insert_event p e [] d = refl
keep-insert_event p e (x ∷ xs) (a, d) = elim (Bool-cases (is_newer_event x e)) [
  | inl on ↦ ground (arith, on, keep-insert_event p e xs d)
  | inr off ↦
      let first : insert_event e (keep p (x ∷ xs)) ≡ e ∷ keep p (x ∷ xs) =
        insert_event_first e (keep p (x ∷ xs)) (
          All-keep (λ y. is_newer_event y e ≡ false) p (x ∷ xs)
            (off, All-not_newer x e xs off a)) in
      ground (arith, off, first)
]

pub keep-sort_events :
    (p : EventRow → Bool) (xs : List EventRow)
    → HasDistinctIds xs
    → sort_events (keep p xs) ≡ keep p (sort_events xs)
unfolding sort_events
keep-sort_events p [] h = refl
keep-sort_events p (x ∷ xs) (d, h) =
    let put = keep-insert_event p x (sort_events xs) (sort_events-IsDescending xs h) in
    ground (arith, put, keep-sort_events p xs h)

-- The cursor of the next page, in the order of the events.
keep_older :
    (e : EventRow) (xs : List EventRow)
    → All (λ y. is_newer_event e y ≡ true) xs
    → keep (is_newer_event e) xs ≡ xs
keep_older e [] h = refl
keep_older e (x ∷ xs) (h, hs) = ground (arith, h, keep_older e xs hs)

newer-last_event :
    (x y : EventRow) (n : ℕ) (ys : List EventRow)
    → All (λ z. is_newer_event x z ≡ true) (y ∷ ys)
    → is_newer_event x (last_event y (take n ys)) ≡ true
newer-last_event x y zero ys (h, hs) = h
newer-last_event x y (suc n) [] (h, hs) = h
newer-last_event x y (suc n) (z ∷ ys) (h, hs) = newer-last_event x z n ys hs

-- The events older than the last one of a page are those after the page.
pub keep-last_event :
    (n : ℕ) (x : EventRow) (xs : List EventRow)
    → IsDescending (x ∷ xs)
    → keep (is_newer_event (last_event x (take n xs))) (x ∷ xs) ≡ drop n xs
keep-last_event zero x xs (a, d) = ground (arith, keep_older x xs a)
keep-last_event (suc n) x [] (a, d) = ground arith
keep-last_event (suc n) x (y ∷ ys) (a, d) =
    let older = newer-last_event x y n ys a in ground (arith, older, keep-last_event n y ys d)

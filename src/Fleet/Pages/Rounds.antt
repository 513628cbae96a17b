-- ===== src/Fleet/Pages/Rounds.antt =====
-- internal/server/ipban/service.go: one round of StreamEvents: the visits of a page, and those after it.
use mathlib.Core.List.{append_assoc}
use server_monitor.Common.{
  ℕ, zero, suc, ◌≡◌, refl, sym, ap, ◌∙◌, ◌<◌, arith, Bool, true, false, not, List, [], ◌∷◌, ◌++◌,
  length, take, drop, Option, some, Bool-cases, inl, inr, if◌then◌else◌, take-append-drop, ◌⊎◌,
}
use server_monitor.Fleet.{EventRow}
use server_monitor.Fleet.Pages.{StreamEnd, finished, visit_failed, query_failed, visit_all}

visit_all-append :
    (ok : EventRow → Bool) (xs ys : List EventRow)
    → visit_all ok (xs ++ ys) ≡ (
        if (visit_all ok xs).1
        then ((visit_all ok xs).0 ++ (visit_all ok ys).0, (visit_all ok ys).1)
        else ((visit_all ok xs).0, false))
unfolding visit_all
visit_all-append ok [] ys = refl
visit_all-append ok (x ∷ xs) ys = ground (arith, visit_all-append ok xs ys)

-- All visits of the events in order, up to the first one that fails.
unfoldable pub visited : (EventRow → Bool) → List EventRow → List EventRow × Option StreamEnd
visited ok es = ((visit_all ok es).0, some (if (visit_all ok es).1 then finished else visit_failed))

pub take_short : (n : ℕ) (es : List EventRow) → length (take n es) < n → take n es ≡ es
take_short zero es h = ground (arith, h)
take_short (suc n) [] h = refl
take_short (suc n) (x ∷ xs) h = ap (λ l. x ∷ l) (take_short n xs (omega (arith, h)))

-- The end of a round of the loop.
abbrev pub round_end :
    List EventRow × Bool
    → Bool
    → List EventRow × Option StreamEnd
    → List EventRow × Option StreamEnd
round_end (seen, all) short (more, end) =
    if not all
    then (seen, some visit_failed)
    else if short
    then (seen, some finished)
    else (seen ++ more, end)

pub round_end-short :
    (seen : List EventRow × Bool) (rest : List EventRow × Option StreamEnd)
    → round_end seen true rest ≡ (seen.0, some (if seen.1 then finished else visit_failed))
round_end-short (seen, true) rest = refl
round_end-short (seen, false) rest = refl

round_end-full :
    (ok : EventRow → Bool) (n : ℕ) (es : List EventRow)
    → round_end (visit_all ok (take n es)) false (visited ok (drop n es)) ≡ visited ok es
unfolding visited
round_end-full ok n es =
    let e =
      ap (λ l. visit_all ok l) (sym (take-append-drop n es))
      ∙ visit_all-append ok (take n es) (drop n es) in
    elim (Bool-cases (visit_all ok (take n es)).1) [
      | inl on ↦ ground (arith, e, on)
      | inr off ↦ ground (arith, e, off)
    ]

pub length-drop-lt :
    (n : ℕ) (x : EventRow) (xs : List EventRow) (m : ℕ)
    → length (x ∷ xs) < suc m
    → length (drop n xs) < m
length-drop-lt zero x xs m h = omega (arith, h)
length-drop-lt (suc n) x [] m h = omega (arith, h)
length-drop-lt (suc n) x (y ∷ ys) m h = omega (arith, length-drop-lt n y ys m (omega (arith, h)))

-- A stream of the events in this order: it made all visits, up to the first one that failed, or a query failed, and it
-- made a beginning of them.
abbrev pub Streams :
    (ℕ → Bool) → (EventRow → Bool) → List EventRow → List EventRow × Option StreamEnd → Type 0
Streams fails ok es r =
    (r ≡ visited ok es)
    ⊎ (((n : ℕ) × (fails n ≡ true))
        × (r.1 ≡ some query_failed)
        × (rest : List EventRow) × ((visit_all ok es).0 ≡ r.0 ++ rest))

round_end-off :
    (seen : List EventRow × Bool) (r : List EventRow × Option StreamEnd)
    → seen.1 ≡ false
    → round_end seen false r ≡ (seen.0, some visit_failed)
round_end-off (seen, all) r h = ground (arith, h)

round_end-on :
    (seen : List EventRow × Bool) (r : List EventRow × Option StreamEnd)
    → seen.1 ≡ true
    → round_end seen false r ≡ (seen.0 ++ r.0, r.1)
round_end-on (seen, all) r h = ground (arith, h)

pub round_end-Streams :
    (fails : ℕ → Bool) (ok : EventRow → Bool) (n : ℕ) (es : List EventRow)
    (r : List EventRow × Option StreamEnd)
    → Streams fails ok (drop n es) r
    → Streams fails ok es (round_end (visit_all ok (take n es)) false r)
round_end-Streams fails ok n es r (inl e) =
    inl (ap (round_end (visit_all ok (take n es)) false) e ∙ round_end-full ok n es)
round_end-Streams fails ok n es r (inr (f, q, tail, p)) =
    let seen = visit_all ok (take n es) in
    let split =
      ap (λ l. visit_all ok l) (sym (take-append-drop n es))
      ∙ visit_all-append ok (take n es) (drop n es) in
    elim (Bool-cases seen.1) [
      | inl on ↦
          let e = round_end-on seen r on in
          let whole : (visit_all ok es).0 ≡ seen.0 ++ (visit_all ok (drop n es)).0 =
            ground (arith, split, on) in
          inr (
            f,
            ap (λ x. x.1) e ∙ q,
            tail,
            whole
                ∙ ap (λ l. seen.0 ++ l) p
                ∙ sym (append_assoc seen.0 r.0 tail)
                ∙ ap (λ x. x.0 ++ tail) (sym e),
          )
      | inr off ↦ inl (
          round_end-off seen r off
          ∙ sym (round_end-off seen (visited ok (drop n es)) off)
          ∙ round_end-full ok n es)
    ]

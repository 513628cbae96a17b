-- ===== src/Fleet/Pages/Streaming.antt =====
-- internal/server/ipban/service.go: the pages of StreamEvents, one after the other.
use mathlib.Core.Path.{subst}
use server_monitor.Common.{
  ℕ, zero, suc, ◌≡◌, refl, sym, ap, ◌∙◌, ◌<◌, arith, Bool, false, ltb, List, [], ◌∷◌, keep, length,
  take, drop, All, Option, none, some, Bool-cases, inl, inr, if◌then◌else◌, length-keep-le,
  Option-cases, ltb→lt, ◌⊎◌,
}
use server_monitor.Netip.{Addr}
use server_monitor.Settings.{Text}
use server_monitor.Fleet.{EventRow}
use server_monitor.Fleet.Pages.{
  EventFilter, StreamEnd, bad_filter, query_failed, PageResult, page_rows, page_invalid,
  page_failed, page_of, insert_event, sort_events, last_event, matches, select_events, ip_filter,
  events_page, visit_all, next_filter, stream_loop, stream_events, page_limit,
}
use server_monitor.Fleet.Pages.Sorting.{HasDistinctIds}
use server_monitor.Fleet.Pages.Cursors.{IsStored, select_events-next}
use server_monitor.Fleet.Pages.Rounds.{
  visited, Streams, take_short, round_end, round_end-short, length-drop-lt, round_end-Streams,
}

abbrev loop_round :
    ℕ
    → Text
    → (ℕ → Bool)
    → (EventRow → Bool)
    → EventFilter
    → List EventRow
    → List EventRow
    → List EventRow × Option StreamEnd
loop_round n text fails ok f es page =
    round_end (visit_all ok page) (ltb (length page) f.limit)
      (stream_loop n text fails ok (next_filter f page) es)

abbrev loop_step :
    ℕ
    → Text
    → (ℕ → Bool)
    → (EventRow → Bool)
    → EventFilter
    → List EventRow
    → PageResult
    → List EventRow × Option StreamEnd
loop_step n text fails ok f es page_invalid = ([], some bad_filter)
loop_step n text fails ok f es page_failed = ([], some query_failed)
loop_step n text fails ok f es (page_rows page) = loop_round n text fails ok f es page

page_cases :
    (p : PageResult)
    → (p ≡ page_invalid) ⊎ ((p ≡ page_failed) ⊎ ((l : List EventRow) × (p ≡ page_rows l)))
page_cases page_invalid = inl refl
page_cases page_failed = inr (inl refl)
page_cases (page_rows l) = inr (inr (l, refl))

stream_loop-loop_step :
    (n : ℕ) (text : Text) (fails : ℕ → Bool) (ok : EventRow → Bool) (f : EventFilter)
    (es : List EventRow)
    → stream_loop (suc n) text fails ok f es
      ≡ loop_step n text fails ok f es (events_page text (fails n) f es)
unfolding stream_loop
stream_loop-loop_step n text fails ok f es = elim (page_cases (events_page text (fails n) f es)) [
  | inl e ↦ ground (arith, e)
  | inr (inl e) ↦ ground (arith, e)
  | inr (inr (page, e)) ↦ ground (arith, e)
]

events_page-take :
    (text : Text) (fails : Bool) (f : EventFilter) (es : List EventRow) (ip : Option Addr)
    → f.limit ≡ 1000
    → ip_filter text f.ip ≡ some ip
    → events_page text fails f es ≡ (
        if fails
        then page_failed
        else page_rows (take 1000 (select_events f.host ip f.before f.before_id es)))
unfolding events_page
events_page-take text fails f es ip l h =
    ap (page_of fails f es) h
    ∙ ap
        (λ m.
          if fails
          then page_failed
          else page_rows (take (page_limit m) (select_events f.host ip f.before f.before_id es)))
        l

list_cases :
    (es : List EventRow) → (es ≡ []) ⊎ ((x : EventRow) × ((xs : List EventRow) × (es ≡ x ∷ xs)))
list_cases [] = inl refl
list_cases (x ∷ xs) = inr (x, (xs, refl))

module _ (text : Text) (fails : ℕ → Bool) (ok : EventRow → Bool) (es : List EventRow)
    (ip : Option Addr) (d : HasDistinctIds es) (stored : All IsStored es) where
  loop_round-Streams :
      (n : ℕ) (f : EventFilter)
      → f.limit ≡ 1000
      → (let page = take 1000 (select_events f.host ip f.before f.before_id es) in
          ltb (length page) 1000 ≡ false
          → Streams fails ok
              (drop 1000 (select_events f.host ip f.before f.before_id es))
              (stream_loop n text fails ok (next_filter f page) es))
      → Streams fails ok (select_events f.host ip f.before f.before_id es) (
          loop_round n text fails ok f es
            (take 1000 (select_events f.host ip f.before f.before_id es)))
  unfolding visited
  loop_round-Streams n f l rest =
      let all = select_events f.host ip f.before f.before_id es in
      let page = take 1000 all in
      let r = stream_loop n text fails ok (next_filter f page) es in
      let limit = ap (λ m. round_end (visit_all ok page) (ltb (length page) m) r) l in
      elim (Bool-cases (ltb (length page) 1000)) [
        | inl on ↦ inl (
            limit
            ∙ ap (λ b. round_end (visit_all ok page) b r) on
            ∙ round_end-short (visit_all ok page) r
            ∙ ap (λ l. visited ok l) (take_short 1000 all (ltb→lt (length page) 1000 on)))
        | inr off ↦
            subst (Streams fails ok all)
              (sym (limit ∙ ap (λ b. round_end (visit_all ok page) b r) off))
              (round_end-Streams fails ok 1000 all r (rest off))
      ]

  stream_loop-Streams :
      (n : ℕ) (f : EventFilter)
      → f.limit ≡ 1000
      → ip_filter text f.ip ≡ some ip
      → length (select_events f.host ip f.before f.before_id es) < n
      → Streams fails ok
          (select_events f.host ip f.before f.before_id es)
          (stream_loop n text fails ok f es)
  stream_loop-Streams zero f l i h = absurd (ground (arith, h))
  stream_loop-Streams (suc n) f l i h =
      let all = select_events f.host ip f.before f.before_id es in
      let step : Bool → List EventRow × Option StreamEnd = (λ b.
        loop_step n text fails ok f es (if b then page_failed else page_rows (take 1000 all))) in
      let shape : stream_loop (suc n) text fails ok f es ≡ step (fails n) =
        stream_loop-loop_step n text fails ok f es
        ∙ ap (loop_step n text fails ok f es) (events_page-take text (fails n) f es ip l i) in
      elim (Bool-cases (fails n)) [
        | inl on ↦
            subst (Streams fails ok all) (sym (shape ∙ ap step on))
              (inr ((n, on), refl, (visit_all ok all).0, refl))
        | inr off ↦ subst (Streams fails ok all) (sym (shape ∙ ap step off)) (
            loop_round-Streams n f l (λ full. elim (list_cases all) [
              | inl e ↦
                  absurd (ground (arith, sym (ap (λ a. ltb (length (take 1000 a)) 1000) e) ∙ full))
              | inr (x, (xs, e)) ↦
                  let last = last_event x (take 999 xs) in
                  let next = record f { before = last.time; before_id = last.id } in
                  let rest =
                    select_events-next f.host ip f.before f.before_id 999 es x xs d stored e in
                  let short =
                    subst (λ a. length a < n) (sym rest)
                      (length-drop-lt 999 x xs n (subst (λ a. length a < suc n) e h)) in
                  subst
                    (λ a.
                      Streams fails ok (drop 1000 a)
                        (stream_loop n text fails ok (next_filter f (take 1000 a)) es))
                    (sym e)
                    (subst (λ a. Streams fails ok a (stream_loop n text fails ok next es)) rest
                      (stream_loop-Streams n next l i short))
            ]))
      ]

length-insert_event :
    (e : EventRow) (xs : List EventRow) → length (insert_event e xs) ≡ suc (length xs)
unfolding insert_event
length-insert_event e [] = refl
length-insert_event e (x ∷ xs) = ground (arith, length-insert_event e xs)

length-sort_events : (xs : List EventRow) → length (sort_events xs) ≡ length xs
unfolding sort_events
length-sort_events [] = refl
length-sort_events (x ∷ xs) =
    length-insert_event x (sort_events xs) ∙ ap suc (length-sort_events xs)

length-select_events :
    (host : ℕ) (ip : Option Addr) (before id : ℕ) (es : List EventRow)
    → length (select_events host ip before id es) < suc (length es)
unfolding select_events
length-select_events host ip before id es =
    let m = matches host ip before id in
    omega (arith, length-sort_events (keep m es), length-keep-le m es)

-- What StreamEvents does, by whether the address of the filter parses.
abbrev pub StreamsFilter :
    (ℕ → Bool)
    → (EventRow → Bool)
    → EventFilter
    → List EventRow
    → List EventRow × Option StreamEnd
    → Option (Option Addr)
    → Type 0
StreamsFilter fails ok f es r none = r ≡ ([], some bad_filter)
StreamsFilter fails ok f es r (some ip) =
    Streams fails ok (select_events f.host ip f.before f.before_id es) r

-- The table has distinct positive ids and no zero time, and does not change. Whatever the limit of the filter,
-- StreamEvents visits exactly the events that one query without a limit selects, in its order and each once, up to the
-- first visit that fails, and it ends: the rounds suffice. Where a query fails, it may end with that error instead,
-- after a beginning of these visits; where the address does not parse, it ends before any.
pub stream_events-StreamsFilter :
    (text : Text) (fails : ℕ → Bool) (ok : EventRow → Bool) (f : EventFilter) (es : List EventRow)
    → HasDistinctIds es
    → All IsStored es
    → StreamsFilter fails ok f es (stream_events text fails ok f es) (ip_filter text f.ip)
unfolding stream_events events_page
stream_events-StreamsFilter text fails ok f es d stored =
    let g = record f { limit = 1000 } in
    let r = stream_events text fails ok f es in
    elim (Option-cases (ip_filter text f.ip)) [
      | inl e ↦ subst (StreamsFilter fails ok f es r) (sym e) (
          stream_loop-loop_step (length es) text fails ok g es
          ∙ ap (λ o. loop_step (length es) text fails ok g es (page_of (fails (length es)) g es o))
              e)
      | inr (ip, e) ↦ subst (StreamsFilter fails ok f es r) (sym e) (
          stream_loop-Streams text fails ok es ip d stored (suc (length es)) g refl e
            (length-select_events f.host ip f.before f.before_id es))
    ]

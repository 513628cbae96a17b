-- ===== src/Fleet/Pages.antt =====
-- internal/server/ipban/service.go: Events and StreamEvents, over one state of the table of events. The zero time is
-- absent, and the integers of the filter are int64 patterns.
pub mod Sorting
pub mod Cursors
pub mod Rounds
pub mod Streaming
use Prim.Native.String.{String}
use server_monitor.Common.{
  ℕ, zero, suc, Bool, true, false, not, ◌&&◌, ◌||◌, ltb, if◌then◌else◌, ◌==◌, Option, none, some,
  List, [], ◌∷◌, keep, length, take, ◌++◌,
}
use server_monitor.Common.Int64.{lt_i64}
use server_monitor.Netip.{Addr, unmap}
use server_monitor.Ipban.Tracker.{is_empty}
use server_monitor.Settings.{Text}
use server_monitor.Fleet.{EventRow, same_ip}

pub record EventFilter : Type 0 where
  pub host : ℕ
  pub ip : String
  pub before : ℕ
  pub before_id : ℕ
  pub limit : ℕ

-- ORDER BY e.time DESC, e.id DESC
abbrev pub is_newer_event : EventRow → EventRow → Bool
is_newer_event a b = ltb b.time a.time || b.time == a.time && ltb b.id a.id

unfoldable pub insert_event : EventRow → List EventRow → List EventRow
insert_event e [] = e ∷ []
insert_event e (x ∷ xs) =
    let rest = insert_event e xs in if is_newer_event x e then x ∷ rest else e ∷ x ∷ xs

unfoldable pub sort_events : List EventRow → List EventRow
sort_events [] = []
sort_events (e ∷ es) = insert_event e (sort_events es)

-- The first two conditions of the query.
abbrev pub of_host : ℕ → EventRow → Bool
of_host host e = host == 0 || elim (e.host) [ none ↦ false | some h ↦ h == host ]

abbrev pub of_ip : Option Addr → EventRow → Bool
of_ip none e = true
of_ip (some ip) e = same_ip e.ip ip

-- The third, with its guards before the query: an id counts with a time alone, and not where it is negative.
abbrev pub is_before : ℕ → ℕ → EventRow → Bool
is_before before before_id e =
    before == 0
    || not (lt_i64 0 before_id) && ltb e.time before
    || lt_i64 0 before_id && (ltb e.time before || e.time == before && ltb e.id before_id)

abbrev pub matches : ℕ → Option Addr → ℕ → ℕ → EventRow → Bool
matches host ip before before_id e = of_host host e && of_ip ip e && is_before before before_id e

-- All that the query selects, in its order, without the limit.
unfoldable pub select_events : ℕ → Option Addr → ℕ → ℕ → List EventRow → List EventRow
select_events host ip before before_id es = sort_events (keep (matches host ip before before_id) es)

abbrev pub page_limit : ℕ → ℕ
page_limit limit = if not (lt_i64 0 limit) || lt_i64 1000 limit then 100 else limit

-- The address of the filter, or none where it does not parse.
unfoldable pub ip_filter : Text → String → Option (Option Addr)
ip_filter text raw =
    if is_empty (text.trim_space raw)
    then some none
    else elim (text.parse_addr (text.trim_space raw)) [
      | none ↦ none
      | some ip ↦ some (some (unmap ip))
    ]

-- What Events returns: the rows, or an error of validation or of the database.
pub data PageResult : Type 0 where
  page_rows : List EventRow → PageResult
  page_invalid page_failed : PageResult

abbrev pub page_of : Bool → EventFilter → List EventRow → Option (Option Addr) → PageResult
page_of fails f es none = page_invalid
page_of fails f es (some ip) =
    if fails
    then page_failed
    else page_rows (take (page_limit f.limit) (select_events f.host ip f.before f.before_id es))

-- Events, where the query or the reading of its rows may fail.
unfoldable pub events_page : Text → Bool → EventFilter → List EventRow → PageResult
events_page text fails f es = page_of fails f es (ip_filter text f.ip)

-- The visits of a page, up to the first one that fails, and whether all succeeded.
unfoldable pub visit_all : (EventRow → Bool) → List EventRow → List EventRow × Bool
visit_all ok [] = ([], true)
visit_all ok (e ∷ es) =
    let (seen, all) = visit_all ok es in if ok e then (e ∷ seen, all) else (e ∷ [], false)

abbrev pub last_event : EventRow → List EventRow → EventRow
last_event e [] = e
last_event e (x ∷ xs) = last_event x xs

-- The page's last event is where the next one starts.
abbrev pub next_filter : EventFilter → List EventRow → EventFilter
next_filter f [] = f
next_filter f (e ∷ es) =
    let last = last_event e es in record f { before = last.time; before_id = last.id }

pub data StreamEnd : Type 0 where
  finished visit_failed bad_filter query_failed : StreamEnd

-- The loop of StreamEvents: what it visited, and how it ended; none where the rounds did not suffice. The query of a
-- round may fail, by the number of the rounds after it.
unfoldable pub stream_loop :
    ℕ
    → Text
    → (ℕ → Bool)
    → (EventRow → Bool)
    → EventFilter
    → List EventRow
    → List EventRow × Option StreamEnd
stream_loop zero text fails ok f es = ([], none)
stream_loop (suc n) text fails ok f es = elim (events_page text (fails n) f es) [
  | page_invalid ↦ ([], some bad_filter)
  | page_failed ↦ ([], some query_failed)
  | page_rows page ↦
      let (seen, all) = visit_all ok page in
      let (more, end) = stream_loop n text fails ok (next_filter f page) es in
      if not all
      then (seen, some visit_failed)
      else if ltb (length page) f.limit
      then (seen, some finished)
      else (seen ++ more, end)
]

-- StreamEvents, with one round for each event and one more.
unfoldable pub stream_events :
    Text
    → (ℕ → Bool)
    → (EventRow → Bool)
    → EventFilter
    → List EventRow
    → List EventRow × Option StreamEnd
stream_events text fails ok f es =
    stream_loop (suc (length es)) text fails ok (record f { limit = 1000 }) es

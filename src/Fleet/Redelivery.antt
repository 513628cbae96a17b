-- ===== src/Fleet/Redelivery.antt =====
-- internal/server/ipban/service.go: Ingest of a report that an agent sends again.
use server_monitor.Common.{ℕ, ◌≡◌, true, is_some}
use server_monitor.Settings.{Text}
use server_monitor.Fleet.{Db}
use server_monitor.Fleet.Ingest.{WireEvent, take_event, has_event}

-- The event is skipped, or the table has it.
abbrev Settled : Text → ℕ → Db → WireEvent → Type 0
Settled text host db ev =
    is_some (take_event text ev) ≡ true → has_event host ev.id db.events ≡ true

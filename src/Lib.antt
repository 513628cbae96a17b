-- ===== src/Lib.antt =====
-- ServerMonitor: a model of the parts that decide, and what is proved of them.
--
-- The agent's reactive banning (internal/agent/ipban). sshd failures reach the manager, which asks the
-- guard whether an address may be banned and the tracker whether it has failed often enough, and then
-- writes bans to the kernel through the Enforcer interface. The server sends policies, allowlists, unban
-- requests and a fleet-wide list, and receives events.
--   Netip, Netip/Ranges: net/netip's addresses and prefixes as numbers, and the laws of their shifts.
--   Ipban/Guard: guard.go. `protected` is Protected, `is_routable` is IsRoutable, `parse_allowlist` is
--     ParseAllowlist over given parsers.
--   Ipban/Tracker: tracker.go. `observe`, `import_ban`, `unban`, `banned`, `active_bans` and `prune` are the
--     methods; the map of states is an association list with one entry for each address.
--   Ipban/Manager: manager.go. `handle_failure`, `apply`, `apply_unbans`, `apply_fleet`,
--     `reconcile_protected` and `ensure_enforcer` are the methods over one record; the calls of the enforcer
--     are recorded, and its answers are a parameter that may depend on all earlier calls.
-- The server's alerting (internal/server/alerting/evaluator.go). A pass compares the values of a rule's groups,
-- moves the alert of each group between ok, pending and firing, keeps a history and sends notifications.
--   Alerting: `transition` with its cases, `dispatch`. Each statement on the database is `exec`, which may fail.
--   Alerting/Floats: `compare` on float64 patterns. Alerting/Evaluation: `evaluate_rule`, `sweep_orphans` and
--     `evaluate_all`; what the queries find is given.
--   Alerting/Records, Delays, Incidents, Orphans: proofs.
-- The agent's backup scheduler (internal/agent/backupsched/scheduler.go).
--   Backups: `start` is Run up to its loop, `tick` the body of the loop; the calendar, with time.Date and
--     AddDate, is a parameter, of which `CalendarLaws` says what is used: also that no change of offset skips the time.
--   Backups/Occurrences, Backups/Runs: proofs.
-- The server's ban settings (internal/server/ipban/service.go).
--   Settings: `apply_input`, `validate`, `normalize_allowlist`, and the policy of AgentConfig. Settings/Bounds: proofs.
-- The server's ban service (internal/server/ipban/service.go). Hosts report bans; bans with enough evidence, or by hand,
-- are for every host of the fleet, and the version of the settings tells the agents to fetch what changed.
--   Fleet: the tables, `sweep`, `publish_version`, `routable`. Fleet/Propagation: `propagate`. Fleet/Ingest: `ingest`.
--   Fleet/Changes: `update_settings`, `update_host_policy`, `manual_ban_ip` (ManualBan), `fleet_unban_ip`,
--     `host_unban_ip`. Fleet/Runs: their sequences, and `agent_config`. The flags of an operation say which of its
--     statements fail; a transaction then changes nothing.
--   Fleet/Pages: `events_page` (Events), `stream_events`, whose queries may fail. Fleet/Pages/Sorting, Cursors,
--     Rounds, Streaming: proofs.
--   Fleet/Outcomes, Frames, Growth: lemmas. Fleet/Announced, Redelivery, Justified, Enforcement, Coherence, Routability:
--     proofs.
-- The accounts of the server (internal/server/auth/auth.go).
--   Auth: `login`, `create_session`, `resolve_session`, `logout`. Auth/Passwords: `change_password`, `reset_password`,
--     `create_admin`. bcrypt, SHA-256 and hex are a parameter (`Crypto`). Auth/Lockout, Auth/Sessions: proofs.
-- The server's event hub (internal/server/sse/hub.go).
--   Hub: `broadcast`, `broadcast_alert`, `subscribe`; a bounded channel is a list. Hub/Delivery: a proof.
-- The agent's way of a batch to the server (internal/agent/spool/spool.go, internal/agent/transport/client.go).
-- Send posts a batch; what may be sent again later goes to the spool on disk, which the drainer empties.
--   Spool: `enqueue`, `peek`, `delete_key`, `drop_oldest` over a bucket of bbolt, a parameter (`Bolt`, `BoltLaws`).
--     Spool/Keys, Accounts, Order: proofs.
--   Transport: `send`, `post_bytes`, `drain_round`. Transport/Posting, Conservation, Draining, Runs:
--     proofs.
-- The server's ingest queue (internal/server/ingest/batcher.go).
--   Batcher: `reserve`, `commit_reserved`, `release_reserved`, `enqueue`, `flush` and `receive` of the loop, and
--     `drain_and_flush`. Batcher/Accounts, Batcher/Shutdown: proofs.
-- The backup repositories (pkg/restserver, internal/server/storage/backuptargets.go).
--   Repository/Paths, Store, Requests: blobstore.go, diskstore.go and server.go; `handle` is a request after auth, one
--     step on the files of one repository and its usage. Repository/Locations, Injectivity, Appending, Usage, Quotas,
--     Uploads, Roundtrip: proofs.
--   Repository/Listing: List in diskstore.go, and a proof.
--   Repository/Targets: backuptargets.go, with its cache; `resolve_target` is ResolveTarget. Repository/Resolving:
--     proofs.
--   Repository/Access: auth in server.go, for the requests to all repositories. Repository/Holders, Authorization:
--     proofs.
-- The order of versions (pkg/version/version.go).
--   Version: `compare`, `is_newer`. Version/Laws, Version/Order: proofs.
-- Times are nanoseconds since Go's zero time and do not wrap; durations are int64 patterns and do. Map
-- iteration follows the list; sort.Slice is an insertion sort. Each method is one
-- step, also where it takes its mutex several times; a request to the repositories is one step too. Left out: log
-- output, the log-following goroutine, the netlink code, the store of repositories on S3 and the tunnel to it, and the
-- rest of the program that is files, processes, sockets, SQL or third-party libraries; what they answer to the
-- modelled code is given. Every function is total by recursion on a list or a number; `stream_loop` alone counts its
-- rounds, one for each event and one more, which suffice;
-- `core_loop` counts the indices of the Go loop.
mod Common
pub mod Netip
pub mod Ipban
pub mod Alerting
pub mod Backups
pub mod Settings
pub mod Hub
pub mod Spool
pub mod Transport
pub mod Batcher
pub mod Repository
pub mod Version
pub mod Fleet
pub mod Auth
mod Tests

-- ===== src/Fleet/Runs.antt =====
-- internal/server/ipban/service.go: the operations of the service one after the other, and what AgentConfig tells an
-- agent between them.
use Prim.Native.String.{String}
use server_monitor.Common.{
  ℕ, Bool, false, ◌&&◌, ltb, if◌then◌else◌, ◌==◌, List, [], ◌∷◌, keep, length,
}
use server_monitor.Netip.{Addr}
use server_monitor.Settings.{Text, Settings, SettingsInput, HostPolicy, wire_policy}
use server_monitor.Ipban.Manager.{WirePolicy}
use server_monitor.Fleet.{Db, FleetRow, Command, Service, host_policy, sweep}
use server_monitor.Fleet.Ingest.{Report, ingest}
use server_monitor.Fleet.Changes.{
  update_settings, update_host_policy, manual_ban_ip, fleet_unban_ip, host_unban_ip,
}

-- The operations, with their flags for statements that fail.
pub data Op : Type 0 where
  op_ingest : Bool → Bool → ℕ → Report → Op
  op_settings : Bool → Bool → SettingsInput → Op
  op_host_policy : Bool → Bool → ℕ → HostPolicy → Op
  op_manual_ban : Bool → String → ℕ → Op
  op_fleet_unban : Bool → Bool → String → Op
  op_host_unban : Bool → Bool → ℕ → String → Op
  op_sweep : Bool → Bool → Bool → Bool → Bool → Op

-- One operation at a time; the event retention is a parameter of the service.
unfoldable pub perform : Text → ℕ → ℕ → Op → Service → Service
perform text retention now (op_ingest fs fe host r) s = (ingest text now fs fe host r s).0
perform text retention now (op_settings fr fw i) s = (update_settings text fr fw i s).0
perform text retention now (op_host_policy fr fw host p) s = (update_host_policy fr fw host p s).0
perform text retention now (op_manual_ban fw raw ttl) s = (manual_ban_ip text now fw raw ttl s).0
perform text retention now (op_fleet_unban fr fw raw) s = (fleet_unban_ip text now fr fw raw s).0
perform text retention now (op_host_unban fr fw host raw) s =
    (host_unban_ip text now fr fw host raw s).0
perform text retention now (op_sweep fa ff fs fc fe) s = record s {
  db = sweep now retention fa ff fs fc fe s.db;
}

-- Operations, each with its time.
unfoldable pub perform_all : Text → ℕ → List (ℕ × Op) → Service → Service
perform_all text retention [] s = s
perform_all text retention ((now, op) ∷ ops) s =
    perform_all text retention ops (perform text retention now op s)

-- wire.IPBanConfig; the rows of a query are in the order of the table.
pub record AgentConfig : Type 0 where
  pub version : ℕ
  pub policy : WirePolicy
  pub allowlist : List String
  pub fleet : List (Addr × FleetRow)
  pub unban : List Command

-- The policy for a host: without an allowlist enforcement is off.
unfoldable pub guarded_policy : Text → Settings → HostPolicy → WirePolicy
guarded_policy text st p =
    let eff = wire_policy text st p in
    if eff.enforce && length st.allowlist == 0 then record eff { enforce = false } else eff

-- AgentConfig
unfoldable pub agent_config : Text → ℕ → ℕ → Db → AgentConfig
agent_config text now host db = record {
  version = db.settings.version;
  policy = guarded_policy text db.settings (host_policy host db);
  allowlist = db.settings.allowlist;
  fleet = keep (λ (ip, row). ltb now row.expires_at) db.fleet;
  unban = keep (λ c. c.host == host) db.commands;
}

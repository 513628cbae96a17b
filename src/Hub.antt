-- ===== src/Hub.antt =====
-- internal/server/sse/hub.go: subscribers and the broadcasts to them. A subscriber is a key of the map; a
-- channel is the list of its messages, the oldest first. The encoder of encoding/json is a parameter.
pub mod Delivery
use server_monitor.Common.{
  ℕ, ◌+◌, Bool, true, false, not, ◌&&◌, ◌||◌, ltb, if◌then◌else◌, ◌==◌, Option, none, some, List,
  [], ◌∷◌, ◌++◌, any, keep, length, ℕ_discrete, is_some,
}
use server_monitor.Common.Assoc.{insert, delete, update_all}

pub data SubKind : Type 0 where
  sub_points sub_alerts : SubKind

abbrev pub points_chan_buffer : ℕ
points_chan_buffer = 1024

abbrev pub alert_chan_buffer : ℕ
alert_chan_buffer = 64

-- A point, by its metric.
pub record Point : Type 0 where
  pub metric : ℕ
  pub value : ℕ

-- The two events, with their data.
pub data Message : Type 0 where
  points : List ℕ → Message
  alert : List ℕ → Message

-- A subscriber, and the capacity of its channel. The host 0 stands for every host.
pub record Sub : Type 0 where
  pub host_id : ℕ
  pub kind : SubKind
  pub metrics : List ℕ
  pub ch : List Message
  pub capacity : ℕ

abbrev pub Hub : Type 0
Hub = List (ℕ × Sub)

-- The registration in HandleSSE.
unfoldable pub subscribe : ℕ → ℕ → SubKind → List ℕ → Hub → Hub
subscribe id host kind metrics hub =
    insert ℕ_discrete id
      (record {
        host_id = host;
        kind = kind;
        metrics = metrics;
        ch = [];
        capacity = elim kind [ sub_points ↦ points_chan_buffer | sub_alerts ↦ alert_chan_buffer ];
      })
      hub

unfoldable pub unsubscribe : ℕ → Hub → Hub
unsubscribe id hub = delete ℕ_discrete id hub

-- A send in a select with a default: a full channel drops the message.
unfoldable pub offer : Message → Sub → Sub
offer msg s = if ltb (length s.ch) s.capacity then record s { ch = s.ch ++ (msg ∷ []) } else s

abbrev pub wants_host : Sub → ℕ → Bool
wants_host s host = s.host_id == 0 || s.host_id == host

unfoldable pub filter_points : Sub → List Point → List Point
filter_points s ps =
    if ltb 0 (length s.metrics) then keep (λ p. any (◌==◌ p.metric) s.metrics) ps else ps

-- The body of the loop of Broadcast.
unfoldable pub send_points : (ℕ → List Point → Option (List ℕ)) → ℕ → List Point → Sub → Sub
send_points encode host ps s = elim (s.kind) [
  | sub_alerts ↦ s
  | sub_points ↦
      if not (wants_host s host)
      then s
      else if ltb 0 (length s.metrics) && length (filter_points s ps) == 0
      then s
      else elim (encode host (filter_points s ps)) [
        | none ↦ s
        | some data' ↦ offer (points data') s
      ]
]

unfoldable pub broadcast : (ℕ → List Point → Option (List ℕ)) → ℕ → List Point → Hub → Hub
broadcast encode host ps hub = update_all (λ s. some (send_points encode host ps s)) hub

-- The body of the loop of BroadcastAlert.
unfoldable pub send_alert : ℕ → List ℕ → Sub → Sub
send_alert host data' s = elim (s.kind) [
  | sub_points ↦ s
  | sub_alerts ↦ if wants_host s host then offer (alert data') s else s
]

-- BroadcastAlert, for what the encoder gave on the event.
unfoldable pub broadcast_alert : ℕ → Option (List ℕ) → Hub → Hub
broadcast_alert host none hub = hub
broadcast_alert host (some data') hub = update_all (λ s. some (send_alert host data' s)) hub

-- The receive in HandleSSE's loop.
unfoldable pub receive : Sub → Sub × Option Message
receive s = elim (s.ch) [ [] ↦ (s, none) | m ∷ ms ↦ (record s { ch = ms }, some m) ]

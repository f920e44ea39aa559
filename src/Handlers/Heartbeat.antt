-- ===== src/Handlers/Heartbeat.antt =====
-- app.ts and app-runtime.ts: the heartbeat of a connection, its ping, pong and timeout, and what the
-- samples make the gateway send.
use baker_self_hosted_voice.Common.{
  ℕ, suc, String, Bool, true, false, Option, none, some, List, [], ◌∷◌, ◌++◌, if◌then◌else◌, leb,
  truthy,
}
use baker_self_hosted_voice.Common.StringMap.{get}
use baker_self_hosted_voice.Connection.{GatewayConnection, ConnectionManager}
use baker_self_hosted_voice.Connection.Quality.{
  note_gateway_ping_sent, note_gateway_ping_timeout, note_gateway_pong,
}
use baker_self_hosted_voice.Router.{GatewayRuntime}
use baker_self_hosted_voice.Handlers.{Environment, Action, Effect, nothing, tell_network}

abbrev pub max_consecutive_misses : ℕ
max_consecutive_misses = 6

-- `conn?.voiceChannelId`, if it is truthy.
abbrev pub channel_of_connection : Option GatewayConnection → Option String
channel_of_connection none = none
channel_of_connection (some conn) = truthy conn.voice_channel_id

-- The variables of a connection's heartbeat: the timer runs until it is cleared.
pub record Heartbeat : Type 0 where
  pub consecutive_misses : ℕ
  pub running : Bool
  pub terminated : Bool

abbrev pub fresh : Heartbeat
fresh = record { consecutive_misses = 0; running = true; terminated = false }

-- The misses after a tick, by whether a timeout was noted.
abbrev pub count_miss : Heartbeat → Bool → ℕ
count_miss h true = suc h.consecutive_misses
count_miss h false = h.consecutive_misses

module _ {D : Type 0} (env : Environment) where
  abbrev pub tell_channel : Option String → Action D
  tell_channel none = nothing
  tell_channel (some channel) = tell_network env channel

  -- What follows a sample: `false` is one that was not taken.
  abbrev pub after_sample :
      (connection_id : String)
      → ConnectionManager × Bool
      → GatewayRuntime D
      → GatewayRuntime D × Bool × List Effect
  after_sample c (conns, false) g = (record g { connections = conns }, false, [])
  after_sample c (conns, true) g =
      let r =
        tell_channel (channel_of_connection (get c conns.connections))
          (record g { connections = conns }) in
      (r.0, true, r.1)

  unfoldable pub gateway_ping_timeout :
      (connection_id : String)
      → (timeout_at_ms : ℕ) → GatewayRuntime D
      → GatewayRuntime D × Bool × List Effect
  gateway_ping_timeout c at_ms g =
      after_sample c (note_gateway_ping_timeout g.connections c at_ms) g

  unfoldable pub gateway_pong :
      (connection_id : String)
      → (pong_at_ms : ℕ) → GatewayRuntime D
      → GatewayRuntime D × Bool × List Effect
  gateway_pong c at_ms g = after_sample c (note_gateway_pong g.connections c at_ms) g

  -- At the limit the socket is terminated, and otherwise pinged.
  unfoldable pub tick :
      (connection_id : String)
      → (now_ms : ℕ) → Heartbeat
      → GatewayRuntime D
      → Heartbeat × GatewayRuntime D × List Effect
  tick c now_ms h g =
      let r = gateway_ping_timeout c now_ms g in
      let misses = count_miss h r.1 in
      let pinged = record (r.0) {
        connections = (note_gateway_ping_sent (r.0).connections c now_ms).0;
      } in
      if leb max_consecutive_misses misses
      then (record { consecutive_misses = misses; running = false; terminated = true }, r.0, r.2)
      else (record h { consecutive_misses = misses }, pinged, r.2)

  unfoldable pub pong :
      (connection_id : String)
      → (now_ms : ℕ) → Heartbeat
      → GatewayRuntime D
      → Heartbeat × GatewayRuntime D × List Effect
  pong c now_ms h g =
      let r = gateway_pong c now_ms g in (record h { consecutive_misses = 0 }, r.0, r.2)

  -- Ticks of the timer, which does nothing once it is cleared.
  unfoldable pub ticks :
      (connection_id : String)
      → List ℕ
      → Heartbeat
      → GatewayRuntime D
      → Heartbeat × GatewayRuntime D × List Effect
  ticks c [] h g = (h, g, [])
  ticks c (now_ms ∷ times) h g =
      let now = tick c now_ms h g in
      let later = ticks c times now.0 now.1 in
      if h.running then (later.0, later.1, now.2 ++ later.2) else (h, g, [])

-- ===== src/Handlers/Dispatch.antt =====
-- event-router.ts: `routeGatewayMessage`, from a parsed message to its handler. The data of a command
-- is `none` where its schema does not accept it.
use baker_self_hosted_voice.Common.{String, Option, none, some, List, [], map, truthy}
use baker_self_hosted_voice.Connection.{GatewayConnection}
use baker_self_hosted_voice.Router.{
  GatewayRuntime, MediaSessionDescriptor, Reply, acknowledged, invalid_payload, unauthorized,
}
use baker_self_hosted_voice.Router.Signal.{MediaSignalCommandData, handle_media_signal_relay}
use baker_self_hosted_voice.Router.Channels.{handle_channel_subscribe, handle_channel_unsubscribe}
use baker_self_hosted_voice.Router.Calls.{
  VoiceSpeakingCommandData, VoiceNetworkSelfReportCommandData, handle_voice_speaking,
  handle_voice_network_self_report,
}
use baker_self_hosted_voice.Handlers.{
  Environment, Handled, Effect, sent, signalled, SfuOperation, nothing, refuse, acknowledge,
}
use baker_self_hosted_voice.Handlers.Leaving.{handle_voice_leave}
use baker_self_hosted_voice.Handlers.Joining.{handle_voice_join}
use baker_self_hosted_voice.Handlers.Streaming.{
  StreamStartCommandData, StreamCommandData, handle_stream_start, handle_stream_stop,
  handle_stream_watch, handle_stream_unwatch,
}
use baker_self_hosted_voice.Handlers.Playing.{
  MusicStopCommandData, MusicCommandData, handle_music_start, handle_music_stop,
  handle_music_listen, handle_music_unlisten,
}
use baker_self_hosted_voice.Handlers.Sessions.{
  StreamDiagnosticsReportCommandData, StreamDiagnosticsGetCommandData, close_socket,
  handle_stream_diagnostics_report, handle_stream_diagnostics_get, handle_authenticate,
  handle_media_session_reconnect, handle_sfu_operation, handle_sfu_produce, handle_sfu_close,
}

-- The commands that need a user. `other` are the known names without a handler.
pub data Command (D : Type 0) : Type 0 where
  channel_subscribe : (channel_id : Option String) → Command D
  channel_unsubscribe : (channel_id : Option String) → Command D
  voice_join : (channel_id : Option String) → Command D
  voice_leave : (channel_id : Option String) → Command D
  voice_network_self_report : Option VoiceNetworkSelfReportCommandData → Command D
  voice_speaking_updated : Option VoiceSpeakingCommandData → Command D
  music_start : (channel_id : Option String) → Command D
  music_stop : Option MusicStopCommandData → Command D
  music_listen : Option MusicCommandData → Command D
  music_unlisten : Option MusicCommandData → Command D
  stream_start : Option StreamStartCommandData → Command D
  stream_diagnostics_report : Option (StreamDiagnosticsReportCommandData D) → Command D
  stream_diagnostics_get : Option StreamDiagnosticsGetCommandData → Command D
  stream_stop : Option StreamCommandData → Command D
  stream_watch : Option StreamCommandData → Command D
  stream_unwatch : Option StreamCommandData → Command D
  media_signal : Option (MediaSignalCommandData String) → Command D
  media_session_reconnect : Option MediaSessionDescriptor → Command D
  media_sfu_operation : SfuOperation → Option MediaSessionDescriptor → Command D
  media_sfu_produce : Option MediaSessionDescriptor → Command D
  media_sfu_close : Option MediaSessionDescriptor → Command D
  other : Command D

-- A message as the parsers see it; `malformed` is no JSON or no command.
pub data Message (D : Type 0) : Type 0 where
  malformed : Message D
  ping : Message D
  system_authenticate : (access_token : Option String) → Message D
  command : Command D → Message D

-- The reply to a ping, or one to a command.
pub data RouterReply : Type 0 where
  pong : RouterReply
  answered : Reply → RouterReply

module _ {D : Type 0} (env : Environment) (random_id other_random_id : String)
    (connection : GatewayConnection) where
  -- A handler of Router.Calls, with the events it sends as effects.
  abbrev pub speak :
      (user_id : String) → Option VoiceSpeakingCommandData → GatewayRuntime D → Handled D
  speak user d g =
      let r =
        handle_voice_speaking env.accepts env.to_iso_string env.now_ms env.database g.voice_room
          g.connections connection user d in
      (record g { voice_room = r.0; connections = r.1 }, r.2, map sent r.3)

  abbrev pub self_report :
      (user_id : String) → Option VoiceNetworkSelfReportCommandData → GatewayRuntime D → Handled D
  self_report user d g =
      let r =
        handle_voice_network_self_report env.accepts env.to_iso_string env.now_ms env.database
          g.voice_room g.connections connection user d in
      (record g { connections = r.0 }, r.1, map sent r.2)

  abbrev pub subscribe :
      (user_id : String) → (channel_id : Option String) → GatewayRuntime D → Handled D
  subscribe user channel g =
      let r = handle_channel_subscribe env.database g.connections connection user channel in
      (record g { connections = r.0 }, r.1, [])

  abbrev pub unsubscribe : (channel_id : Option String) → GatewayRuntime D → Handled D
  unsubscribe channel g =
      let r = handle_channel_unsubscribe g.connections connection channel in
      (record g { connections = r.0 }, r.1, [])

  abbrev pub signal :
      (user_id : String) → Option (MediaSignalCommandData String) → GatewayRuntime D → Handled D
  signal user d g =
      let r = handle_media_signal_relay env.accepts g user d in (r.0, r.1, map signalled r.2)

  -- The `switch`.
  unfoldable pub run_command : (user_id : String) → Command D → GatewayRuntime D → Handled D
  run_command user (channel_subscribe d) g = subscribe user d g
  run_command user (channel_unsubscribe d) g = unsubscribe d g
  run_command user (voice_join d) g = handle_voice_join env connection user random_id d g
  run_command user (voice_leave d) g = handle_voice_leave env connection user d g
  run_command user (voice_network_self_report d) g = self_report user d g
  run_command user (voice_speaking_updated d) g = speak user d g
  run_command user (music_start d) g =
      handle_music_start env connection user random_id other_random_id d g
  run_command user (music_stop d) g = handle_music_stop env user d g
  run_command user (music_listen d) g = handle_music_listen env connection user random_id d g
  run_command user (music_unlisten d) g = handle_music_unlisten env user d g
  run_command user (stream_start d) g =
      handle_stream_start env connection user random_id other_random_id d g
  run_command user (stream_diagnostics_report d) g =
      handle_stream_diagnostics_report env connection d g
  run_command user (stream_diagnostics_get d) g = handle_stream_diagnostics_get connection user d g
  run_command user (stream_stop d) g = handle_stream_stop env user d g
  run_command user (stream_watch d) g = handle_stream_watch env connection user random_id d g
  run_command user (stream_unwatch d) g = handle_stream_unwatch env user d g
  run_command user (media_signal d) g = signal user d g
  run_command user (media_session_reconnect d) g =
      handle_media_session_reconnect env connection user d g
  run_command user (media_sfu_operation op d) g = handle_sfu_operation env op connection user d g
  run_command user (media_sfu_produce d) g = handle_sfu_produce env connection user d g
  run_command user (media_sfu_close d) g = handle_sfu_close env connection user d g
  run_command user other g = acknowledge (acknowledged connection.id) nothing g

  abbrev pub run_authorized : Option String → Command D → GatewayRuntime D → Handled D
  run_authorized none cmd g = close_socket connection.id unauthorized g
  run_authorized (some user) cmd g = run_command user cmd g

  abbrev pub reply_to : Handled D → GatewayRuntime D × RouterReply × List Effect
  reply_to (g, reply, effects) = (g, answered reply, effects)

  unfoldable pub route_gateway_message :
      Message D → GatewayRuntime D → GatewayRuntime D × RouterReply × List Effect
  route_gateway_message malformed g = reply_to (refuse invalid_payload g)
  route_gateway_message ping g = (g, pong, [])
  route_gateway_message (system_authenticate token) g =
      reply_to (handle_authenticate env connection token g)
  route_gateway_message (command cmd) g =
      reply_to (run_authorized (truthy connection.user_id) cmd g)

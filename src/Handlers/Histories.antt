-- ===== src/Handlers/Histories.antt =====
-- Any sequence of what reaches the gateway, the two halves of a join apart: the rooms stay sound.
use baker_self_hosted_voice.Common.{
  ℕ, String, Bool, true, false, Option, none, some, List, [], ◌∷◌, ◌≡◌, refl, Bool-cases, inl, inr,
  truthy,
}
use baker_self_hosted_voice.Common.StringMap.{get}
use baker_self_hosted_voice.Connection.{GatewayConnection, ConnectionManager}
use baker_self_hosted_voice.Connection.Registry.{attach}
use baker_self_hosted_voice.Voice.Invariant.{set_muted-IsValid, leave_all_channels-IsValid}
use baker_self_hosted_voice.Stream.Reports.{leave_all_for_user-IsValid}
use baker_self_hosted_voice.Music.Reports as MusicReports
use baker_self_hosted_voice.Router.{GatewayRuntime, MediaMode}
use baker_self_hosted_voice.Router.Calls.{VoiceSpeakingCommandData, handle_voice_speaking}
use baker_self_hosted_voice.Handlers.{Environment, tell}
use baker_self_hosted_voice.Handlers.Leaving.{is_same_mode, apply_media_mode, disconnect}
use baker_self_hosted_voice.Handlers.Joining.{join_begin, join_finish}
use baker_self_hosted_voice.Handlers.Dispatch.{
  Command, channel_subscribe, channel_unsubscribe, voice_join, voice_leave,
  voice_network_self_report, voice_speaking_updated, music_start, music_stop, music_listen,
  music_unlisten, stream_start, stream_diagnostics_report, stream_diagnostics_get, stream_stop,
  stream_watch, stream_unwatch, media_signal, media_session_reconnect, media_sfu_operation,
  media_sfu_produce, media_sfu_close, other, Message, malformed, ping, system_authenticate, command,
  speak, run_command, run_authorized, route_gateway_message,
}
use baker_self_hosted_voice.Handlers.Heartbeat.{
  after_sample, channel_of_connection, gateway_ping_timeout, gateway_pong, tell_channel,
}
use baker_self_hosted_voice.Handlers.Frames.{rooms_of, IsQuiet}
use baker_self_hosted_voice.Handlers.ModeChange.{apply_media_mode-empties}
use baker_self_hosted_voice.Handlers.Departing.{disconnect-disconnected}
use baker_self_hosted_voice.Handlers.Soundness.{
  IsSound, Sound, Keeps, quiet-Sound, handle_voice_leave-Keeps, handle_voice_join-Keeps,
  join_begin-Sound, join_finish-Keeps,
}
use baker_self_hosted_voice.Handlers.StreamCommands.{
  handle_stream_start-Keeps, handle_stream_stop-Keeps, handle_stream_watch-Keeps,
  handle_stream_unwatch-Keeps,
}
use baker_self_hosted_voice.Handlers.MusicCommands.{
  handle_music_start-Keeps, handle_music_stop-Keeps, handle_music_listen-Keeps,
  handle_music_unlisten-Keeps,
}
use baker_self_hosted_voice.Handlers.SessionCommands.{
  signal-rooms, diagnostics_get-Keeps, diagnostics_report-Keeps, authenticate-Keeps,
  reconnect-Keeps, sfu_operation-Keeps, sfu_produce-Keeps, sfu_close-Keeps,
}

module _ {D : Type 0} (env : Environment) where
  speak-Keeps :
      (n s : String) (connection : GatewayConnection) (u : String)
      (d : Option VoiceSpeakingCommandData)
      → Keeps (speak {D = D} env n s connection u d)
  unfolding handle_voice_speaking
  speak-Keeps n s connection u none g v = v
  speak-Keeps n s connection u (some d) g v = record {
    voices = set_muted-IsValid g.voice_room d.channel_id u d.is_muted v.voices;
    streams = v.streams;
    musics = v.musics;
  }

  run_command-Keeps :
      (n s : String) (connection : GatewayConnection) (u : String) (cmd : Command D)
      → Keeps (run_command env n s connection u cmd)
  unfolding run_command
  run_command-Keeps n s connection u (channel_subscribe d) g v = v
  run_command-Keeps n s connection u (channel_unsubscribe d) g v = v
  run_command-Keeps n s connection u (voice_join d) g v =
      handle_voice_join-Keeps env connection u n d g v
  run_command-Keeps n s connection u (voice_leave d) g v =
      handle_voice_leave-Keeps env connection u d g v
  run_command-Keeps n s connection u (voice_network_self_report d) g v = v
  run_command-Keeps n s connection u (voice_speaking_updated d) g v =
      speak-Keeps n s connection u d g v
  run_command-Keeps n s connection u (music_start d) g v =
      handle_music_start-Keeps env connection u n s d g v
  run_command-Keeps n s connection u (music_stop d) g v = handle_music_stop-Keeps env u d g v
  run_command-Keeps n s connection u (music_listen d) g v =
      handle_music_listen-Keeps env connection u n d g v
  run_command-Keeps n s connection u (music_unlisten d) g v =
      handle_music_unlisten-Keeps env u d g v
  run_command-Keeps n s connection u (stream_start d) g v =
      handle_stream_start-Keeps env connection u n s d g v
  run_command-Keeps n s connection u (stream_diagnostics_report d) g v =
      diagnostics_report-Keeps env connection d g v
  run_command-Keeps n s connection u (stream_diagnostics_get d) g v =
      diagnostics_get-Keeps connection u d g v
  run_command-Keeps n s connection u (stream_stop d) g v = handle_stream_stop-Keeps env u d g v
  run_command-Keeps n s connection u (stream_watch d) g v =
      handle_stream_watch-Keeps env connection u n d g v
  run_command-Keeps n s connection u (stream_unwatch d) g v =
      handle_stream_unwatch-Keeps env u d g v
  run_command-Keeps n s connection u (media_signal d) g v = rw (signal-rooms env.accepts g u d) v
  run_command-Keeps n s connection u (media_session_reconnect d) g v =
      reconnect-Keeps env connection u d g v
  run_command-Keeps n s connection u (media_sfu_operation op d) g v =
      sfu_operation-Keeps env op connection u d g v
  run_command-Keeps n s connection u (media_sfu_produce d) g v =
      sfu_produce-Keeps env connection u d g v
  run_command-Keeps n s connection u (media_sfu_close d) g v =
      sfu_close-Keeps env connection u d g v
  run_command-Keeps n s connection u other g v = v

  run_authorized-Keeps :
      (n s : String) (connection : GatewayConnection) (o : Option String) (cmd : Command D)
      → Keeps (run_authorized env n s connection o cmd)
  run_authorized-Keeps n s connection none cmd g v = v
  run_authorized-Keeps n s connection (some u) cmd g v = run_command-Keeps n s connection u cmd g v

  route_gateway_message-Sound :
      (n s : String) (connection : GatewayConnection) (message : Message D) (g : GatewayRuntime D)
      → Sound g
      → Sound (route_gateway_message env n s connection message g).0
  unfolding route_gateway_message
  route_gateway_message-Sound n s connection malformed g v = v
  route_gateway_message-Sound n s connection ping g v = v
  route_gateway_message-Sound n s connection (system_authenticate token) g v =
      authenticate-Keeps env connection token g v
  route_gateway_message-Sound n s connection (command cmd) g v =
      run_authorized-Keeps n s connection (truthy connection.user_id) cmd g v

  disconnect-Sound :
      (connection : GatewayConnection) (o : Option String) (g : GatewayRuntime D)
      → truthy connection.user_id ≡ o
      → Sound g
      → Sound (disconnect env connection g).0
  unfolding disconnect
  disconnect-Sound connection none g e v = rw e v
  disconnect-Sound connection (some u) g e v =
      let k = connection.id in
      rw (disconnect-disconnected env connection u g e) (record {
        voices = leave_all_channels-IsValid g.voice_room u (some k) v.voices;
        streams = leave_all_for_user-IsValid u (some k) g.stream_room v.streams;
        musics = MusicReports.leave_all_for_user-IsValid u (some k) g.music_room v.musics;
      })

  apply_media_mode-Sound :
      (mode : MediaMode) (g : GatewayRuntime D) → Sound g → Sound (apply_media_mode env mode g).0
  unfolding apply_media_mode
  apply_media_mode-Sound mode g v = elim (Bool-cases (is_same_mode g.media_mode mode)) [
    | inl same ↦ rw same v
    | inr different ↦ rw (apply_media_mode-empties env mode g different) (record {
      voices = record { distinct = tt; rooms_valid = tt };
      streams = record { distinct = tt; occupied = tt; valid = tt };
      musics = record { distinct = tt; occupied = tt; valid = tt };
    })
  ]

  tell_channel-IsQuiet : (o : Option String) → IsQuiet (tell_channel {D = D} env o)
  unfolding tell
  tell_channel-IsQuiet none g = refl
  tell_channel-IsQuiet (some c) g = refl

  after_sample-Sound :
      (k : String) (r : ConnectionManager × Bool) (g : GatewayRuntime D)
      → Sound g
      → Sound (after_sample env k r g).0
  after_sample-Sound k (conns, false) g v = v
  after_sample-Sound k (conns, true) g v =
      let channel = channel_of_connection (get k conns.connections) in
      quiet-Sound (tell_channel env channel) (tell_channel-IsQuiet channel)
        (record g { connections = conns }) v

-- What reaches the gateway. The two halves of a join are events of their own, since the gateway does
-- not wait for one command before it takes the next: others may come in between.
pub data GatewayEvent (D : Type 0) : Type 0 where
  attaches :
      (socket : ℕ)
      → (media_region_id : Option String) → (request_hosts : List String) → (now_ms : ℕ)
      → GatewayEvent D
  routes : (random_id other_random_id : String) → GatewayConnection → Message D → GatewayEvent D
  begins_join : GatewayConnection → (user_id channel_id : String) → GatewayEvent D
  finishes_join :
      GatewayConnection
      → (user_id channel_id : String) → (session_id : Option String) → GatewayEvent D
  times_out : (connection_id : String) → (timeout_at_ms : ℕ) → GatewayEvent D
  pongs : (connection_id : String) → (pong_at_ms : ℕ) → GatewayEvent D
  closes : GatewayConnection → GatewayEvent D
  changes_mode : MediaMode → GatewayEvent D

module _ {D : Type 0} where
  -- A gateway that has just started.
  abbrev pub started : MediaMode → GatewayRuntime D
  started mode = record {
    connections = record { connections = []; connection_quality = []; user_to_connection_id = [] };
    voice_room = record { rooms = [] };
    stream_room = record { rooms = [] };
    music_room = record { rooms = [] };
    media_mode = mode;
  }

module _ {D : Type 0} (connection_id : ℕ → ℕ → String) where
  abbrev pub gateway_step : Environment → GatewayRuntime D → GatewayEvent D → GatewayRuntime D
  gateway_step env g (attaches socket region hosts now_ms) = record g {
    connections = (attach connection_id g.connections socket region hosts now_ms).0;
  }
  gateway_step env g (routes n s connection message) =
      (route_gateway_message env n s connection message g).0
  gateway_step env g (begins_join connection u c) = (join_begin env connection u c g).0
  gateway_step env g (finishes_join connection u c n) = (join_finish env connection u c n g).0
  gateway_step env g (times_out k at_ms) = (gateway_ping_timeout env k at_ms g).0
  gateway_step env g (pongs k at_ms) = (gateway_pong env k at_ms g).0
  gateway_step env g (closes connection) = (disconnect env connection g).0
  gateway_step env g (changes_mode mode) = (apply_media_mode env mode g).0

  -- The world may answer differently at each event.
  unfoldable pub gateway_run :
      GatewayRuntime D → List (Environment × GatewayEvent D) → GatewayRuntime D
  gateway_run g [] = g
  gateway_run g ((env, event) ∷ events) = gateway_run (gateway_step env g event) events

  gateway_step-Sound :
      (env : Environment) (g : GatewayRuntime D) (event : GatewayEvent D)
      → Sound g
      → Sound (gateway_step env g event)
  unfolding gateway_ping_timeout gateway_pong
  gateway_step-Sound env g (attaches socket region hosts now_ms) v = v
  gateway_step-Sound env g (routes n s connection message) v =
      route_gateway_message-Sound env n s connection message g v
  gateway_step-Sound env g (begins_join connection u c) v = join_begin-Sound env connection u c g v
  gateway_step-Sound env g (finishes_join connection u c n) v =
      join_finish-Keeps env connection u c n g v
  gateway_step-Sound env g (times_out k at_ms) v = after_sample-Sound env k _ g v
  gateway_step-Sound env g (pongs k at_ms) v = after_sample-Sound env k _ g v
  gateway_step-Sound env g (closes connection) v =
      disconnect-Sound env connection (truthy connection.user_id) g refl v
  gateway_step-Sound env g (changes_mode mode) v = apply_media_mode-Sound env mode g v

  gateway_run-Sound :
      (g : GatewayRuntime D) (events : List (Environment × GatewayEvent D))
      → Sound g
      → Sound (gateway_run g events)
  unfolding gateway_run
  gateway_run-Sound g [] v = v
  gateway_run-Sound g ((env, event) ∷ events) v =
      gateway_run-Sound (gateway_step env g event) events (gateway_step-Sound env g event v)

  -- Whatever reaches a gateway that has just started, in whatever order, and whatever the media
  -- service, the database and the verifier of tokens answer, the rooms stay sound: channels are
  -- distinct, no room is empty, nobody stands twice in a voice room or hosts two streams or two shares
  -- of music in a channel, and every record stands under its own channel, publication and user.
  pub gateway_history-IsSound :
      (mode : MediaMode) (events : List (Environment × GatewayEvent D))
      → IsSound (rooms_of (gateway_run (started mode) events))
  gateway_history-IsSound mode events = gateway_run-Sound (started mode) events (record {
    voices = record { distinct = tt; rooms_valid = tt };
    streams = record { distinct = tt; occupied = tt; valid = tt };
    musics = record { distinct = tt; occupied = tt; valid = tt };
  })

-- ===== src/Handlers/Leaving.antt =====
-- event-router.ts, app.ts, app-runtime.ts: what takes users out of rooms. `handleVoiceLeave`, the
-- `close` of a socket, and a change of the media mode. What the source does not wait for happens at
-- once here, and the updates of stream sessions to 'idle' succeed.
use baker_self_hosted_voice.Common.{
  String, Bool, true, false, Option, none, some, List, [], ◌∷◌, ◌++◌, map, if◌then◌else◌, truthy,
}
use baker_self_hosted_voice.Common.StringSet
use baker_self_hosted_voice.Connection.{GatewayConnection}
use baker_self_hosted_voice.Connection.Registry.{detach}
use baker_self_hosted_voice.Connection.Delivery.{send_all}
use baker_self_hosted_voice.Voice
use baker_self_hosted_voice.Voice.{VoiceParticipantRecord, Departure, get_participant}
use baker_self_hosted_voice.Stream.Leave
use baker_self_hosted_voice.Stream.Leave.{StreamDisconnectResult, host_stopped, viewer_left}
use baker_self_hosted_voice.Music.Leave as MusicLeave
use baker_self_hosted_voice.Music.Leave.{
  MusicDisconnectResult, host_stopped as music_host_stopped, listener_left,
}
use baker_self_hosted_voice.Router.{
  GatewayRuntime, MediaMode, p2p, sfu, music_listen, music_publish, stream_publish, stream_watch,
  voice, voice_left, invalid_payload, voice_not_joined,
}
use baker_self_hosted_voice.Router.Broadcasts.{MediaModeUpdated, mode_event}
use baker_self_hosted_voice.Handlers.{
  Environment, Action, Handled, stream_session_idle, nothing, ◌⨾◌, note, tell, refuse, acknowledge,
  set_voice_channel, voice_connection_ids, tell_voice_state, tell_roster, tell_network,
  tell_stream_state, tell_stream_cleared, tell_music_state, close_if_sfu,
}

abbrev pub is_same_mode : MediaMode → MediaMode → Bool
is_same_mode p2p p2p = true
is_same_mode sfu sfu = true
is_same_mode p2p sfu = false
is_same_mode sfu p2p = false

abbrev pub stream_channel : StreamDisconnectResult → String
stream_channel (host_stopped channel ids session stream) = channel
stream_channel (viewer_left channel session stream) = channel

abbrev pub music_channel : MusicDisconnectResult → String
music_channel (music_host_stopped channel ids session music) = channel
music_channel (listener_left channel session music) = channel

abbrev pub stream_targets : List StreamDisconnectResult → List String
stream_targets [] = []
stream_targets (host_stopped channel ids session stream ∷ rest) = ids ++ stream_targets rest
stream_targets (viewer_left channel session stream ∷ rest) = stream_targets rest

abbrev pub music_targets : List MusicDisconnectResult → List String
music_targets [] = []
music_targets (music_host_stopped channel ids session music ∷ rest) = ids ++ music_targets rest
music_targets (listener_left channel session music ∷ rest) = music_targets rest

module _ {D : Type 0} where
  abbrev pub idle_sessions : List StreamDisconnectResult → Action D
  idle_sessions [] = nothing
  idle_sessions (host_stopped channel ids session stream ∷ rest) =
      note (stream_session_idle session) ⨾ idle_sessions rest
  idle_sessions (viewer_left channel session stream ∷ rest) = idle_sessions rest

module _ {D : Type 0} (env : Environment) where
  abbrev pub close_voice : (channel_id : String) → Option VoiceParticipantRecord → Action D
  close_voice channel none = nothing
  close_voice channel (some p) =
      close_if_sfu env
        (record { channel_id = channel; mode = voice; session_id = p.session_id; stream_id = none })

  -- `if (remaining.length > 0)`
  abbrev pub tell_remaining : (channel_id : String) → List VoiceParticipantRecord → Action D
  tell_remaining channel [] = nothing
  tell_remaining channel (p ∷ ps) = tell_voice_state env channel (p ∷ ps)

  abbrev pub stream_change : StreamDisconnectResult → Action D
  stream_change (host_stopped channel ids session stream) g =
      (tell_stream_cleared env channel (ids ++ voice_connection_ids g channel)
          ⨾ note (stream_session_idle session)
          ⨾ close_if_sfu env (record {
            channel_id = channel;
            mode = stream_publish;
            session_id = session;
            stream_id = some stream;
          }))
        g
  stream_change (viewer_left channel session stream) g =
      (close_if_sfu env (record {
        channel_id = channel;
        mode = stream_watch;
        session_id = session;
        stream_id = some stream;
      })
          ⨾ tell_stream_state env channel (voice_connection_ids g channel))
        g

  abbrev pub stream_changes : List StreamDisconnectResult → Action D
  stream_changes [] = nothing
  stream_changes (change ∷ rest) = stream_change change ⨾ stream_changes rest

  abbrev pub music_change : MusicDisconnectResult → Action D
  music_change (music_host_stopped channel ids session music) g =
      (tell_music_state env channel (ids ++ voice_connection_ids g channel)
          ⨾ close_if_sfu env (record {
            channel_id = channel;
            mode = music_publish;
            session_id = session;
            stream_id = some music;
          }))
        g
  music_change (listener_left channel session music) g =
      (close_if_sfu env (record {
        channel_id = channel;
        mode = music_listen;
        session_id = session;
        stream_id = some music;
      })
          ⨾ tell_music_state env channel (voice_connection_ids g channel))
        g

  abbrev pub music_changes : List MusicDisconnectResult → Action D
  music_changes [] = nothing
  music_changes (change ∷ rest) = music_change change ⨾ music_changes rest

  unfoldable pub leave_streams : (channel_id user_id : String) → Action D
  leave_streams channel user g =
      let r = Leave.leave_channel_for_user g.stream_room channel user in
      stream_changes r.1 (record g { stream_room = r.0 })

  unfoldable pub leave_musics : (channel_id user_id : String) → Action D
  leave_musics channel user g =
      let r = MusicLeave.leave_channel_for_user g.music_room channel user in
      music_changes r.1 (record g { music_room = r.0 })

  -- What follows the departure from the voice room.
  abbrev pub after_leaving :
      (connection_id channel_id user_id : String)
      → Option VoiceParticipantRecord
      → List VoiceParticipantRecord
      → Action D
  after_leaving c channel user existing remaining =
      set_voice_channel c none
      ⨾ close_voice channel existing
      ⨾ tell_remaining channel remaining
      ⨾ tell_roster env channel
      ⨾ tell_network env channel
      ⨾ leave_streams channel user
      ⨾ leave_musics channel user

  abbrev pub answer_leave :
      GatewayConnection
      → (user_id channel_id : String) → Option VoiceParticipantRecord
      → Option (List VoiceParticipantRecord)
      → GatewayRuntime D
      → Handled D
  answer_leave connection user channel existing none g = refuse voice_not_joined g
  answer_leave connection user channel existing (some remaining) g =
      acknowledge (voice_left channel) (after_leaving connection.id channel user existing remaining)
        g

  unfoldable pub handle_voice_leave :
      GatewayConnection
      → (user_id : String) → (channel_id : Option String) → GatewayRuntime D
      → Handled D
  handle_voice_leave connection user none g = refuse invalid_payload g
  handle_voice_leave connection user (some channel) g =
      let r = Voice.leave g.voice_room channel user in
      answer_leave connection user channel (get_participant g.voice_room channel user) r.1
        (record g { voice_room = r.0 })

  abbrev pub voice_departure : Departure → Action D
  voice_departure d =
      tell_remaining d.channel_id d.remaining
      ⨾ close_voice d.channel_id (some d.left)
      ⨾ tell_roster env d.channel_id
      ⨾ tell_network env d.channel_id

  abbrev pub voice_departures : List Departure → Action D
  voice_departures [] = nothing
  voice_departures (d ∷ rest) = voice_departure d ⨾ voice_departures rest

  -- As `stream_change`, but the media session is closed before the status is written.
  abbrev pub disconnect_stream_change : StreamDisconnectResult → Action D
  disconnect_stream_change (host_stopped channel ids session stream) g =
      (tell_stream_cleared env channel (ids ++ voice_connection_ids g channel)
          ⨾ close_if_sfu env (record {
            channel_id = channel;
            mode = stream_publish;
            session_id = session;
            stream_id = some stream;
          })
          ⨾ note (stream_session_idle session))
        g
  disconnect_stream_change (viewer_left channel session stream) g =
      stream_change (viewer_left channel session stream) g

  abbrev pub disconnect_stream_changes : List StreamDisconnectResult → Action D
  disconnect_stream_changes [] = nothing
  disconnect_stream_changes (change ∷ rest) =
      disconnect_stream_change change ⨾ disconnect_stream_changes rest

  unfoldable pub leave_all_voice : (user_id connection_id : String) → Action D
  leave_all_voice user c g =
      let r = Voice.leave_all_channels g.voice_room user (some c) in
      voice_departures r.1 (record g { voice_room = r.0 })

  unfoldable pub leave_all_streams : (user_id connection_id : String) → Action D
  leave_all_streams user c g =
      let r = Leave.leave_all_for_user g.stream_room user (some c) in
      disconnect_stream_changes r.1 (record g { stream_room = r.0 })

  unfoldable pub leave_all_musics : (user_id connection_id : String) → Action D
  leave_all_musics user c g =
      let r = MusicLeave.leave_all_for_user g.music_room user (some c) in
      music_changes r.1 (record g { music_room = r.0 })

  abbrev pub leave_everything : Option String → (connection_id : String) → Action D
  leave_everything none c = nothing
  leave_everything (some user) c =
      leave_all_voice user c ⨾ leave_all_streams user c ⨾ leave_all_musics user c

  -- The `close` of a socket, but for the timer and for `presence.onDisconnect`.
  unfoldable pub disconnect : GatewayConnection → Action D
  disconnect connection g =
      leave_everything (truthy connection.user_id) connection.id
        (record g { connections = detach g.connections connection.id })

  unfoldable pub clear_voice : List String → Action D
  clear_voice [] = nothing
  clear_voice (channel ∷ rest) =
      (λ g. (record g { voice_room = Voice.clear_channel g.voice_room channel }, []))
      ⨾ tell_roster env channel
      ⨾ clear_voice rest

  -- The connections of all participants, before the rooms are cleared.
  abbrev pub voice_targets : GatewayRuntime D → List String → List String
  voice_targets g [] = []
  voice_targets g (channel ∷ rest) = voice_connection_ids g channel ++ voice_targets g rest

  abbrev pub tell_mode : MediaModeUpdated → List String → Action D
  tell_mode data_sent ids =
      tell (λ e. e) (λ g. send_all env.accepts (mode_event data_sent) ids g.connections)

  unfoldable pub apply_media_mode : MediaMode → Action D
  apply_media_mode mode g =
      let channels = Voice.get_active_channel_ids g.voice_room in
      let streams = Leave.clear_all g.stream_room in
      let musics = MusicLeave.clear_all g.music_room in
      let affected =
        StringSet.from_list
          (channels ++ map stream_channel streams.1 ++ map music_channel musics.1) in
      let targets =
        StringSet.from_list
          (voice_targets g channels ++ stream_targets streams.1 ++ music_targets musics.1) in
      let cleared = record g {
        media_mode = mode;
        stream_room = streams.0;
        music_room = musics.0;
      } in
      let change =
        clear_voice channels
        ⨾ idle_sessions streams.1
        ⨾ tell_mode (record { affected_channel_ids = affected; media_mode = mode }) targets in
      if is_same_mode g.media_mode mode then (g, []) else change cleared

-- ===== src/Handlers/Playing.antt =====
-- event-router.ts: `handleMusicStart`, `handleMusicStop`, `handleMusicListen` and
-- `handleMusicUnlisten`, each with nothing in between while it waits.
use baker_self_hosted_voice.Common.{
  String, Bool, true, false, Option, none, some, ◌++◌, ◌==◌, if◌then◌else◌, truthy,
}
use baker_self_hosted_voice.Voice.{get_participant}
use baker_self_hosted_voice.Music.{
  MusicListenerRecord, MusicPublicationRecord, get_publication, get_listener,
  find_hosted_publication_by_user,
}
use baker_self_hosted_voice.Music.Publish
use baker_self_hosted_voice.Music.Publish.{Stopped, Listening}
use baker_self_hosted_voice.Connection.{GatewayConnection}
use baker_self_hosted_voice.Router.{
  GatewayRuntime, music_publish, music_listen, music_started, music_stopped, music_listening,
  music_unlistened, ErrorCode, invalid_payload, media_negotiation_timeout, music_already_listening,
  music_already_live, music_not_found, music_not_host, music_not_live, voice_not_joined,
}
use baker_self_hosted_voice.Handlers.{
  Environment, Action, Handled, nothing, ◌⨾◌, refuse, acknowledge, voice_connection_ids,
  tell_music_state, close_if_sfu,
}
use baker_self_hosted_voice.Handlers.Joining.{validate_voice_channel_access}
use baker_self_hosted_voice.Handlers.Streaming.{stream_request, stream_session}

-- The data of `music.stop`, where the id may be left out.
pub record MusicStopCommandData : Type 0 where
  pub channel_id : String
  pub music_id : Option String

-- The data of `music.listen` and `music.unlisten`.
pub record MusicCommandData : Type 0 where
  pub channel_id : String
  pub music_id : String

-- `musicId ? 'MUSIC_NOT_FOUND' : 'MUSIC_NOT_HOST'`
abbrev pub missing_music : Option String → ErrorCode
missing_music none = music_not_host
missing_music (some m) = music_not_found

module _ {D : Type 0} where
  abbrev pub stop_music_target :
      GatewayRuntime D
      → (user_id channel_id : String) → (music_id : Option String) → Option MusicPublicationRecord
  stop_music_target g user channel none =
      find_hosted_publication_by_user g.music_room user (some channel)
  stop_music_target g user channel (some m) = get_publication g.music_room channel m

module _ {D : Type 0} (env : Environment) where
  abbrev pub tell_voice_music_state : (channel_id : String) → Action D
  tell_voice_music_state channel g = tell_music_state env channel (voice_connection_ids g channel) g

  -- The two guards that `music.start` and `music.listen` share.
  abbrev pub music_access_error :
      GatewayRuntime D → (channel_id user_id : String) → Option ErrorCode
  music_access_error g channel user =
      elim (validate_voice_channel_access env.database channel user) [
        | some code ↦ some code
        | none ↦ elim (get_participant g.voice_room channel user) [
          | none ↦ some voice_not_joined
          | some p ↦ none
        ]
      ]

  abbrev pub answer_start :
      (channel_id music_id session_id : String)
      → Option MusicPublicationRecord
      → GatewayRuntime D
      → Handled D
  answer_start channel music session none g = refuse music_already_live g
  answer_start channel music session (some started) g =
      acknowledge (music_started channel music session) (tell_voice_music_state channel) g

  abbrev pub start_with :
      GatewayConnection
      → (user_id channel_id music_id : String) → (session_id : Option String) → GatewayRuntime D
      → Handled D
  start_with connection user channel music none g = refuse media_negotiation_timeout g
  start_with connection user channel music (some session) g =
      let r = Publish.start g.music_room channel music user connection.id session in
      answer_start channel music session r.1 (record g { music_room = r.0 })

  -- `music_id` and `random_id` are the two `randomUUID()`.
  unfoldable pub handle_music_start :
      GatewayConnection
      → (user_id music_id random_id : String) → (channel_id : Option String) → GatewayRuntime D
      → Handled D
  handle_music_start connection user music random_id none g = refuse invalid_payload g
  handle_music_start connection user music random_id (some channel) g =
      elim (music_access_error g channel user) [
        | some code ↦ refuse code g
        | none ↦ elim (find_hosted_publication_by_user g.music_room user (some channel)) [
          | some p ↦ refuse music_already_live g
          | none ↦
              start_with connection user channel music
                (env.media.create_session
                  (stream_request connection music_publish user channel music random_id))
                g
        ]
      ]

  abbrev pub answer_stop : (channel_id : String) → Option Stopped → GatewayRuntime D → Handled D
  answer_stop channel none g = refuse music_not_found g
  answer_stop channel (some s) g =
      acknowledge (music_stopped channel s.music_id)
        (close_if_sfu env (stream_session music_publish channel s.session_id s.music_id) ⨾ (λ h.
          tell_music_state env channel (s.connection_ids ++ voice_connection_ids h channel) h))
        g

  unfoldable pub handle_music_stop :
      (user_id : String) → Option MusicStopCommandData → GatewayRuntime D → Handled D
  handle_music_stop user none g = refuse invalid_payload g
  handle_music_stop user (some d) g =
      elim (stop_music_target g user d.channel_id (truthy d.music_id)) [
        | none ↦ refuse (missing_music (truthy d.music_id)) g
        | some p ↦
            let r = Publish.stop g.music_room d.channel_id p.music_id user in
            let stopped = answer_stop d.channel_id r.1 (record g { music_room = r.0 }) in
            if p.host.user_id == user then stopped else refuse music_not_host g
      ]

  abbrev pub answer_listen :
      (channel_id music_id : String) → Option Listening → GatewayRuntime D → Handled D
  answer_listen channel music none g = refuse music_not_live g
  answer_listen channel music (some l) g =
      acknowledge
        (music_listening channel music l.publication.host.session_id l.publication.host.user_id
          l.listener_session_id)
        (tell_voice_music_state channel) g

  abbrev pub listen_with :
      GatewayConnection
      → (user_id channel_id music_id : String) → (session_id : Option String) → GatewayRuntime D
      → Handled D
  listen_with connection user channel music none g = refuse media_negotiation_timeout g
  listen_with connection user channel music (some session) g =
      let r = Publish.add_listener g.music_room channel music user connection.id session in
      answer_listen channel music r.1 (record g { music_room = r.0 })

  abbrev pub listen_publication :
      GatewayConnection
      → (user_id random_id : String) → MusicCommandData
      → MusicPublicationRecord
      → Option MusicListenerRecord
      → GatewayRuntime D
      → Handled D
  listen_publication connection user random_id d p (some l) g =
      acknowledge
        (music_listening d.channel_id d.music_id p.host.session_id p.host.user_id l.session_id)
        nothing g
  listen_publication connection user random_id d p none g =
      listen_with connection user d.channel_id d.music_id
        (env.media.create_session
          (stream_request connection music_listen user d.channel_id d.music_id random_id))
        g

  unfoldable pub handle_music_listen :
      GatewayConnection
      → (user_id random_id : String) → Option MusicCommandData
      → GatewayRuntime D
      → Handled D
  handle_music_listen connection user random_id none g = refuse invalid_payload g
  handle_music_listen connection user random_id (some d) g =
      elim (music_access_error g d.channel_id user) [
        | some code ↦ refuse code g
        | none ↦ elim (get_publication g.music_room d.channel_id d.music_id) [
          | none ↦ refuse music_not_live g
          | some p ↦
              let listening =
                listen_publication connection user random_id d p
                  (get_listener g.music_room d.channel_id d.music_id user) g in
              if p.host.user_id == user then refuse music_already_listening g else listening
        ]
      ]

  abbrev pub close_listener : MusicCommandData → Option MusicListenerRecord → Action D
  close_listener d none = nothing
  close_listener d (some l) =
      close_if_sfu env (stream_session music_listen d.channel_id l.session_id d.music_id)

  abbrev pub after_unlisten : MusicCommandData → Option MusicListenerRecord → Bool → Action D
  after_unlisten d listener false = nothing
  after_unlisten d listener true = close_listener d listener ⨾ tell_voice_music_state d.channel_id

  unfoldable pub handle_music_unlisten :
      (user_id : String) → Option MusicCommandData → GatewayRuntime D → Handled D
  handle_music_unlisten user none g = refuse invalid_payload g
  handle_music_unlisten user (some d) g =
      let listener = get_listener g.music_room d.channel_id d.music_id user in
      let r = Publish.remove_listener g.music_room d.channel_id d.music_id user in
      acknowledge (music_unlistened d.channel_id d.music_id) (after_unlisten d listener r.1)
        (record g { music_room = r.0 })

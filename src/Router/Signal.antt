-- ===== src/Router/Signal.antt =====
-- event-router.ts: `handleMediaSignalRelay`. The session description and the candidate of a signal
-- are handed on and never read: their type is `P`.
use baker_self_hosted_voice.Common.{
  ℕ, String, Bool, false, Option, none, some, List, [], ◌==◌, if◌then◌else◌,
}
use baker_self_hosted_voice.Connection.Registry.{find_by_user_id}
use baker_self_hosted_voice.Connection.Delivery.{Sent, send_to}
use baker_self_hosted_voice.Voice.{VoiceParticipantRecord, get_participant}
use baker_self_hosted_voice.Stream
use baker_self_hosted_voice.Music
use baker_self_hosted_voice.Router.{
  GatewayRuntime, SessionMode, music_listen, music_publish, stream_publish, stream_watch, voice,
  MediaSessionDescriptor, ErrorCode, forbidden, invalid_payload, music_not_live, stream_not_live,
  voice_not_joined, Reply, relayed, refused,
}

pub record MediaSignalPayload (P : Type 0) : Type 0 where
  pub session : MediaSessionDescriptor
  pub content : P

pub record MediaSignalCommandData (P : Type 0) : Type 0 where
  pub target_user_id : String
  pub signal : MediaSignalPayload P

-- The event `media.signal`.
pub record MediaSignalRelay (P : Type 0) : Type 0 where
  pub from_user_id : String
  pub signal : MediaSignalPayload P

abbrev pub not_live : SessionMode → ErrorCode
not_live voice = voice_not_joined
not_live music_publish = music_not_live
not_live music_listen = music_not_live
not_live stream_publish = stream_not_live
not_live stream_watch = stream_not_live

-- `!(!sender || !target || sender.sessionId !== sessionId)`
abbrev pub in_same_room :
    Option VoiceParticipantRecord → Option VoiceParticipantRecord → (session_id : String) → Bool
in_same_room none target session = false
in_same_room (some sender) none session = false
in_same_room (some sender) (some target) session = sender.session_id == session

module _ {D : Type 0} where
  -- The check that the chain of `if`s makes for a mode.
  abbrev pub may_relay :
      GatewayRuntime D
      → SessionMode
      → MediaSessionDescriptor
      → (from_user_id target_user_id : String) → Bool
  may_relay g voice s sender target =
      in_same_room (get_participant g.voice_room s.channel_id sender)
        (get_participant g.voice_room s.channel_id target) s.session_id
  may_relay g music_publish s sender target =
      Music.can_relay_signal g.music_room s.channel_id s.stream_id Music.music_publish sender
        s.session_id target
  may_relay g music_listen s sender target =
      Music.can_relay_signal g.music_room s.channel_id s.stream_id Music.music_listen sender
        s.session_id target
  may_relay g stream_publish s sender target =
      Stream.can_relay_signal g.stream_room s.channel_id s.stream_id Stream.stream_publish sender
        s.session_id target
  may_relay g stream_watch s sender target =
      Stream.can_relay_signal g.stream_room s.channel_id s.stream_id Stream.stream_watch sender
        s.session_id target

  module _ {P : Type 0} (accepts : ℕ → Bool) where
    -- The `try` block: the event goes to the target's connection.
    abbrev pub relay :
        GatewayRuntime D
        → (target_connection_id : String) → (from_user_id : String) → MediaSignalCommandData P
        → GatewayRuntime D × Reply × List (Sent (MediaSignalRelay P))
    relay g target sender d =
        let r =
          send_to accepts (record { from_user_id = sender; signal = d.signal }) target
            g.connections in
        (record g { connections = r.0 }, relayed d.target_user_id, r.1)

    abbrev pub relay_checked :
        GatewayRuntime D
        → (from_user_id : String) → MediaSignalCommandData P
        → GatewayRuntime D × Reply × List (Sent (MediaSignalRelay P))
    relay_checked g sender d = elim (find_by_user_id g.connections d.target_user_id) [
      | none ↦ (g, refused (not_live d.signal.session.mode), [])
      | some target ↦
          if may_relay g d.signal.session.mode d.signal.session sender d.target_user_id
          then relay g target.id sender d
          else (g, refused (not_live d.signal.session.mode), [])
    ]

    -- `none` is a payload that does not parse; `sender` is `connection.userId`.
    unfoldable pub handle_media_signal_relay :
        GatewayRuntime D
        → (sender : String) → Option (MediaSignalCommandData P)
        → GatewayRuntime D × Reply × List (Sent (MediaSignalRelay P))
    handle_media_signal_relay g sender none = (g, refused invalid_payload, [])
    handle_media_signal_relay g sender (some d) =
        if d.signal.session.user_id == sender
        then relay_checked g sender d
        else (g, refused forbidden, [])

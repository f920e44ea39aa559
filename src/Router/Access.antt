-- ===== src/Router/Access.antt =====
-- event-router.ts: who may use a media session, and who hears that one was rebuilt.
use baker_self_hosted_voice.Common.{
  String, Bool, true, false, Option, none, some, List, [], map, ◌==◌, ◌&&◌, truthy,
}
use baker_self_hosted_voice.Common.StringMap.{get}
use baker_self_hosted_voice.Connection.{GatewayConnection}
use baker_self_hosted_voice.Voice.{VoiceParticipantRecord, get_participant, get_participants}
use baker_self_hosted_voice.Stream.{StreamViewerRecord, StreamPublicationRecord}
use baker_self_hosted_voice.Stream
use baker_self_hosted_voice.Music.{MusicListenerRecord, MusicPublicationRecord}
use baker_self_hosted_voice.Music
use baker_self_hosted_voice.Router.{
  MediaMode, p2p, sfu, GatewayRuntime, SessionMode, music_listen, music_publish, stream_publish,
  stream_watch, voice, MediaSessionDescriptor,
}

-- Whether a record of a user is by this connection, under this session.
abbrev pub participant_holds :
    Option VoiceParticipantRecord → (connection_id session_id : String) → Bool
participant_holds none connection session = false
participant_holds (some p) connection session =
    p.connection_id == connection && p.session_id == session

abbrev pub viewer_holds : Option StreamViewerRecord → (connection_id session_id : String) → Bool
viewer_holds none connection session = false
viewer_holds (some v) connection session = v.connection_id == connection && v.session_id == session

abbrev pub listener_holds : Option MusicListenerRecord → (connection_id session_id : String) → Bool
listener_holds none connection session = false
listener_holds (some l) connection session =
    l.connection_id == connection && l.session_id == session

abbrev pub music_host_holds :
    Option MusicPublicationRecord → (user_id connection_id session_id : String) → Bool
music_host_holds none user connection session = false
music_host_holds (some p) user connection session =
    p.host.user_id == user && p.host.connection_id == connection && p.host.session_id == session

abbrev pub music_listener_in : Option MusicPublicationRecord → String → Option MusicListenerRecord
music_listener_in none user = none
music_listener_in (some p) user = get user p.listeners

abbrev pub is_sfu : MediaMode → Bool
is_sfu sfu = true
is_sfu p2p = false

module _ {D : Type 0} where
  abbrev pub stream_host_holds :
      Option (StreamPublicationRecord D) → (user_id connection_id session_id : String) → Bool
  stream_host_holds none user connection session = false
  stream_host_holds (some p) user connection session =
      p.host.user_id == user && p.host.connection_id == connection && p.host.session_id == session

  -- The part of `validateMediaSessionAccess` for a stream or music session, whose id is given.
  abbrev pub holds_publication :
      GatewayRuntime D
      → SessionMode
      → (channel_id stream_id user_id connection_id session_id : String) → Bool
  holds_publication g music_publish channel stream user connection session =
      music_host_holds (Music.get_publication g.music_room channel stream) user connection session
  holds_publication g music_listen channel stream user connection session =
      listener_holds (music_listener_in (Music.get_publication g.music_room channel stream) user)
        connection session
  holds_publication g stream_publish channel stream user connection session =
      stream_host_holds (Stream.get_publication g.stream_room channel stream) user connection
        session
  holds_publication g stream_watch channel stream user connection session =
      viewer_holds (Stream.viewer_in (Stream.get_publication g.stream_room channel stream) user)
        connection session
  holds_publication g voice channel stream user connection session = false

  abbrev pub holds_given :
      GatewayRuntime D
      → SessionMode
      → (channel_id : String) → Option String
      → (user_id connection_id session_id : String) → Bool
  holds_given g mode channel none user connection session = false
  holds_given g mode channel (some stream) user connection session =
      holds_publication g mode channel stream user connection session

  -- `user_id` is `connection.userId`, which is set once a command gets to a handler.
  abbrev pub holds_session :
      GatewayRuntime D
      → GatewayConnection
      → (user_id : String) → SessionMode
      → MediaSessionDescriptor
      → Bool
  holds_session g connection user voice d =
      participant_holds (get_participant g.voice_room d.channel_id user) connection.id d.session_id
  holds_session g connection user mode d =
      holds_given g mode d.channel_id (truthy d.stream_id) user connection.id d.session_id

  unfoldable pub validate_media_session_access :
      GatewayRuntime D → GatewayConnection → (user_id : String) → MediaSessionDescriptor → Bool
  validate_media_session_access g connection user d = holds_session g connection user d.mode d

  unfoldable pub validate_sfu_access :
      GatewayRuntime D → GatewayConnection → (user_id : String) → MediaSessionDescriptor → Bool
  validate_sfu_access g connection user d =
      is_sfu g.media_mode && validate_media_session_access g connection user d

  abbrev pub publication_audience :
      GatewayRuntime D → SessionMode → (channel_id : String) → Option String → List String
  publication_audience g mode channel none = []
  publication_audience g music_listen channel (some stream) =
      Music.get_audience_connection_ids g.music_room channel (some stream)
  publication_audience g music_publish channel (some stream) =
      Music.get_audience_connection_ids g.music_room channel (some stream)
  publication_audience g mode channel (some stream) =
      Stream.get_audience_connection_ids g.stream_room channel (some stream)

  abbrev pub audience_of_mode :
      GatewayRuntime D → SessionMode → MediaSessionDescriptor → List String
  audience_of_mode g voice d =
      map (λ p. p.connection_id) (get_participants g.voice_room d.channel_id)
  audience_of_mode g mode d = publication_audience g mode d.channel_id (truthy d.stream_id)

  abbrev pub get_media_session_audience_connection_ids :
      GatewayRuntime D → MediaSessionDescriptor → List String
  get_media_session_audience_connection_ids g d = audience_of_mode g d.mode d

-- ===== src/Handlers/Joining.antt =====
-- event-router.ts: `validateVoiceChannelAccess` and `handleVoiceJoin`. The handler waits for the media
-- service between `join_begin` and `join_finish`: other commands may run there.
use baker_self_hosted_voice.Common.{
  String, Option, none, some, List, [], ◌∷◌, ◌++◌, ◌==◌, ◌&&◌, if◌then◌else◌, truthy,
}
use baker_self_hosted_voice.Common.StringMap.{get}
use baker_self_hosted_voice.Connection.{GatewayConnection, ConnectionManager}
use baker_self_hosted_voice.Voice
use baker_self_hosted_voice.Voice.{VoiceParticipantRecord, get_participant, get_channel_for_user}
use baker_self_hosted_voice.Stream
use baker_self_hosted_voice.Stream.{StreamPublicationRecord}
use baker_self_hosted_voice.Music
use baker_self_hosted_voice.Music.{MusicPublicationRecord}
use baker_self_hosted_voice.Router.{
  GatewayRuntime, voice, Reply, voice_joined, refused, ErrorCode, channel_not_found,
  channel_not_text, forbidden, invalid_payload, media_negotiation_timeout, voice_already_joined,
  Database, Channel, ChannelType, text, voice_channel,
}
use baker_self_hosted_voice.Router.Calls.{is_by}
use baker_self_hosted_voice.Handlers.{
  Effect, Environment, Action, Handled, MediaRequest, nothing, ◌⨾◌, refuse, acknowledge,
  set_voice_channel, tell_voice_state, tell_roster, tell_network, tell_stream_state,
  tell_music_state,
}
use baker_self_hosted_voice.Handlers.Leaving.{handle_voice_leave}

-- `none` is consent.
abbrev pub access_in : Database → (user_id : String) → Channel → ChannelType → Option ErrorCode
access_in db user channel text = some channel_not_text
access_in db user channel voice_channel =
    if db.is_member channel.guild_id user then none else some forbidden

abbrev pub access_error : Database → (user_id : String) → Option Channel → Option ErrorCode
access_error db user none = some channel_not_found
access_error db user (some channel) = access_in db user channel channel.channel_type

unfoldable pub validate_voice_channel_access :
    Database → (channel_id user_id : String) → Option ErrorCode
validate_voice_channel_access db channel user = access_error db user (db.find_channel channel)

-- `owningConnection ?? connection`
abbrev pub owning_connection :
    ConnectionManager → GatewayConnection → Option VoiceParticipantRecord → GatewayConnection
owning_connection conns connection none = connection
owning_connection conns connection (some p) = elim (get p.connection_id conns.connections) [
  | none ↦ connection
  | some owner ↦ owner
]

-- `connection.userId as string`, with `null`, which no connection in a room has, as the empty string.
abbrev pub user_id_of : Option String → String
user_id_of none = ""
user_id_of (some user) = user

-- Of a handler that has left the old channel: `none` is to go on.
abbrev pub refusal_of : Reply → Option ErrorCode
refusal_of (refused code) = some code
refusal_of _ = none

-- Where a handler that waits has got to: `none` if it goes on, or the code that it refuses with.
abbrev pub Begun : Type 0 → Type 0
Begun D = GatewayRuntime D × Option ErrorCode × List Effect

abbrev pub voice_request :
    GatewayConnection → (user_id channel_id random_id : String) → MediaRequest
voice_request connection user channel random_id = record {
  channel_id = channel;
  media_region_id = connection.media_region_id;
  mode = voice;
  session_id = random_id;
  stream_id = none;
  user_id = user;
}

module _ {D : Type 0} (env : Environment) where
  -- `connection.userId` of the connection that is asked to leave is its own.
  abbrev pub leave_existing :
      GatewayConnection → (user_id channel_id : String) → GatewayRuntime D → Begun D
  leave_existing owner user existing g =
      let r = handle_voice_leave env owner user (some existing) g in (r.0, refusal_of r.1, r.2)

  abbrev pub begin_from :
      GatewayConnection → (user_id channel_id : String) → Option String → GatewayRuntime D → Begun D
  begin_from connection user channel none g = (g, none, [])
  begin_from connection user channel (some existing) g =
      let p = get_participant g.voice_room existing user in
      let owner = owning_connection g.connections connection p in
      let left = leave_existing owner (user_id_of owner.user_id) existing g in
      if existing == channel && is_by p connection.id
      then (g, some voice_already_joined, [])
      else left

  -- Up to the request to the media service.
  unfoldable pub join_begin :
      GatewayConnection → (user_id channel_id : String) → GatewayRuntime D → Begun D
  join_begin connection user channel g =
      elim (validate_voice_channel_access env.database channel user) [
        | some code ↦ (g, some code, [])
        | none ↦
            begin_from connection user channel (truthy (get_channel_for_user g.voice_room user)) g
      ]

  abbrev pub tell_streams_if_any :
      (connection_id channel_id : String) → List (StreamPublicationRecord D) → Action D
  tell_streams_if_any c channel [] = nothing
  tell_streams_if_any c channel (p ∷ ps) = tell_stream_state env channel (c ∷ [])

  abbrev pub tell_music_if_any :
      (connection_id channel_id : String) → List MusicPublicationRecord → Action D
  tell_music_if_any c channel [] = nothing
  tell_music_if_any c channel (p ∷ ps) = tell_music_state env channel (c ∷ [])

  abbrev pub after_joining :
      (connection_id channel_id : String) → List VoiceParticipantRecord → Action D
  after_joining c channel snapshot =
      set_voice_channel c (some channel)
      ⨾ tell_voice_state env channel snapshot
      ⨾ tell_roster env channel
      ⨾ tell_network env channel
      ⨾ (λ g. tell_streams_if_any c channel (Stream.get_publications g.stream_room channel) g)
      ⨾ (λ g. tell_music_if_any c channel (Music.get_publications g.music_room channel) g)

  abbrev pub answer_join :
      (connection_id channel_id session_id : String)
      → Option (List VoiceParticipantRecord)
      → GatewayRuntime D
      → Handled D
  answer_join c channel session none g = refuse voice_already_joined g
  answer_join c channel session (some snapshot) g =
      acknowledge (voice_joined channel session snapshot) (after_joining c channel snapshot) g

  -- From the answer of the media service on.
  unfoldable pub join_finish :
      GatewayConnection
      → (user_id channel_id : String) → (session_id : Option String) → GatewayRuntime D
      → Handled D
  join_finish connection user channel none g = refuse media_negotiation_timeout g
  join_finish connection user channel (some session) g =
      let r = Voice.join g.voice_room channel user connection.id session in
      answer_join connection.id channel session r.1 (record g { voice_room = r.0 })

  abbrev pub go_on :
      GatewayConnection → (user_id channel_id random_id : String) → Begun D → Handled D
  go_on connection user channel random_id (g, some code, effects) = (g, refused code, effects)
  go_on connection user channel random_id (g, none, effects) =
      let session = env.media.create_session (voice_request connection user channel random_id) in
      let r = join_finish connection user channel session g in (r.0, r.1, effects ++ r.2)

  -- With nothing in between. `random_id` is the `randomUUID()` of the request.
  unfoldable pub handle_voice_join :
      GatewayConnection
      → (user_id random_id : String) → (channel_id : Option String) → GatewayRuntime D
      → Handled D
  handle_voice_join connection user random_id none g = refuse invalid_payload g
  handle_voice_join connection user random_id (some channel) g =
      go_on connection user channel random_id (join_begin connection user channel g)

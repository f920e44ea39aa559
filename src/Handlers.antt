-- ===== src/Handlers.antt =====
-- apps/gateway/src/ws/event-router.ts, app-runtime.ts and app.ts: what the handlers that call the
-- media service or broadcast need. An action changes the runtime and leaves a trace of effects, in
-- order; handlers are actions one after another. The children hold the handlers and their proofs.
pub mod Leaving
pub mod Joining
pub mod Streaming
pub mod Playing
pub mod Sessions
pub mod Dispatch
pub mod Heartbeat
pub mod Frames
pub mod Departing
pub mod VoiceLeave
pub mod Soundness
pub mod StreamCommands
pub mod MusicCommands
pub mod SessionCommands
pub mod ModeChange
pub mod Histories
pub mod Liveness
pub mod Admission
pub mod Interleaving
pub mod Refusals
pub mod Producers
mod Tests
use baker_self_hosted_voice.Common.{
  ℕ, String, Bool, true, false, Option, none, some, List, [], ◌∷◌, ◌++◌, map, if◌then◌else◌,
}
use baker_self_hosted_voice.Common.StringMap.{get, set}
use baker_self_hosted_voice.Connection.{GatewayConnection, ConnectionManager}
use baker_self_hosted_voice.Connection.Registry.{is_the}
use baker_self_hosted_voice.Connection.Delivery.{Sent, send_to}
use baker_self_hosted_voice.Voice.{VoiceParticipantRecord, get_participants}
use baker_self_hosted_voice.Voice.Broadcast
use baker_self_hosted_voice.Stream
use baker_self_hosted_voice.Stream.Snapshot
use baker_self_hosted_voice.Music.Snapshot as MusicSnapshots
use baker_self_hosted_voice.Router.{
  GatewayRuntime, MediaMode, p2p, sfu, SessionMode, Database, Reply, refused, ErrorCode,
  MediaSessionDescriptor, ChannelType,
}
use baker_self_hosted_voice.Router.Signal.{MediaSignalRelay}
use baker_self_hosted_voice.Router.Broadcasts.{
  RuntimeEvent, voice_event, stream_event, music_event, producer_added, producer_removed,
  ProducerSource, music, stream, voice, SfuProducer, broadcast_voice_roster_updated,
  broadcast_voice_network_updated,
}

-- What the media service is asked for and told.
pub record MediaRequest : Type 0 where
  pub channel_id : String
  pub media_region_id : Option String
  pub mode : SessionMode
  pub session_id : String
  pub stream_id : Option String
  pub user_id : String

pub record SfuSession : Type 0 where
  pub channel_id : String
  pub mode : SessionMode
  pub session_id : String
  pub stream_id : Option String

-- The requests that only have an answer handed on.
pub data SfuOperation : Type 0 where
  create_transport connect_transport consume resume_consumer : SfuOperation

-- What `tokenVerifier` answers: the claims of a token, or why it has none.
pub data TokenResult : Type 0 where
  claims : (session_id user_id : String) → TokenResult
  expired invalid : TokenResult

pub record AuthSession : Type 0 where
  pub revoked : Bool
  pub user_id : String

-- What authentication looks up. A look-up of the name or of the guilds that fails finds none.
pub record Accounts : Type 0 where
  pub token_verifier : (access_token : String) → TokenResult
  pub find_session : (session_id : String) → Option AuthSession
  pub username_of : (user_id : String) → Option String
  pub guild_ids_of : (user_id : String) → List String
  pub channels_of : (guild_id user_id : String) → List (String × ChannelType)

-- The media service: a session's id, or `none` for a request that fails; and the producer that ended
-- with a session, if one did. A call of `close_session` that fails changes nothing, like `none`.
-- `produce` is the producer made, `operate` whether the request succeeds.
pub record MediaService : Type 0 where
  pub create_session : MediaRequest → Option String
  pub close_session : SfuSession → Option SfuProducer
  pub produce : MediaSessionDescriptor → Option SfuProducer
  pub operate : SfuOperation → MediaSessionDescriptor → Bool

-- What the handlers ask of the world around them. `persists` says of which stream sessions
-- `db.streamSessions.create` and the update to 'live' both succeed.
pub record Environment : Type 0 where
  pub accepts : ℕ → Bool
  pub to_iso_string : ℕ → String
  pub now_ms : ℕ
  pub database : Database
  pub media : MediaService
  pub accounts : Accounts
  pub persists : (session_id : String) → Bool

-- Calls of the presence manager are known by what they are asked: Presence models them.
pub data Effect : Type 0 where
  sent : Sent RuntimeEvent → Effect
  signalled : Sent (MediaSignalRelay String) → Effect
  socket_closed : (connection_id : String) → Effect
  presence_snapshot_sent : (connection_id : String) → Effect
  presence_connected : (user_id : String) → (username : Option String) → Effect
  sfu_closed : SfuSession → Effect
  stream_session_live : (session_id : String) → Effect
  stream_session_idle : (session_id : String) → Effect

abbrev pub Action : Type 0 → Type 0
Action D = GatewayRuntime D → GatewayRuntime D × List Effect

-- What a command comes to: the new state, the reply and the effects.
abbrev pub Handled : Type 0 → Type 0
Handled D = GatewayRuntime D × Reply × List Effect

abbrev pub as_effect {ℓ} : {E : Type ℓ} → (E → RuntimeEvent) → Sent E → Effect
as_effect f s = sent (record { to = s.to; seq = s.seq; event = f s.event })

-- `getVoiceConnectionIds`
abbrev pub voice_connection_ids :
    {D : Type 0} → GatewayRuntime D → (channel_id : String) → List String
voice_connection_ids g channel = map (λ p. p.connection_id) (get_participants g.voice_room channel)

abbrev pub is_sfu_mode : MediaMode → Bool
is_sfu_mode sfu = true
is_sfu_mode p2p = false

-- `connection.voiceChannelId = …`, on the registered connection with this id, if there is one.
abbrev pub place_connection :
    (connection_id : String) → Option String → ConnectionManager → ConnectionManager
place_connection c channel conns = elim (get c conns.connections) [
  | none ↦ conns
  | some conn ↦ record conns {
    connections = set c (record conn { voice_channel_id = channel }) conns.connections;
  }
]

-- The loop of `broadcastSfuProducerEvent`: the producer's own connections are left out.
unfoldable pub send_others :
    (accepts : ℕ → Bool)
    → (user_id : String) → RuntimeEvent
    → List String
    → ConnectionManager
    → ConnectionManager × List (Sent RuntimeEvent)
send_others accepts user event [] conns = (conns, [])
send_others accepts user event (c ∷ cs) conns = elim (get c conns.connections) [
  | none ↦ send_others accepts user event cs conns
  | some conn ↦
      let now = if is_the conn.user_id user then (conns, []) else send_to accepts event c conns in
      let later = send_others accepts user event cs now.0 in (later.0, now.1 ++ later.1)
]

module _ {D : Type 0} where
  abbrev pub nothing : Action D
  nothing g = (g, [])

  infixr 4 ◌⨾◌
  unfoldable pub ◌⨾◌ : Action D → Action D → Action D
  (a ⨾ b) g = let r = a g in let s = b r.0 in (s.0, r.1 ++ s.1)

  abbrev pub refuse : ErrorCode → GatewayRuntime D → Handled D
  refuse code g = (g, refused code, [])

  abbrev pub acknowledge : Reply → Action D → GatewayRuntime D → Handled D
  acknowledge reply a g = let r = a g in (r.0, reply, r.1)

  abbrev pub note : Effect → Action D
  note e g = (g, e ∷ [])

  -- A broadcast, which changes the connections only.
  unfoldable pub tell {ℓ} :
      {E : Type ℓ}
      → (E → RuntimeEvent)
      → (GatewayRuntime D → ConnectionManager × List (Sent E))
      → Action D
  tell f broadcast g =
      let r = broadcast g in (record g { connections = r.0 }, map (as_effect f) r.1)

  unfoldable pub set_voice_channel :
      (connection_id : String) → (channel_id : Option String) → Action D
  set_voice_channel c channel g =
      (record g { connections = place_connection c channel g.connections }, [])

module _ {D : Type 0} (env : Environment) where
  abbrev pub tell_voice_state : (channel_id : String) → List VoiceParticipantRecord → Action D
  tell_voice_state channel participants =
      tell voice_event
        (λ g. Broadcast.broadcast_state_updated env.accepts g.connections channel participants)

  abbrev pub tell_roster : (channel_id : String) → Action D
  tell_roster channel =
      tell (λ e. e)
        (λ g.
          broadcast_voice_roster_updated env.accepts env.database g.voice_room channel
            g.connections)

  abbrev pub tell_network : (channel_id : String) → Action D
  tell_network channel =
      tell (λ e. e)
        (λ g.
          broadcast_voice_network_updated env.accepts env.to_iso_string env.now_ms g.voice_room
            channel g.connections)

  -- The state of a channel's streams or music, to those who take part, to everybody in the voice
  -- channel and to the extra connections.
  abbrev pub tell_stream_state : (channel_id : String) → (extra : List String) → Action D
  tell_stream_state channel extra =
      tell stream_event (λ g.
        Snapshot.broadcast_state_updated env.accepts g.connections g.stream_room channel extra)

  abbrev pub tell_stream_cleared : (channel_id : String) → (connection_ids : List String) → Action D
  tell_stream_cleared channel ids =
      tell stream_event
        (λ g. Snapshot.broadcast_state_cleared env.accepts g.connections g.stream_room channel ids)

  abbrev pub tell_music_state : (channel_id : String) → (extra : List String) → Action D
  tell_music_state channel extra = tell music_event (λ g.
      MusicSnapshots.broadcast_state_updated env.accepts g.connections g.music_room channel extra)

  -- Who hears of a producer: for music those in the voice channel, as for voice.
  abbrev pub producer_audience : GatewayRuntime D → SfuProducer → ProducerSource → List String
  producer_audience g p voice = voice_connection_ids g p.channel_id
  producer_audience g p music = voice_connection_ids g p.channel_id
  producer_audience g p stream =
      Stream.get_audience_connection_ids g.stream_room p.channel_id p.stream_id

  abbrev pub tell_producer : RuntimeEvent → SfuProducer → Action D
  tell_producer event p =
      tell (λ e. e)
        (λ g.
          send_others env.accepts p.user_id event (producer_audience g p p.source) g.connections)

  abbrev pub tell_removed : Option SfuProducer → Action D
  tell_removed none = nothing
  tell_removed (some p) = tell_producer (producer_removed p) p

  -- `closeSfuSession`
  abbrev pub close_sfu_session : SfuSession → Action D
  close_sfu_session s = note (sfu_closed s) ⨾ tell_removed (env.media.close_session s)

  -- `if (runtime.mediaMode === 'sfu') await runtime.closeSfuSession(…)`
  unfoldable pub close_if_sfu : SfuSession → Action D
  close_if_sfu s g = (if is_sfu_mode g.media_mode then close_sfu_session s else nothing) g

-- ===== src/Handlers/Sessions.antt =====
-- event-router.ts: `handleStreamDiagnosticsReport`, `handleStreamDiagnosticsGet`,
-- `handleAuthenticate`, `handleMediaSessionReconnect` and the commands of the SFU.
use baker_self_hosted_voice.Common.{
  ℕ, suc, String, Bool, true, false, Option, none, some, List, [], ◌∷◌, ◌++◌, map, ◌==◌, ◌&&◌, ◌||◌,
  not, if◌then◌else◌, truthy,
}
use baker_self_hosted_voice.Common.StringMap.{get}
use baker_self_hosted_voice.Common.StringSet
use baker_self_hosted_voice.Connection.{GatewayConnection, ConnectionManager}
use baker_self_hosted_voice.Connection.Registry.{mark_authenticated}
use baker_self_hosted_voice.Connection.Delivery.{Sent, spend}
use baker_self_hosted_voice.Voice.{get_participants}
use baker_self_hosted_voice.Voice.Broadcast.{broadcast_roster_updated}
use baker_self_hosted_voice.Stream.{
  StreamViewerRecord, StreamRoomManager, StreamPublicationRecord, PublisherSample, get_publication,
}
use baker_self_hosted_voice.Stream.Publish.{set_publisher_diagnostics}
use baker_self_hosted_voice.Router.{
  GatewayRuntime, MediaSessionDescriptor, diagnostics_accepted, diagnostics_given, authenticated,
  session_restarted, sfu_done, refused, ErrorCode, forbidden, invalid_payload,
  media_negotiation_timeout, stream_not_host, token_expired, token_invalid, ChannelType, text,
  voice_channel,
}
use baker_self_hosted_voice.Router.Access.{
  validate_media_session_access, validate_sfu_access, get_media_session_audience_connection_ids,
}
use baker_self_hosted_voice.Router.Broadcasts.{
  RuntimeEvent, voice_event, producer_added, session_event, SfuProducer,
}
use baker_self_hosted_voice.Handlers.{
  Environment, Action, Handled, sent, socket_closed, presence_snapshot_sent, presence_connected,
  MediaRequest, SfuSession, SfuOperation, AuthSession, TokenResult, claims, expired, invalid,
  nothing, ◌⨾◌, note, tell, refuse, acknowledge, tell_producer, close_sfu_session, close_if_sfu,
}

pub record StreamDiagnosticsReportCommandData (D : Type 0) : Type 0 where
  pub channel_id : String
  pub publisher : D
  pub session_id : String
  pub stream_id : String

pub record StreamDiagnosticsGetCommandData : Type 0 where
  pub channel_id : String
  pub stream_id : String

-- `viewer?.connectionId === connection.id`
abbrev pub is_viewer_by : Option StreamViewerRecord → (connection_id : String) → Bool
is_viewer_by none c = false
is_viewer_by (some v) c = v.connection_id == c

abbrev pub session_of_descriptor : MediaSessionDescriptor → SfuSession
session_of_descriptor d = record {
  channel_id = d.channel_id;
  mode = d.mode;
  session_id = d.session_id;
  stream_id = d.stream_id;
}

-- `session && !session.revokedAt && session.userId === userId`
abbrev pub is_active : Option AuthSession → (user_id : String) → Bool
is_active none user = false
is_active (some s) user = not s.revoked && s.user_id == user

abbrev pub token_error : TokenResult → ErrorCode
token_error expired = token_expired
token_error invalid = token_invalid
token_error (claims session user) = token_invalid

-- The loop of `media.session.restarted`: a `send` that throws ends it, and the handler fails.
abbrev pub send_restarted_to :
    (accepts : ℕ → Bool)
    → RuntimeEvent
    → GatewayConnection
    → ConnectionManager × List (Sent RuntimeEvent) × Bool
    → ConnectionManager
    → ConnectionManager × List (Sent RuntimeEvent) × Bool
send_restarted_to accepts event target rest failed =
    if accepts target.socket
    then (rest.0, record { to = target.id; seq = suc target.seq; event = event } ∷ rest.1, rest.2)
    else (failed, [], false)

unfoldable pub send_restarted :
    (accepts : ℕ → Bool)
    → RuntimeEvent
    → (own_id : String) → List String
    → ConnectionManager
    → ConnectionManager × List (Sent RuntimeEvent) × Bool
send_restarted accepts event own [] conns = (conns, [], true)
send_restarted accepts event own (c ∷ cs) conns =
    let skip = send_restarted accepts event own cs conns in
    elim (get c conns.connections) [
      | none ↦ skip
      | some target ↦
          let spent = spend c target conns in
          let on = send_restarted accepts event own cs spent in
          if c == own then skip else send_restarted_to accepts event target on spent
    ]

module _ {D : Type 0} where
  abbrev pub close_socket : (connection_id : String) → ErrorCode → GatewayRuntime D → Handled D
  close_socket c code g = (g, refused code, socket_closed c ∷ [])

  abbrev pub answer_report : StreamRoomManager D × Bool → GatewayRuntime D → Handled D
  answer_report (m, true) g =
      acknowledge diagnostics_accepted nothing (record g { stream_room = m })
  answer_report (m, false) g = refuse stream_not_host (record g { stream_room = m })

  abbrev pub may_diagnose :
      StreamPublicationRecord D → GatewayConnection → (user_id : String) → Bool
  may_diagnose p connection user =
      (p.host.user_id == user && p.host.connection_id == connection.id)
      || is_viewer_by (get user p.viewers) connection.id

  abbrev pub sampled_at_of : Option (PublisherSample D) → Option ℕ
  sampled_at_of none = none
  sampled_at_of (some s) = some s.sampled_at

  -- The diagnostics of the SFU are handed on, and left out if they cannot be had.
  unfoldable pub handle_stream_diagnostics_get :
      GatewayConnection
      → (user_id : String) → Option StreamDiagnosticsGetCommandData
      → GatewayRuntime D
      → Handled D
  handle_stream_diagnostics_get connection user none g = refuse invalid_payload g
  handle_stream_diagnostics_get connection user (some d) g =
      elim (get_publication g.stream_room d.channel_id d.stream_id) [
        | none ↦ refuse forbidden g
        | some p ↦
            if may_diagnose p connection user
            then acknowledge (diagnostics_given (sampled_at_of p.publisher_diagnostics)) nothing g
            else refuse forbidden g
      ]

module _ {D : Type 0} (env : Environment) where
  unfoldable pub handle_stream_diagnostics_report :
      GatewayConnection
      → Option (StreamDiagnosticsReportCommandData D)
      → GatewayRuntime D
      → Handled D
  handle_stream_diagnostics_report connection none g = refuse invalid_payload g
  handle_stream_diagnostics_report connection (some d) g =
      answer_report
        (set_publisher_diagnostics g.stream_room d.channel_id d.stream_id d.session_id connection.id
          d.publisher env.now_ms)
        g

  -- A roster of each voice channel that the user may see, to one connection.
  abbrev pub tell_channels : (connection_id : String) → List (String × ChannelType) → Action D
  tell_channels c [] = nothing
  tell_channels c ((channel, text) ∷ rest) = tell_channels c rest
  tell_channels c ((channel, voice_channel) ∷ rest) =
      tell voice_event (λ g.
        broadcast_roster_updated env.accepts g.connections channel
          (get_participants g.voice_room channel) (c ∷ []))
      ⨾ tell_channels c rest

  unfoldable pub send_voice_roster_snapshot_to_connection :
      (connection_id user_id : String) → (guild_ids : List String) → Action D
  send_voice_roster_snapshot_to_connection c user [] = nothing
  send_voice_roster_snapshot_to_connection c user (guild ∷ guilds) =
      tell_channels c (env.accounts.channels_of guild user)
      ⨾ send_voice_roster_snapshot_to_connection c user guilds

  abbrev pub mark : (connection_id user_id session_id : String) → Action D
  mark c user session g =
      let r =
        mark_authenticated g.connections c user session (env.accounts.username_of user)
          (env.accounts.guild_ids_of user) in
      (record g { connections = r.0 }, [])

  -- From `markAuthenticated` on. The guilds of the connection are those that were just looked up.
  abbrev pub welcome : (connection_id user_id session_id : String) → Action D
  welcome c user session =
      mark c user session
      ⨾ note (presence_snapshot_sent c)
      ⨾ send_voice_roster_snapshot_to_connection c user
          (StringSet.from_list (env.accounts.guild_ids_of user))
      ⨾ note (presence_connected user (env.accounts.username_of user))

  abbrev pub authenticate_with : GatewayConnection → TokenResult → GatewayRuntime D → Handled D
  authenticate_with connection (claims session user) g =
      if is_active (env.accounts.find_session session) user
      then acknowledge (authenticated connection.id user) (welcome connection.id user session) g
      else close_socket connection.id token_invalid g
  authenticate_with connection result g = close_socket connection.id (token_error result) g

  unfoldable pub handle_authenticate :
      GatewayConnection → (access_token : Option String) → GatewayRuntime D → Handled D
  handle_authenticate connection none g = refuse invalid_payload g
  handle_authenticate connection (some token) g =
      authenticate_with connection (env.accounts.token_verifier token) g

  abbrev pub answer_restart :
      MediaSessionDescriptor
      → ConnectionManager × List (Sent RuntimeEvent) × Bool
      → GatewayRuntime D
      → Handled D
  answer_restart d (conns, letters, true) g =
      (record g { connections = conns }, session_restarted d, map sent letters)
  answer_restart d (conns, letters, false) g =
      (record g { connections = conns }, refused media_negotiation_timeout, map sent letters)

  abbrev pub restart_with :
      GatewayConnection
      → MediaSessionDescriptor
      → (session_id : Option String) → GatewayRuntime D
      → Handled D
  restart_with connection d none g = refuse media_negotiation_timeout g
  restart_with connection d (some session) g =
      answer_restart d
        (send_restarted env.accepts (session_event d) connection.id
          (get_media_session_audience_connection_ids g d) g.connections)
        g

  abbrev pub restart :
      GatewayConnection → (user_id : String) → MediaSessionDescriptor → GatewayRuntime D → Handled D
  restart connection user d g =
      let closed = close_if_sfu env (session_of_descriptor d) g in
      let request : MediaRequest = record {
        channel_id = d.channel_id;
        media_region_id = connection.media_region_id;
        mode = d.mode;
        session_id = d.session_id;
        stream_id = truthy d.stream_id;
        user_id = user;
      } in
      let r = restart_with connection d (env.media.create_session request) closed.0 in
      (r.0, r.1, closed.1 ++ r.2)

  unfoldable pub handle_media_session_reconnect :
      GatewayConnection
      → (user_id : String) → Option MediaSessionDescriptor
      → GatewayRuntime D
      → Handled D
  handle_media_session_reconnect connection user none g = refuse invalid_payload g
  handle_media_session_reconnect connection user (some d) g =
      let restarted = restart connection user d g in
      if validate_media_session_access g connection user d then restarted else refuse forbidden g

  abbrev pub answer_operation : Bool → GatewayRuntime D → Handled D
  answer_operation true g = acknowledge sfu_done nothing g
  answer_operation false g = refuse media_negotiation_timeout g

  -- `handleSfuCreateTransport`, `handleSfuConnectTransport`, `handleSfuConsume` and
  -- `handleSfuResumeConsumer`, which differ in the request.
  unfoldable pub handle_sfu_operation :
      SfuOperation
      → GatewayConnection
      → (user_id : String) → Option MediaSessionDescriptor
      → GatewayRuntime D
      → Handled D
  handle_sfu_operation op connection user none g = refuse invalid_payload g
  handle_sfu_operation op connection user (some d) g =
      if validate_sfu_access g connection user d
      then answer_operation (env.media.operate op d) g
      else refuse forbidden g

  abbrev pub answer_produce : Option SfuProducer → GatewayRuntime D → Handled D
  answer_produce none g = refuse media_negotiation_timeout g
  answer_produce (some p) g = acknowledge sfu_done (tell_producer env (producer_added p) p) g

  unfoldable pub handle_sfu_produce :
      GatewayConnection
      → (user_id : String) → Option MediaSessionDescriptor
      → GatewayRuntime D
      → Handled D
  handle_sfu_produce connection user none g = refuse invalid_payload g
  handle_sfu_produce connection user (some d) g =
      let produced = answer_produce (env.media.produce d) g in
      if validate_sfu_access g connection user d then produced else refuse forbidden g

  -- A `closeSfu` that fails leaves the command without an answer: it is taken to succeed.
  unfoldable pub handle_sfu_close :
      GatewayConnection
      → (user_id : String) → Option MediaSessionDescriptor
      → GatewayRuntime D
      → Handled D
  handle_sfu_close connection user none g = refuse invalid_payload g
  handle_sfu_close connection user (some d) g =
      let closed = acknowledge sfu_done (close_sfu_session env (session_of_descriptor d)) g in
      if validate_sfu_access g connection user d then closed else refuse forbidden g

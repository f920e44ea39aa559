-- ===== src/Handlers/Streaming.antt =====
-- event-router.ts: `handleStreamStart`, `handleStreamStop`, `handleStreamWatch`,
-- `handleStreamUnwatch` and `resolveTargetPublication`, each with nothing in between while it waits.
use baker_self_hosted_voice.Common.{
  String, Bool, true, false, Option, none, some, List, [], ◌∷◌, ◌++◌, ◌==◌, if◌then◌else◌, truthy,
  ◌⊎◌, inl, inr,
}
use baker_self_hosted_voice.Stream.{
  StreamSourceType, StreamViewerRecord, StreamPublicationRecord, get_publication, get_publications,
  get_viewer, find_hosted_publication_by_user, find_watched_publications_by_user,
}
use baker_self_hosted_voice.Stream.Publish
use baker_self_hosted_voice.Stream.Publish.{Stopped, Watching}
use baker_self_hosted_voice.Connection.{GatewayConnection}
use baker_self_hosted_voice.Router.{
  GatewayRuntime, SessionMode, stream_publish, stream_watch, stream_started, stream_stopped,
  stream_watching, stream_unwatched, refused, ErrorCode, internal_server_error, invalid_payload,
  media_negotiation_timeout, stream_already_live, stream_already_watching, stream_not_found,
  stream_not_host, stream_not_live,
}
use baker_self_hosted_voice.Handlers.{
  Environment, Action, Handled, MediaRequest, SfuSession, stream_session_live, stream_session_idle,
  nothing, ◌⨾◌, note, refuse, acknowledge, voice_connection_ids, tell_stream_state,
  tell_stream_cleared, close_if_sfu,
}
use baker_self_hosted_voice.Handlers.Joining.{validate_voice_channel_access}

-- The command's data, without the codec and the quality, which only go to the database.
pub record StreamStartCommandData : Type 0 where
  pub channel_id : String
  pub source_type : StreamSourceType

-- The data of `stream.stop`, `stream.watch` and `stream.unwatch`.
pub record StreamCommandData : Type 0 where
  pub channel_id : String
  pub stream_id : Option String

abbrev pub stream_request :
    GatewayConnection
    → SessionMode
    → (user_id channel_id stream_id random_id : String) → MediaRequest
stream_request connection mode user channel stream random_id = record {
  channel_id = channel;
  media_region_id = connection.media_region_id;
  mode = mode;
  session_id = random_id;
  stream_id = some stream;
  user_id = user;
}

abbrev pub stream_session : SessionMode → (channel_id session_id stream_id : String) → SfuSession
stream_session mode channel session stream = record {
  channel_id = channel;
  mode = mode;
  session_id = session;
  stream_id = some stream;
}

-- `streamId ? 'STREAM_NOT_FOUND' : 'STREAM_NOT_HOST'`
abbrev pub missing_stream : Option String → ErrorCode
missing_stream none = stream_not_host
missing_stream (some s) = stream_not_found

module _ {D : Type 0} where
  unfoldable pub resolve_target_publication :
      GatewayRuntime D
      → (channel_id : String) → (stream_id : Option String) → Option (StreamPublicationRecord D)
  resolve_target_publication g channel stream = elim (truthy stream) [
    | some s ↦ get_publication g.stream_room channel s
    | none ↦ elim (get_publications g.stream_room channel) [
      | [] ↦ none
      | p ∷ ps ↦ elim ps [ [] ↦ some p | q ∷ qs ↦ none ]
    ]
  ]

  -- The id that `stream.unwatch` names, or the only publication watched: `none` is the refusal.
  abbrev pub only_watched : List (StreamPublicationRecord D) → Option (Option String)
  only_watched [] = some none
  only_watched (p ∷ []) = some (some p.stream_id)
  only_watched (p ∷ q ∷ ps) = none

  abbrev pub unwatch_target :
      GatewayRuntime D
      → (user_id channel_id : String) → (stream_id : Option String) → Option (Option String)
  unwatch_target g user channel none =
      only_watched (find_watched_publications_by_user g.stream_room user (some channel))
  unwatch_target g user channel (some s) = some (some s)

  -- `getPublication(channelId, streamId)` or `findHostedPublicationByUser(userId, channelId)`
  abbrev pub stop_target :
      GatewayRuntime D
      → (user_id channel_id : String) → (stream_id : Option String)
      → Option (StreamPublicationRecord D)
  stop_target g user channel none =
      find_hosted_publication_by_user g.stream_room user (some channel)
  stop_target g user channel (some s) = get_publication g.stream_room channel s

  -- The guards of `stream.watch`, from the first look at the publications on. That several are live
  -- and none is named is where `resolveTargetPublication` finds none, with the same code.
  abbrev pub watch_target :
      GatewayRuntime D
      → (channel_id : String) → (stream_id : Option String) → List (StreamPublicationRecord D)
      → ErrorCode ⊎ StreamPublicationRecord D
  watch_target g channel stream [] = inl stream_not_live
  watch_target g channel stream (p ∷ ps) = elim (resolve_target_publication g channel stream) [
    | none ↦ inl stream_not_found
    | some q ↦ inr q
  ]

module _ {D : Type 0} (env : Environment) where
  abbrev pub tell_voice_stream_state : (channel_id : String) → Action D
  tell_voice_stream_state channel g =
      tell_stream_state env channel (voice_connection_ids g channel) g

  abbrev pub tell_stopped : (channel_id : String) → Option Stopped → Action D
  tell_stopped channel none = nothing
  tell_stopped channel (some s) =
      λ g. tell_stream_cleared env channel (s.connection_ids ++ voice_connection_ids g channel) g

  -- The `catch` of `stream.start`.
  abbrev pub take_back : (channel_id stream_id user_id : String) → Action D
  take_back channel stream user g =
      let r = Publish.stop g.stream_room channel stream user in
      tell_stopped channel r.1 (record g { stream_room = r.0 })

  abbrev pub persist :
      (channel_id stream_id user_id session_id : String) → Bool → GatewayRuntime D → Handled D
  persist channel stream user session true g =
      acknowledge (stream_started channel stream session)
        (note (stream_session_live session) ⨾ tell_voice_stream_state channel) g
  persist channel stream user session false g =
      let r = take_back channel stream user g in (r.0, refused internal_server_error, r.1)

  abbrev pub answer_start :
      (channel_id stream_id user_id session_id : String)
      → Option (StreamPublicationRecord D)
      → GatewayRuntime D
      → Handled D
  answer_start channel stream user session none g = refuse stream_already_live g
  answer_start channel stream user session (some started) g =
      persist channel stream user session (env.persists session) g

  abbrev pub start_with :
      GatewayConnection
      → (user_id stream_id : String) → StreamStartCommandData
      → (session_id : Option String) → GatewayRuntime D
      → Handled D
  start_with connection user stream d none g = refuse media_negotiation_timeout g
  start_with connection user stream d (some session) g =
      let r =
        Publish.start g.stream_room d.channel_id stream user connection.id session d.source_type in
      answer_start d.channel_id stream user session r.1 (record g { stream_room = r.0 })

  -- `stream_id` and `random_id` are the two `randomUUID()`.
  unfoldable pub handle_stream_start :
      GatewayConnection
      → (user_id stream_id random_id : String) → Option StreamStartCommandData
      → GatewayRuntime D
      → Handled D
  handle_stream_start connection user stream random_id none g = refuse invalid_payload g
  handle_stream_start connection user stream random_id (some d) g =
      elim (validate_voice_channel_access env.database d.channel_id user) [
        | some code ↦ refuse code g
        | none ↦ elim (find_hosted_publication_by_user g.stream_room user (some d.channel_id)) [
          | some p ↦ refuse stream_already_live g
          | none ↦
              start_with connection user stream d
                (env.media.create_session
                  (stream_request connection stream_publish user d.channel_id stream random_id))
                g
        ]
      ]

  abbrev pub answer_stop : (channel_id : String) → Option Stopped → GatewayRuntime D → Handled D
  answer_stop channel none g = refuse stream_not_found g
  answer_stop channel (some s) g =
      acknowledge (stream_stopped channel s.stream_id)
        (note (stream_session_idle s.session_id)
          ⨾ close_if_sfu env (stream_session stream_publish channel s.session_id s.stream_id)
          ⨾ tell_stopped channel (some s))
        g

  unfoldable pub handle_stream_stop :
      (user_id : String) → Option StreamCommandData → GatewayRuntime D → Handled D
  handle_stream_stop user none g = refuse invalid_payload g
  handle_stream_stop user (some d) g = elim (stop_target g user d.channel_id (truthy d.stream_id)) [
    | none ↦ refuse (missing_stream (truthy d.stream_id)) g
    | some p ↦
        let r = Publish.stop g.stream_room d.channel_id p.stream_id user in
        let stopped = answer_stop d.channel_id r.1 (record g { stream_room = r.0 }) in
        if p.host.user_id == user then stopped else refuse stream_not_host g
  ]

  abbrev pub answer_watch :
      (channel_id : String) → Option (Watching D) → GatewayRuntime D → Handled D
  answer_watch channel none g = refuse stream_not_found g
  answer_watch channel (some w) g =
      acknowledge
        (stream_watching channel w.publication.stream_id w.publication.host.session_id
          w.publication.host.user_id w.viewer_session_id)
        (tell_voice_stream_state channel) g

  abbrev pub watch_with :
      GatewayConnection
      → (user_id channel_id stream_id : String) → (session_id : Option String) → GatewayRuntime D
      → Handled D
  watch_with connection user channel stream none g = refuse media_negotiation_timeout g
  watch_with connection user channel stream (some session) g =
      let r = Publish.add_viewer g.stream_room channel stream user connection.id session in
      answer_watch channel r.1 (record g { stream_room = r.0 })

  abbrev pub watch_publication :
      GatewayConnection
      → (user_id channel_id random_id : String) → StreamPublicationRecord D
      → Option StreamViewerRecord
      → GatewayRuntime D
      → Handled D
  watch_publication connection user channel random_id p (some v) g =
      acknowledge
        (stream_watching channel p.stream_id p.host.session_id p.host.user_id v.session_id) nothing
        g
  watch_publication connection user channel random_id p none g =
      watch_with connection user channel p.stream_id
        (env.media.create_session
          (stream_request connection stream_watch user channel p.stream_id random_id))
        g

  unfoldable pub handle_stream_watch :
      GatewayConnection
      → (user_id random_id : String) → Option StreamCommandData
      → GatewayRuntime D
      → Handled D
  handle_stream_watch connection user random_id none g = refuse invalid_payload g
  handle_stream_watch connection user random_id (some d) g =
      elim (validate_voice_channel_access env.database d.channel_id user) [
        | some code ↦ refuse code g
        | none ↦
            elim (watch_target g d.channel_id d.stream_id
              (get_publications g.stream_room d.channel_id)) [
                | inl code ↦ refuse code g
                | inr p ↦
                    let watching =
                      watch_publication connection user d.channel_id random_id p
                        (get_viewer g.stream_room d.channel_id p.stream_id user) g in
                    if p.host.user_id == user then refuse stream_already_watching g else watching
              ]
      ]

  -- `runtime.mediaMode === 'sfu' && viewer`
  abbrev pub close_viewer : (channel_id stream_id : String) → Option StreamViewerRecord → Action D
  close_viewer channel stream none = nothing
  close_viewer channel stream (some v) =
      close_if_sfu env (stream_session stream_watch channel v.session_id stream)

  abbrev pub after_unwatch :
      (channel_id stream_id : String) → Option StreamViewerRecord → Bool → Action D
  after_unwatch channel stream viewer false = nothing
  after_unwatch channel stream viewer true =
      close_viewer channel stream viewer ⨾ tell_voice_stream_state channel

  abbrev pub unwatch :
      (user_id channel_id : String) → (stream_id : Option String) → GatewayRuntime D → Handled D
  unwatch user channel none g = acknowledge (stream_unwatched channel none) nothing g
  unwatch user channel (some stream) g =
      let viewer = get_viewer g.stream_room channel stream user in
      let r = Publish.remove_viewer g.stream_room channel stream user in
      acknowledge (stream_unwatched channel (some stream)) (after_unwatch channel stream viewer r.1)
        (record g { stream_room = r.0 })

  unfoldable pub handle_stream_unwatch :
      (user_id : String) → Option StreamCommandData → GatewayRuntime D → Handled D
  handle_stream_unwatch user none g = refuse invalid_payload g
  handle_stream_unwatch user (some d) g =
      elim (unwatch_target g user d.channel_id (truthy d.stream_id)) [
        | none ↦ refuse stream_not_found g
        | some target ↦ unwatch user d.channel_id (truthy target) g
      ]

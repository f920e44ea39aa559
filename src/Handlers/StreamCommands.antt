-- ===== src/Handlers/StreamCommands.antt =====
-- That the commands of streams keep all rooms sound.
use baker_self_hosted_voice.Common.{
  String, Bool, true, false, Option, none, some, ◌≡◌, refl, Bool-cases, inl, inr, truthy,
  Option-cases, ◌==◌, ◌⊎◌,
}
use baker_self_hosted_voice.Connection.{GatewayConnection}
use baker_self_hosted_voice.Stream.{
  StreamPublicationRecord, StreamViewerRecord, get_viewer, find_hosted_publication_by_user,
  get_publications,
}
use baker_self_hosted_voice.Stream.Publish
use baker_self_hosted_voice.Stream.Publish.{Stopped, Watching}
use baker_self_hosted_voice.Stream.Invariant.{
  start-IsValid, stop-IsValid, add_viewer-IsValid, remove_viewer-IsValid,
}
use baker_self_hosted_voice.Router.{GatewayRuntime, ErrorCode, stream_publish}
use baker_self_hosted_voice.Handlers.{
  Environment, ◌⨾◌, tell, note, close_if_sfu, stream_session_idle,
}
use baker_self_hosted_voice.Handlers.Joining.{validate_voice_channel_access}
use baker_self_hosted_voice.Handlers.Streaming.{
  StreamStartCommandData, StreamCommandData, tell_stopped, take_back, persist, answer_start,
  start_with, handle_stream_start, answer_stop, handle_stream_stop, stop_target, answer_watch,
  watch_with, watch_publication, handle_stream_watch, watch_target, close_viewer, after_unwatch,
  unwatch, handle_stream_unwatch, unwatch_target, stream_session,
}
use baker_self_hosted_voice.Handlers.Frames.{
  IsQuiet, then-IsQuiet, tell-IsQuiet, close_if_sfu-IsQuiet,
}
use baker_self_hosted_voice.Handlers.Soundness.{Sound, Keeps, quiet-Sound, with_streams}

module _ {D : Type 0} (env : Environment) where
  pub tell_stopped-IsQuiet :
      (c : String) (o : Option Stopped) → IsQuiet (tell_stopped {D = D} env c o)
  unfolding tell
  tell_stopped-IsQuiet c none g = refl
  tell_stopped-IsQuiet c (some s) g = refl

  take_back-Sound :
      (c s u : String) (g : GatewayRuntime D) → Sound g → Sound (take_back env c s u g).0
  take_back-Sound c s u g v =
      let r = Publish.stop g.stream_room c s u in
      quiet-Sound (tell_stopped env c r.1) (tell_stopped-IsQuiet c r.1)
        (record g { stream_room = r.0 })
        (with_streams g r.0 (stop-IsValid g.stream_room c s u v.streams) v)

  persist-Keeps : (c s u n : String) (b : Bool) → Keeps (persist {D = D} env c s u n b)
  unfolding tell ◌⨾◌
  persist-Keeps c s u n true g v = v
  persist-Keeps c s u n false g v = take_back-Sound c s u g v

  answer_start-Keeps :
      (c s u n : String) (o : Option (StreamPublicationRecord D))
      → Keeps (answer_start env c s u n o)
  answer_start-Keeps c s u n none g v = v
  answer_start-Keeps c s u n (some p) g v = persist-Keeps c s u n (env.persists n) g v

  start_with-Keeps :
      (connection : GatewayConnection) (u s : String) (d : StreamStartCommandData)
      (o : Option String)
      → Keeps (start_with {D = D} env connection u s d o)
  start_with-Keeps connection u s d none g v = v
  start_with-Keeps connection u s d (some n) g v =
      let r = Publish.start g.stream_room d.channel_id s u connection.id n d.source_type in
      answer_start-Keeps d.channel_id s u n r.1 (record g { stream_room = r.0 })
        (with_streams g r.0
          (start-IsValid g.stream_room d.channel_id s u connection.id n d.source_type v.streams) v)

  pub handle_stream_start-Keeps :
      (connection : GatewayConnection) (u s n : String) (d : Option StreamStartCommandData)
      → Keeps (handle_stream_start {D = D} env connection u s n d)
  unfolding handle_stream_start
  handle_stream_start-Keeps connection u s n none g v = v
  handle_stream_start-Keeps connection u s n (some d) g v =
      elim (Option-cases (validate_voice_channel_access env.database d.channel_id u)) [
        | inr (code, denied) ↦ rw (denied, handle_stream_start) v
        | inl allowed ↦
            elim (Option-cases
              (find_hosted_publication_by_user g.stream_room u (some d.channel_id))) [
                | inr (p, hosting) ↦ rw (allowed, hosting, handle_stream_start) v
                | inl free ↦
                    rw (allowed, free, handle_stream_start)
                      (start_with-Keeps connection u s d _ g v)
              ]
      ]

  answer_stop-Keeps : (c : String) (o : Option Stopped) → Keeps (answer_stop {D = D} env c o)
  answer_stop-Keeps c none g v = v
  answer_stop-Keeps c (some s) g v =
      quiet-Sound
        (note (stream_session_idle s.session_id)
          ⨾ close_if_sfu env (stream_session stream_publish c s.session_id s.stream_id)
          ⨾ tell_stopped env c (some s))
        (then-IsQuiet _ _ (λ h. refl)
          (then-IsQuiet _ _ (close_if_sfu-IsQuiet env _) (tell_stopped-IsQuiet c (some s))))
        g v

  pub handle_stream_stop-Keeps :
      (u : String) (d : Option StreamCommandData) → Keeps (handle_stream_stop {D = D} env u d)
  unfolding handle_stream_stop
  handle_stream_stop-Keeps u none g v = v
  handle_stream_stop-Keeps u (some d) g v =
      elim (Option-cases (stop_target g u d.channel_id (truthy d.stream_id))) [
        | inl missing ↦ rw (missing, handle_stream_stop) v
        | inr (p, found) ↦ elim (Bool-cases (p.host.user_id == u)) [
          | inr other ↦ rw (found, handle_stream_stop, other) v
          | inl own ↦
              let r = Publish.stop g.stream_room d.channel_id p.stream_id u in
              rw (found, handle_stream_stop, own)
                (answer_stop-Keeps d.channel_id r.1 (record g { stream_room = r.0 })
                  (with_streams g r.0
                    (stop-IsValid g.stream_room d.channel_id p.stream_id u v.streams) v))
        ]
      ]

  answer_watch-Keeps : (c : String) (o : Option (Watching D)) → Keeps (answer_watch env c o)
  unfolding tell
  answer_watch-Keeps c none g v = v
  answer_watch-Keeps c (some w) g v = v

  watch_with-Keeps :
      (connection : GatewayConnection) (u c s : String) (o : Option String)
      → Keeps (watch_with {D = D} env connection u c s o)
  watch_with-Keeps connection u c s none g v = v
  watch_with-Keeps connection u c s (some n) g v =
      let r = Publish.add_viewer g.stream_room c s u connection.id n in
      answer_watch-Keeps c r.1 (record g { stream_room = r.0 })
        (with_streams g r.0 (add_viewer-IsValid g.stream_room c s u connection.id n v.streams) v)

  watch_publication-Keeps :
      (connection : GatewayConnection) (u c n : String) (p : StreamPublicationRecord D)
      (o : Option StreamViewerRecord)
      → Keeps (watch_publication env connection u c n p o)
  watch_publication-Keeps connection u c n p (some viewer) g v = v
  watch_publication-Keeps connection u c n p none g v =
      watch_with-Keeps connection u c p.stream_id _ g v

  -- From the publication found on.
  watch_found-Sound :
      (connection : GatewayConnection) (u n : String) (d : StreamCommandData)
      (o : ErrorCode ⊎ StreamPublicationRecord D) (g : GatewayRuntime D)
      → validate_voice_channel_access env.database d.channel_id u ≡ none
      → watch_target g d.channel_id d.stream_id (get_publications g.stream_room d.channel_id) ≡ o
      → Sound g
      → Sound (handle_stream_watch env connection u n (some d) g).0
  unfolding handle_stream_watch
  watch_found-Sound connection u n d (inl code) g allowed e v =
      rw (allowed, e, handle_stream_watch) v
  watch_found-Sound connection u n d (inr p) g allowed e v =
      elim (Bool-cases (p.host.user_id == u)) [
        | inl own ↦ rw (allowed, e, handle_stream_watch, own) v
        | inr other ↦
            rw (allowed, e, handle_stream_watch, other)
              (watch_publication-Keeps connection u d.channel_id n p
                (get_viewer g.stream_room d.channel_id p.stream_id u) g v)
      ]

  pub handle_stream_watch-Keeps :
      (connection : GatewayConnection) (u n : String) (d : Option StreamCommandData)
      → Keeps (handle_stream_watch {D = D} env connection u n d)
  unfolding handle_stream_watch
  handle_stream_watch-Keeps connection u n none g v = v
  handle_stream_watch-Keeps connection u n (some d) g v =
      elim (Option-cases (validate_voice_channel_access env.database d.channel_id u)) [
        | inr (code, denied) ↦ rw (denied, handle_stream_watch) v
        | inl allowed ↦ watch_found-Sound connection u n d _ g allowed refl v
      ]

  close_viewer-IsQuiet :
      (c s : String) (o : Option StreamViewerRecord) → IsQuiet (close_viewer {D = D} env c s o)
  close_viewer-IsQuiet c s none g = refl
  close_viewer-IsQuiet c s (some viewer) g = close_if_sfu-IsQuiet env _ g

  after_unwatch-IsQuiet :
      (c s : String) (o : Option StreamViewerRecord) (b : Bool)
      → IsQuiet (after_unwatch {D = D} env c s o b)
  after_unwatch-IsQuiet c s o false g = refl
  after_unwatch-IsQuiet c s o true g =
      then-IsQuiet _ _ (close_viewer-IsQuiet c s o) (λ h. tell-IsQuiet _ _ h) g

  unwatch-Keeps : (u c : String) (o : Option String) → Keeps (unwatch {D = D} env u c o)
  unwatch-Keeps u c none g v = v
  unwatch-Keeps u c (some s) g v =
      let viewer = get_viewer g.stream_room c s u in
      let r = Publish.remove_viewer g.stream_room c s u in
      quiet-Sound (after_unwatch env c s viewer r.1) (after_unwatch-IsQuiet c s viewer r.1)
        (record g { stream_room = r.0 })
        (with_streams g r.0 (remove_viewer-IsValid g.stream_room c s u v.streams) v)

  pub handle_stream_unwatch-Keeps :
      (u : String) (d : Option StreamCommandData) → Keeps (handle_stream_unwatch {D = D} env u d)
  unfolding handle_stream_unwatch
  handle_stream_unwatch-Keeps u none g v = v
  handle_stream_unwatch-Keeps u (some d) g v =
      elim (Option-cases (unwatch_target g u d.channel_id (truthy d.stream_id))) [
        | inl several ↦ rw (several, handle_stream_unwatch) v
        | inr (target, found) ↦
            rw (found, handle_stream_unwatch) (unwatch-Keeps u d.channel_id (truthy target) g v)
      ]

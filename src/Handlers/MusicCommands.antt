-- ===== src/Handlers/MusicCommands.antt =====
-- That the commands of music keep all rooms sound.
use baker_self_hosted_voice.Common.{
  String, Bool, true, false, Option, none, some, refl, Bool-cases, inl, inr, truthy, Option-cases,
  ◌==◌, ◌++◌,
}
use baker_self_hosted_voice.Connection.{GatewayConnection}
use baker_self_hosted_voice.Music.{
  MusicPublicationRecord, MusicListenerRecord, get_publication, get_listener,
  find_hosted_publication_by_user as find_hosted_music,
}
use baker_self_hosted_voice.Music.Publish as MusicPublish
use baker_self_hosted_voice.Music.Invariant.{
  start-IsValid as music_start-IsValid, stop-IsValid as music_stop-IsValid, add_listener-IsValid,
  remove_listener-IsValid,
}
use baker_self_hosted_voice.Handlers.Playing as Playing
use baker_self_hosted_voice.Handlers.Playing.{
  MusicStopCommandData, MusicCommandData, music_access_error, stop_music_target, handle_music_start,
  handle_music_stop, answer_listen, listen_with, listen_publication, handle_music_listen,
  close_listener, after_unlisten, handle_music_unlisten,
}
use baker_self_hosted_voice.Router.{music_publish}
use baker_self_hosted_voice.Handlers.{
  Environment, ◌⨾◌, tell, close_if_sfu, tell_music_state, voice_connection_ids,
}
use baker_self_hosted_voice.Handlers.Streaming.{stream_session}
use baker_self_hosted_voice.Handlers.Frames.{
  IsQuiet, then-IsQuiet, tell-IsQuiet, close_if_sfu-IsQuiet,
}
use baker_self_hosted_voice.Handlers.Soundness.{Keeps, quiet-Sound, with_musics}

module _ {D : Type 0} (env : Environment) where
  answer_start-Keeps :
      (c s n : String) (o : Option MusicPublicationRecord)
      → Keeps (Playing.answer_start {D = D} env c s n o)
  unfolding tell
  answer_start-Keeps c s n none g v = v
  answer_start-Keeps c s n (some p) g v = v

  start_with-Keeps :
      (connection : GatewayConnection) (u c s : String) (o : Option String)
      → Keeps (Playing.start_with {D = D} env connection u c s o)
  start_with-Keeps connection u c s none g v = v
  start_with-Keeps connection u c s (some n) g v =
      let r = MusicPublish.start g.music_room c s u connection.id n in
      answer_start-Keeps c s n r.1 (record g { music_room = r.0 })
        (with_musics g r.0 (music_start-IsValid g.music_room c s u connection.id n v.musics) v)

  pub handle_music_start-Keeps :
      (connection : GatewayConnection) (u s n : String) (d : Option String)
      → Keeps (handle_music_start {D = D} env connection u s n d)
  unfolding handle_music_start
  handle_music_start-Keeps connection u s n none g v = v
  handle_music_start-Keeps connection u s n (some c) g v =
      elim (Option-cases (music_access_error env g c u)) [
        | inr (code, denied) ↦ rw (denied, handle_music_start) v
        | inl allowed ↦ elim (Option-cases (find_hosted_music g.music_room u (some c))) [
          | inr (p, hosting) ↦ rw (allowed, hosting, handle_music_start) v
          | inl free ↦
              rw (allowed, free, handle_music_start) (start_with-Keeps connection u c s _ g v)
        ]
      ]

  answer_stop-Keeps :
      (c : String) (o : Option MusicPublish.Stopped) → Keeps (Playing.answer_stop {D = D} env c o)
  answer_stop-Keeps c none g v = v
  answer_stop-Keeps c (some s) g v =
      quiet-Sound
        (close_if_sfu env (stream_session music_publish c s.session_id s.music_id)
          ⨾ (λ h. tell_music_state env c (s.connection_ids ++ voice_connection_ids h c) h))
        (then-IsQuiet _ _ (close_if_sfu-IsQuiet env _) (λ h. tell-IsQuiet _ _ h)) g v

  pub handle_music_stop-Keeps :
      (u : String) (d : Option MusicStopCommandData) → Keeps (handle_music_stop {D = D} env u d)
  unfolding handle_music_stop
  handle_music_stop-Keeps u none g v = v
  handle_music_stop-Keeps u (some d) g v =
      elim (Option-cases (stop_music_target g u d.channel_id (truthy d.music_id))) [
        | inl missing ↦ rw (missing, handle_music_stop) v
        | inr (p, found) ↦ elim (Bool-cases (p.host.user_id == u)) [
          | inr other ↦ rw (found, handle_music_stop, other) v
          | inl own ↦
              let r = MusicPublish.stop g.music_room d.channel_id p.music_id u in
              rw (found, handle_music_stop, own)
                (answer_stop-Keeps d.channel_id r.1 (record g { music_room = r.0 })
                  (with_musics g r.0
                    (music_stop-IsValid g.music_room d.channel_id p.music_id u v.musics) v))
        ]
      ]

  answer_listen-Keeps :
      (c s : String) (o : Option MusicPublish.Listening) → Keeps (answer_listen {D = D} env c s o)
  unfolding tell
  answer_listen-Keeps c s none g v = v
  answer_listen-Keeps c s (some l) g v = v

  listen_with-Keeps :
      (connection : GatewayConnection) (u c s : String) (o : Option String)
      → Keeps (listen_with {D = D} env connection u c s o)
  listen_with-Keeps connection u c s none g v = v
  listen_with-Keeps connection u c s (some n) g v =
      let r = MusicPublish.add_listener g.music_room c s u connection.id n in
      answer_listen-Keeps c s r.1 (record g { music_room = r.0 })
        (with_musics g r.0 (add_listener-IsValid g.music_room c s u connection.id n v.musics) v)

  listen_publication-Keeps :
      (connection : GatewayConnection) (u n : String) (d : MusicCommandData)
      (p : MusicPublicationRecord) (o : Option MusicListenerRecord)
      → Keeps (listen_publication {D = D} env connection u n d p o)
  listen_publication-Keeps connection u n d p (some l) g v = v
  listen_publication-Keeps connection u n d p none g v =
      listen_with-Keeps connection u d.channel_id d.music_id _ g v

  pub handle_music_listen-Keeps :
      (connection : GatewayConnection) (u n : String) (d : Option MusicCommandData)
      → Keeps (handle_music_listen {D = D} env connection u n d)
  unfolding handle_music_listen
  handle_music_listen-Keeps connection u n none g v = v
  handle_music_listen-Keeps connection u n (some d) g v =
      elim (Option-cases (music_access_error env g d.channel_id u)) [
        | inr (code, denied) ↦ rw (denied, handle_music_listen) v
        | inl allowed ↦ elim (Option-cases (get_publication g.music_room d.channel_id d.music_id)) [
          | inl missing ↦ rw (allowed, missing, handle_music_listen) v
          | inr (p, found) ↦ elim (Bool-cases (p.host.user_id == u)) [
            | inl own ↦ rw (allowed, found, handle_music_listen, own) v
            | inr other ↦
                rw (allowed, found, handle_music_listen, other)
                  (listen_publication-Keeps connection u n d p
                    (get_listener g.music_room d.channel_id d.music_id u) g v)
          ]
        ]
      ]

  close_listener-IsQuiet :
      (d : MusicCommandData) (o : Option MusicListenerRecord)
      → IsQuiet (close_listener {D = D} env d o)
  close_listener-IsQuiet d none g = refl
  close_listener-IsQuiet d (some l) g = close_if_sfu-IsQuiet env _ g

  after_unlisten-IsQuiet :
      (d : MusicCommandData) (o : Option MusicListenerRecord) (b : Bool)
      → IsQuiet (after_unlisten {D = D} env d o b)
  after_unlisten-IsQuiet d o false g = refl
  after_unlisten-IsQuiet d o true g =
      then-IsQuiet _ _ (close_listener-IsQuiet d o) (λ h. tell-IsQuiet _ _ h) g

  pub handle_music_unlisten-Keeps :
      (u : String) (d : Option MusicCommandData) → Keeps (handle_music_unlisten {D = D} env u d)
  unfolding handle_music_unlisten
  handle_music_unlisten-Keeps u none g v = v
  handle_music_unlisten-Keeps u (some d) g v =
      let listener = get_listener g.music_room d.channel_id d.music_id u in
      let r = MusicPublish.remove_listener g.music_room d.channel_id d.music_id u in
      quiet-Sound (after_unlisten env d listener r.1) (after_unlisten-IsQuiet d listener r.1)
        (record g { music_room = r.0 })
        (with_musics g r.0 (remove_listener-IsValid g.music_room d.channel_id d.music_id u v.musics)
          v)

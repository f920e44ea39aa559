-- ===== src/Handlers/Soundness.antt =====
-- That the handlers of the rooms keep all rooms sound, whatever the media service and the database
-- answer.
use baker_self_hosted_voice.Common.{
  String, Option, none, some, List, ◌≡◌, refl, Bool-cases, inl, inr, truthy, Option-cases, ◌==◌,
  ◌&&◌,
}
use baker_self_hosted_voice.Connection.{GatewayConnection}
use baker_self_hosted_voice.Voice
use baker_self_hosted_voice.Voice.{get_participant, VoiceParticipantRecord, get_channel_for_user}
use baker_self_hosted_voice.Voice.Invariant.{IsValid as VoiceIsValid, join-IsValid, leave-IsValid}
use baker_self_hosted_voice.Stream.{StreamRoomManager}
use baker_self_hosted_voice.Stream.Invariant.{IsValid as StreamIsValid}
use baker_self_hosted_voice.Stream.Reports.{leave_channel_for_user-IsValid}
use baker_self_hosted_voice.Music.{MusicRoomManager}
use baker_self_hosted_voice.Music.Invariant.{IsValid as MusicIsValid}
use baker_self_hosted_voice.Music.Reports as MusicReports
use baker_self_hosted_voice.Router.{GatewayRuntime}
use baker_self_hosted_voice.Router.Calls.{is_by}
use baker_self_hosted_voice.Handlers.{Environment, Action, Handled}
use baker_self_hosted_voice.Handlers.Leaving.{handle_voice_leave}
use baker_self_hosted_voice.Handlers.Joining.{
  begin_from, owning_connection, user_id_of, join_begin, answer_join, join_finish, Begun, go_on,
  handle_voice_join, validate_voice_channel_access, after_joining,
}
use baker_self_hosted_voice.Handlers.Frames.{
  Rooms, rooms_of, IsQuiet, then-IsQuiet, tell-IsQuiet, set_voice_channel-IsQuiet,
  tell_streams_if_any-IsQuiet, tell_music_if_any-IsQuiet,
}
use baker_self_hosted_voice.Handlers.Departing.{departed, handle_voice_leave-departed}

module _ {D : Type 0} where
  pub record IsSound (r : Rooms D) : Type 0 where
    pub voices : VoiceIsValid r.voice_room
    pub streams : StreamIsValid r.stream_room
    pub musics : MusicIsValid r.music_room

  abbrev pub Sound : GatewayRuntime D → Type 0
  Sound g = IsSound (rooms_of g)

  abbrev pub Keeps : (GatewayRuntime D → Handled D) → Type 0
  Keeps h = (g : GatewayRuntime D) → Sound g → Sound (h g).0

  pub quiet-Sound : (a : Action D) → IsQuiet a → (g : GatewayRuntime D) → Sound g → Sound (a g).0
  quiet-Sound a q g v = rw (q g) v

  departed-IsSound : (c u : String) (r : Rooms D) → IsSound r → IsSound (departed c u r)
  departed-IsSound c u r v = record {
    voices = leave-IsValid r.voice_room c u v.voices;
    streams = leave_channel_for_user-IsValid r.stream_room c u v.streams;
    musics = MusicReports.leave_channel_for_user-IsValid r.music_room c u v.musics;
  }

  with_voice :
      (g : GatewayRuntime D) (m : Voice.VoiceRoomManager)
      → VoiceIsValid m
      → Sound g
      → Sound (record g { voice_room = m })
  with_voice g m n v = record { voices = n; streams = v.streams; musics = v.musics }

  pub with_streams :
      (g : GatewayRuntime D) (m : StreamRoomManager D)
      → StreamIsValid m
      → Sound g
      → Sound (record g { stream_room = m })
  with_streams g m n v = record { voices = v.voices; streams = n; musics = v.musics }

  pub with_musics :
      (g : GatewayRuntime D) (m : MusicRoomManager)
      → MusicIsValid m
      → Sound g
      → Sound (record g { music_room = m })
  with_musics g m n v = record { voices = v.voices; streams = v.streams; musics = n }

module _ {D : Type 0} (env : Environment) where
  voice_leave-Sound :
      (connection : GatewayConnection) (u c : String) (g : GatewayRuntime D)
      (o : Option (List VoiceParticipantRecord))
      → (Voice.leave g.voice_room c u).1 ≡ o
      → Sound g
      → Sound (handle_voice_leave env connection u (some c) g).0
  unfolding handle_voice_leave
  voice_leave-Sound connection u c g none e v =
      rw e
        (with_voice g (Voice.leave g.voice_room c u).0 (leave-IsValid g.voice_room c u v.voices) v)
  voice_leave-Sound connection u c g (some remaining) e v =
      rw (handle_voice_leave-departed env connection u c g remaining e)
        (departed-IsSound c u (rooms_of g) v)

  pub handle_voice_leave-Keeps :
      (connection : GatewayConnection) (u : String) (d : Option String)
      → Keeps (handle_voice_leave {D = D} env connection u d)
  unfolding handle_voice_leave
  handle_voice_leave-Keeps connection u none g v = v
  handle_voice_leave-Keeps connection u (some c) g v =
      voice_leave-Sound connection u c g (Voice.leave g.voice_room c u).1 refl v

  begin_from-Sound :
      (connection : GatewayConnection) (u c : String) (o : Option String) (g : GatewayRuntime D)
      → Sound g
      → Sound (begin_from env connection u c o g).0
  begin_from-Sound connection u c none g v = v
  begin_from-Sound connection u c (some existing) g v =
      let p = get_participant g.voice_room existing u in
      let owner = owning_connection g.connections connection p in
      let left = handle_voice_leave-Keeps owner (user_id_of owner.user_id) (some existing) g v in
      elim (Bool-cases (existing == c && is_by p connection.id)) [
        | inl here ↦ rw here v
        | inr away ↦ rw away left
      ]

  pub join_begin-Sound :
      (connection : GatewayConnection) (u c : String) (g : GatewayRuntime D)
      → Sound g
      → Sound (join_begin env connection u c g).0
  unfolding join_begin
  join_begin-Sound connection u c g v =
      elim (Option-cases (validate_voice_channel_access env.database c u)) [
        | inl allowed ↦
            rw (allowed, join_begin)
              (begin_from-Sound connection u c (truthy (get_channel_for_user g.voice_room u)) g v)
        | inr (code, denied) ↦ rw (denied, join_begin) v
      ]

  pub after_joining-IsQuiet :
      (k c : String) (snapshot : List VoiceParticipantRecord)
      → IsQuiet (after_joining {D = D} env k c snapshot)
  after_joining-IsQuiet k c snapshot = then-IsQuiet _ _ (set_voice_channel-IsQuiet k (some c)) (
      then-IsQuiet _ _ (tell-IsQuiet _ _) (
        then-IsQuiet _ _ (tell-IsQuiet _ _) (
          then-IsQuiet _ _ (tell-IsQuiet _ _) (
            then-IsQuiet _ _ (λ g. tell_streams_if_any-IsQuiet env k c _ g)
              (λ g. tell_music_if_any-IsQuiet env k c _ g)))))

  answer_join-Keeps :
      (k c n : String) (o : Option (List VoiceParticipantRecord))
      → Keeps (answer_join {D = D} env k c n o)
  answer_join-Keeps k c n none g v = v
  answer_join-Keeps k c n (some snapshot) g v =
      quiet-Sound (after_joining env k c snapshot) (after_joining-IsQuiet k c snapshot) g v

  pub join_finish-Keeps :
      (connection : GatewayConnection) (u c : String) (o : Option String)
      → Keeps (join_finish {D = D} env connection u c o)
  unfolding join_finish
  join_finish-Keeps connection u c none g v = v
  join_finish-Keeps connection u c (some n) g v =
      let r = Voice.join g.voice_room c u connection.id n in
      answer_join-Keeps connection.id c n r.1 (record g { voice_room = r.0 })
        (with_voice g r.0 (join-IsValid g.voice_room c u connection.id n v.voices) v)

  go_on-Sound :
      (connection : GatewayConnection) (u c n : String) (b : Begun D)
      → Sound b.0
      → Sound (go_on env connection u c n b).0
  go_on-Sound connection u c n (g, some code, effects) v = v
  go_on-Sound connection u c n (g, none, effects) v = join_finish-Keeps connection u c _ g v

  pub handle_voice_join-Keeps :
      (connection : GatewayConnection) (u n : String) (d : Option String)
      → Keeps (handle_voice_join {D = D} env connection u n d)
  unfolding handle_voice_join
  handle_voice_join-Keeps connection u n none g v = v
  handle_voice_join-Keeps connection u n (some c) g v =
      go_on-Sound connection u c n (join_begin env connection u c g)
        (join_begin-Sound connection u c g v)

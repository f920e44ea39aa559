-- ===== src/Handlers/VoiceLeave.antt =====
-- What `voice.leave` does to each participant and each publication.
use baker_self_hosted_voice.Common.{
  String, Bool, true, false, Option, none, some, List, ◌≡◌, refl, ◌∙◌, ap, arith, Option-cases, inl,
  inr, if◌then◌else◌, ◌==◌, ◌&&◌,
}
use baker_self_hosted_voice.Common.StringMap.{get, delete, is_some}
use baker_self_hosted_voice.Common.StringMap.Laws.{delete_absent}
use baker_self_hosted_voice.Connection.{GatewayConnection}
use baker_self_hosted_voice.Voice
use baker_self_hosted_voice.Voice.{VoiceParticipantRecord, VoiceRoomManager}
use baker_self_hosted_voice.Voice.Slots.{slot, leave-slot}
use baker_self_hosted_voice.Stream
use baker_self_hosted_voice.Stream.{StreamPublicationRecord}
use baker_self_hosted_voice.Stream.Invariant.{IsValid as StreamIsValid}
use baker_self_hosted_voice.Stream.Departures as StreamDepartures
use baker_self_hosted_voice.Music
use baker_self_hosted_voice.Music.{MusicPublicationRecord}
use baker_self_hosted_voice.Music.Invariant.{IsValid as MusicIsValid}
use baker_self_hosted_voice.Music.Departures as MusicDepartures
use baker_self_hosted_voice.Router.{GatewayRuntime, Reply, voice_left}
use baker_self_hosted_voice.Handlers.{Environment}
use baker_self_hosted_voice.Handlers.Leaving.{handle_voice_leave}
use baker_self_hosted_voice.Handlers.Frames.{rooms_of, Rooms}
use baker_self_hosted_voice.Handlers.Departing.{departed, handle_voice_leave-departed}

abbrev pub is_left : Reply → Bool
is_left (voice_left channel) = true
is_left _ = false

-- A share of music without a user: gone if the user hosts it, and else without the user's place
-- among the listeners.
abbrev pub without_listener :
    (user_id : String) → Option MusicPublicationRecord → Option MusicPublicationRecord
without_listener u none = none
without_listener u (some p) =
    if p.host.user_id == u then none else some (record p { listeners = delete u p.listeners })

without_listener-lem :
    (u : String) (o : Option MusicPublicationRecord)
    → MusicDepartures.after_leave u none o ≡ without_listener u o
without_listener-lem u none = refl
without_listener-lem u (some p) = ground (arith, delete_absent u p.listeners)

module _ {D : Type 0} where
  -- A stream without a user, likewise.
  abbrev pub without_viewer :
      (user_id : String) → Option (StreamPublicationRecord D) → Option (StreamPublicationRecord D)
  without_viewer u none = none
  without_viewer u (some p) =
      if p.host.user_id == u then none else some (record p { viewers = delete u p.viewers })

  without_viewer-lem :
      (u : String) (o : Option (StreamPublicationRecord D))
      → StreamDepartures.after_leave u none o ≡ without_viewer u o
  without_viewer-lem u none = refl
  without_viewer-lem u (some p) = ground (arith, delete_absent u p.viewers)

  -- The rooms after a leave of a channel, from those before.
  departed-publications :
      (c u d s : String) (r : Rooms D)
      → StreamIsValid r.stream_room
      → MusicIsValid r.music_room
      → (Stream.get_publication (departed c u r).stream_room d s ≡ (
          if c == d
          then without_viewer u (Stream.get_publication r.stream_room d s)
          else Stream.get_publication r.stream_room d s))
        × (Music.get_publication (departed c u r).music_room d s ≡ (
            if c == d
            then without_listener u (Music.get_publication r.music_room d s)
            else Music.get_publication r.music_room d s))
  departed-publications c u d s r v w = (
    ground (
      arith,
      StreamDepartures.leave_channel_for_user-get_publication r.stream_room c u d s v,
      without_viewer-lem u (Stream.get_publication r.stream_room d s),
    ),
    ground (
      arith,
      MusicDepartures.leave_channel_for_user-get_publication r.music_room c u d s w,
      without_listener-lem u (Music.get_publication r.music_room d s),
    ),
  )

  -- A channel without a room cannot be left.
  handle_voice_leave_refused :
      (env : Environment) (connection : GatewayConnection) (u c : String) (g : GatewayRuntime D)
      → get c g.voice_room.rooms ≡ none
      → (rooms_of (handle_voice_leave env connection u (some c) g).0 ≡ rooms_of g)
        × (is_left (handle_voice_leave env connection u (some c) g).1 ≡ false)
  unfolding handle_voice_leave Voice.leave
  handle_voice_leave_refused env connection u c g missing =
      rw (missing, handle_voice_leave, Voice.leave) (refl, refl)

  handle_voice_leave_accepted :
      (env : Environment) (connection : GatewayConnection) (u c : String) (g : GatewayRuntime D)
      (remaining : List VoiceParticipantRecord)
      → (Voice.leave g.voice_room c u).1 ≡ some remaining
      → is_left (handle_voice_leave env connection u (some c) g).1 ≡ true
  unfolding handle_voice_leave
  handle_voice_leave_accepted env connection u c g remaining found = rw found refl

  -- `voice.leave` of a channel succeeds exactly where the channel has a room. The user then has no
  -- slot in that channel's room; the streams and the music that the user hosts there are gone, and from
  -- the others there the user's place in the audience is gone. Where the channel has no room, no stream and no
  -- music changes. No other slot, no other publication and not the media mode ever changes. The rooms of
  -- streams and music are valid.
  pub handle_voice_leave-leaves :
      (env : Environment) (connection : GatewayConnection) (u c : String) (g : GatewayRuntime D)
      → StreamIsValid g.stream_room
      → MusicIsValid g.music_room
      → let r = handle_voice_leave env connection u (some c) g in
        let left = is_some (get c g.voice_room.rooms) in
        (is_left r.1 ≡ left)
        × ((d v : String)
            → slot r.0.voice_room d v
              ≡ (if (c == d) && (u == v) then none else slot g.voice_room d v))
        × ((d s : String)
            → Stream.get_publication r.0.stream_room d s ≡ (
                if left && (c == d)
                then without_viewer u (Stream.get_publication g.stream_room d s)
                else Stream.get_publication g.stream_room d s))
        × ((d s : String)
            → Music.get_publication r.0.music_room d s ≡ (
                if left && (c == d)
                then without_listener u (Music.get_publication g.music_room d s)
                else Music.get_publication g.music_room d s))
        × (r.0.media_mode ≡ g.media_mode)
  handle_voice_leave-leaves env connection u c g v w =
      let place = leave-slot g.voice_room c u in
      elim (Option-cases (get c g.voice_room.rooms)) [
        | inl missing ↦
            let (rooms, refused) = handle_voice_leave_refused env connection u c g missing in
            (
              ground arith,
              λ d x. ap (λ r. slot r.voice_room d x) rooms ∙ ground arith,
              λ d s. ap (λ r. Stream.get_publication r.stream_room d s) rooms ∙ ground arith,
              λ d s. ap (λ r. Music.get_publication r.music_room d s) rooms ∙ ground arith,
              ap (λ r. r.media_mode) rooms,
            )
        | inr (room, found) ↦ elim (Option-cases (Voice.leave g.voice_room c u).1) [
          | inl lost ↦ absurd (ground (arith, (place c u).1))
          | inr (remaining, e) ↦
              let rooms = handle_voice_leave-departed env connection u c g remaining e in
              let gone = λ (d s : String). departed-publications c u d s (rooms_of g) v w in
              (
                ground (arith, handle_voice_leave_accepted env connection u c g remaining e),
                λ d x. ap (λ r. slot r.voice_room d x) rooms ∙ (place d x).0,
                λ d s.
                    ap (λ r. Stream.get_publication r.stream_room d s) rooms
                    ∙ ground (arith, (gone d s).0),
                λ d s.
                    ap (λ r. Music.get_publication r.music_room d s) rooms
                    ∙ ground (arith, (gone d s).1),
                ap (λ r. r.media_mode) rooms,
              )
        ]
      ]

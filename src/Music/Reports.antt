-- ===== src/Music/Reports.antt =====
-- The rooms stay sound when a user leaves, and the results report what the leave concerned.
use baker_self_hosted_voice.Common.{
  String, Bool, false, ◌≡◌, refl, Option, none, List, [], ◌∷◌, ◌++◌, arith, Option-cases,
  Bool-cases, inl, inr, ◌==◌, ◌&&◌, ◌||◌,
}
use baker_self_hosted_voice.Common.StringMap.{StringMap, get, is_empty}
use baker_self_hosted_voice.Common.StringMap.Entries.{Distinct, delete-Distinct, delete-Entries}
use baker_self_hosted_voice.Common.Nested.{AreRooms, get_in, put_back-AreRooms, get-AreRooms}
use baker_self_hosted_voice.Music.{Room, MusicRoomManager, get_publication}
use baker_self_hosted_voice.Music.Publish.{hosts}
use baker_self_hosted_voice.Music.Leave.{
  MusicDisconnectResult, host_stopped, listener_left, leaving_listener, is_leaving_host,
  leave_publications, leave_channel_for_user, leave_rooms, leave_all_for_user,
}
use baker_self_hosted_voice.Music.Departures.{is_concerned}
use baker_self_hosted_voice.Music.Invariant.{IsFiled, IsRoom, IsValid}

module _ (u : String) (k : Option String) where
  leave_publications_absent :
      (c s : String) (room : Room)
      → get s room ≡ none
      → get s (leave_publications c u k room).0 ≡ none
  unfolding leave_publications get
  leave_publications_absent c s [] h = refl
  leave_publications_absent c s ((t, p) ∷ room) h =
      ground (arith, leave_publications_absent c s room)

  hosts-leave_publications :
      (c w : String) (room : Room)
      → hosts w room ≡ false
      → hosts w (leave_publications c u k room).0 ≡ false
  unfolding leave_publications hosts
  hosts-leave_publications c w [] h = refl
  hosts-leave_publications c w ((t, p) ∷ room) h = ground (arith, hosts-leave_publications c w room)

  leave_publications-IsRoom :
      (c : String) (room : Room) → IsRoom c room → IsRoom c (leave_publications c u k room).0
  unfolding leave_publications get hosts
  leave_publications-IsRoom c [] r = r
  leave_publications-IsRoom c ((s, p) ∷ room) r =
      let ih =
        leave_publications-IsRoom c room
          (record { distinct = r.distinct.1; sole = r.sole.1; filed = r.filed.1 }) in
      let new = leave_publications_absent c s room r.distinct.0 in
      let sole = hosts-leave_publications c p.host.user_id room r.sole.0 in
      elim (Bool-cases (is_leaving_host u k p)) [
        | inl stops ↦ rw (stops, leave_publications) ih
        | inr stays ↦ elim (Option-cases (leaving_listener k (get u p.listeners))) [
          | inl apart ↦
              rw (stays, leave_publications, apart)
                (record {
                  distinct = (new, ih.distinct);
                  sole = (sole, ih.sole);
                  filed = (r.filed.0, ih.filed);
                })
          | inr (v, goes) ↦
              rw (stays, leave_publications, goes)
                (record {
                  distinct = (new, ih.distinct);
                  sole = (sole, ih.sole);
                  filed = (
                    record {
                      in_channel = r.filed.0.in_channel;
                      under_music = r.filed.0.under_music;
                      distinct = delete-Distinct u p.listeners r.filed.0.distinct;
                      filed = delete-Entries IsFiled u p.listeners r.filed.0.filed;
                    },
                    ih.filed,
                  );
                })
        ]
      ]

  leave_rooms_absent :
      (c : String) (rooms : StringMap Room)
      → get c rooms ≡ none
      → get c (leave_rooms u k rooms).0 ≡ none
  unfolding leave_rooms get
  leave_rooms_absent c [] h = refl
  leave_rooms_absent c ((d, room) ∷ rooms) h = ground (arith, leave_rooms_absent c rooms)

  leave_rooms-AreRooms :
      (rooms : StringMap Room) → AreRooms IsRoom rooms → AreRooms IsRoom (leave_rooms u k rooms).0
  unfolding leave_rooms
  leave_rooms-AreRooms [] v = v
  leave_rooms-AreRooms ((c, room) ∷ rooms) v =
      let ih =
        leave_rooms-AreRooms rooms
          (record { distinct = v.distinct.1; occupied = v.occupied.1; valid = v.valid.1 }) in
      let left = leave_publications c u k room in
      elim (Bool-cases (is_empty left.0)) [
        | inl gone ↦ rw (gone, leave_rooms) ih
        | inr stays ↦
            rw (stays, leave_rooms)
              (record {
                distinct = (leave_rooms_absent c rooms v.distinct.0, ih.distinct);
                occupied = (stays, ih.occupied);
                valid = (leave_publications-IsRoom c room v.valid.0, ih.valid);
              })
      ]

  pub leave_all_for_user-IsValid :
      (m : MusicRoomManager) → IsValid m → IsValid (leave_all_for_user m u k).0
  unfolding leave_all_for_user
  leave_all_for_user-IsValid m v = leave_rooms-AreRooms m.rooms v

pub leave_channel_for_user-IsValid :
    (m : MusicRoomManager) (c u : String) → IsValid m → IsValid (leave_channel_for_user m c u).0
unfolding leave_channel_for_user
leave_channel_for_user-IsValid m c u v = elim (Option-cases (get c m.rooms)) [
  | inl missing ↦ rw (missing, leave_channel_for_user) v
  | inr (room, found) ↦
      rw (found, leave_channel_for_user)
        (put_back-AreRooms IsRoom c (leave_publications c u none room).0 m.rooms
          (leave_publications-IsRoom u none c room (get-AreRooms IsRoom c room m.rooms found v)) v)
]

-- Whether a result is about a publication.
abbrev pub is_about : String → String → MusicDisconnectResult → Bool
is_about c s (host_stopped d ids n t) = d == c && t == s
is_about c s (listener_left d n t) = d == c && t == s

abbrev pub reports : String → String → List MusicDisconnectResult → Bool
reports c s [] = false
reports c s (r ∷ rs) = is_about c s r || reports c s rs

reports-append :
    (c s : String) (xs ys : List MusicDisconnectResult)
    → reports c s (xs ++ ys) ≡ (reports c s xs || reports c s ys)
reports-append c s [] ys = refl
reports-append c s (r ∷ xs) ys = ground (arith, reports-append c s xs ys)

module _ (u : String) (k : Option String) where
  leave_publications-reports :
      (c d s : String) (room : Room)
      → Distinct room
      → reports d s (leave_publications c u k room).1 ≡ (c == d && is_concerned u k (get s room))
  unfolding leave_publications get
  leave_publications-reports c d s [] h = ground arith
  leave_publications-reports c d s ((t, p) ∷ room) (new, h) =
      ground (arith, leave_publications-reports c d s room h)

  leave_rooms-reports :
      (d s : String) (rooms : StringMap Room)
      → AreRooms IsRoom rooms
      → reports d s (leave_rooms u k rooms).1 ≡ is_concerned u k (get_in s (get d rooms))
  unfolding leave_rooms get
  leave_rooms-reports d s [] v = refl
  leave_rooms-reports d s ((c, room) ∷ rooms) v =
      let r = leave_publications c u k room in
      ground (
        arith,
        leave_rooms-reports d s rooms
            (record { distinct = v.distinct.1; occupied = v.occupied.1; valid = v.valid.1 }),
        leave_publications-reports c d s room v.valid.0.distinct,
        reports-append d s r.1 (leave_rooms u k rooms).1,
        v.distinct.0,
      )

  -- On valid rooms a leave of all channels reports exactly the publications that the user hosts or
  -- listens to by the connection, if one is given, whatever their channel.
  music_leave_all_for_user-reports :
      (m : MusicRoomManager) (d s : String)
      → IsValid m
      → reports d s (leave_all_for_user m u k).1 ≡ is_concerned u k (get_publication m d s)
  unfolding leave_all_for_user
  music_leave_all_for_user-reports m d s v = leave_rooms-reports d s m.rooms v

-- ===== src/Music/Departures.antt =====
-- What is left of the music rooms when a user leaves, and what the leave reports.
use baker_self_hosted_voice.Common.{
  String, Bool, false, ◌≡◌, ◌≢◌, refl, Option, none, some, [], ◌∷◌, arith, Option-cases, inl, inr,
  ◌==◌, ◌||◌, if◌then◌else◌,
}
use baker_self_hosted_voice.Common.StringMap.{StringMap, get, delete, is_some}
use baker_self_hosted_voice.Common.StringMap.Laws.{get-delete_self}
use baker_self_hosted_voice.Common.StringMap.Entries.{Distinct}
use baker_self_hosted_voice.Common.Nested.{
  AreRooms, get_in, get_in-put_back, get-AreRooms, empty_room,
}
use baker_self_hosted_voice.Music.{MusicPublicationRecord, Room, MusicRoomManager, get_publication}
use baker_self_hosted_voice.Music.Leave.{
  leaving_listener, is_leaving_host, leave_publications, leave_channel_for_user, leave_rooms,
  leave_all_for_user,
}
use baker_self_hosted_voice.Music.Invariant.{IsRoom, IsValid}

-- What becomes of one publication when the user leaves by the connection.
abbrev pub after_leave :
    String → Option String → Option MusicPublicationRecord → Option MusicPublicationRecord
after_leave u k none = none
after_leave u k (some p) =
    if is_leaving_host u k p
    then none
    else if is_some (leaving_listener k (get u p.listeners))
    then some (record p { listeners = delete u p.listeners })
    else some p

-- Whether the leave concerns the publication at all.
abbrev pub is_concerned : String → Option String → Option MusicPublicationRecord → Bool
is_concerned u k none = false
is_concerned u k (some p) =
    is_leaving_host u k p || is_some (leaving_listener k (get u p.listeners))

get-leave_publications :
    (c u : String) (k : Option String) (s : String) (room : Room)
    → Distinct room
    → get s (leave_publications c u k room).0 ≡ after_leave u k (get s room)
unfolding leave_publications get
get-leave_publications c u k s [] h = refl
get-leave_publications c u k s ((t, p) ∷ room) (new, h) =
    ground (arith, get-leave_publications c u k s room h)

get-leave_rooms :
    (u : String) (k : Option String) (c s : String) (rooms : StringMap Room)
    → AreRooms IsRoom rooms
    → get_in s (get c (leave_rooms u k rooms).0) ≡ after_leave u k (get_in s (get c rooms))
unfolding leave_rooms get
get-leave_rooms u k c s [] v = refl
get-leave_rooms u k c s ((d, room) ∷ rooms) v =
    let left = (leave_publications d u k room).0 in
    ground (
      arith,
      get-leave_rooms u k c s rooms
          (record { distinct = v.distinct.1; occupied = v.occupied.1; valid = v.valid.1 }),
      get-leave_publications d u k s room v.valid.0.distinct,
      empty_room s left,
    )

-- On valid rooms a leave of all channels takes out the publications that the user hosts by the
-- connection, if one is given, takes the user out of the listeners of the others where it is by
-- that connection, and leaves every other publication as it was.
pub music_leave_all_for_user-get_publication :
    (m : MusicRoomManager) (u : String) (k : Option String) (c s : String)
    → IsValid m
    → get_publication (leave_all_for_user m u k).0 c s ≡ after_leave u k (get_publication m c s)
unfolding leave_all_for_user
music_leave_all_for_user-get_publication m u k c s v = get-leave_rooms u k c s m.rooms v

-- A leave of one channel does so there, by any connection, and touches no other channel.
pub leave_channel_for_user-get_publication :
    (m : MusicRoomManager) (c u d s : String)
    → IsValid m
    → get_publication (leave_channel_for_user m c u).0 d s
      ≡ (if c == d then after_leave u none (get_publication m d s) else get_publication m d s)
unfolding leave_channel_for_user
leave_channel_for_user-get_publication m c u d s v = elim (Option-cases (get c m.rooms)) [
  | inl missing ↦ ground arith
  | inr (room, found) ↦
      let r = get-AreRooms IsRoom c room m.rooms found v in
      ground (
        arith,
        get_in-put_back c d s (leave_publications c u none room).0 m.rooms,
        get-leave_publications c u none s room r.distinct,
      )
]

-- After a leave that names no connection the user hosts nothing and listens to nothing.
music_leave_all_for_user_clears :
    (m : MusicRoomManager) (u c s : String) (p : MusicPublicationRecord)
    → IsValid m
    → get_publication (leave_all_for_user m u none).0 c s ≡ some p
    → (p.host.user_id ≢ u) × (get u p.listeners ≡ none)
music_leave_all_for_user_clears m u c s p v e =
    let left = music_leave_all_for_user-get_publication m u none c s v in
    elim (Option-cases (get_publication m c s)) [
      | inl missing ↦ absurd (ground (arith, left))
      | inr (q, here) ↦ elim (Option-cases (get u q.listeners)) [
        | inl absent ↦ ground (arith, left)
        | inr (w, hearing) ↦ ground (arith, left, get-delete_self u q.listeners)
      ]
    ]

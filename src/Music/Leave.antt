-- ===== src/Music/Leave.antt =====
-- music-room-manager.ts: what a user who leaves stops and leaves.
use baker_self_hosted_voice.Common.{
  String, Bool, Option, none, some, List, [], ◌∷◌, ◌++◌, ◌==◌, ◌&&◌, if◌then◌else◌, matches_given,
}
use baker_self_hosted_voice.Common.StringMap.{StringMap, get, delete, is_empty}
use baker_self_hosted_voice.Common.Nested.{put_back}
use baker_self_hosted_voice.Music.{
  MusicListenerRecord, MusicPublicationRecord, Room, MusicRoomManager, audience_of,
}

pub data MusicDisconnectResult : Type 0 where
  host_stopped :
      (channel_id : String)
      → (connection_ids : List String) → (session_id music_id : String) → MusicDisconnectResult
  listener_left : (channel_id session_id music_id : String) → MusicDisconnectResult

-- `listener && (!connectionId || listener.connectionId === connectionId)`
abbrev pub leaving_listener :
    (connection_id : Option String) → Option MusicListenerRecord → Option MusicListenerRecord
leaving_listener connection none = none
leaving_listener connection (some v) =
    if matches_given connection v.connection_id then some v else none

abbrev pub is_leaving_host :
    (user_id : String) → (connection_id : Option String) → MusicPublicationRecord → Bool
is_leaving_host user connection p =
    p.host.user_id == user && matches_given connection p.host.connection_id

abbrev pub host_stops : String → String → MusicPublicationRecord → MusicDisconnectResult
host_stops channel music p = host_stopped channel (audience_of p) p.host.session_id music

-- The loop of `leaveRoomForUser`, which takes the publication that it stands at out of the room.
unfoldable pub leave_publications :
    (channel_id user_id : String)
    → (connection_id : Option String) → Room
    → Room × List MusicDisconnectResult
leave_publications channel user connection [] = ([], [])
leave_publications channel user connection ((music, p) ∷ room) =
    let rest = leave_publications channel user connection room in
    if is_leaving_host user connection p
    then (rest.0, host_stops channel music p ∷ rest.1)
    else elim (leaving_listener connection (get user p.listeners)) [
      | none ↦ ((music, p) ∷ rest.0, rest.1)
      | some v ↦ (
        (music, record p { listeners = delete user p.listeners }) ∷ rest.0,
        listener_left channel v.session_id music ∷ rest.1,
      )
    ]

unfoldable pub leave_channel_for_user :
    MusicRoomManager → (channel_id user_id : String) → MusicRoomManager × List MusicDisconnectResult
leave_channel_for_user m channel user = elim (get channel m.rooms) [
  | none ↦ (m, [])
  | some room ↦
      let r = leave_publications channel user none room in
      (record { rooms = put_back channel r.0 m.rooms }, r.1)
]

-- The loop of `leaveAllForUser`, which takes the room that it stands at out if it is empty.
unfoldable pub leave_rooms :
    (user_id : String)
    → (connection_id : Option String) → StringMap Room
    → StringMap Room × List MusicDisconnectResult
leave_rooms user connection [] = ([], [])
leave_rooms user connection ((channel, room) ∷ rooms) =
    let r = leave_publications channel user connection room in
    let rest = leave_rooms user connection rooms in
    (if is_empty r.0 then rest.0 else (channel, r.0) ∷ rest.0, r.1 ++ rest.1)

unfoldable pub leave_all_for_user :
    MusicRoomManager
    → (user_id : String) → (connection_id : Option String)
    → MusicRoomManager × List MusicDisconnectResult
leave_all_for_user m user connection =
    let r = leave_rooms user connection m.rooms in (record { rooms = r.0 }, r.1)

abbrev pub stop_publications : (channel_id : String) → Room → List MusicDisconnectResult
stop_publications channel [] = []
stop_publications channel ((music, p) ∷ room) =
    host_stops channel music p ∷ stop_publications channel room

abbrev pub stop_rooms : StringMap Room → List MusicDisconnectResult
stop_rooms [] = []
stop_rooms ((channel, room) ∷ rooms) = stop_publications channel room ++ stop_rooms rooms

unfoldable pub clear_all : MusicRoomManager → MusicRoomManager × List MusicDisconnectResult
clear_all m = (record { rooms = [] }, stop_rooms m.rooms)

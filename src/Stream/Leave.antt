-- ===== src/Stream/Leave.antt =====
-- stream-room-manager.ts: what a user who leaves stops and leaves.
use baker_self_hosted_voice.Common.{
  String, Bool, Option, none, some, List, [], ◌∷◌, ◌++◌, ◌==◌, ◌&&◌, if◌then◌else◌, matches_given,
}
use baker_self_hosted_voice.Common.StringMap.{StringMap, get, delete, is_empty}
use baker_self_hosted_voice.Common.Nested.{put_back}
use baker_self_hosted_voice.Stream.{
  StreamViewerRecord, StreamPublicationRecord, Room, StreamRoomManager, audience_of,
}

pub data StreamDisconnectResult : Type 0 where
  host_stopped :
      (channel_id : String)
      → (connection_ids : List String) → (session_id stream_id : String) → StreamDisconnectResult
  viewer_left : (channel_id session_id stream_id : String) → StreamDisconnectResult

-- `viewer && (!connectionId || viewer.connectionId === connectionId)`
abbrev pub leaving_viewer :
    (connection_id : Option String) → Option StreamViewerRecord → Option StreamViewerRecord
leaving_viewer connection none = none
leaving_viewer connection (some v) =
    if matches_given connection v.connection_id then some v else none

module _ {D : Type 0} where
  abbrev pub is_leaving_host :
      (user_id : String) → (connection_id : Option String) → StreamPublicationRecord D → Bool
  is_leaving_host user connection p =
      p.host.user_id == user && matches_given connection p.host.connection_id

  abbrev pub host_stops : String → String → StreamPublicationRecord D → StreamDisconnectResult
  host_stops channel stream p = host_stopped channel (audience_of p) p.host.session_id stream

  -- The loop of `leaveRoomForUser`, which takes the publication that it stands at out of the room.
  unfoldable pub leave_publications :
      (channel_id user_id : String)
      → (connection_id : Option String) → Room D
      → Room D × List StreamDisconnectResult
  leave_publications channel user connection [] = ([], [])
  leave_publications channel user connection ((stream, p) ∷ room) =
      let rest = leave_publications channel user connection room in
      if is_leaving_host user connection p
      then (rest.0, host_stops channel stream p ∷ rest.1)
      else elim (leaving_viewer connection (get user p.viewers)) [
        | none ↦ ((stream, p) ∷ rest.0, rest.1)
        | some v ↦ (
          (stream, record p { viewers = delete user p.viewers }) ∷ rest.0,
          viewer_left channel v.session_id stream ∷ rest.1,
        )
      ]

  unfoldable pub leave_channel_for_user :
      StreamRoomManager D
      → (channel_id user_id : String) → StreamRoomManager D × List StreamDisconnectResult
  leave_channel_for_user m channel user = elim (get channel m.rooms) [
    | none ↦ (m, [])
    | some room ↦
        let r = leave_publications channel user none room in
        (record { rooms = put_back channel r.0 m.rooms }, r.1)
  ]

  -- The loop of `leaveAllForUser`, which takes the room that it stands at out if it is empty.
  unfoldable pub leave_rooms :
      (user_id : String)
      → (connection_id : Option String) → StringMap (Room D)
      → StringMap (Room D) × List StreamDisconnectResult
  leave_rooms user connection [] = ([], [])
  leave_rooms user connection ((channel, room) ∷ rooms) =
      let r = leave_publications channel user connection room in
      let rest = leave_rooms user connection rooms in
      (if is_empty r.0 then rest.0 else (channel, r.0) ∷ rest.0, r.1 ++ rest.1)

  unfoldable pub leave_all_for_user :
      StreamRoomManager D
      → (user_id : String) → (connection_id : Option String)
      → StreamRoomManager D × List StreamDisconnectResult
  leave_all_for_user m user connection =
      let r = leave_rooms user connection m.rooms in (record { rooms = r.0 }, r.1)

  abbrev pub stop_publications : (channel_id : String) → Room D → List StreamDisconnectResult
  stop_publications channel [] = []
  stop_publications channel ((stream, p) ∷ room) =
      host_stops channel stream p ∷ stop_publications channel room

  abbrev pub stop_rooms : StringMap (Room D) → List StreamDisconnectResult
  stop_rooms [] = []
  stop_rooms ((channel, room) ∷ rooms) = stop_publications channel room ++ stop_rooms rooms

  unfoldable pub clear_all : StreamRoomManager D → StreamRoomManager D × List StreamDisconnectResult
  clear_all m = (record { rooms = [] }, stop_rooms m.rooms)

-- ===== src/Stream/Publish.antt =====
-- stream-room-manager.ts: the methods that start and stop publications and change their viewers.
-- A publication is one object: a change of it shows in its room.
use baker_self_hosted_voice.Common.{
  ℕ, String, Bool, true, false, Option, none, some, List, [], ◌∷◌, ◌==◌, ◌&&◌, ◌||◌, if◌then◌else◌,
}
use baker_self_hosted_voice.Common.StringMap.{get, has, set, delete}
use baker_self_hosted_voice.Common.Nested.{room_or_new, ensure_room, put_back}
use baker_self_hosted_voice.Stream.{
  StreamSourceType, StreamPublicationRecord, Room, StreamRoomManager, get_publication, audience_of,
}

pub record Stopped : Type 0 where
  pub connection_ids : List String
  pub session_id : String
  pub stream_id : String

pub record Watching (D : Type 0) : Type 0 where
  pub existing : Bool
  pub publication : StreamPublicationRecord D
  pub viewer_session_id : String

module _ {D : Type 0} where
  -- The loop of `start`: whether the user hosts a publication of the room.
  unfoldable pub hosts : (user_id : String) → Room D → Bool
  hosts user [] = false
  hosts user ((stream, p) ∷ room) = p.host.user_id == user || hosts user room

  abbrev pub new_publication :
      (channel_id stream_id user_id connection_id session_id : String)
      → StreamSourceType
      → StreamPublicationRecord D
  new_publication channel stream user connection session source = record {
    channel_id = channel;
    host = record {
      connection_id = connection;
      session_id = session;
      source_type = source;
      user_id = user;
    };
    stream_id = stream;
    publisher_diagnostics = none;
    viewers = [];
  }

  unfoldable pub start :
      StreamRoomManager D
      → (channel_id stream_id user_id connection_id session_id : String) → StreamSourceType
      → StreamRoomManager D × Option (StreamPublicationRecord D)
  start m channel stream user connection session source =
      let room = room_or_new (get channel m.rooms) in
      let rooms = ensure_room channel m.rooms in
      let p = new_publication channel stream user connection session source in
      if hosts user room
      then (record { rooms = rooms }, none)
      else (record { rooms = set channel (set stream p room) rooms }, some p)

  unfoldable pub stop :
      StreamRoomManager D
      → (channel_id stream_id user_id : String) → StreamRoomManager D × Option Stopped
  stop m channel stream user = elim (get channel m.rooms) [
    | none ↦ (m, none)
    | some room ↦ elim (get stream room) [
      | none ↦ (m, none)
      | some p ↦
          if p.host.user_id == user
          then (
            record { rooms = put_back channel (delete stream room) m.rooms },
            some (record {
              connection_ids = audience_of p;
              session_id = p.host.session_id;
              stream_id = stream;
            }),
          )
          else (m, none)
    ]
  ]

  -- The rooms after a publication that is there has changed in place.
  abbrev pub replace :
      StreamRoomManager D
      → (channel_id stream_id : String) → StreamPublicationRecord D
      → StreamRoomManager D
  replace m channel stream p = elim (get channel m.rooms) [
    | none ↦ m
    | some room ↦ record { rooms = set channel (set stream p room) m.rooms }
  ]

  -- `publication.viewers.set(userId, { connectionId, sessionId, userId })`
  abbrev pub with_viewer :
      StreamPublicationRecord D
      → (user_id connection_id session_id : String) → StreamPublicationRecord D
  with_viewer p user connection session = record p {
    viewers =
        set user (record { connection_id = connection; session_id = session; user_id = user })
          p.viewers;
  }

  unfoldable pub add_viewer :
      StreamRoomManager D
      → (channel_id stream_id user_id connection_id session_id : String)
      → StreamRoomManager D × Option (Watching D)
  add_viewer m channel stream user connection session = elim (get_publication m channel stream) [
    | none ↦ (m, none)
    | some p ↦ elim (get user p.viewers) [
      | some v ↦
          (m, some (record { existing = true; publication = p; viewer_session_id = v.session_id }))
      | none ↦
          let p' = with_viewer p user connection session in
          (
            replace m channel stream p',
            some (record { existing = false; publication = p'; viewer_session_id = session }),
          )
    ]
  ]

  unfoldable pub remove_viewer :
      StreamRoomManager D → (channel_id stream_id user_id : String) → StreamRoomManager D × Bool
  remove_viewer m channel stream user = elim (get_publication m channel stream) [
    | none ↦ (m, false)
    | some p ↦ (
      replace m channel stream (record p { viewers = delete user p.viewers }),
      has user p.viewers,
    )
  ]

  unfoldable pub set_publisher_diagnostics :
      StreamRoomManager D
      → (channel_id stream_id session_id connection_id : String) → D
      → (sampled_at : ℕ) → StreamRoomManager D × Bool
  set_publisher_diagnostics m channel stream session connection publisher sampled_at =
      elim (get_publication m channel stream) [
        | none ↦ (m, false)
        | some p ↦
            if p.host.session_id == session && p.host.connection_id == connection
            then (
              replace m channel stream (record p {
                publisher_diagnostics =
                    some (record { publisher = publisher; sampled_at = sampled_at });
              }),
              true,
            )
            else (m, false)
      ]

-- ===== src/Music/Publish.antt =====
-- music-room-manager.ts: the methods that start and stop publications and change their listeners.
-- A publication is one object: a change of it shows in its room.
use baker_self_hosted_voice.Common.{
  String, Bool, true, false, Option, none, some, List, [], ◌∷◌, ◌==◌, ◌||◌, if◌then◌else◌,
}
use baker_self_hosted_voice.Common.StringMap.{get, has, set, delete}
use baker_self_hosted_voice.Common.Nested.{room_or_new, ensure_room, put_back}
use baker_self_hosted_voice.Music.{
  MusicPublicationRecord, Room, MusicRoomManager, get_publication, audience_of,
}

pub record Stopped : Type 0 where
  pub connection_ids : List String
  pub session_id : String
  pub music_id : String

pub record Listening : Type 0 where
  pub existing : Bool
  pub publication : MusicPublicationRecord
  pub listener_session_id : String

-- The loop of `start`: whether the user hosts a publication of the room.
unfoldable pub hosts : (user_id : String) → Room → Bool
hosts user [] = false
hosts user ((music, p) ∷ room) = p.host.user_id == user || hosts user room

abbrev pub new_publication :
    (channel_id music_id user_id connection_id session_id : String) → MusicPublicationRecord
new_publication channel music user connection session = record {
  channel_id = channel;
  host = record { connection_id = connection; session_id = session; user_id = user };
  music_id = music;
  listeners = [];
}

unfoldable pub start :
    MusicRoomManager
    → (channel_id music_id user_id connection_id session_id : String)
    → MusicRoomManager × Option MusicPublicationRecord
start m channel music user connection session =
    let room = room_or_new (get channel m.rooms) in
    let rooms = ensure_room channel m.rooms in
    let p = new_publication channel music user connection session in
    if hosts user room
    then (record { rooms = rooms }, none)
    else (record { rooms = set channel (set music p room) rooms }, some p)

unfoldable pub stop :
    MusicRoomManager → (channel_id music_id user_id : String) → MusicRoomManager × Option Stopped
stop m channel music user = elim (get channel m.rooms) [
  | none ↦ (m, none)
  | some room ↦ elim (get music room) [
    | none ↦ (m, none)
    | some p ↦
        if p.host.user_id == user
        then (
          record { rooms = put_back channel (delete music room) m.rooms },
          some (record {
            connection_ids = audience_of p;
            session_id = p.host.session_id;
            music_id = music;
          }),
        )
        else (m, none)
  ]
]

-- The rooms after a publication that is there has changed in place.
abbrev pub replace :
    MusicRoomManager → (channel_id music_id : String) → MusicPublicationRecord → MusicRoomManager
replace m channel music p = elim (get channel m.rooms) [
  | none ↦ m
  | some room ↦ record { rooms = set channel (set music p room) m.rooms }
]

-- `publication.listeners.set(userId, { connectionId, sessionId, userId })`
abbrev pub with_listener :
    MusicPublicationRecord → (user_id connection_id session_id : String) → MusicPublicationRecord
with_listener p user connection session = record p {
  listeners =
      set user (record { connection_id = connection; session_id = session; user_id = user })
        p.listeners;
}

unfoldable pub add_listener :
    MusicRoomManager
    → (channel_id music_id user_id connection_id session_id : String)
    → MusicRoomManager × Option Listening
add_listener m channel music user connection session = elim (get_publication m channel music) [
  | none ↦ (m, none)
  | some p ↦ elim (get user p.listeners) [
    | some v ↦
        (m, some (record { existing = true; publication = p; listener_session_id = v.session_id }))
    | none ↦
        let p' = with_listener p user connection session in
        (
          replace m channel music p',
          some (record { existing = false; publication = p'; listener_session_id = session }),
        )
  ]
]

unfoldable pub remove_listener :
    MusicRoomManager → (channel_id music_id user_id : String) → MusicRoomManager × Bool
remove_listener m channel music user = elim (get_publication m channel music) [
  | none ↦ (m, false)
  | some p ↦ (
    replace m channel music (record p { listeners = delete user p.listeners }),
    has user p.listeners,
  )
]

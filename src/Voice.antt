-- ===== src/Voice.antt =====
-- apps/gateway/src/ws/voice-room-manager.ts: the state of `VoiceRoomManager` and its methods that
-- change or read it. A method returns the new state and its result; `null` is `none`. The children
-- hold the broadcasts and what the methods establish.
pub mod Broadcast
pub mod Slots
pub mod Rosters
pub mod Invariant
pub mod Histories
mod Tests
use baker_self_hosted_voice.Common.{
  String, Bool, true, false, Option, none, some, List, [], ◌∷◌, if◌then◌else◌, matches_given,
}
use baker_self_hosted_voice.Common.StringMap.{
  StringMap, get, has, set, delete, values, keys, is_empty,
}

pub record VoiceParticipantRecord : Type 0 where
  pub connection_id : String
  pub is_muted : Bool
  pub session_id : String
  pub user_id : String

abbrev pub Room : Type 0
Room = StringMap VoiceParticipantRecord

pub record VoiceRoomManager : Type 0 where
  pub rooms : StringMap Room

-- The room, if there is one, or `new Map()`.
abbrev pub room_or_new : Option Room → Room
room_or_new none = []
room_or_new (some room) = room

-- `if (!room) this.rooms.set(channelId, new Map())`
abbrev pub ensure_room : String → StringMap Room → StringMap Room
ensure_room channel rooms = elim (get channel rooms) [
  | none ↦ set channel [] rooms
  | some _ ↦ rooms
]

unfoldable pub join :
    VoiceRoomManager
    → (channel_id user_id connection_id session_id : String)
    → VoiceRoomManager × Option (List VoiceParticipantRecord)
join m channel user connection session =
    let room = room_or_new (get channel m.rooms) in
    let rooms = ensure_room channel m.rooms in
    let joined =
      set user
        (record {
          connection_id = connection;
          is_muted = false;
          session_id = session;
          user_id = user;
        })
        room in
    if has user room
    then (record { rooms = rooms }, none)
    else (record { rooms = set channel joined rooms }, some (values joined))

-- `if (room.size === 0) this.rooms.delete(channelId)`, after `room` changed in place.
abbrev pub put_back : String → Room → StringMap Room → StringMap Room
put_back channel room rooms = if is_empty room then delete channel rooms else set channel room rooms

unfoldable pub leave :
    VoiceRoomManager
    → (channel_id user_id : String) → VoiceRoomManager × Option (List VoiceParticipantRecord)
leave m channel user = elim (get channel m.rooms) [
  | none ↦ (m, none)
  | some room ↦
      let room' = delete user room in
      (
        record { rooms = put_back channel room' m.rooms },
        some (if is_empty room' then [] else values room'),
      )
]

unfoldable pub get_participant :
    VoiceRoomManager → (channel_id user_id : String) → Option VoiceParticipantRecord
get_participant m channel user = elim (get channel m.rooms) [
  | none ↦ none
  | some room ↦ get user room
]

unfoldable pub set_muted :
    VoiceRoomManager
    → (channel_id user_id : String) → Bool
    → VoiceRoomManager × Option VoiceParticipantRecord
set_muted m channel user is_muted = elim (get channel m.rooms) [
  | none ↦ (m, none)
  | some room ↦ elim (get user room) [
    | none ↦ (m, none)
    | some r ↦
        let r' = record r { is_muted = is_muted } in
        (record { rooms = set channel (set user r' room) m.rooms }, some r')
  ]
]

unfoldable pub get_participants :
    VoiceRoomManager → (channel_id : String) → List VoiceParticipantRecord
get_participants m channel = elim (get channel m.rooms) [ none ↦ [] | some room ↦ values room ]

abbrev pub get_active_channel_ids : VoiceRoomManager → List String
get_active_channel_ids m = keys m.rooms

unfoldable pub clear_channel : VoiceRoomManager → (channel_id : String) → VoiceRoomManager
clear_channel m channel = record { rooms = delete channel m.rooms }

unfoldable pub channel_of : String → StringMap Room → Option String
channel_of user [] = none
channel_of user ((channel, room) ∷ rooms) =
    if has user room then some channel else channel_of user rooms

abbrev pub get_channel_for_user : VoiceRoomManager → (user_id : String) → Option String
get_channel_for_user m user = channel_of user m.rooms

pub record Departure : Type 0 where
  pub channel_id : String
  pub left : VoiceParticipantRecord
  pub remaining : List VoiceParticipantRecord

-- `left && (!connectionId || left.connectionId === connectionId)`
abbrev pub leaver : Option String → Option VoiceParticipantRecord → Option VoiceParticipantRecord
leaver connection none = none
leaver connection (some r) = if matches_given connection r.connection_id then some r else none

-- The loop of `leaveAllChannels`, which takes the room that it stands at out of the map when it
-- empties it.
unfoldable pub leave_rooms :
    String → Option String → StringMap Room → StringMap Room × List Departure
leave_rooms user connection [] = ([], [])
leave_rooms user connection ((channel, room) ∷ rooms) =
    let rest = leave_rooms user connection rooms in
    let room' = delete user room in
    elim (leaver connection (get user room)) [
      | none ↦ ((channel, room) ∷ rest.0, rest.1)
      | some left ↦ (
        if is_empty room' then rest.0 else (channel, room') ∷ rest.0,
        record {
          channel_id = channel;
          left = left;
          remaining = if is_empty room' then [] else values room';
        }
            ∷ rest.1,
      )
    ]

unfoldable pub leave_all_channels :
    VoiceRoomManager
    → (user_id : String) → (connection_id : Option String) → VoiceRoomManager × List Departure
unfolding leave_rooms
leave_all_channels m user connection =
    let r = leave_rooms user connection m.rooms in (record { rooms = r.0 }, r.1)

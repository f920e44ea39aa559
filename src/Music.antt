-- ===== src/Music.antt =====
-- apps/gateway/src/ws/music-room-manager.ts: the state of `MusicRoomManager` and its private
-- helpers and look-ups. The children hold its other methods (`Publish`, `Leave`, `Snapshot`) and
-- what they establish. A diagnostics sample is stored and handed on, never read: its type is `D`.
pub mod Publish
pub mod Leave
pub mod Snapshot
pub mod Hosts
pub mod Invariant
pub mod Lifecycle
pub mod Departures
pub mod Reports
pub mod Audience
pub mod Histories
mod Tests
use baker_self_hosted_voice.Common.{
  ℕ, String, Bool, true, false, Option, none, some, List, [], ◌∷◌, ◌++◌, map, ◌==◌, ◌&&◌, ◌||◌,
  if◌then◌else◌, truthy,
}
use baker_self_hosted_voice.Common.StringMap.{StringMap, get, has, values}
use baker_self_hosted_voice.Common.StringSet
use baker_self_hosted_voice.Common.Nested.{get_in}

pub record MusicHostRecord : Type 0 where
  pub connection_id : String
  pub session_id : String
  pub user_id : String

pub record MusicListenerRecord : Type 0 where
  pub connection_id : String
  pub session_id : String
  pub user_id : String

pub record MusicPublicationRecord : Type 0 where
  pub channel_id : String
  pub host : MusicHostRecord
  pub music_id : String
  pub listeners : StringMap MusicListenerRecord

abbrev pub Room : Type 0
Room = StringMap MusicPublicationRecord

pub record MusicRoomManager : Type 0 where
  pub rooms : StringMap Room

pub data SignalMode : Type 0 where
  music_publish music_listen : SignalMode

-- `listener?.sessionId === senderSessionId`
abbrev pub has_session : Option MusicListenerRecord → String → Bool
has_session none session = false
has_session (some v) session = v.session_id == session

abbrev pub get_room : MusicRoomManager → (channel_id : String) → Option Room
get_room m channel = get channel m.rooms

abbrev pub get_publication :
    MusicRoomManager → (channel_id music_id : String) → Option MusicPublicationRecord
get_publication m channel music = get_in music (get channel m.rooms)

abbrev pub room_values : Option Room → List MusicPublicationRecord
room_values none = []
room_values (some room) = values room

abbrev pub get_publications : MusicRoomManager → (channel_id : String) → List MusicPublicationRecord
get_publications m channel = room_values (get channel m.rooms)

abbrev pub listener_in :
    Option MusicPublicationRecord → (user_id : String) → Option MusicListenerRecord
listener_in none user = none
listener_in (some p) user = get user p.listeners

abbrev pub get_listener :
    MusicRoomManager → (channel_id music_id user_id : String) → Option MusicListenerRecord
get_listener m channel music user = listener_in (get_publication m channel music) user

abbrev pub audience_of : MusicPublicationRecord → List String
audience_of p = p.host.connection_id ∷ map (λ v. v.connection_id) (values p.listeners)

abbrev pub audience_all : List MusicPublicationRecord → List String
audience_all [] = []
audience_all (p ∷ ps) = audience_of p ++ audience_all ps

abbrev pub to_list : Option MusicPublicationRecord → List MusicPublicationRecord
to_list none = []
to_list (some p) = p ∷ []

unfoldable pub get_audience_connection_ids :
    MusicRoomManager → (channel_id : String) → (music_id : Option String) → List String
get_audience_connection_ids m channel music = StringSet.from_list (
    audience_all (elim (truthy music) [
      | none ↦ get_publications m channel
      | some s ↦ to_list (get_publication m channel s)
    ]))

unfoldable pub get_broadcast_connection_ids :
    MusicRoomManager → (channel_id : String) → (extra_connection_ids : List String) → List String
get_broadcast_connection_ids m channel extra =
    StringSet.add_all (audience_all (get_publications m channel)) (StringSet.from_list extra)

-- The first publication of a list that the user hosts, and those that the user listens to.
unfoldable pub first_hosted :
    (user_id : String) → List MusicPublicationRecord → Option MusicPublicationRecord
first_hosted user [] = none
first_hosted user (p ∷ ps) = if p.host.user_id == user then some p else first_hosted user ps

unfoldable pub all_listened :
    (user_id : String) → List MusicPublicationRecord → List MusicPublicationRecord
all_listened user [] = []
all_listened user (p ∷ ps) =
    let rest = all_listened user ps in if has user p.listeners then p ∷ rest else rest

-- The publications of all rooms, in the order of the nested loops.
abbrev pub all_publications : StringMap Room → List MusicPublicationRecord
all_publications [] = []
all_publications ((channel, room) ∷ rooms) = values room ++ all_publications rooms

abbrev pub searched : MusicRoomManager → (channel_id : Option String) → List MusicPublicationRecord
searched m channel = elim (truthy channel) [
  | none ↦ all_publications m.rooms
  | some c ↦ get_publications m c
]

abbrev pub find_hosted_publication_by_user :
    MusicRoomManager
    → (user_id : String) → (channel_id : Option String) → Option MusicPublicationRecord
find_hosted_publication_by_user m user channel = first_hosted user (searched m channel)

abbrev pub find_listened_publications_by_user :
    MusicRoomManager
    → (user_id : String) → (channel_id : Option String) → List MusicPublicationRecord
find_listened_publications_by_user m user channel = all_listened user (searched m channel)

abbrev pub may_signal :
    MusicPublicationRecord
    → SignalMode
    → (sender_user_id sender_session_id target_user_id : String) → Bool
may_signal p music_publish sender session target =
    p.host.user_id == sender && p.host.session_id == session && has target p.listeners
may_signal p music_listen sender session target =
    has_session (get sender p.listeners) session && p.host.user_id == target

unfoldable pub can_relay_signal :
    MusicRoomManager
    → (channel_id : String) → (music_id : Option String) → SignalMode
    → (sender_user_id sender_session_id target_user_id : String) → Bool
can_relay_signal m channel music mode sender session target = elim (truthy music) [
  | none ↦ false
  | some id ↦ elim (get_publication m channel id) [
    | none ↦ false
    | some p ↦ may_signal p mode sender session target
  ]
]

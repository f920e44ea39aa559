-- ===== src/Stream.antt =====
-- apps/gateway/src/ws/stream-room-manager.ts: the state of `StreamRoomManager` and its private
-- helpers and look-ups. The children hold its other methods (`Publish`, `Leave`, `Snapshot`) and
-- what they establish. A diagnostics sample is stored and handed on, never read: its type is `D`.
pub mod Publish
pub mod Leave
pub mod Snapshot
pub mod Hosts
pub mod Invariant
pub mod Lifecycle
pub mod RoundTrip
pub mod Departures
pub mod Reports
pub mod Audience
pub mod Histories
mod Tests
use baker_self_hosted_voice.Common.{
  ℕ, String, Bool, true, false, Option, none, some, List, [], ◌∷◌, ◌++◌, map, ◌==◌, ◌&&◌, ◌||◌,
  if◌then◌else◌, truthy,
}
use baker_self_hosted_voice.Common.StringMap.{StringMap, get, has, values}
use baker_self_hosted_voice.Common.StringSet
use baker_self_hosted_voice.Common.Nested.{get_in}

pub data StreamSourceType : Type 0 where
  screen camera : StreamSourceType

pub record StreamHostRecord : Type 0 where
  pub connection_id : String
  pub session_id : String
  pub source_type : StreamSourceType
  pub user_id : String

pub record StreamViewerRecord : Type 0 where
  pub connection_id : String
  pub session_id : String
  pub user_id : String

pub record PublisherSample (D : Type 0) : Type 0 where
  pub publisher : D
  pub sampled_at : ℕ

pub record StreamPublicationRecord (D : Type 0) : Type 0 where
  pub channel_id : String
  pub host : StreamHostRecord
  pub stream_id : String
  pub publisher_diagnostics : Option (PublisherSample D)
  pub viewers : StringMap StreamViewerRecord

abbrev pub Room : Type 0 → Type 0
Room D = StringMap (StreamPublicationRecord D)

pub record StreamRoomManager (D : Type 0) : Type 0 where
  pub rooms : StringMap (Room D)

pub data SignalMode : Type 0 where
  stream_publish stream_watch : SignalMode

-- `viewer?.sessionId === senderSessionId`
abbrev pub has_session : Option StreamViewerRecord → String → Bool
has_session none session = false
has_session (some v) session = v.session_id == session

module _ {D : Type 0} where
  abbrev pub get_room : StreamRoomManager D → (channel_id : String) → Option (Room D)
  get_room m channel = get channel m.rooms

  abbrev pub get_publication :
      StreamRoomManager D → (channel_id stream_id : String) → Option (StreamPublicationRecord D)
  get_publication m channel stream = get_in stream (get channel m.rooms)

  abbrev pub room_values : Option (Room D) → List (StreamPublicationRecord D)
  room_values none = []
  room_values (some room) = values room

  abbrev pub get_publications :
      StreamRoomManager D → (channel_id : String) → List (StreamPublicationRecord D)
  get_publications m channel = room_values (get channel m.rooms)

  abbrev pub viewer_in :
      Option (StreamPublicationRecord D) → (user_id : String) → Option StreamViewerRecord
  viewer_in none user = none
  viewer_in (some p) user = get user p.viewers

  abbrev pub get_viewer :
      StreamRoomManager D → (channel_id stream_id user_id : String) → Option StreamViewerRecord
  get_viewer m channel stream user = viewer_in (get_publication m channel stream) user

  abbrev pub audience_of : StreamPublicationRecord D → List String
  audience_of p = p.host.connection_id ∷ map (λ v. v.connection_id) (values p.viewers)

  abbrev pub audience_all : List (StreamPublicationRecord D) → List String
  audience_all [] = []
  audience_all (p ∷ ps) = audience_of p ++ audience_all ps

  abbrev pub to_list : Option (StreamPublicationRecord D) → List (StreamPublicationRecord D)
  to_list none = []
  to_list (some p) = p ∷ []

  unfoldable pub get_audience_connection_ids :
      StreamRoomManager D → (channel_id : String) → (stream_id : Option String) → List String
  get_audience_connection_ids m channel stream = StringSet.from_list (
      audience_all (elim (truthy stream) [
        | none ↦ get_publications m channel
        | some s ↦ to_list (get_publication m channel s)
      ]))

  unfoldable pub get_broadcast_connection_ids :
      StreamRoomManager D
      → (channel_id : String) → (extra_connection_ids : List String) → List String
  get_broadcast_connection_ids m channel extra =
      StringSet.add_all (audience_all (get_publications m channel)) (StringSet.from_list extra)

  -- The first publication of a list that the user hosts, and those that the user watches.
  unfoldable pub first_hosted :
      (user_id : String) → List (StreamPublicationRecord D) → Option (StreamPublicationRecord D)
  first_hosted user [] = none
  first_hosted user (p ∷ ps) = if p.host.user_id == user then some p else first_hosted user ps

  unfoldable pub all_watched :
      (user_id : String) → List (StreamPublicationRecord D) → List (StreamPublicationRecord D)
  all_watched user [] = []
  all_watched user (p ∷ ps) =
      let rest = all_watched user ps in if has user p.viewers then p ∷ rest else rest

  -- The publications of all rooms, in the order of the nested loops.
  abbrev pub all_publications : StringMap (Room D) → List (StreamPublicationRecord D)
  all_publications [] = []
  all_publications ((channel, room) ∷ rooms) = values room ++ all_publications rooms

  abbrev pub searched :
      StreamRoomManager D → (channel_id : Option String) → List (StreamPublicationRecord D)
  searched m channel = elim (truthy channel) [
    | none ↦ all_publications m.rooms
    | some c ↦ get_publications m c
  ]

  abbrev pub find_hosted_publication_by_user :
      StreamRoomManager D
      → (user_id : String) → (channel_id : Option String) → Option (StreamPublicationRecord D)
  find_hosted_publication_by_user m user channel = first_hosted user (searched m channel)

  abbrev pub find_watched_publications_by_user :
      StreamRoomManager D
      → (user_id : String) → (channel_id : Option String) → List (StreamPublicationRecord D)
  find_watched_publications_by_user m user channel = all_watched user (searched m channel)

  abbrev pub the_only : List (StreamPublicationRecord D) → Option (StreamPublicationRecord D)
  the_only [] = none
  the_only (p ∷ []) = some p
  the_only (p ∷ q ∷ ps) = none

  unfoldable pub resolve_publication :
      StreamRoomManager D
      → (channel_id : String) → (stream_id : Option String) → Option (StreamPublicationRecord D)
  resolve_publication m channel stream = elim (truthy stream) [
    | none ↦ the_only (get_publications m channel)
    | some s ↦ get_publication m channel s
  ]

  abbrev pub may_signal :
      StreamPublicationRecord D
      → SignalMode
      → (sender_user_id sender_session_id target_user_id : String) → Bool
  may_signal p stream_publish sender session target =
      p.host.user_id == sender && p.host.session_id == session && has target p.viewers
  may_signal p stream_watch sender session target =
      has_session (get sender p.viewers) session && p.host.user_id == target

  unfoldable pub can_relay_signal :
      StreamRoomManager D
      → (channel_id : String) → (stream_id : Option String) → SignalMode
      → (sender_user_id sender_session_id target_user_id : String) → Bool
  can_relay_signal m channel stream mode sender session target =
      elim (resolve_publication m channel stream) [
        | none ↦ false
        | some p ↦ may_signal p mode sender session target
      ]

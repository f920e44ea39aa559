-- ===== src/Stream/Snapshot.antt =====
-- stream-room-manager.ts: the snapshot of a channel and its broadcasts.
use baker_self_hosted_voice.Common.{ℕ, String, Bool, Option, none, some, List, [], ◌∷◌, map}
use baker_self_hosted_voice.Common.StringMap.{values}
use baker_self_hosted_voice.Connection.{ConnectionManager}
use baker_self_hosted_voice.Connection.Delivery.{Sent, send_all}
use baker_self_hosted_voice.Stream.{
  StreamSourceType, StreamPublicationRecord, StreamRoomManager, get_publications,
  get_broadcast_connection_ids,
}

pub data StreamStatus : Type 0 where
  failed idle live starting stopping : StreamStatus

pub record StreamViewer : Type 0 where
  pub session_id : String
  pub user_id : String

pub record StreamPublication : Type 0 where
  pub channel_id : String
  pub host_user_id : String
  pub session_id : String
  pub source_type : StreamSourceType
  pub status : StreamStatus
  pub stream_id : String
  pub viewers : List StreamViewer

pub record StreamSession : Type 0 where
  pub host_user_id : String
  pub session_id : String
  pub source_type : StreamSourceType
  pub status : StreamStatus
  pub stream_id : String

pub record StreamSnapshot : Type 0 where
  pub channel_id : String
  pub session : Option StreamSession
  pub streams : List StreamPublication
  pub viewers : List StreamViewer

-- `streams.length === 1 ? streams[0] : null`
abbrev pub compatibility_publication : List StreamPublication → Option StreamPublication
compatibility_publication [] = none
compatibility_publication (p ∷ []) = some p
compatibility_publication (p ∷ q ∷ ps) = none

abbrev pub session_of : Option StreamPublication → Option StreamSession
session_of none = none
session_of (some p) = some (record {
  host_user_id = p.host_user_id;
  session_id = p.session_id;
  source_type = p.source_type;
  status = live;
  stream_id = p.stream_id;
})

abbrev pub viewers_of : Option StreamPublication → List StreamViewer
viewers_of none = []
viewers_of (some p) = p.viewers

module _ {D : Type 0} where
  abbrev pub to_publication : StreamPublicationRecord D → StreamPublication
  to_publication p = record {
    channel_id = p.channel_id;
    host_user_id = p.host.user_id;
    session_id = p.host.session_id;
    source_type = p.host.source_type;
    status = live;
    stream_id = p.stream_id;
    viewers =
        map (λ v. record { session_id = v.session_id; user_id = v.user_id }) (values p.viewers);
  }

  unfoldable pub create_snapshot : StreamRoomManager D → (channel_id : String) → StreamSnapshot
  create_snapshot m channel =
      let streams = map to_publication (get_publications m channel) in
      record {
        channel_id = channel;
        session = session_of (compatibility_publication streams);
        streams = streams;
        viewers = viewers_of (compatibility_publication streams);
      }

  module _ (accepts : ℕ → Bool) where
    -- With no addressee the source returns before it makes the snapshot; the loop does nothing then.
    unfoldable pub broadcast_state_updated :
        ConnectionManager
        → StreamRoomManager D
        → (channel_id : String) → (extra_connection_ids : List String)
        → ConnectionManager × List (Sent StreamSnapshot)
    broadcast_state_updated conns m channel extra =
        elim (get_broadcast_connection_ids m channel extra) [
          | [] ↦ (conns, [])
          | c ∷ cs ↦ send_all accepts (create_snapshot m channel) (c ∷ cs) conns
        ]

    unfoldable pub broadcast_state_cleared :
        ConnectionManager
        → StreamRoomManager D
        → (channel_id : String) → (connection_ids : List String)
        → ConnectionManager × List (Sent StreamSnapshot)
    broadcast_state_cleared conns m channel connection_ids =
        send_all accepts (create_snapshot m channel)
          (get_broadcast_connection_ids m channel connection_ids) conns

-- ===== src/Music/Snapshot.antt =====
-- music-room-manager.ts: the snapshot of a channel and its broadcasts.
use baker_self_hosted_voice.Common.{ℕ, String, Bool, List, [], ◌∷◌, map}
use baker_self_hosted_voice.Common.StringMap.{values}
use baker_self_hosted_voice.Connection.{ConnectionManager}
use baker_self_hosted_voice.Connection.Delivery.{Sent, send_all}
use baker_self_hosted_voice.Music.{
  MusicPublicationRecord, MusicRoomManager, get_publications, get_broadcast_connection_ids,
}

pub data MusicStatus : Type 0 where
  live starting stopping : MusicStatus

pub record MusicListener : Type 0 where
  pub session_id : String
  pub user_id : String

pub record MusicPublication : Type 0 where
  pub channel_id : String
  pub host_user_id : String
  pub session_id : String
  pub status : MusicStatus
  pub music_id : String
  pub listeners : List MusicListener

pub record MusicSnapshot : Type 0 where
  pub channel_id : String
  pub publications : List MusicPublication

abbrev pub to_publication : MusicPublicationRecord → MusicPublication
to_publication p = record {
  channel_id = p.channel_id;
  host_user_id = p.host.user_id;
  session_id = p.host.session_id;
  status = live;
  music_id = p.music_id;
  listeners =
      map (λ v. record { session_id = v.session_id; user_id = v.user_id }) (values p.listeners);
}

unfoldable pub create_snapshot : MusicRoomManager → (channel_id : String) → MusicSnapshot
create_snapshot m channel = record {
  channel_id = channel;
  publications = map to_publication (get_publications m channel);
}

module _ (accepts : ℕ → Bool) where
  -- With no addressee the source returns before it makes the snapshot; the loop does nothing then.
  unfoldable pub broadcast_state_updated :
      ConnectionManager
      → MusicRoomManager
      → (channel_id : String) → (extra_connection_ids : List String)
      → ConnectionManager × List (Sent MusicSnapshot)
  broadcast_state_updated conns m channel extra =
      elim (get_broadcast_connection_ids m channel extra) [
        | [] ↦ (conns, [])
        | c ∷ cs ↦ send_all accepts (create_snapshot m channel) (c ∷ cs) conns
      ]

-- ===== src/Router/Calls.antt =====
-- event-router.ts: `handleVoiceSpeaking` and `handleVoiceNetworkSelfReport`, with
-- `updateVoiceMediaSelfLoss` of app-runtime.ts.
use baker_self_hosted_voice.Common.{
  ℕ, String, Bool, true, false, Option, none, some, List, [], ◌++◌, map, ◌&&◌, if◌then◌else◌, ◌==◌,
}
use baker_self_hosted_voice.Common.StringMap.{get}
use baker_self_hosted_voice.Connection.{GatewayConnection, ConnectionManager}
use baker_self_hosted_voice.Connection.Registry.{is_the}
use baker_self_hosted_voice.Connection.Delivery.{Sent}
use baker_self_hosted_voice.Connection.Quality.{update_media_self_loss}
use baker_self_hosted_voice.Voice.{
  VoiceParticipantRecord, VoiceRoomManager, get_participant, set_muted,
}
use baker_self_hosted_voice.Voice.Broadcast.{broadcast_member_updated, broadcast_speaking_updated}
use baker_self_hosted_voice.Router.{
  Database, Reply, reported, spoken, refused, invalid_payload, voice_not_joined,
}
use baker_self_hosted_voice.Router.Broadcasts.{
  RuntimeEvent, as_voice, broadcast_voice_roster_updated, broadcast_voice_network_updated,
}

pub record VoiceSpeakingCommandData : Type 0 where
  pub channel_id : String
  pub is_muted : Bool
  pub is_speaking : Bool

pub record VoiceNetworkSelfReportCommandData : Type 0 where
  pub channel_id : String
  pub media_self_loss : ℕ

abbrev pub is_by : Option VoiceParticipantRecord → (connection_id : String) → Bool
is_by none connection = false
is_by (some p) connection = p.connection_id == connection

abbrev pub answer :
    (channel_id : String)
    → ConnectionManager × List (Sent RuntimeEvent)
    → ConnectionManager × Reply × List (Sent RuntimeEvent)
answer channel (conns, sent) = (conns, reported channel, sent)

module _ (accepts : ℕ → Bool) (to_iso_string : ℕ → String) (now_ms : ℕ) (db : Database) where
  -- What follows `setMuted`, if it found the participant.
  abbrev pub announce_muted :
      VoiceRoomManager
      → (channel_id : String) → Option VoiceParticipantRecord
      → ConnectionManager
      → ConnectionManager × List (Sent RuntimeEvent)
  announce_muted m channel none conns = (conns, [])
  announce_muted m channel (some p) conns =
      let members = broadcast_member_updated accepts conns m channel p in
      let roster = broadcast_voice_roster_updated accepts db m channel members.0 in
      let network =
        broadcast_voice_network_updated accepts to_iso_string now_ms m channel roster.0 in
      (network.0, map as_voice members.1 ++ roster.1 ++ network.1)

  unfoldable pub handle_voice_speaking :
      VoiceRoomManager
      → ConnectionManager
      → GatewayConnection
      → (user_id : String) → Option VoiceSpeakingCommandData
      → VoiceRoomManager × ConnectionManager × Reply × List (Sent RuntimeEvent)
  handle_voice_speaking m conns connection user none = (m, conns, refused invalid_payload, [])
  handle_voice_speaking m conns connection user (some d) =
      let muted = set_muted m d.channel_id user d.is_muted in
      let told = announce_muted muted.0 d.channel_id muted.1 conns in
      let speaking =
        broadcast_speaking_updated accepts told.0 muted.0 d.channel_id user d.is_speaking
          connection.id in
      (muted.0, speaking.0, spoken d.channel_id d.is_speaking, told.1 ++ map as_voice speaking.1)

  abbrev pub announce_loss :
      VoiceRoomManager
      → (channel_id : String) → ConnectionManager × Bool
      → ConnectionManager × List (Sent RuntimeEvent)
  announce_loss m channel (conns, false) = (conns, [])
  announce_loss m channel (conns, true) =
      broadcast_voice_network_updated accepts to_iso_string now_ms m channel conns

  unfoldable pub update_voice_media_self_loss :
      VoiceRoomManager
      → ConnectionManager
      → (connection_id channel_id : String) → (media_self_loss : ℕ)
      → ConnectionManager × List (Sent RuntimeEvent)
  update_voice_media_self_loss m conns c channel loss = elim (get c conns.connections) [
    | none ↦ (conns, [])
    | some conn ↦
        if is_the conn.voice_channel_id channel
        then announce_loss m channel (update_media_self_loss conns c loss now_ms)
        else (conns, [])
  ]

  unfoldable pub handle_voice_network_self_report :
      VoiceRoomManager
      → ConnectionManager
      → GatewayConnection
      → (user_id : String) → Option VoiceNetworkSelfReportCommandData
      → ConnectionManager × Reply × List (Sent RuntimeEvent)
  handle_voice_network_self_report m conns connection user none =
      (conns, refused invalid_payload, [])
  handle_voice_network_self_report m conns connection user (some d) =
      if is_the connection.voice_channel_id d.channel_id
        && is_by (get_participant m d.channel_id user) connection.id
      then answer d.channel_id
          (update_voice_media_self_loss m conns connection.id d.channel_id d.media_self_loss)
      else (conns, refused voice_not_joined, [])

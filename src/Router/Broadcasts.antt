-- ===== src/Router/Broadcasts.antt =====
-- apps/gateway/src/app-runtime.ts: the broadcasts of voice rosters and link qualities. A channel that
-- the database does not have, or that is no voice channel, has no roster.
use baker_self_hosted_voice.Common.{
  ℕ, String, Bool, true, Option, none, some, List, [], ◌∷◌, map, if◌then◌else◌, truthy,
}
use baker_self_hosted_voice.Common.StringSet
use baker_self_hosted_voice.Connection.{GatewayConnection, ConnectionManager}
use baker_self_hosted_voice.Connection.Registry.{get_all}
use baker_self_hosted_voice.Connection.Delivery.{Sent, send_all}
use baker_self_hosted_voice.Connection.Quality.{
  VoiceConnectionNetworkSnapshot, get_voice_connection_network_snapshot,
}
use baker_self_hosted_voice.Voice.{VoiceRoomManager, get_participants}
use baker_self_hosted_voice.Voice.Broadcast.{VoiceEvent, broadcast_roster_updated}
use baker_self_hosted_voice.Stream.Snapshot.{StreamSnapshot}
use baker_self_hosted_voice.Music.Snapshot.{MusicSnapshot}
use baker_self_hosted_voice.Router.{
  MediaMode, MediaSessionDescriptor, ChannelType, text, voice_channel, Channel, Database,
}

pub record NetworkParticipant : Type 0 where
  pub gateway_loss_pct : Option ℕ
  pub gateway_rtt_ms : Option ℕ
  pub media_self_loss : Option ℕ
  pub stale : Bool
  pub updated_at : String
  pub user_id : String

pub record VoiceNetworkUpdated : Type 0 where
  pub channel_id : String
  pub participants : List NetworkParticipant

pub data ProducerSource : Type 0 where
  music stream voice : ProducerSource

-- A producer of the SFU, without the fields that are only handed on.
pub record SfuProducer : Type 0 where
  pub channel_id : String
  pub id : String
  pub session_id : String
  pub source : ProducerSource
  pub stream_id : Option String
  pub user_id : String

pub record MediaModeUpdated : Type 0 where
  pub affected_channel_ids : List String
  pub media_mode : MediaMode

-- What the broadcasts send, `stream.state.updated` and the like by the record that they carry.
pub data RuntimeEvent : Type 0 where
  voice_event : VoiceEvent → RuntimeEvent
  network_event : VoiceNetworkUpdated → RuntimeEvent
  stream_event : StreamSnapshot → RuntimeEvent
  music_event : MusicSnapshot → RuntimeEvent
  producer_added : SfuProducer → RuntimeEvent
  producer_removed : SfuProducer → RuntimeEvent
  mode_event : MediaModeUpdated → RuntimeEvent
  session_event : MediaSessionDescriptor → RuntimeEvent

abbrev pub as_voice : Sent VoiceEvent → Sent RuntimeEvent
as_voice s = record { to = s.to; seq = s.seq; event = voice_event s.event }

-- `stale_after_ms` of the network snapshots: 15 seconds, the default.
abbrev pub stale_after_ms : ℕ
stale_after_ms = 15000

-- The ids of the connections of a guild's members.
abbrev pub guild_members : (guild_id : String) → List GatewayConnection → List String
guild_members guild [] = []
guild_members guild (conn ∷ conns) =
    let rest = guild_members guild conns in
    elim (truthy conn.user_id) [
      | none ↦ rest
      | some user ↦ if StringSet.has guild conn.guild_ids then conn.id ∷ rest else rest
    ]

abbrev pub get_guild_member_connection_ids : ConnectionManager → (guild_id : String) → List String
get_guild_member_connection_ids conns guild = guild_members guild (get_all conns)

-- The guild of a voice channel.
abbrev pub guild_of : Channel → ChannelType → Option String
guild_of channel text = none
guild_of channel voice_channel = some channel.guild_id

abbrev pub voice_guild : Option Channel → Option String
voice_guild none = none
voice_guild (some channel) = guild_of channel channel.channel_type

-- `snapshot?.… ?? …` for one participant.
abbrev pub network_participant :
    (to_iso_string : ℕ → String)
    → (now_ms : ℕ) → (user_id : String) → Option VoiceConnectionNetworkSnapshot
    → NetworkParticipant
network_participant to_iso_string now_ms user none = record {
  gateway_loss_pct = none;
  gateway_rtt_ms = none;
  media_self_loss = none;
  stale = true;
  updated_at = to_iso_string now_ms;
  user_id = user;
}
network_participant to_iso_string now_ms user (some s) = record {
  gateway_loss_pct = s.gateway_loss_pct;
  gateway_rtt_ms = s.gateway_rtt_ms;
  media_self_loss = s.media_self_loss;
  stale = s.stale;
  updated_at = s.updated_at;
  user_id = user;
}

module _ (accepts : ℕ → Bool) where
  unfoldable pub broadcast_voice_roster_updated :
      Database
      → VoiceRoomManager
      → (channel_id : String) → ConnectionManager
      → ConnectionManager × List (Sent RuntimeEvent)
  broadcast_voice_roster_updated db m channel conns = elim (voice_guild (db.find_channel channel)) [
    | none ↦ (conns, [])
    | some guild ↦
        let r =
          broadcast_roster_updated accepts conns channel (get_participants m channel)
            (get_guild_member_connection_ids conns guild) in
        (r.0, map as_voice r.1)
  ]

  -- With no participant the source returns early; the loop does nothing then.
  unfoldable pub broadcast_voice_network_updated :
      (to_iso_string : ℕ → String)
      → (now_ms : ℕ) → VoiceRoomManager
      → (channel_id : String) → ConnectionManager
      → ConnectionManager × List (Sent RuntimeEvent)
  broadcast_voice_network_updated to_iso_string now_ms m channel conns =
      let participants = get_participants m channel in
      let data_sent : VoiceNetworkUpdated = record {
        channel_id = channel;
        participants =
            map
              (λ p. network_participant to_iso_string now_ms p.user_id (
                get_voice_connection_network_snapshot to_iso_string conns p.connection_id now_ms
                  stale_after_ms))
              participants;
      } in
      send_all accepts (network_event data_sent) (map (λ p. p.connection_id) participants) conns

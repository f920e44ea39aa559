-- ===== src/Router.antt =====
-- apps/gateway/src/ws/event-router.ts: the state that the command handlers share, what they answer,
-- and the database look-ups they make. The children hold handlers (`Signal`, `Access`, `Channels`,
-- `Calls`), the broadcasts of app-runtime.ts that they use (`Broadcasts`),
-- and what they establish. A handler returns the new state, its reply and the events it sent.
pub mod Signal
pub mod Access
pub mod Channels
pub mod Broadcasts
pub mod Calls
pub mod Relay
pub mod Sessions
pub mod Subscriptions
pub mod Speaking
pub mod Heard
mod Tests
use baker_self_hosted_voice.Common.{ℕ, String, Bool, Option, List}
use baker_self_hosted_voice.Connection.{ConnectionManager}
use baker_self_hosted_voice.Voice.{VoiceRoomManager, VoiceParticipantRecord}
use baker_self_hosted_voice.Stream.{StreamRoomManager}
use baker_self_hosted_voice.Music.{MusicRoomManager}

pub data MediaMode : Type 0 where
  p2p sfu : MediaMode

-- The part of `GatewayRuntime` that these handlers use.
pub record GatewayRuntime (D : Type 0) : Type 0 where
  pub connections : ConnectionManager
  pub voice_room : VoiceRoomManager
  pub stream_room : StreamRoomManager D
  pub music_room : MusicRoomManager
  pub media_mode : MediaMode

pub data SessionMode : Type 0 where
  music_listen music_publish stream_publish stream_watch voice : SessionMode

pub record MediaSessionDescriptor : Type 0 where
  pub channel_id : String
  pub mode : SessionMode
  pub session_id : String
  pub stream_id : Option String
  pub user_id : String

pub data ErrorCode : Type 0 where
  channel_not_found channel_not_text forbidden guild_not_found : ErrorCode
  internal_server_error invalid_credentials invalid_payload : ErrorCode
  media_negotiation_timeout music_already_listening music_already_live : ErrorCode
  music_not_found music_not_host music_not_live not_found permission_denied : ErrorCode
  rate_limited stream_already_active stream_already_live stream_already_watching : ErrorCode
  stream_not_found stream_not_host stream_not_live token_expired token_invalid : ErrorCode
  unauthorized unsupported_command validation_error voice_already_joined : ErrorCode
  voice_not_joined : ErrorCode

-- A refusal is known by its code: the text and the hint to retry that come with it are left out. So
-- are the ICE servers, the SFU parameters and the diagnostics, which an acknowledgement hands on.
pub data Reply : Type 0 where
  voice_joined :
      (channel_id session_id : String) → (participants : List VoiceParticipantRecord) → Reply
  voice_left : (channel_id : String) → Reply
  music_started : (channel_id music_id session_id : String) → Reply
  music_stopped : (channel_id music_id : String) → Reply
  music_listening : (channel_id music_id host_session_id host_user_id session_id : String) → Reply
  music_unlistened : (channel_id music_id : String) → Reply
  stream_started : (channel_id stream_id session_id : String) → Reply
  stream_stopped : (channel_id stream_id : String) → Reply
  stream_watching : (channel_id stream_id host_session_id host_user_id session_id : String) → Reply
  stream_unwatched : (channel_id : String) → (stream_id : Option String) → Reply
  diagnostics_accepted : Reply
  diagnostics_given : (publisher_sampled_at : Option ℕ) → Reply
  authenticated : (connection_id user_id : String) → Reply
  session_restarted : MediaSessionDescriptor → Reply
  sfu_done : Reply
  acknowledged : (connection_id : String) → Reply
  relayed : (target_user_id : String) → Reply
  subscribed : (channel_id : String) → Bool → Reply
  reported : (channel_id : String) → Reply
  spoken : (channel_id : String) → (is_speaking : Bool) → Reply
  refused : ErrorCode → Reply

pub data ChannelType : Type 0 where
  text voice_channel : ChannelType

pub record Channel : Type 0 where
  pub guild_id : String
  pub channel_type : ChannelType

-- The look-ups of the database that the handlers wait for.
pub record Database : Type 0 where
  pub find_channel : (channel_id : String) → Option Channel
  pub is_member : (guild_id user_id : String) → Bool

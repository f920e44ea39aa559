-- ===== src/Connection.antt =====
-- apps/gateway/src/ws/connection-manager.ts: the state of `ConnectionManager`. The children hold its
-- methods (`Registry`, `Quality`, `Delivery`) and what they establish.
pub mod Registry
pub mod Quality
pub mod Delivery
pub mod Index
pub mod Window
pub mod Pings
pub mod Sequence
pub mod Identity
mod Tests
use baker_self_hosted_voice.Common.{ℕ, String, Bool, List, Option}
use baker_self_hosted_voice.Common.StringMap.{StringMap}

-- The WebSocket is known by a handle; `seq` is the counter that the closure `nextSequence` owns.
pub record GatewayConnection : Type 0 where
  pub guild_ids : List String
  pub id : String
  pub media_region_id : Option String
  pub request_hosts : List String
  pub user_id : Option String
  pub session_id : Option String
  pub username : Option String
  pub subscriptions : List String
  pub voice_channel_id : Option String
  pub seq : ℕ
  pub socket : ℕ

-- Times are milliseconds, losses whole percents; `media_self_loss` is in hundredths of a percent.
pub record ConnectionQualityState : Type 0 where
  pub gateway_loss_pct : Option ℕ
  pub gateway_rtt_ms : Option ℕ
  pub gateway_samples : List Bool
  pub gateway_updated_at_ms : Option ℕ
  pub media_self_loss : Option ℕ
  pub media_updated_at_ms : Option ℕ
  pub pending_gateway_ping_sent_at_ms : Option ℕ

pub record ConnectionManager : Type 0 where
  pub connections : StringMap GatewayConnection
  pub connection_quality : StringMap ConnectionQualityState
  pub user_to_connection_id : StringMap String

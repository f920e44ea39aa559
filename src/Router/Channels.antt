-- ===== src/Router/Channels.antt =====
-- event-router.ts: `handleChannelSubscribe` and `handleChannelUnsubscribe`. The connection is the one
-- of the registry under its id, where its subscriptions change in place.
use baker_self_hosted_voice.Common.{String, true, false, Option, none, some, List, if◌then◌else◌}
use baker_self_hosted_voice.Common.StringMap.{set}
use baker_self_hosted_voice.Common.StringSet
use baker_self_hosted_voice.Connection.{GatewayConnection, ConnectionManager}
use baker_self_hosted_voice.Router.{
  ErrorCode, channel_not_found, channel_not_text, forbidden, invalid_payload, Reply, subscribed,
  refused, ChannelType, text, voice_channel, Channel, Database,
}

abbrev pub with_subscriptions :
    ConnectionManager → GatewayConnection → List String → ConnectionManager
with_subscriptions m connection channels = record m {
  connections = set connection.id (record connection { subscriptions = channels }) m.connections;
}

-- The answer to a subscription, before anything changes: `none` is consent.
abbrev pub subscribe_in : Database → (user_id : String) → Channel → ChannelType → Option ErrorCode
subscribe_in db user channel voice_channel = some channel_not_text
subscribe_in db user channel text =
    if db.is_member channel.guild_id user then none else some forbidden

abbrev pub subscribe_error : Database → (user_id : String) → Option Channel → Option ErrorCode
subscribe_error db user none = some channel_not_found
subscribe_error db user (some channel) = subscribe_in db user channel channel.channel_type

unfoldable pub handle_channel_subscribe :
    Database
    → ConnectionManager
    → GatewayConnection
    → (user_id : String) → (channel_id : Option String) → ConnectionManager × Reply
handle_channel_subscribe db m connection user none = (m, refused invalid_payload)
handle_channel_subscribe db m connection user (some channel) =
    elim (subscribe_error db user (db.find_channel channel)) [
      | some code ↦ (m, refused code)
      | none ↦ (
        with_subscriptions m connection (StringSet.add channel connection.subscriptions),
        subscribed channel true,
      )
    ]

unfoldable pub handle_channel_unsubscribe :
    ConnectionManager → GatewayConnection → (channel_id : Option String) → ConnectionManager × Reply
handle_channel_unsubscribe m connection none = (m, refused invalid_payload)
handle_channel_unsubscribe m connection (some channel) = (
  with_subscriptions m connection (StringSet.remove channel connection.subscriptions),
  subscribed channel false,
)

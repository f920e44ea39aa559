-- ===== src/Router/Subscriptions.antt =====
-- What a subscription and its end do to who hears a channel.
use baker_self_hosted_voice.Common.{
  String, Bool, true, false, ◌≡◌, ◌⊎◌, ◌↔◌, refl, Option, none, some, arith, Option-cases, inl, inr,
  ◌==◌, ◌&&◌, if◌then◌else◌,
}
use baker_self_hosted_voice.Common.StringMap.{get}
use baker_self_hosted_voice.Common.StringMap.Laws.{get-set}
use baker_self_hosted_voice.Common.StringSet
use baker_self_hosted_voice.Connection.{GatewayConnection, ConnectionManager}
use baker_self_hosted_voice.Router.{
  ChannelType, Reply, subscribed, text, voice_channel, Channel, Database,
}
use baker_self_hosted_voice.Router.Channels.{
  subscribe_error, handle_channel_subscribe, handle_channel_unsubscribe,
}

-- Whether the connection under an id hears a channel.
abbrev pub hears_in : Option GatewayConnection → String → Bool
hears_in none channel = false
hears_in (some conn) channel = StringSet.has channel conn.subscriptions

abbrev pub hears : ConnectionManager → (connection_id channel_id : String) → Bool
hears m k channel = hears_in (get k m.connections) channel

abbrev pub is_accepted : Reply → Bool
is_accepted (subscribed channel b) = true
is_accepted _ = false

ChannelType-cases : (t : ChannelType) → (t ≡ text) ⊎ (t ≡ voice_channel)
ChannelType-cases text = inl refl
ChannelType-cases voice_channel = inr refl

subscribe_error_iff :
    (db : Database) (u : String) (found : Option Channel)
    → (subscribe_error db u found ≡ none) ↔ (
        (channel : Channel) × (found ≡ some channel)
        × (channel.channel_type ≡ text)
        × (db.is_member channel.guild_id u ≡ true))
subscribe_error_iff db u none = (λ h. absurd (ground arith), λ h. absurd (ground arith))
subscribe_error_iff db u (some channel) = elim (ChannelType-cases channel.channel_type) [
  | inl is_text ↦ (λ h. (channel, refl, is_text, ground arith), λ h. ground arith)
  | inr is_voice ↦ (λ h. absurd (ground arith), λ h. absurd (ground arith))
]

module _ (db : Database) (m : ConnectionManager) (conn : GatewayConnection) (u c : String) where
  -- A subscription is accepted exactly for a text channel that exists, in a guild that the user is a
  -- member of. Then the registered connection hears that channel, and nothing else changes in who
  -- hears what; otherwise nothing changes.
  pub handle_channel_subscribe-hears :
      get conn.id m.connections ≡ some conn
      → let r = handle_channel_subscribe db m conn u (some c) in
        ((is_accepted r.1 ≡ true) ↔ (
          (channel : Channel) × (db.find_channel c ≡ some channel)
          × (channel.channel_type ≡ text)
          × (db.is_member channel.guild_id u ≡ true)))
        × ((k d : String)
            → hears r.0 k d
              ≡ (if is_accepted r.1 && conn.id == k && c == d then true else hears m k d))
  unfolding handle_channel_subscribe
  handle_channel_subscribe-hears here =
      let (there, back) = subscribe_error_iff db u (db.find_channel c) in
      elim (Option-cases (subscribe_error db u (db.find_channel c))) [
        | inl consent ↦
            rw (consent, handle_channel_subscribe)
              (
                (λ h. there consent, λ h. refl),
                λ k d. ground (
                  arith,
                  get-set conn.id k
                      (record conn { subscriptions = StringSet.add c conn.subscriptions })
                      m.connections,
                  StringSet.has-add c d conn.subscriptions,
                ),
              )
        | inr (code, refusal) ↦
            rw (refusal, handle_channel_subscribe)
              ((λ h. absurd (ground arith), λ h. absurd (ground (arith, back h))), λ k d. refl)
      ]

-- After the end of a subscription the registered connection does not hear that channel, and nothing
-- else changes in who hears what.
handle_channel_unsubscribe-hears :
    (m : ConnectionManager) (conn : GatewayConnection) (c k d : String)
    → get conn.id m.connections ≡ some conn
    → hears (handle_channel_unsubscribe m conn (some c)).0 k d
      ≡ (if conn.id == k && c == d then false else hears m k d)
unfolding handle_channel_unsubscribe
handle_channel_unsubscribe-hears m conn c k d here = ground (
  arith,
  get-set conn.id k (record conn { subscriptions = StringSet.remove c conn.subscriptions })
      m.connections,
  StringSet.has-remove c d conn.subscriptions,
)

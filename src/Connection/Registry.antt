-- ===== src/Connection/Registry.antt =====
-- connection-manager.ts: `attach`, `detach`, `markAuthenticated` and the lookups.
use baker_self_hosted_voice.Common.{
  ℕ, suc, String, Bool, true, false, Option, none, some, List, [], ◌∷◌, ◌==◌, if◌then◌else◌, truthy,
}
use baker_self_hosted_voice.Common.StringMap.{StringMap, get, set, delete, values, size}
use baker_self_hosted_voice.Common.StringSet
use baker_self_hosted_voice.Connection.{
  GatewayConnection, ConnectionQualityState, ConnectionManager,
}

abbrev pub no_samples : ConnectionQualityState
no_samples = record {
  gateway_loss_pct = none;
  gateway_rtt_ms = none;
  gateway_samples = [];
  gateway_updated_at_ms = none;
  media_self_loss = none;
  media_updated_at_ms = none;
  pending_gateway_ping_sent_at_ms = none;
}

abbrev pub new_connection : String → ℕ → Option String → List String → GatewayConnection
new_connection id socket media_region_id request_hosts = record {
  guild_ids = [];
  id = id;
  media_region_id = media_region_id;
  request_hosts = request_hosts;
  user_id = none;
  session_id = none;
  username = none;
  subscriptions = [];
  voice_channel_id = none;
  seq = 0;
  socket = socket;
}

-- `connection_id a b` stands for the template `conn-${a}-${b}`, which prints two numbers.
module _ (connection_id : ℕ → ℕ → String) where
  unfoldable pub attach :
      ConnectionManager
      → (socket : ℕ) → (media_region_id : Option String) → (request_hosts : List String) → (now : ℕ)
      → ConnectionManager × GatewayConnection
  attach m socket media_region_id request_hosts now =
      let id = connection_id now (suc (size m.connections)) in
      let connection = new_connection id socket media_region_id request_hosts in
      (
        record m {
          connections = set id connection m.connections;
          connection_quality = set id no_samples m.connection_quality;
        },
        connection,
      )

-- `this.userToConnectionId.get(userId) === connectionId`
abbrev pub is_the : Option String → String → Bool
is_the none c = false
is_the (some d) c = d == c

-- The first `if` of `detach`, on `conn?.userId`.
abbrev pub release_user : Option String → String → StringMap String → StringMap String
release_user none c index = index
release_user (some u) c index = if is_the (get u index) c then delete u index else index

abbrev pub authenticated_user : Option GatewayConnection → Option String
authenticated_user none = none
authenticated_user (some conn) = truthy conn.user_id

unfoldable pub detach : ConnectionManager → String → ConnectionManager
detach m c = record {
  connections = delete c m.connections;
  connection_quality = delete c m.connection_quality;
  user_to_connection_id =
      release_user (authenticated_user (get c m.connections)) c m.user_to_connection_id;
}

-- The four assignments of `markAuthenticated`.
abbrev pub authenticate :
    GatewayConnection
    → (user_id session_id : String) → (username : Option String) → (guild_ids : List String)
    → GatewayConnection
authenticate conn u s username guild_ids = record conn {
  guild_ids = StringSet.from_list guild_ids;
  user_id = some u;
  session_id = some s;
  username = username;
}

unfoldable pub mark_authenticated :
    ConnectionManager
    → (connection_id user_id session_id : String) → (username : Option String)
    → (guild_ids : List String) → ConnectionManager × Bool
mark_authenticated m c u s username guild_ids = elim (get c m.connections) [
  | none ↦ (m, false)
  | some conn ↦ (
    record m {
      connections = set c (authenticate conn u s username guild_ids) m.connections;
      user_to_connection_id = set u c m.user_to_connection_id;
    },
    true,
  )
]

abbrev pub get_by_id : ConnectionManager → String → Option GatewayConnection
get_by_id m c = get c m.connections

abbrev pub lookup_connection : Option String → ConnectionManager → Option GatewayConnection
lookup_connection none m = none
lookup_connection (some c) m = get c m.connections

unfoldable pub find_by_user_id : ConnectionManager → String → Option GatewayConnection
find_by_user_id m u = lookup_connection (truthy (get u m.user_to_connection_id)) m

abbrev pub subscribed : String → List GatewayConnection → List GatewayConnection
subscribed channel [] = []
subscribed channel (conn ∷ rest) =
    if StringSet.has channel conn.subscriptions
    then conn ∷ subscribed channel rest
    else subscribed channel rest

abbrev pub get_by_channel : ConnectionManager → String → List GatewayConnection
get_by_channel m channel = subscribed channel (values m.connections)

abbrev pub get_all : ConnectionManager → List GatewayConnection
get_all m = values m.connections

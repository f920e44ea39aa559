-- ===== src/Presence.antt =====
-- apps/gateway/src/ws/presence-manager.ts: who is online, and the copy of it in Redis. `onConnect`
-- and `onDisconnect` read the count, wait for Redis and then broadcast that count: each is two
-- functions here, since other calls may come between. Redis is an argument (`RedisClient`).
pub mod Counts
pub mod Mirror
mod Tests
use baker_self_hosted_voice.Common.{
  ℕ, suc, String, Bool, true, false, Option, none, some, List, [], ◌∷◌, ◌++◌, if◌then◌else◌, truthy,
  ltb, or_else,
}
use baker_self_hosted_voice.Common.StringMap.{StringMap, get, has, set, delete, keys}
use baker_self_hosted_voice.Connection.{GatewayConnection, ConnectionManager}
use baker_self_hosted_voice.Connection.Registry.{get_all, is_the}
use baker_self_hosted_voice.Connection.Delivery.{Sent, send_all}

pub data PresenceStatus : Type 0 where
  idle offline online : PresenceStatus

pub record PresenceUpdated : Type 0 where
  pub connection_count : ℕ
  pub status : PresenceStatus
  pub user_id : String
  pub username : Option String

pub record SnapshotEntry : Type 0 where
  pub connection_count : ℕ
  pub username : Option String

-- The commands of the Redis client on one hash. `none` is a call that is rejected.
pub record RedisClient (S : Type 0) : Type 0 where
  pub hgetall : S → Option (StringMap String)
  pub hset : String → String → S → Option S
  pub hdel : String → S → Option S

abbrev pub UsernameCache : Type 0
UsernameCache = StringMap String

-- `connection.userId === userId`
abbrev pub count_connections : (user_id : String) → List GatewayConnection → ℕ
count_connections user [] = 0
count_connections user (conn ∷ conns) =
    let rest = count_connections user conns in if is_the conn.user_id user then suc rest else rest

abbrev pub get_local_connection_count : ConnectionManager → (user_id : String) → ℕ
get_local_connection_count conns user = count_connections user (get_all conns)

-- `a ?? b`, on values that may be `null` themselves.
abbrev pub coalesce : Option String → Option String → Option String
coalesce none b = b
coalesce (some a) b = some a

abbrev pub entry_count : Option SnapshotEntry → ℕ
entry_count none = 0
entry_count (some e) = e.connection_count

abbrev pub entry_username : Option SnapshotEntry → Option String
entry_username none = none
entry_username (some e) = e.username

-- One round of `getLocalSnapshot`: `user` is `connection.userId` where that is truthy.
abbrev pub count_in :
    UsernameCache
    → (exclude_connection_id : Option String) → GatewayConnection
    → (user : Option String) → StringMap SnapshotEntry
    → StringMap SnapshotEntry
count_in cache exclude conn none snapshot = snapshot
count_in cache exclude conn (some user) snapshot =
    if is_the exclude conn.id
    then snapshot
    else set user
        (record {
          connection_count = suc (entry_count (get user snapshot));
          username =
              coalesce conn.username
                (coalesce (entry_username (get user snapshot)) (get user cache));
        })
        snapshot

-- The loop of `getLocalSnapshot`, over the connections that are left.
unfoldable pub snapshot_from :
    UsernameCache
    → (exclude_connection_id : Option String) → List GatewayConnection
    → StringMap SnapshotEntry
    → StringMap SnapshotEntry
snapshot_from cache exclude [] snapshot = snapshot
snapshot_from cache exclude (conn ∷ conns) snapshot =
    snapshot_from cache exclude conns (count_in cache exclude conn (truthy conn.user_id) snapshot)

abbrev pub get_local_snapshot :
    UsernameCache
    → ConnectionManager
    → (exclude_connection_id : Option String) → StringMap SnapshotEntry
get_local_snapshot cache conns exclude = snapshot_from cache exclude (get_all conns) []

abbrev pub status_of : ℕ → PresenceStatus
status_of count = if ltb 0 count then online else offline

abbrev pub presence_event : UsernameCache → (user_id : String) → ℕ → PresenceUpdated
presence_event cache user count = record {
  connection_count = count;
  status = status_of count;
  user_id = user;
  username = get user cache;
}

abbrev pub entry_event : (user_id : String) → SnapshotEntry → PresenceUpdated
entry_event user e = record {
  connection_count = e.connection_count;
  status = online;
  user_id = user;
  username = e.username;
}

-- `if (username) this.usernameCache.set(userId, username)`
abbrev pub remember : Option String → (user_id : String) → UsernameCache → UsernameCache
remember none user cache = cache
remember (some name) user cache = set user name cache

module _ (accepts : ℕ → Bool) where
  unfoldable pub broadcast :
      UsernameCache
      → ConnectionManager
      → (user_id : String) → (connection_count : ℕ)
      → ConnectionManager × List (Sent PresenceUpdated)
  broadcast cache conns user count =
      send_all accepts (presence_event cache user count) (keys conns.connections) conns

  -- `sendSnapshotTo`, after the reconciliation: one event for each entry, to the one connection.
  unfoldable pub send_entries :
      (connection_id : String)
      → StringMap SnapshotEntry
      → ConnectionManager
      → ConnectionManager × List (Sent PresenceUpdated)
  send_entries c [] conns = (conns, [])
  send_entries c ((user, e) ∷ snapshot) conns =
      let now = send_all accepts (entry_event user e) (c ∷ []) conns in
      let later = send_entries c snapshot now.0 in (later.0, now.1 ++ later.1)

module _ {S : Type 0} where
  -- The first loop of `reconcileRedisSnapshot`: entries of the hash that no connection backs go.
  unfoldable pub prune : RedisClient S → StringMap SnapshotEntry → List String → S → S
  prune client snapshot [] s = s
  prune client snapshot (user ∷ users) s =
      prune client snapshot users (if has user snapshot then s else or_else (client.hdel user s) s)

module _ {S : Type 0} (to_text : ℕ → String) where
  -- The second: counts that differ from those that were read are written.
  unfoldable pub fill : RedisClient S → StringMap String → StringMap SnapshotEntry → S → S
  fill client hash [] s = s
  fill client hash ((user, e) ∷ snapshot) s = fill client hash snapshot (
      if is_the (get user hash) (to_text e.connection_count)
      then s
      else or_else (client.hset user (to_text e.connection_count) s) s)

-- `connect_start` is `onConnect` up to its wait, the write to Redis included; it returns the count
-- that `broadcast` takes after the wait.
module _ {S : Type 0} (to_text : ℕ → String) (redis : Option (RedisClient S)) where
  -- A rejected call leaves the hash as it is.
  unfoldable pub persist_count : (user_id : String) → (count : ℕ) → S → S
  persist_count user count s = elim redis [
    | none ↦ s
    | some client ↦
        or_else (if ltb 0 count then client.hset user (to_text count) s else client.hdel user s) s
  ]

  unfoldable pub connect_start :
      UsernameCache
      → ConnectionManager
      → (user_id : String) → (username : Option String) → S
      → UsernameCache × ℕ × S
  connect_start cache conns user username s =
      let count = get_local_connection_count conns user in
      (remember (truthy username) user cache, count, persist_count user count s)

  unfoldable pub disconnect_start : ConnectionManager → (user_id : String) → S → ℕ × S
  disconnect_start conns user s =
      let count = get_local_connection_count conns user in (count, persist_count user count s)

  unfoldable pub reconcile_redis_snapshot : StringMap SnapshotEntry → S → S
  unfolding prune fill
  reconcile_redis_snapshot snapshot s = elim redis [
    | none ↦ s
    | some client ↦ elim (client.hgetall s) [
      | none ↦ s
      | some hash ↦ fill to_text client hash snapshot (prune client snapshot (keys hash) s)
    ]
  ]

-- `onDisconnect` after its wait: the broadcast, and then the name of a user who is gone is forgotten.
module _ (accepts : ℕ → Bool) where
  unfoldable pub disconnect_finish :
      UsernameCache
      → ConnectionManager
      → (user_id : String) → (count : ℕ)
      → UsernameCache × ConnectionManager × List (Sent PresenceUpdated)
  unfolding broadcast
  disconnect_finish cache conns user count =
      let r = broadcast accepts cache conns user count in
      (if ltb 0 count then cache else delete user cache, r.0, r.1)

-- ===== src/Presence/Counts.antt =====
-- The connection counts that presence reports.
use baker_self_hosted_voice.Common.{
  ℕ, suc, ◌+◌, String, ◌≡◌, ◌≢◌, Option, none, some, List, [], ◌∷◌, arith, if◌then◌else◌,
  Option-cases, Bool-cases, inl, inr, truthy,
}
use baker_self_hosted_voice.Common.StringMap.{StringMap, get, set, delete, values}
use baker_self_hosted_voice.Common.StringMap.Laws.{get-set, delete_absent}
use baker_self_hosted_voice.Common.StringMap.Entries.{Distinct, set-Distinct}
use baker_self_hosted_voice.Connection.{GatewayConnection, ConnectionManager}
use baker_self_hosted_voice.Connection.Registry.{detach, mark_authenticated, authenticate, is_the}
use baker_self_hosted_voice.Presence.{
  coalesce, entry_username, SnapshotEntry, UsernameCache, count_connections,
  get_local_connection_count, entry_count, count_in, snapshot_from, get_local_snapshot,
}

-- How many connections of a list are the user's, one connection left out.
abbrev pub count_except : (exclude : Option String) → (user : String) → List GatewayConnection → ℕ
count_except exclude user [] = 0
count_except exclude user (conn ∷ conns) =
    let rest = count_except exclude user conns in
    if is_the exclude conn.id then rest else if is_the conn.user_id user then suc rest else rest

count-count_in :
    (cache : UsernameCache) (exclude : Option String) (conn : GatewayConnection) (u : String)
    (snapshot : StringMap SnapshotEntry)
    → u ≢ ""
    → entry_count (get u (count_in cache exclude conn (truthy conn.user_id) snapshot))
      ≡ entry_count (get u snapshot) + count_except exclude u (conn ∷ [])
count-count_in cache exclude conn u snapshot named = elim (Option-cases conn.user_id) [
  | inl guest ↦ ground (arith, named)
  | inr (v, user) ↦
      let entry : SnapshotEntry = record {
        connection_count = suc (entry_count (get v snapshot));
        username =
            coalesce conn.username (coalesce (entry_username (get v snapshot)) (get v cache));
      } in
      ground (arith, named, get-set v u entry snapshot)
]

count-snapshot_from :
    (cache : UsernameCache) (exclude : Option String) (conns : List GatewayConnection) (u : String)
    (snapshot : StringMap SnapshotEntry)
    → u ≢ ""
    → entry_count (get u (snapshot_from cache exclude conns snapshot))
      ≡ entry_count (get u snapshot) + count_except exclude u conns
unfolding snapshot_from
count-snapshot_from cache exclude [] u snapshot named = omega arith
count-snapshot_from cache exclude (conn ∷ conns) u snapshot named =
    let next = count_in cache exclude conn (truthy conn.user_id) snapshot in
    ground (
      arith,
      count-snapshot_from cache exclude conns u next named,
      count-count_in cache exclude conn u snapshot named,
    )

-- For a user id that is not empty, the count in the snapshot, taken as 0 where there is no entry,
-- is the number of the user's connections, the excluded one left out.
pub get_local_snapshot-counts :
    (cache : UsernameCache) (conns : ConnectionManager) (exclude : Option String) (u : String)
    → u ≢ ""
    → entry_count (get u (get_local_snapshot cache conns exclude))
      ≡ count_except exclude u (values conns.connections)
unfolding get
get_local_snapshot-counts cache conns exclude u named =
    omega (arith, count-snapshot_from cache exclude (values conns.connections) u [] named)

count-set :
    (u c : String) (old new : GatewayConnection) (conns : StringMap GatewayConnection)
    → get c conns ≡ some old
    → count_connections u (values (set c new conns)) + count_connections u (old ∷ [])
      ≡ count_connections u (values conns) + count_connections u (new ∷ [])
unfolding get set
count-set u c old new [] e = cc
count-set u c old new ((d, conn) ∷ conns) e = ground (arith, count-set u c old new conns)

count-delete :
    (u c : String) (old : GatewayConnection) (conns : StringMap GatewayConnection)
    → Distinct conns
    → get c conns ≡ some old
    → count_connections u (values (delete c conns)) + count_connections u (old ∷ [])
      ≡ count_connections u (values conns)
unfolding get delete
count-delete u c old [] d e = cc
count-delete u c old ((b, conn) ∷ conns) (new, d) e =
    ground (arith, count-delete u c old conns d, delete_absent b conns)

-- Where no connection id stands twice: when a connection that is there goes, the count of its user
-- falls by one and no other user's changes.
get_local_connection_count-detach :
    (m : ConnectionManager) (c u : String) (conn : GatewayConnection)
    → Distinct m.connections
    → get c m.connections ≡ some conn
    → get_local_connection_count (detach m c) u + (if is_the conn.user_id u then 1 else 0)
      ≡ get_local_connection_count m u
unfolding detach
get_local_connection_count-detach m c u conn d e =
    ground (arith, count-delete u c conn m.connections d e)

-- When a connection that has no user yet authenticates, the count of that user rises by one and no
-- other user's changes.
get_local_connection_count-mark_authenticated :
    (m : ConnectionManager) (c v s u : String) (name : Option String) (guilds : List String)
    (conn : GatewayConnection)
    → get c m.connections ≡ some conn
    → conn.user_id ≡ none
    → get_local_connection_count (mark_authenticated m c v s name guilds).0 u
      ≡ get_local_connection_count m u + (if is_the (some v) u then 1 else 0)
unfolding mark_authenticated
get_local_connection_count-mark_authenticated m c v s u name guilds conn e guest =
    ground (arith, count-set u c conn (authenticate conn v s name guilds) m.connections e)

count_in-Distinct :
    (cache : UsernameCache) (exclude : Option String) (conn : GatewayConnection)
    (user : Option String) (snapshot : StringMap SnapshotEntry)
    → Distinct snapshot
    → Distinct (count_in cache exclude conn user snapshot)
count_in-Distinct cache exclude conn none snapshot d = d
count_in-Distinct cache exclude conn (some u) snapshot d =
    elim (Bool-cases (is_the exclude conn.id)) [
      | inl left_out ↦ rw left_out d
      | inr counted ↦ rw counted (set-Distinct u _ snapshot d)
    ]

snapshot_from-Distinct :
    (cache : UsernameCache) (exclude : Option String) (conns : List GatewayConnection)
    (snapshot : StringMap SnapshotEntry)
    → Distinct snapshot
    → Distinct (snapshot_from cache exclude conns snapshot)
unfolding snapshot_from
snapshot_from-Distinct cache exclude [] snapshot d = d
snapshot_from-Distinct cache exclude (conn ∷ conns) snapshot d =
    snapshot_from-Distinct cache exclude conns _
      (count_in-Distinct cache exclude conn (truthy conn.user_id) snapshot d)

pub get_local_snapshot-Distinct :
    (cache : UsernameCache) (conns : ConnectionManager) (exclude : Option String)
    → Distinct (get_local_snapshot cache conns exclude)
get_local_snapshot-Distinct cache conns exclude =
    snapshot_from-Distinct cache exclude (values conns.connections) [] tt

-- ===== src/Presence/Tests.antt =====
-- Runs of the presence manager, and its theorems at concrete inputs.
use baker_self_hosted_voice.Common.{
  ℕ, zero, suc, String, ◌≡◌, refl, none, some, [], ◌∷◌, str_dec, ne_of_test, Differ,
}
use baker_self_hosted_voice.Common.StringMap.{StringMap, get, set, delete, values}
use baker_self_hosted_voice.Common.StringMap.Laws.{get-set, get-delete}
use baker_self_hosted_voice.Common.StringMap.Entries.{Distinct}
use baker_self_hosted_voice.Connection.{GatewayConnection, ConnectionManager}
use baker_self_hosted_voice.Connection.Registry.{new_connection, authenticate}
use baker_self_hosted_voice.Presence.{
  RedisClient, entry_count, get_local_snapshot, snapshot_from, prune, fill,
  reconcile_redis_snapshot,
}
use baker_self_hosted_voice.Presence.Counts.{count_except, get_local_snapshot-counts}
use baker_self_hosted_voice.Presence.Mirror.{IsHash, count_text, reconcile_redis_snapshot-mirrors}

abbrev guest : String → ℕ → GatewayConnection
guest id socket = new_connection id socket none []

abbrev ann : String → ℕ → GatewayConnection
ann id socket = authenticate (guest id socket) "ann" "s1" (some "Ann") []

-- Two connections of one user and a guest.
abbrev online : ConnectionManager
online = record {
  connections = ("a", ann "a" 1) ∷ ("b", ann "b" 2) ∷ ("g", guest "g" 3) ∷ [];
  connection_quality = [];
  user_to_connection_id = ("ann", "b") ∷ [];
}

-- A server that answers always, with the hash as its state.
abbrev server : RedisClient (StringMap String)
server = record {
  hgetall = λ s. some s;
  hset = λ k v s. some (set k v s);
  hdel = λ k s. some (delete k s);
}

server-IsHash : IsHash server
server-IsHash = record {
  fields = λ s. s;
  hgetall_reads = λ s. refl;
  hset_writes = λ k v s. (set k v s, refl, λ j. get-set k j v s);
  hdel_removes = λ k s. (delete k s, refl, λ j. get-delete k j s);
}

-- A count as text, for counts below three.
abbrev count_name : ℕ → String
count_name zero = "0"
count_name (suc zero) = "1"
count_name (suc (suc n)) = "2"

presence : Unit {0}
unfolding get set delete snapshot_from prune fill reconcile_redis_snapshot str_dec
presence = tt

reconcile_runs :
    reconcile_redis_snapshot count_name
      (some server)
      (get_local_snapshot [] online none)
      (("eve", "1") ∷ [])
    ≡ ("ann", "2") ∷ []
unfolding presence
reconcile_runs = refl

-- What the theorems ask of these inputs.
ann_named : Differ "ann" ""
unfolding str_dec
ann_named = ne_of_test "ann" "" refl

online-Distinct : Distinct online.connections
unfolding get str_dec
online-Distinct = (refl, (refl, (refl, tt)))

get_b : get "b" online.connections ≡ some (ann "b" 2)
unfolding get str_dec
get_b = refl

get_g : get "g" online.connections ≡ some (guest "g" 3)
unfolding get str_dec
get_g = refl

get_local_snapshot-counts_example :
    entry_count (get "ann" (get_local_snapshot [] online (some "b")))
    ≡ count_except (some "b") "ann" (values online.connections)
get_local_snapshot-counts_example = get_local_snapshot-counts [] online (some "b") "ann" ann_named

reconcile_redis_snapshot-mirrors_example :
    let snapshot = get_local_snapshot [] online none in
    get "ann" (reconcile_redis_snapshot count_name (some server) snapshot (("eve", "1") ∷ []))
    ≡ count_text count_name (get "ann" snapshot)
unfolding server-IsHash
reconcile_redis_snapshot-mirrors_example =
    reconcile_redis_snapshot-mirrors server server-IsHash count_name [] online none
      (("eve", "1") ∷ []) "ann"

-- ===== src/Presence/Mirror.antt =====
-- The copy in Redis after a reconciliation.
use baker_self_hosted_voice.Common.{
  ℕ, String, true, ◌≡◌, refl, Option, none, some, List, [], ◌∷◌, arith, ite, ◌&&◌, not,
  if◌then◌else◌, inl, inr, str_dec, Bool-cases, ◌∙◌,
}
use baker_self_hosted_voice.Common.StringMap.{StringMap, get, has, keys}
use baker_self_hosted_voice.Common.StringMap.Entries.{Distinct}
use baker_self_hosted_voice.Common.StringSet
use baker_self_hosted_voice.Connection.Registry.{is_the}
use baker_self_hosted_voice.Connection.{ConnectionManager}
use baker_self_hosted_voice.Presence.Counts.{get_local_snapshot-Distinct}
use baker_self_hosted_voice.Presence.{
  UsernameCache, get_local_snapshot, SnapshotEntry, RedisClient, prune, fill,
  reconcile_redis_snapshot,
}

-- What Redis documents of a hash, while the server answers: `hgetall` reads all fields, `hset`
-- writes one and `hdel` removes one.
pub record IsHash {S : Type 0} (client : RedisClient S) : Type 0 where
  pub fields : S → StringMap String
  pub hgetall_reads : (s : S) → client.hgetall s ≡ some (fields s)
  pub hset_writes :
      (k v : String) (s : S)
      → (s' : S) × (client.hset k v s ≡ some s')
        × ((j : String) → get j (fields s') ≡ ite (str_dec k j) (some v) (get j (fields s)))
  pub hdel_removes :
      (k : String) (s : S)
      → (s' : S) × (client.hdel k s ≡ some s')
        × ((j : String) → get j (fields s') ≡ ite (str_dec k j) none (get j (fields s)))

-- The text that the hash should hold of an entry.
abbrev pub count_text : (ℕ → String) → Option SnapshotEntry → Option String
count_text to_text none = none
count_text to_text (some e) = some (to_text e.connection_count)

has-keys {ℓ} : {V : Type ℓ} (j : String) (m : StringMap V) → StringSet.has j (keys m) ≡ has j m
unfolding StringSet.has get
has-keys j [] = refl
has-keys j ((k, v) ∷ m) = ground (arith, has-keys j m)

-- A write for a user who is not among the later ones leaves the later ones' fields alone.
unchanged :
    (u i text : String) (snapshot : StringMap SnapshotEntry) (old new : StringMap String)
    → get u snapshot ≡ none
    → has i snapshot ≡ true
    → get i new ≡ ite (str_dec u i) (some text) (get i old)
    → get i new ≡ get i old
unchanged u i text snapshot old new absent p f = ground arith

kept :
    (i : String) (snapshot : StringMap SnapshotEntry) (hash : StringMap String)
    → has i snapshot ≡ true
    → (if StringSet.has i (keys hash) && not (has i snapshot) then none else get i hash)
      ≡ get i hash
kept i snapshot hash p = ground arith

module _ {S : Type 0} (client : RedisClient S) (h : IsHash client) where
  open h use {fields}

  get-prune :
      (snapshot : StringMap SnapshotEntry) (users : List String) (s : S) (j : String)
      → get j (fields (prune client snapshot users s))
        ≡ (if StringSet.has j users && not (has j snapshot) then none else get j (fields s))
  unfolding prune StringSet.has
  get-prune snapshot [] s j = refl
  get-prune snapshot (u ∷ users) s j =
      let (s', e, f) = h.hdel_removes u s in
      ground (arith, e, f j, get-prune snapshot users s j, get-prune snapshot users s' j)

  module _ (to_text : ℕ → String) (hash : StringMap String) where
    -- The second loop, from a hash that agrees on the snapshot's users with what was read.
    get-fill :
        (snapshot : StringMap SnapshotEntry) (s : S)
        → Distinct snapshot
        → ((j : String) → has j snapshot ≡ true → get j (fields s) ≡ get j hash)
        → (j : String)
        → get j (fields (fill to_text client hash snapshot s))
          ≡ (if has j snapshot then count_text to_text (get j snapshot) else get j (fields s))
    unfolding fill get
    get-fill [] s d agree j = refl
    get-fill ((u, e) ∷ snapshot) s (new, d) agree j =
        let text = to_text e.connection_count in
        let here : get u (fields s) ≡ get u hash = agree u (ground arith) in
        let later = λ (i : String) (p : has i snapshot ≡ true). agree i (ground arith) in
        elim (Bool-cases (is_the (get u hash) text)) [
          | inl same ↦ rw (same, fill) (ground (arith, here, get-fill snapshot s d later j))
          | inr differs ↦
              let (s', written, f) = h.hset_writes u text s in
              let agree' = λ (i : String) (p : has i snapshot ≡ true).
                unchanged u i text snapshot (fields s) (fields s') new p (f i) ∙ later i p in
              rw (differs, fill, written) (ground (arith, f j, get-fill snapshot s' d agree' j))
        ]

  reconcile-mirrors :
      (to_text : ℕ → String) (snapshot : StringMap SnapshotEntry) (s : S) (j : String)
      → Distinct snapshot
      → get j (fields (reconcile_redis_snapshot to_text (some client) snapshot s))
        ≡ count_text to_text (get j snapshot)
  unfolding reconcile_redis_snapshot
  reconcile-mirrors to_text snapshot s j d =
      let hash = fields s in
      let pruned = prune client snapshot (keys hash) s in
      let left = λ (i : String). get-prune snapshot (keys hash) s i in
      let agree = λ (i : String) (p : has i snapshot ≡ true). left i ∙ kept i snapshot hash p in
      rw (h.hgetall_reads s)
        (ground (arith, get-fill to_text hash snapshot pruned d agree j, left j, has-keys j hash))

  -- While Redis answers as documented, a reconciliation with the local snapshot leaves in the hash,
  -- for every user in the snapshot, the text of its connection count there, and nothing for any
  -- other user, whatever the hash held before.
  pub reconcile_redis_snapshot-mirrors :
      (to_text : ℕ → String) (cache : UsernameCache) (conns : ConnectionManager)
      (exclude : Option String) (s : S) (j : String)
      → let snapshot = get_local_snapshot cache conns exclude in
        get j (fields (reconcile_redis_snapshot to_text (some client) snapshot s))
        ≡ count_text to_text (get j snapshot)
  reconcile_redis_snapshot-mirrors to_text cache conns exclude s j =
      reconcile-mirrors to_text (get_local_snapshot cache conns exclude) s j
        (get_local_snapshot-Distinct cache conns exclude)

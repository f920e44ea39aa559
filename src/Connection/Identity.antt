-- ===== src/Connection/Identity.antt =====
-- Connection ids. `attach` numbers a connection by how many there are, not by how many there were.
use baker_self_hosted_voice.Common.{ℕ, suc, String, ◌≡◌, ◌≢◌, none, some, Option, List, arith}
use baker_self_hosted_voice.Common.StringMap.{get, set, delete, size}
use baker_self_hosted_voice.Common.StringMap.Entries.{
  Distinct, set-Distinct, size-set_absent, size-delete,
}
use baker_self_hosted_voice.Common.StringMap.Laws.{get-set, get-set_self}
use baker_self_hosted_voice.Connection.{ConnectionManager}
use baker_self_hosted_voice.Connection.Registry.{attach, detach, new_connection}

module _ (connection_id : ℕ → ℕ → String) (region : Option String) (hosts : List String) where
  -- Two connections arrive, the first goes, a third arrives, all within one millisecond: the third
  -- gets the second one's id and takes its place in the registry. No id stands twice before, and
  -- the two ids that are given out first are different and not in use.
  pub attach_collides :
      (m : ConnectionManager) (first second third now : ℕ)
      → let id1 = connection_id now (suc (size m.connections)) in
        let id2 = connection_id now (suc (suc (size m.connections))) in
        let m1 = (attach connection_id m first region hosts now).0 in
        let m2 = (attach connection_id m1 second region hosts now).0 in
        let m4 = (attach connection_id (detach m2 id1) third region hosts now).0 in
        Distinct m.connections
        → get id1 m.connections ≡ none
        → get id2 m.connections ≡ none
        → id1 ≢ id2
        → (get id2 m2.connections ≡ some (new_connection id2 second region hosts))
          × (get id2 m4.connections ≡ some (new_connection id2 third region hosts))
  unfolding attach detach
  attach_collides m first second third now d f1 f2 ne =
      let conns = m.connections in
      let id1 = connection_id now (suc (size conns)) in
      let id2 = connection_id now (suc (suc (size conns))) in
      let c1 = set id1 (new_connection id1 first region hosts) conns in
      let c2 = set id2 (new_connection id2 second region hosts) c1 in
      let n1 = new_connection id1 first region hosts in
      let n2 = new_connection id2 second region hosts in
      let e1 : size c1 ≡ suc (size conns) = size-set_absent id1 n1 conns f1 in
      let d1 = set-Distinct id1 n1 conns d in
      let new2 : get id2 c1 ≡ none = ground (arith, get-set id1 id2 n1 conns) in
      let old1 : get id1 c2 ≡ some n1 =
        ground (arith, get-set id2 id1 n2 c1, get-set_self id1 n1 conns) in
      let e2 : size (delete id1 c2) ≡ suc (size conns) = omega (
        arith,
        e1,
        size-set_absent id2 n2 c1 new2,
        size-delete id1 n1 c2 (set-Distinct id2 n2 c1 d1) old1,
      ) in
      rw e1
        (rw e2 (get-set_self id2 n2 c1, get-set_self id2 (new_connection id2 third region hosts) _))

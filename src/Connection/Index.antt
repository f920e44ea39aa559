-- ===== src/Connection/Index.antt =====
-- The index from users to connections, through `attach`, `markAuthenticated` and `detach`.
use baker_self_hosted_voice.Common.{
  ℕ, suc, String, ◌≡◌, ◌≢◌, ◌⊎◌, Option, none, some, List, arith, str_dec, ite, Option-cases, inl,
  inr, if◌then◌else◌, ◌==◌,
}
use baker_self_hosted_voice.Common.StringMap.{get, size}
use baker_self_hosted_voice.Common.StringMap.Laws.{get-set, get-delete}
use baker_self_hosted_voice.Connection.{GatewayConnection, ConnectionManager}
use baker_self_hosted_voice.Connection.Registry.{
  attach, detach, mark_authenticated, find_by_user_id, new_connection, get_by_id, authenticate,
  is_the,
}

-- The user that a connection is authenticated as.
abbrev pub user_of : Option GatewayConnection → Option String
user_of none = none
user_of (some conn) = conn.user_id

-- Every entry of the index leads to a connection that is authenticated as its user.
abbrev pub IsIndexed : ConnectionManager → Type 0
IsIndexed m =
    (u c : String)
    → get u m.user_to_connection_id ≡ some c
    → (user_of (get c m.connections) ≡ some u) × (u ≢ "")

-- On a sound index the look-up by user finds only connections of that user.
find_by_user_id_sound :
    (m : ConnectionManager) (u : String) (conn : GatewayConnection)
    → IsIndexed m
    → find_by_user_id m u ≡ some conn
    → conn.user_id ≡ some u
unfolding find_by_user_id
find_by_user_id_sound m u conn h e = elim (Option-cases (get u m.user_to_connection_id)) [
  | inl missing ↦ ground arith
  | inr (c, found) ↦ ground (arith, h u c)
]

-- A connection under a new id leaves the index sound.
attach-IsIndexed :
    (connection_id : ℕ → ℕ → String) (m : ConnectionManager) (socket : ℕ) (region : Option String)
    (hosts : List String) (now : ℕ)
    → get (connection_id now (suc (size m.connections))) m.connections ≡ none
    → IsIndexed m
    → IsIndexed (attach connection_id m socket region hosts now).0
unfolding attach
attach-IsIndexed connection_id m socket region hosts now fresh h u c e =
    let id = connection_id now (suc (size m.connections)) in
    let new = new_connection id socket region hosts in
    ground (arith, h u c, get-set id c new m.connections)

-- Authentication under a user id that is not empty keeps the index sound where the connection was
-- not yet another user's.
pub mark_authenticated-IsIndexed :
    (m : ConnectionManager) (c u s : String) (name : Option String) (guilds : List String)
    → u ≢ ""
    → (user_of (get c m.connections) ≡ none) ⊎ (user_of (get c m.connections) ≡ some u)
    → IsIndexed m
    → IsIndexed (mark_authenticated m c u s name guilds).0
unfolding mark_authenticated
mark_authenticated-IsIndexed m c u s name guilds named free h v d e =
    elim (Option-cases (get c m.connections)) [
      | inl missing ↦ ground (arith, h v d)
      | inr (conn, found) ↦ ground (
        arith,
        h v d,
        get-set u v c m.user_to_connection_id,
        get-set c d (authenticate conn u s name guilds) m.connections,
      )
    ]

detach_user :
    (m : ConnectionManager) (c a : String) (conn : GatewayConnection)
    → get c m.connections ≡ some conn
    → conn.user_id ≡ some a
    → IsIndexed m
    → IsIndexed (detach m c)
unfolding detach
detach_user m c a conn found user h u d e =
    ground (arith, h u d, get-delete c d m.connections, get-delete a u m.user_to_connection_id)

-- After `detach` nothing is kept of the connection, and all others stay.
get-detach :
    (m : ConnectionManager) (c d : String)
    → (get d (detach m c).connections ≡ ite (str_dec c d) none (get d m.connections))
      × (get d (detach m c).connection_quality
          ≡ ite (str_dec c d) none (get d m.connection_quality))
unfolding detach
get-detach m c d = (get-delete c d m.connections, get-delete c d m.connection_quality)

detached-IsIndexed : (m : ConnectionManager) (c : String) → IsIndexed m → IsIndexed (detach m c)
unfolding detach
detached-IsIndexed m c h = elim (Option-cases (get c m.connections)) [
  | inl missing ↦ λ u d e. ground (arith, h u d, get-delete c d m.connections)
  | inr (conn, found) ↦ elim (Option-cases conn.user_id) [
    | inl guest ↦ λ u d e. ground (arith, h u d, get-delete c d m.connections)
    | inr (a, user) ↦ detach_user m c a conn found user h
  ]
]

-- The entries that lead to the connection go, and the others stay.
detach-entries :
    (m : ConnectionManager) (c u : String)
    → IsIndexed m
    → get u (detach m c).user_to_connection_id
      ≡ (if is_the (get u m.user_to_connection_id) c then none else get u m.user_to_connection_id)
unfolding detach
detach-entries m c u h = elim (Option-cases (get c m.connections)) [
  | inl missing ↦ ground (arith, h u c)
  | inr (conn, found) ↦ elim (Option-cases conn.user_id) [
    | inl guest ↦ ground (arith, h u c)
    | inr (a, user) ↦ ground (arith, h u c, get-delete a u m.user_to_connection_id)
  ]
]

-- On a sound index, after a connection goes it is not there, no user's entry leads to it, every
-- other connection and every entry that led to another is as it was, and the index is sound.
pub detach-IsIndexed :
    (m : ConnectionManager) (c : String)
    → IsIndexed m
    → ((d : String)
        → get d (detach m c).connections ≡ (if c == d then none else get d m.connections))
      × ((u : String) → get u (detach m c).user_to_connection_id ≢ some c)
      × ((u : String)
          → get u (detach m c).user_to_connection_id ≡ (
              if is_the (get u m.user_to_connection_id) c
              then none
              else get u m.user_to_connection_id))
      × IsIndexed (detach m c)
detach-IsIndexed m c h = (
  λ d. ground (arith, (get-detach m c d).0),
  λ u e. ground (arith, detach-entries m c u h),
  λ u. detach-entries m c u h,
  detached-IsIndexed m c h,
)

-- A user found by the index is found at the connection that authenticated last.
find_by_user_id-mark_authenticated :
    (m : ConnectionManager) (c u s : String) (name : Option String) (guilds : List String)
    (conn : GatewayConnection)
    → get c m.connections ≡ some conn
    → c ≢ ""
    → find_by_user_id (mark_authenticated m c u s name guilds).0 u
      ≡ some (authenticate conn u s name guilds)
unfolding find_by_user_id mark_authenticated
find_by_user_id-mark_authenticated m c u s name guilds conn found named = ground (
  arith,
  get-set u u c m.user_to_connection_id,
  get-set c c (authenticate conn u s name guilds) m.connections,
)

-- A connection that the index has for one user and that authenticates again as another is still
-- found under the first user's name: the index entry of the first user is not taken back. The
-- connection id is not empty.
pub find_by_user_id_after_switch :
    (m : ConnectionManager) (c u v s : String) (name : Option String) (guilds : List String)
    (conn : GatewayConnection)
    → get c m.connections ≡ some conn
    → get u m.user_to_connection_id ≡ some c
    → c ≢ ""
    → u ≢ v
    → find_by_user_id (mark_authenticated m c v s name guilds).0 u
      ≡ some (authenticate conn v s name guilds)
unfolding find_by_user_id mark_authenticated
find_by_user_id_after_switch m c u v s name guilds conn found indexed named other = ground (
  arith,
  get-set v u c m.user_to_connection_id,
  get-set c c (authenticate conn v s name guilds) m.connections,
)

-- When the latest of a user's two connections goes, the user is no longer found, though the earlier
-- connection stays. The user id is not empty.
find_by_user_id_after_detach :
    (m : ConnectionManager) (old new u : String) (first last : GatewayConnection)
    → get old m.connections ≡ some first
    → first.user_id ≡ some u
    → get new m.connections ≡ some last
    → last.user_id ≡ some u
    → get u m.user_to_connection_id ≡ some new
    → u ≢ ""
    → old ≢ new
    → (find_by_user_id (detach m new) u ≡ none) × (get_by_id (detach m new) old ≡ some first)
unfolding find_by_user_id detach
find_by_user_id_after_detach m old new u first last f fu l lu indexed named other =
    ground (arith, get-delete new old m.connections, get-delete u u m.user_to_connection_id)

-- ===== src/Handlers/Producers.antt =====
-- Who hears of a producer of the SFU.
use baker_self_hosted_voice.Common.{
  ℕ, String, Bool, false, some, List, [], ◌∷◌, ◌≡◌, ◌≢◌, refl, arith, All, All-append, All-mono,
  suc, none, ◌++◌, ◌&&◌, not, ap, ◌∙◌, if◌then◌else◌, Bool-cases, inl, inr, Option-cases,
}
use baker_self_hosted_voice.Common.StringMap.{get}
use baker_self_hosted_voice.Common.StringMap.Laws.{get-set}
use baker_self_hosted_voice.Connection.{GatewayConnection, ConnectionManager}
use baker_self_hosted_voice.Connection.Registry.{is_the}
use baker_self_hosted_voice.Common.StringSet
use baker_self_hosted_voice.Connection.Sequence.{letters, spent, send_all-letters}
use baker_self_hosted_voice.Connection.Delivery.{Sent, send_to, send_all}
use baker_self_hosted_voice.Connection.Index.{user_of}
use baker_self_hosted_voice.Router.Broadcasts.{RuntimeEvent}
use baker_self_hosted_voice.Handlers.{send_others}

-- A letter to one connection changes nobody's user.
send_to-user :
    (accepts : ℕ → Bool) (event : RuntimeEvent) (c d : String) (m : ConnectionManager)
    → user_of (get d (send_to accepts event c m).0.connections) ≡ user_of (get d m.connections)
unfolding send_to
send_to-user accepts event c d m = elim (Option-cases (get c m.connections)) [
  | inl missing ↦ ground arith
  | inr (conn, found) ↦
      ground (arith, get-set c d (record conn { seq = suc conn.seq }) m.connections)
]

abbrev IsForOthers :
    ConnectionManager → (user_id : String) → RuntimeEvent → Sent RuntimeEvent → Type 0
IsForOthers m user event e = (user_of (get e.to m.connections) ≢ some user) × (e.event ≡ event)

send_to-IsForOthers :
    (accepts : ℕ → Bool) (user : String) (event : RuntimeEvent) (c : String) (m : ConnectionManager)
    (conn : GatewayConnection)
    → get c m.connections ≡ some conn
    → is_the conn.user_id user ≡ false
    → All (IsForOthers m user event) (send_to accepts event c m).1
unfolding send_to
send_to-IsForOthers accepts user event c m conn found other =
    elim (Bool-cases (accepts conn.socket)) [
      | inl taken ↦ rw (found, send_to, taken) ((ground arith, refl), tt)
      | inr thrown ↦ rw (found, send_to, thrown) tt
    ]

-- What is sent goes to connections of other users.
send_others-IsForOthers :
    (accepts : ℕ → Bool) (user : String) (event : RuntimeEvent) (cs : List String)
    (m : ConnectionManager)
    → All
        (λ e. (user_of (get e.to m.connections) ≢ some user) × (e.event ≡ event))
        (send_others accepts user event cs m).1
unfolding send_others
send_others-IsForOthers accepts user event [] m = tt
send_others-IsForOthers accepts user event (c ∷ cs) m = elim (Option-cases (get c m.connections)) [
  | inl missing ↦ rw (missing, send_others) (send_others-IsForOthers accepts user event cs m)
  | inr (conn, found) ↦ elim (Bool-cases (is_the conn.user_id user)) [
    | inl own ↦ rw (found, send_others, own) (send_others-IsForOthers accepts user event cs m)
    | inr other ↦
        let now = send_to accepts event c m in
        rw (found, send_others, other)
          (All-append (IsForOthers m user event) now.1 (send_others accepts user event cs now.0).1
            (send_to-IsForOthers accepts user event c m conn found other)
            (All-mono (IsForOthers now.0 user event) (IsForOthers m user event)
              (λ e (others, same). (rw (send_to-user accepts event c e.to m) at others, same))
              (send_others accepts user event cs now.0).1
              (send_others-IsForOthers accepts user event cs now.0)))
  ]
]

-- The addressees without the connections of one user.
abbrev pub others : ConnectionManager → (user_id : String) → List String → List String
others m user [] = []
others m user (c ∷ cs) =
    let rest = others m user cs in
    if is_the (user_of (get c m.connections)) user then rest else c ∷ rest

has-others :
    (m : ConnectionManager) (user d : String) (cs : List String)
    → StringSet.has d (others m user cs)
      ≡ (StringSet.has d cs && not (is_the (user_of (get d m.connections)) user))
unfolding StringSet.has
has-others m user d [] = refl
has-others m user d (c ∷ cs) = ground (arith, has-others m user d cs)

others-Distinct :
    (m : ConnectionManager) (user : String) (cs : List String)
    → StringSet.Distinct cs
    → StringSet.Distinct (others m user cs)
others-Distinct m user [] h = tt
others-Distinct m user (c ∷ cs) (new, h) =
    ground (arith, others-Distinct m user cs h, has-others m user c cs)

module _ (accepts : ℕ → Bool) (user : String) (event : RuntimeEvent) where
  others-send_to :
      (c : String) (cs : List String) (m : ConnectionManager)
      → others (send_to accepts event c m).0 user cs ≡ others m user cs
  others-send_to c [] m = refl
  others-send_to c (d ∷ cs) m = rw (send_to-user accepts event c d m, others-send_to c cs m) refl

  send_to_missing :
      (c : String) (m : ConnectionManager)
      → get c m.connections ≡ none
      → send_to accepts event c m ≡ (m, [])
  unfolding send_to
  send_to_missing c m missing = rw (missing, send_to) refl

  -- The loop is the broadcast to the others.
  send_others-send_all :
      (cs : List String) (m : ConnectionManager)
      → send_others accepts user event cs m ≡ send_all accepts event (others m user cs) m
  unfolding send_others send_all
  send_others-send_all [] m = refl
  send_others-send_all (c ∷ cs) m = elim (Option-cases (get c m.connections)) [
    | inl missing ↦
        rw (missing, send_others, send_to_missing c m missing) (send_others-send_all cs m)
    | inr (conn, found) ↦ elim (Bool-cases (is_the conn.user_id user)) [
      | inl own ↦ rw (found, send_others, own) (send_others-send_all cs m)
      | inr other ↦
          let now = send_to accepts event c m in
          let same =
            send_others-send_all cs now.0
            ∙ ap (λ ds. send_all accepts event ds now.0) (others-send_to c cs m) in
          rw (found, send_others, other) (ap (λ r. (r.0, now.1 ++ r.1)) same)
    ]
  ]

  -- Of different addressees, each connection that is there and is another user's is sent the
  -- producer's event once, as it is, under the number after its last, if its socket takes it; no
  -- connection of the producer's user is sent anything. The entry of such another connection then has
  -- that number spent, and every other entry is as it was.
  pub send_others-letters :
      (cs : List String) (m : ConnectionManager)
      → StringSet.Distinct cs
      → ((send_others accepts user event cs m).1 ≡ letters accepts event m (others m user cs))
        × ((d : String)
            → get d (send_others accepts user event cs m).0.connections
              ≡ spent
                  (StringSet.has d cs && not (is_the (user_of (get d m.connections)) user))
                  (get d m.connections))
        × All
            (λ e. (user_of (get e.to m.connections) ≢ some user) × (e.event ≡ event))
            (send_others accepts user event cs m).1
  send_others-letters cs m h =
      let (sent, entries) =
        send_all-letters accepts event (others m user cs) m (others-Distinct m user cs h) in
      let same = send_others-send_all cs m in
      (
        ap (λ r. r.1) same ∙ sent,
        λ d. ap (λ r. get d r.0.connections) same ∙ (rw (has-others m user d cs) at (entries d)),
        send_others-IsForOthers accepts user event cs m,
      )

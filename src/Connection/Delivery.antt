-- ===== src/Connection/Delivery.antt =====
-- The loop that every broadcast of the room managers runs: look a connection up, take its next
-- sequence number, send. `accepts` says of which sockets `send` returns; from the others it throws,
-- the manager logs that and goes on, and the number is spent.
use baker_self_hosted_voice.Common.{
  ℕ, suc, String, Bool, none, some, List, [], ◌∷◌, ◌++◌, if◌then◌else◌,
}
use baker_self_hosted_voice.Common.StringMap.{get, set}
use baker_self_hosted_voice.Connection.{GatewayConnection, ConnectionManager}

-- An event envelope that a socket took.
pub record Sent {ℓ} (E : Type ℓ) : Type ℓ where
  pub to : String
  pub seq : ℕ
  pub event : E

-- `conn.nextSequence()`
abbrev pub spend : String → GatewayConnection → ConnectionManager → ConnectionManager
spend c conn m = record m { connections = set c (record conn { seq = suc conn.seq }) m.connections }

module _ {ℓ} {E : Type ℓ} (accepts : ℕ → Bool) (event : E) where
  unfoldable pub send_to : String → ConnectionManager → ConnectionManager × List (Sent E)
  send_to c m = elim (get c m.connections) [
    | none ↦ (m, [])
    | some conn ↦ (
      spend c conn m,
      if accepts conn.socket then record { to = c; seq = suc conn.seq; event = event } ∷ [] else [],
    )
  ]

  unfoldable pub send_all : List String → ConnectionManager → ConnectionManager × List (Sent E)
  send_all [] m = (m, [])
  send_all (c ∷ cs) m =
      let now = send_to c m in let later = send_all cs now.0 in (later.0, now.1 ++ later.1)

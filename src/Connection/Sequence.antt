-- ===== src/Connection/Sequence.antt =====
-- What a broadcast does to the connections: every live addressee gets the event once, under its
-- next sequence number, and nothing else changes.
use baker_self_hosted_voice.Common.{
  ℕ, suc, String, Bool, true, false, Option, none, some, List, [], ◌∷◌, ◌++◌, ◌≡◌, refl, arith,
  if◌then◌else◌, Option-cases, inl, inr, str_dec, ite,
}
use baker_self_hosted_voice.Common.StringMap.{get}
use baker_self_hosted_voice.Common.StringMap.Laws.{get-set}
use baker_self_hosted_voice.Common.StringSet
use baker_self_hosted_voice.Connection.{GatewayConnection, ConnectionManager}
use baker_self_hosted_voice.Connection.Delivery.{Sent, send_to, send_all}

-- A connection whose next number is spent if `hit`.
abbrev pub spent : Bool → Option GatewayConnection → Option GatewayConnection
spent hit none = none
spent true (some conn) = some (record conn { seq = suc conn.seq })
spent false (some conn) = some conn

module _ {ℓ} {E : Type ℓ} (accepts : ℕ → Bool) (event : E) where
  -- What one addressee is sent, from the state before the broadcast.
  abbrev pub letter : String → Option GatewayConnection → List (Sent E)
  letter c none = []
  letter c (some conn) =
      if accepts conn.socket then record { to = c; seq = suc conn.seq; event = event } ∷ [] else []

  abbrev pub letters : ConnectionManager → List String → List (Sent E)
  letters m [] = []
  letters m (c ∷ cs) = letter c (get c m.connections) ++ letters m cs

  get-send_to :
      (c d : String) (m : ConnectionManager)
      → get d (send_to accepts event c m).0.connections
        ≡ spent (ite (str_dec c d) true false) (get d m.connections)
  unfolding send_to
  get-send_to c d m = elim (Option-cases (get c m.connections)) [
    | inl missing ↦ ground arith
    | inr (conn, found) ↦
        ground (arith, get-set c d (record conn { seq = suc conn.seq }) m.connections)
  ]

  send_to-letter :
      (c : String) (m : ConnectionManager)
      → (send_to accepts event c m).1 ≡ letter c (get c m.connections)
  unfolding send_to
  send_to-letter c m = ground arith

  -- A connection that is not addressed keeps its entry.
  letters-send_to :
      (c : String) (cs : List String) (m : ConnectionManager)
      → StringSet.has c cs ≡ false
      → letters (send_to accepts event c m).0 cs ≡ letters m cs
  unfolding StringSet.has
  letters-send_to c [] m h = refl
  letters-send_to c (d ∷ cs) m h = ground (arith, letters-send_to c cs m, get-send_to c d m)

  -- To a list of different connections, each one that is there is sent the event once, under the
  -- number after its last; the entry of every connection then is the old one with that number spent
  -- if it was addressed, and as it was if not.
  pub send_all-letters :
      (cs : List String) (m : ConnectionManager)
      → StringSet.Distinct cs
      → ((send_all accepts event cs m).1 ≡ letters m cs)
        × ((d : String)
            → get d (send_all accepts event cs m).0.connections
              ≡ spent (StringSet.has d cs) (get d m.connections))
  unfolding send_all StringSet.has
  send_all-letters [] m h = (refl, λ d. ground arith)
  send_all-letters (c ∷ cs) m (new, h) =
      let m' = (send_to accepts event c m).0 in
      let (sent, entries) = send_all-letters cs m' h in
      (
        ground (arith, sent, send_to-letter c m, letters-send_to c cs m new),
        λ d. ground (arith, entries d, get-send_to c d m),
      )

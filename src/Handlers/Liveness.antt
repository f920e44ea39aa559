-- ===== src/Handlers/Liveness.antt =====
-- How long the gateway keeps a connection that does not answer.
use baker_self_hosted_voice.Common.{
  ℕ, suc, ◌+◌, String, Bool, true, false, Option, none, some, List, [], ◌∷◌, ◌≡◌, refl, ap, ◌∙◌,
  arith, Bool-cases, Option-cases, inl, inr, leb, length,
}
use baker_self_hosted_voice.Common.StringMap.{get}
use baker_self_hosted_voice.Common.StringMap.Laws.{get-set_self}
use baker_self_hosted_voice.Connection.{ConnectionQualityState, ConnectionManager}
use baker_self_hosted_voice.Connection.Quality.{
  push_gateway_sample, note_gateway_ping_sent, timed_out, note_gateway_ping_timeout,
}
use baker_self_hosted_voice.Connection.Delivery.{send_to, send_all, spend}
use baker_self_hosted_voice.Router.{GatewayRuntime}
use baker_self_hosted_voice.Router.Broadcasts.{broadcast_voice_network_updated}
use baker_self_hosted_voice.Handlers.{Environment, tell}
use baker_self_hosted_voice.Handlers.Heartbeat.{
  Heartbeat, fresh, max_consecutive_misses, count_miss, channel_of_connection, tell_channel,
  after_sample, gateway_ping_timeout, tick, ticks,
}

-- Whether a ping of a connection waits for its pong: `none` where the connection is not known.
abbrev pub is_sent : Option ℕ → Bool
is_sent none = false
is_sent (some at_ms) = true

abbrev pub awaits_in : Option ConnectionQualityState → Option Bool
awaits_in none = none
awaits_in (some q) = some (is_sent q.pending_gateway_ping_sent_at_ms)

abbrev pub awaits : ConnectionManager → (connection_id : String) → Option Bool
awaits m k = awaits_in (get k m.connection_quality)

note_gateway_ping_sent-awaits :
    (m : ConnectionManager) (k : String) (at_ms : ℕ) (b : Bool)
    → awaits m k ≡ some b
    → awaits (note_gateway_ping_sent m k at_ms).0 k ≡ some true
unfolding note_gateway_ping_sent
note_gateway_ping_sent-awaits m k at_ms b h = elim (Option-cases (get k m.connection_quality)) [
  | inl missing ↦ absurd (ground arith)
  | inr (q, found) ↦
      let q' = record q { pending_gateway_ping_sent_at_ms = some at_ms } in
      ground (arith, get-set_self k q' m.connection_quality)
]

note_gateway_ping_timeout-awaits :
    (m : ConnectionManager) (k : String) (at_ms : ℕ) (b : Bool)
    → awaits m k ≡ some b
    → (awaits (note_gateway_ping_timeout m k at_ms).0 k ≡ some false)
      × ((note_gateway_ping_timeout m k at_ms).1 ≡ b)
unfolding note_gateway_ping_timeout timed_out push_gateway_sample
note_gateway_ping_timeout-awaits m k at_ms b h = elim (Option-cases (get k m.connection_quality)) [
  | inl missing ↦ absurd (ground arith)
  | inr (q, found) ↦ elim (Option-cases q.pending_gateway_ping_sent_at_ms) [
    | inl idle ↦ (ground arith, ground arith)
    | inr (t, pending) ↦
        let q' =
          push_gateway_sample (record q { pending_gateway_ping_sent_at_ms = none }) false at_ms in
        (ground (arith, get-set_self k q' m.connection_quality), ground arith)
  ]
]

-- A broadcast changes no link quality.
send_all-quality :
    {E : Type 0} (accepts : ℕ → Bool) (event : E) (cs : List String) (m : ConnectionManager)
    → (send_all accepts event cs m).0.connection_quality ≡ m.connection_quality
unfolding send_all send_to
send_all-quality accepts event [] m = refl
send_all-quality accepts event (c ∷ cs) m = elim (Option-cases (get c m.connections)) [
  | inl missing ↦ ground (arith, send_all-quality accepts event cs m)
  | inr (conn, found) ↦ ground (arith, send_all-quality accepts event cs (spend c conn m))
]

module _ {D : Type 0} (env : Environment) (k : String) where
  tell_channel-quality :
      (o : Option String) (g : GatewayRuntime D)
      → (tell_channel env o g).0.connections.connection_quality ≡ g.connections.connection_quality
  unfolding tell broadcast_voice_network_updated
  tell_channel-quality none g = refl
  tell_channel-quality (some c) g = send_all-quality env.accepts _ _ g.connections

  after_sample-awaits :
      (r : ConnectionManager × Bool) (g : GatewayRuntime D)
      → (awaits (after_sample env k r g).0.connections k ≡ awaits r.0 k)
        × ((after_sample env k r g).1 ≡ r.1)
  after_sample-awaits (conns, false) g = (refl, refl)
  after_sample-awaits (conns, true) g = (
    ap (λ q. awaits_in (get k q))
        (tell_channel-quality (channel_of_connection (get k conns.connections))
          (record g { connections = conns })),
    refl,
  )

  timeout-awaits :
      (at_ms : ℕ) (g : GatewayRuntime D) (b : Bool)
      → awaits g.connections k ≡ some b
      → (awaits (gateway_ping_timeout env k at_ms g).0.connections k ≡ some false)
        × ((gateway_ping_timeout env k at_ms g).1 ≡ b)
  unfolding gateway_ping_timeout
  timeout-awaits at_ms g b h =
      let (kept, noted) = after_sample-awaits (note_gateway_ping_timeout g.connections k at_ms) g in
      let (idle, missed) = note_gateway_ping_timeout-awaits g.connections k at_ms b h in
      (kept ∙ idle, noted ∙ missed)

  -- A tick counts a miss if a ping was waiting; below the limit another ping waits after it.
  tick-awaits :
      (at_ms : ℕ) (h : Heartbeat) (g : GatewayRuntime D) (b : Bool)
      → awaits g.connections k ≡ some b
      → leb max_consecutive_misses (count_miss h b) ≡ false
      → ((tick env k at_ms h g).0 ≡ record h { consecutive_misses = count_miss h b })
        × (awaits (tick env k at_ms h g).1.connections k ≡ some true)
  unfolding tick
  tick-awaits at_ms h g b e below =
      let (idle, missed) = timeout-awaits at_ms g b e in
      let after = (gateway_ping_timeout env k at_ms g).0 in
      rw (missed, below) (refl, note_gateway_ping_sent-awaits after.connections k at_ms false idle)

  tick_last :
      (at_ms : ℕ) (h : Heartbeat) (g : GatewayRuntime D) (b : Bool)
      → awaits g.connections k ≡ some b
      → leb max_consecutive_misses (count_miss h b) ≡ true
      → ((tick env k at_ms h g).0.running ≡ false) × ((tick env k at_ms h g).0.terminated ≡ true)
  unfolding tick
  tick_last at_ms h g b e limit =
      let (idle, missed) = timeout-awaits at_ms g b e in rw (missed, limit) (refl, refl)

  stopped_ticks :
      (times : List ℕ) (h : Heartbeat) (g : GatewayRuntime D)
      → h.running ≡ false
      → (ticks env k times h g).0 ≡ h
  unfolding ticks
  stopped_ticks [] h g e = refl
  stopped_ticks (t ∷ times) h g e = rw e refl

  -- With a ping waiting at the first of the ticks.
  waiting_ticks :
      (times : List ℕ) (misses : ℕ) (g : GatewayRuntime D)
      → awaits g.connections k ≡ some true
      → leb max_consecutive_misses misses ≡ false
      → (ticks env k times (record fresh { consecutive_misses = misses }) g).0.terminated
        ≡ leb max_consecutive_misses (misses + length times)
  unfolding ticks
  waiting_ticks [] misses g e below = ground arith
  waiting_ticks (t ∷ times) misses g e below =
      let h = record fresh { consecutive_misses = misses } in
      elim (Bool-cases (leb max_consecutive_misses (suc misses))) [
        | inl limit ↦
            let (off, gone) = tick_last t h g true e limit in
            let next = tick env k t h g in
            ap (λ x. x.terminated) (stopped_ticks times next.0 next.1 off) ∙ gone ∙ ground arith
        | inr more ↦
            let (counted, waits) = tick-awaits t h g true e more in
            let next = tick env k t h g in
            ap (λ x. (ticks env k times x next.1).0.terminated) counted
            ∙ waiting_ticks times (suc misses) next.1 waits more
            ∙ ground arith
      ]

  -- A connection that never answers its pings is terminated by the seventh tick of its timer, and
  -- not before: one tick sends the first ping, and six more find it, and those that follow it,
  -- without a pong. At the start the gateway knows the connection and no ping waits.
  pub ticks-terminated :
      (times : List ℕ) (g : GatewayRuntime D)
      → awaits g.connections k ≡ some false
      → (ticks env k times fresh g).0.terminated ≡ leb 7 (length times)
  unfolding ticks
  ticks-terminated [] g e = refl
  ticks-terminated (t ∷ times) g e =
      let (counted, waits) = tick-awaits t fresh g false e refl in
      let next = tick env k t fresh g in
      ap (λ x. (ticks env k times x next.1).0.terminated) counted
      ∙ waiting_ticks times 0 next.1 waits refl
      ∙ ground arith

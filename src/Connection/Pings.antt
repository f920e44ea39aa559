-- ===== src/Connection/Pings.antt =====
-- Pings, pongs and timeouts: when a ping is settled, and what a snapshot says of it.
use baker_self_hosted_voice.Common.{
  ℕ, ◌-◌, ◌≡◌, refl, ◌≢◌, true, false, String, Option, none, some, arith, Option-cases, inl, inr,
}
use baker_self_hosted_voice.Common.StringMap.{get, set}
use baker_self_hosted_voice.Common.StringMap.Laws.{get-set_self}
use baker_self_hosted_voice.Connection.{ConnectionQualityState, ConnectionManager}
use baker_self_hosted_voice.Connection.Quality.{
  push_gateway_sample, timed_out, answered, network_snapshot, note_gateway_ping_timeout,
  note_gateway_pong, note_gateway_ping_sent,
}

-- The state that a connection's link quality is kept in.
abbrev quality_of : ConnectionManager → String → Option ConnectionQualityState
quality_of m c = get c m.connection_quality

settled :
    (m : ConnectionManager) (c : String) (q : ConnectionQualityState) (at : ℕ)
    → quality_of m c ≡ some q
    → q.pending_gateway_ping_sent_at_ms ≡ none
    → (note_gateway_pong m c at ≡ (m, false)) × (note_gateway_ping_timeout m c at ≡ (m, false))
unfolding note_gateway_pong note_gateway_ping_timeout answered timed_out
settled m c q at found p = (ground arith, ground arith)

-- What an accepted pong leaves: a state in which no ping is pending.
pong_settles :
    (m : ConnectionManager) (c : String) (at : ℕ)
    → (note_gateway_pong m c at).1 ≡ true
    → (q : ConnectionQualityState) × (quality_of (note_gateway_pong m c at).0 c ≡ some q)
      × (q.pending_gateway_ping_sent_at_ms ≡ none)
unfolding note_gateway_pong answered push_gateway_sample
pong_settles m c at e = elim (Option-cases (get c m.connection_quality)) [
  | inl missing ↦ absurd (ground arith)
  | inr (q, found) ↦ elim (Option-cases q.pending_gateway_ping_sent_at_ms) [
    | inl idle ↦ absurd (ground arith)
    | inr (sent, pending) ↦
        let q' : ConnectionQualityState =
          push_gateway_sample
            (record q { pending_gateway_ping_sent_at_ms = none; gateway_rtt_ms = some (at - sent) })
            true at in
        (q', ground (arith, get-set_self c q' m.connection_quality), refl)
  ]
]

-- A ping is settled once: after an accepted pong neither a second pong nor a timeout counts.
note_gateway_pong_once :
    (m : ConnectionManager) (c : String) (at later : ℕ)
    → (note_gateway_pong m c at).1 ≡ true
    → let m' = (note_gateway_pong m c at).0 in
      (note_gateway_pong m' c later ≡ (m', false))
      × (note_gateway_ping_timeout m' c later ≡ (m', false))
note_gateway_pong_once m c at later e =
    let (q, found, idle) = pong_settles m c at e in
    settled (note_gateway_pong m c at).0 c q later found idle

-- A pong after a ping measures the time between the two, as an answered sample.
note_gateway_pong_measures :
    (m : ConnectionManager) (c : String) (q : ConnectionQualityState) (sent pong : ℕ)
    → quality_of m c ≡ some q
    → quality_of (note_gateway_pong (note_gateway_ping_sent m c sent).0 c pong).0 c
      ≡ some (
          push_gateway_sample
            (record q {
              pending_gateway_ping_sent_at_ms = none;
              gateway_rtt_ms = some (pong - sent);
            })
            true
            pong)
unfolding note_gateway_pong note_gateway_ping_sent answered
note_gateway_pong_measures m c q sent pong found =
    let pinged = record q { pending_gateway_ping_sent_at_ms = some sent } in
    ground (
      arith,
      get-set_self c pinged m.connection_quality,
      get-set_self c
          (push_gateway_sample
            (record q {
              pending_gateway_ping_sent_at_ms = none;
              gateway_rtt_ms = some (pong - sent);
            })
            true pong)
          (set c pinged m.connection_quality),
    )

-- A snapshot that is marked stale carries no media loss, unless the last media report is from time
-- 0.
network_snapshot_stale :
    (to_iso_string : ℕ → String) (q : ConnectionQualityState) (now_ms stale_after_ms : ℕ)
    → q.media_updated_at_ms ≢ some 0
    → (network_snapshot to_iso_string q now_ms stale_after_ms).stale ≡ true
    → (network_snapshot to_iso_string q now_ms stale_after_ms).media_self_loss ≡ none
unfolding network_snapshot
network_snapshot_stale to_iso_string q now_ms stale_after_ms h e = ground arith

-- ===== src/Connection/Quality.antt =====
-- connection-manager.ts: the link quality samples. `Math.round` of a quotient is rounding half up,
-- written out on integers: over at most 20 samples the doubles of the source round to the same.
use baker_self_hosted_voice.Common.{
  ℕ, zero, suc, ◌+◌, ◌-◌, ◌*◌, ◌/◌, min, String, Bool, true, false, Option, none, some, List, [],
  ◌∷◌, ◌++◌, if◌then◌else◌, ltb, leb, length, or_else,
}
use baker_self_hosted_voice.Common.StringMap.{get, set}
use baker_self_hosted_voice.Connection.{ConnectionQualityState, ConnectionManager}
use Prim.Native.Nat.{max}

abbrev pub quality_sample_window : ℕ
quality_sample_window = 20

-- `list.splice(0, n)` leaves the list without its first `n` elements.
abbrev pub drop {ℓ} : {A : Type ℓ} → ℕ → List A → List A
drop zero xs = xs
drop (suc n) [] = []
drop (suc n) (x ∷ xs) = drop n xs

-- `samples.filter((sample) => !sample).length`
abbrev pub losses : List Bool → ℕ
losses [] = 0
losses (true ∷ xs) = losses xs
losses (false ∷ xs) = suc (losses xs)

-- `Math.round((lost / total) * 100)`
abbrev pub loss_percent : ℕ → ℕ → ℕ
loss_percent lost total = (200 * lost + total) / (2 * total)

abbrev pub trim : List Bool → List Bool
trim xs =
    if ltb quality_sample_window (length xs)
    then drop (length xs - quality_sample_window) xs
    else xs

unfoldable pub push_gateway_sample :
    ConnectionQualityState → (success : Bool) → (at_ms : ℕ) → ConnectionQualityState
push_gateway_sample q success at_ms =
    let samples = trim (q.gateway_samples ++ success ∷ []) in
    record q {
      gateway_samples = samples;
      gateway_loss_pct =
          if ltb 0 (length samples)
          then some (loss_percent (losses samples) (length samples))
          else none;
      gateway_updated_at_ms = some at_ms;
    }

-- The three `note` methods and `updateMediaSelfLoss` look the state up and change it in place.
abbrev pub with_quality :
    ConnectionManager
    → String
    → (ConnectionQualityState → Option ConnectionQualityState)
    → ConnectionManager × Bool
with_quality m c change = elim (get c m.connection_quality) [
  | none ↦ (m, false)
  | some q ↦ elim (change q) [
    | none ↦ (m, false)
    | some q' ↦ (record m { connection_quality = set c q' m.connection_quality }, true)
  ]
]

unfoldable pub note_gateway_ping_sent :
    ConnectionManager → String → (sent_at_ms : ℕ) → ConnectionManager × Bool
note_gateway_ping_sent m c sent_at_ms =
    with_quality m c (λ q. some (record q { pending_gateway_ping_sent_at_ms = some sent_at_ms }))

unfoldable pub timed_out : ConnectionQualityState → ℕ → Option ConnectionQualityState
timed_out q timeout_at_ms = elim q.pending_gateway_ping_sent_at_ms [
  | none ↦ none
  | some _ ↦ some (
      push_gateway_sample (record q { pending_gateway_ping_sent_at_ms = none }) false timeout_at_ms)
]

unfoldable pub note_gateway_ping_timeout :
    ConnectionManager → String → (timeout_at_ms : ℕ) → ConnectionManager × Bool
note_gateway_ping_timeout m c timeout_at_ms = with_quality m c (λ q. timed_out q timeout_at_ms)

-- Subtraction stops at 0, as `Math.max(0, …)` does.
unfoldable pub answered : ConnectionQualityState → ℕ → Option ConnectionQualityState
answered q pong_at_ms = elim q.pending_gateway_ping_sent_at_ms [
  | none ↦ none
  | some sent_at_ms ↦ some (
      push_gateway_sample
        (record q {
          pending_gateway_ping_sent_at_ms = none;
          gateway_rtt_ms = some (pong_at_ms - sent_at_ms);
        })
        true pong_at_ms)
]

unfoldable pub note_gateway_pong :
    ConnectionManager → String → (pong_at_ms : ℕ) → ConnectionManager × Bool
note_gateway_pong m c pong_at_ms = with_quality m c (λ q. answered q pong_at_ms)

-- The client's figure is read in ten-thousandths of a percent and stored in hundredths.
unfoldable pub update_media_self_loss :
    ConnectionManager → String → (loss updated_at_ms : ℕ) → ConnectionManager × Bool
update_media_self_loss m c loss updated_at_ms = with_quality m c (λ q. some (record q {
  media_self_loss = some ((min 1000000 loss + 50) / 100);
  media_updated_at_ms = some updated_at_ms;
}))

pub record VoiceConnectionNetworkSnapshot : Type 0 where
  pub gateway_loss_pct : Option ℕ
  pub gateway_rtt_ms : Option ℕ
  pub media_self_loss : Option ℕ
  pub stale : Bool
  pub updated_at : String

abbrev pub is_recent : Option ℕ → ℕ → ℕ → Bool
is_recent none now_ms stale_after_ms = false
is_recent (some at_ms) now_ms stale_after_ms = leb (now_ms - at_ms) stale_after_ms

-- `to_iso_string` stands for `new Date(ms).toISOString()`.
module _ (to_iso_string : ℕ → String) where
  unfoldable pub network_snapshot :
      ConnectionQualityState → (now_ms stale_after_ms : ℕ) → VoiceConnectionNetworkSnapshot
  network_snapshot q now_ms stale_after_ms =
      let latest_ms = max (or_else q.gateway_updated_at_ms 0) (or_else q.media_updated_at_ms 0) in
      record {
        gateway_loss_pct = q.gateway_loss_pct;
        gateway_rtt_ms = q.gateway_rtt_ms;
        media_self_loss =
            if is_recent q.media_updated_at_ms now_ms stale_after_ms
            then q.media_self_loss
            else none;
        stale = if ltb 0 latest_ms then ltb stale_after_ms (now_ms - latest_ms) else true;
        updated_at = to_iso_string (if ltb 0 latest_ms then latest_ms else now_ms);
      }

  unfoldable pub get_voice_connection_network_snapshot :
      ConnectionManager
      → String
      → (now_ms stale_after_ms : ℕ) → Option VoiceConnectionNetworkSnapshot
  get_voice_connection_network_snapshot m c now_ms stale_after_ms =
      elim (get c m.connection_quality) [
        | none ↦ none
        | some q ↦ some (network_snapshot q now_ms stale_after_ms)
      ]

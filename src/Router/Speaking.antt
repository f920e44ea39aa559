-- ===== src/Router/Speaking.antt =====
-- Who is heard and measured in a voice channel.
use baker_self_hosted_voice.Common.{
  ℕ, String, Bool, true, false, ◌≡◌, ◌≢◌, ◌↔◌, ◌⊎◌, str_dec, sym, test_or, refl, ap, ◌+◌, ◌/◌, min,
  some, List, [], ◌∷◌, arith, Option-cases, inl, inr,
}
use baker_self_hosted_voice.Common.StringMap.{get}
use baker_self_hosted_voice.Common.StringMap.Laws.{get-set}
use baker_self_hosted_voice.Connection.{GatewayConnection, ConnectionManager}
use baker_self_hosted_voice.Connection.Delivery.{send_to, send_all}
use baker_self_hosted_voice.Connection.Quality.{update_media_self_loss}
use baker_self_hosted_voice.Voice.{VoiceParticipantRecord, VoiceRoomManager}
use baker_self_hosted_voice.Voice.Slots.{slot, get_participant-slot}
use baker_self_hosted_voice.Router.{Database, Reply, reported}
use baker_self_hosted_voice.Router.Broadcasts.{broadcast_voice_network_updated}
use baker_self_hosted_voice.Router.Calls.{
  VoiceNetworkSelfReportCommandData, announce_loss, handle_voice_network_self_report,
  update_voice_media_self_loss,
}

abbrev pub is_reported : Reply → Bool
is_reported (reported channel) = true
is_reported _ = false

-- A broadcast changes no link quality.
quality-send_all {ℓ} :
    {E : Type ℓ} (accepts : ℕ → Bool) (event : E) (cs : List String) (m : ConnectionManager)
    → (send_all accepts event cs m).0.connection_quality ≡ m.connection_quality
unfolding send_all send_to
quality-send_all accepts event [] m = refl
quality-send_all accepts event (c ∷ cs) m =
    ground (arith, quality-send_all accepts event cs (send_to accepts event c m).0)

module _ (accepts : ℕ → Bool) (to_iso_string : ℕ → String) (now_ms : ℕ) (db : Database)
    (m : VoiceRoomManager) (conns : ConnectionManager) where
  quality-announce_loss :
      (channel k : String) (r : ConnectionManager × Bool)
      → get k (announce_loss accepts to_iso_string now_ms db m channel r).0.connection_quality
        ≡ get k r.0.connection_quality
  unfolding broadcast_voice_network_updated
  quality-announce_loss channel k (conns, false) = refl
  quality-announce_loss channel k (conns, true) = ap (get k) (quality-send_all accepts _ _ conns)

  quality-update_media_self_loss :
      (c k : String) (loss at : ℕ)
      → k ≢ c
      → get k (update_media_self_loss conns c loss at).0.connection_quality
        ≡ get k conns.connection_quality
  unfolding update_media_self_loss
  quality-update_media_self_loss c k loss at ne =
      elim (Option-cases (get c conns.connection_quality)) [
        | inl missing ↦ ground arith
        | inr (q, found) ↦ ground (
          arith,
          get-set c k
              (record q {
                media_self_loss = some ((min 1000000 loss + 50) / 100);
                media_updated_at_ms = some at;
              })
              conns.connection_quality,
        )
      ]

  quality-update_voice :
      (c channel k : String) (loss : ℕ)
      → k ≢ c
      → get k
          (update_voice_media_self_loss accepts to_iso_string now_ms db m conns c channel
            loss).0.connection_quality
        ≡ get k conns.connection_quality
  unfolding update_voice_media_self_loss
  quality-update_voice c channel k loss ne = ground (
    arith,
    quality-announce_loss channel k (update_media_self_loss conns c loss now_ms),
    quality-update_media_self_loss c k loss now_ms ne,
  )

module _ (accepts : ℕ → Bool) (to_iso_string : ℕ → String) (now_ms : ℕ) (db : Database)
    (m : VoiceRoomManager) (conns : ConnectionManager) (connection : GatewayConnection)
    (user : String) where
  self_report_iff :
      (d : VoiceNetworkSelfReportCommandData)
      → let r =
          handle_voice_network_self_report accepts to_iso_string now_ms db m conns connection user
            (some d) in
        ((is_reported r.1 ≡ true) ↔ (
          (connection.voice_channel_id ≡ some d.channel_id)
          × ((p : VoiceParticipantRecord) × (slot m d.channel_id user ≡ some p)
              × (p.connection_id ≡ connection.id))))
        × ((k : String)
            → k ≢ connection.id
            → get k r.0.connection_quality ≡ get k conns.connection_quality)
        × (is_reported r.1 ≡ false → (r.0 ≡ conns) × (r.2 ≡ []))
  unfolding handle_voice_network_self_report
  self_report_iff d =
      let e = get_participant-slot m d.channel_id user in
      elim (Option-cases (slot m d.channel_id user)) [
        | inl absent ↦ (
          (λ h. absurd (ground (arith, e)), λ h. absurd (ground arith)),
          λ k ne. ground (arith, e),
          λ no. ground (arith, e),
        )
        | inr (p, here) ↦ (
          (λ h. (ground (arith, e), (p, here, ground (arith, e))), λ h. ground (arith, e)),
          λ k ne. ground (
            arith,
            quality-update_voice accepts to_iso_string now_ms db m conns connection.id d.channel_id
                k d.media_self_loss ne,
          ),
          λ no. ground (arith, e),
        )
      ]

  -- A report of media loss is taken exactly from the connection by which the user is in the voice
  -- channel, while the connection is noted to be in that channel; it then changes no other
  -- connection's link quality, and a report that is refused changes nothing at all.
  pub handle_voice_network_self_report_iff :
      (d : VoiceNetworkSelfReportCommandData)
      → let r =
          handle_voice_network_self_report accepts to_iso_string now_ms db m conns connection user
            (some d) in
        ((is_reported r.1 ≡ true) ↔ (
          (connection.voice_channel_id ≡ some d.channel_id)
          × ((p : VoiceParticipantRecord) × (slot m d.channel_id user ≡ some p)
              × (p.connection_id ≡ connection.id))))
        × ((k : String)
            → (connection.id ≡ k) ⊎ (get k r.0.connection_quality ≡ get k conns.connection_quality))
        × ((is_reported r.1 ≡ true) ⊎ ((r.0 ≡ conns) × (r.2 ≡ [])))
  handle_voice_network_self_report_iff d =
      let (taken, others, unchanged) = self_report_iff d in
      let r =
        handle_voice_network_self_report accepts to_iso_string now_ms db m conns connection user
          (some d) in
      (
        taken,
        λ k. elim (str_dec connection.id k) [
          | yes own ↦ inl own
          | no other ↦ inr (others k (λ e. other (sym e)))
        ],
        test_or (is_reported r.1) unchanged,
      )

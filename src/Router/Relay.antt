-- ===== src/Router/Relay.antt =====
-- The relay of media signals: who may send one, who gets it, and what a refusal leaves.
use baker_self_hosted_voice.Common.{
  ℕ, String, Bool, true, false, ◌≡◌, ◌≢◌, ◌↔◌, ◌⊎◌, refl, Option, none, some, [], arith, All,
  Option-cases, inl, inr, test_or,
}
use baker_self_hosted_voice.Common.StringMap.{get, is_some}
use baker_self_hosted_voice.Common.StringMap.Entries.{Entries, get-Entries}
use baker_self_hosted_voice.Connection.{ConnectionManager}
use baker_self_hosted_voice.Connection.Registry.{find_by_user_id}
use baker_self_hosted_voice.Connection.Delivery.{send_to}
use baker_self_hosted_voice.Connection.Index.{IsIndexed, user_of}
use baker_self_hosted_voice.Voice.{VoiceParticipantRecord, get_participant}
use baker_self_hosted_voice.Voice.Slots.{slot, get_participant-slot}
use baker_self_hosted_voice.Stream
use baker_self_hosted_voice.Music
use baker_self_hosted_voice.Stream.Lifecycle.{Relays as StreamRelays, can_relay_signal_iff}
use baker_self_hosted_voice.Music.Lifecycle.{Relays as MusicRelays, music_can_relay_signal_iff}
use baker_self_hosted_voice.Router.{
  GatewayRuntime, MediaSessionDescriptor, SessionMode, music_listen, music_publish, stream_publish,
  stream_watch, voice, Reply, relayed,
}
use baker_self_hosted_voice.Router.Signal.{
  MediaSignalCommandData, may_relay, handle_media_signal_relay, in_same_room,
}

abbrev pub is_relayed : Reply → Bool
is_relayed (relayed target) = true
is_relayed _ = false

-- Every connection stands under its own id.
abbrev pub AreKeyed : ConnectionManager → Type 0
AreKeyed m = Entries (λ k conn. conn.id ≡ k) m.connections

-- A signal of a stream or music session names the publication.
abbrev pub Named : SessionMode → Option String → String → Type 0
Named voice stream s = Unit
Named mode stream s = (stream ≡ some s) × (s ≢ "")

in_same_room_iff :
    (sender target : Option VoiceParticipantRecord) (n : String)
    → (in_same_room sender target n ≡ true) ↔ (
        (p : VoiceParticipantRecord) × (sender ≡ some p)
        × (p.session_id ≡ n)
        × (is_some target ≡ true))
in_same_room_iff none target n = (λ h. cc, λ h. ground arith)
in_same_room_iff (some p) none n = (λ h. cc, λ h. ground arith)
in_same_room_iff (some p) (some q) n = (λ h. (p, refl, ground arith, refl), λ h. ground arith)

module _ {D : Type 0} where
  -- What the relay asks for: in a voice channel both users, the sender under its session; in a
  -- publication the host and a viewer or listener, the sender under the session it holds there.
  abbrev pub MayReach :
      GatewayRuntime D
      → SessionMode
      → (channel_id stream_id session_id sender target : String) → Type 0
  MayReach g voice c s n sender target =
      (p : VoiceParticipantRecord) × (slot g.voice_room c sender ≡ some p)
      × (p.session_id ≡ n)
      × (is_some (slot g.voice_room c target) ≡ true)
  MayReach g music_publish c s n sender target =
      MusicRelays g.music_room c s Music.music_publish sender n target
  MayReach g music_listen c s n sender target =
      MusicRelays g.music_room c s Music.music_listen sender n target
  MayReach g stream_publish c s n sender target =
      StreamRelays g.stream_room c s Stream.stream_publish sender n target
  MayReach g stream_watch c s n sender target =
      StreamRelays g.stream_room c s Stream.stream_watch sender n target

  may_relay_iff :
      (g : GatewayRuntime D) (mode : SessionMode) (s : String) (d : MediaSessionDescriptor)
      (sender target : String)
      → Named mode d.stream_id s
      → (may_relay g mode d sender target ≡ true)
        ↔ MayReach g mode d.channel_id s d.session_id sender target
  unfolding get_participant
  may_relay_iff g voice s d sender target h =
      rw
        (
          get_participant-slot g.voice_room d.channel_id sender,
          get_participant-slot g.voice_room d.channel_id target,
        )
        (in_same_room_iff (slot g.voice_room d.channel_id sender)
          (slot g.voice_room d.channel_id target) d.session_id)
  may_relay_iff g music_publish s d sender target (e, named) = rw e (
      music_can_relay_signal_iff g.music_room d.channel_id s Music.music_publish sender d.session_id
        target named)
  may_relay_iff g music_listen s d sender target (e, named) = rw e (
      music_can_relay_signal_iff g.music_room d.channel_id s Music.music_listen sender d.session_id
        target named)
  may_relay_iff g stream_publish s d sender target (e, named) = rw e (
      can_relay_signal_iff g.stream_room d.channel_id s Stream.stream_publish sender d.session_id
        target named)
  may_relay_iff g stream_watch s d sender target (e, named) = rw e (
      can_relay_signal_iff g.stream_room d.channel_id s Stream.stream_watch sender d.session_id
        target named)

module _ {D P : Type 0} (accepts : ℕ → Bool) (g : GatewayRuntime D) (sender : String)
    (d : MediaSignalCommandData P) where
  relayed_iff : (is_relayed (handle_media_signal_relay accepts g sender (some d)).1 ≡ true) ↔ (
      (d.signal.session.user_id ≡ sender)
      × (is_some (find_by_user_id g.connections d.target_user_id) ≡ true)
      × (may_relay g d.signal.session.mode d.signal.session sender d.target_user_id ≡ true))
  unfolding handle_media_signal_relay
  relayed_iff = (λ h. (ground arith, ground arith, ground arith), λ h. ground arith)

  -- A media signal is relayed exactly if its session is the sender's own, the target is connected,
  -- and the two take part as the mode asks: both in the voice channel, or one the host and the other
  -- a viewer or listener of the publication, the sender under the session it holds there. A signal
  -- of a publication names it by an id that is not empty.
  pub handle_media_signal_relay_iff :
      (s : String)
      → Named d.signal.session.mode d.signal.session.stream_id s
      → (is_relayed (handle_media_signal_relay accepts g sender (some d)).1 ≡ true) ↔ (
          (d.signal.session.user_id ≡ sender)
          × (is_some (find_by_user_id g.connections d.target_user_id) ≡ true)
          × MayReach g d.signal.session.mode d.signal.session.channel_id s
              d.signal.session.session_id sender d.target_user_id)
  handle_media_signal_relay_iff s named =
      let session = d.signal.session in
      let (there, back) = may_relay_iff g session.mode s session sender d.target_user_id named in
      (
        λ h. let (own, found, may) = relayed_iff.0 h in (own, found, there may),
        λ (own, found, may). relayed_iff.1 (own, found, back may),
      )

  relay_reaches :
      IsIndexed g.connections
      → AreKeyed g.connections
      → let r = handle_media_signal_relay accepts g sender (some d) in
        All
          (λ e.
            (user_of (get e.to g.connections.connections) ≡ some d.target_user_id)
            × (e.event ≡ record { from_user_id = sender; signal = d.signal }))
          r.2
        × (is_relayed r.1 ≡ false → (r.0 ≡ g) × (r.2 ≡ []))
  unfolding handle_media_signal_relay find_by_user_id send_to
  relay_reaches h k =
      elim (Option-cases (get d.target_user_id g.connections.user_to_connection_id)) [
        | inl missing ↦ (ground arith, λ no. ground arith)
        | inr (c, indexed) ↦ elim (Option-cases (get c g.connections.connections)) [
          | inl gone ↦ (ground arith, λ no. ground arith)
          | inr (conn, found) ↦
              let own =
                get-Entries (λ k conn. conn.id ≡ k) c conn g.connections.connections found k in
              (ground (arith, h d.target_user_id c), λ no. ground arith)
        ]
      ]

  -- Where the index of users is sound and every connection stands under its id: all that a signal
  -- sends goes to a connection of the target user, unchanged and with the sender's name; a signal
  -- that is refused sends nothing and changes nothing.
  pub handle_media_signal_relay-reaches :
      IsIndexed g.connections
      → AreKeyed g.connections
      → let r = handle_media_signal_relay accepts g sender (some d) in
        All
          (λ e.
            (user_of (get e.to g.connections.connections) ≡ some d.target_user_id)
            × (e.event ≡ record { from_user_id = sender; signal = d.signal }))
          r.2
        × ((is_relayed r.1 ≡ true) ⊎ ((r.0 ≡ g) × (r.2 ≡ [])))
  handle_media_signal_relay-reaches h k =
      let (sent, unchanged) = relay_reaches h k in
      (sent, test_or (is_relayed (handle_media_signal_relay accepts g sender (some d)).1) unchanged)

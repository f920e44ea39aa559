-- ===== src/Voice/Broadcast.antt =====
-- voice-room-manager.ts: the four broadcasts, over the connections of `ConnectionManager`. Each is
-- the loop of Connection/Delivery over the addressees, with the event that it builds.
use baker_self_hosted_voice.Common.{
  ℕ, String, Bool, false, ◌≡◌, List, [], ◌∷◌, map, arith, if◌then◌else◌, ◌==◌,
}
use baker_self_hosted_voice.Common.StringSet
use baker_self_hosted_voice.Common.StringMap.{get}
use baker_self_hosted_voice.Connection.{ConnectionManager}
use baker_self_hosted_voice.Connection.Delivery.{Sent, send_all}
use baker_self_hosted_voice.Connection.Sequence.{letters, send_all-letters, spent}
use baker_self_hosted_voice.Voice.{VoiceParticipantRecord, VoiceRoomManager, get_participants}

-- A participant as the clients see one: without the connection.
pub record VoiceParticipant : Type 0 where
  pub is_muted : Bool
  pub session_id : String
  pub user_id : String

abbrev pub to_participant : VoiceParticipantRecord → VoiceParticipant
to_participant p = record { is_muted = p.is_muted; session_id = p.session_id; user_id = p.user_id }

pub data VoiceEvent : Type 0 where
  voice_state_updated : (channel_id : String) → (participants : List VoiceParticipant) → VoiceEvent
  voice_member_updated : (channel_id : String) → (participant : VoiceParticipant) → VoiceEvent
  voice_roster_updated : (channel_id : String) → (participants : List VoiceParticipant) → VoiceEvent
  voice_speaking_updated :
      (channel_id : String) → (is_speaking : Bool) → (user_id : String) → VoiceEvent

abbrev pub connection_ids : List VoiceParticipantRecord → List String
connection_ids = map (λ p. p.connection_id)

-- `if (p.connectionId === excludeConnectionId) continue;`
abbrev pub without : String → List String → List String
without x [] = []
without x (c ∷ cs) = let rest = without x cs in if c == x then rest else c ∷ rest

module _ (accepts : ℕ → Bool) where
  unfoldable pub broadcast_state_updated :
      ConnectionManager
      → (channel_id : String) → List VoiceParticipantRecord
      → ConnectionManager × List (Sent VoiceEvent)
  broadcast_state_updated conns channel participants =
      send_all accepts (voice_state_updated channel (map to_participant participants))
        (connection_ids participants) conns

  unfoldable pub broadcast_member_updated :
      ConnectionManager
      → VoiceRoomManager
      → (channel_id : String) → VoiceParticipantRecord
      → ConnectionManager × List (Sent VoiceEvent)
  broadcast_member_updated conns m channel r =
      send_all accepts (voice_member_updated channel (to_participant r))
        (connection_ids (get_participants m channel)) conns

  unfoldable pub broadcast_roster_updated :
      ConnectionManager
      → (channel_id : String) → List VoiceParticipantRecord
      → (target_connection_ids : List String) → ConnectionManager × List (Sent VoiceEvent)
  broadcast_roster_updated conns channel participants targets =
      send_all accepts (voice_roster_updated channel (map to_participant participants)) targets
        conns

  unfoldable pub broadcast_speaking_updated :
      ConnectionManager
      → VoiceRoomManager
      → (channel_id user_id : String) → (is_speaking : Bool) → (exclude_connection_id : String)
      → ConnectionManager × List (Sent VoiceEvent)
  broadcast_speaking_updated conns m channel user is_speaking exclude =
      send_all accepts (voice_speaking_updated channel is_speaking user)
        (without exclude (connection_ids (get_participants m channel))) conns

pub has-without :
    (x y : String) (cs : List String)
    → StringSet.has y (without x cs) ≡ (if y == x then false else StringSet.has y cs)
unfolding StringSet.has
has-without x y [] = ground arith
has-without x y (c ∷ cs) = ground (arith, has-without x y cs)

without-Distinct :
    (x : String) (cs : List String) → StringSet.Distinct cs → StringSet.Distinct (without x cs)
without-Distinct x [] h = tt
without-Distinct x (c ∷ cs) (new, h) = ground (arith, without-Distinct x cs h, has-without x c cs)

-- Where no two participants share a connection, a speaking update goes to each participant's
-- connection once, the excluded one left out: that one keeps its sequence number, every other
-- participant's is spent once, and no other connection is touched.
broadcast_speaking_updated-letters :
    (accepts : ℕ → Bool) (conns : ConnectionManager) (m : VoiceRoomManager) (channel user : String)
    (is_speaking : Bool) (exclude : String)
    → StringSet.Distinct (connection_ids (get_participants m channel))
    → let members = connection_ids (get_participants m channel) in
      let r = broadcast_speaking_updated accepts conns m channel user is_speaking exclude in
      (r.1
        ≡ letters accepts
            (voice_speaking_updated channel is_speaking user)
            conns
            (without exclude members))
      × ((c : String)
          → get c r.0.connections
            ≡ spent
                (if c == exclude then false else StringSet.has c members)
                (get c conns.connections))
unfolding broadcast_speaking_updated
broadcast_speaking_updated-letters accepts conns m channel user is_speaking exclude h =
    let members = connection_ids (get_participants m channel) in
    let (sent, entries) =
      send_all-letters accepts (voice_speaking_updated channel is_speaking user)
        (without exclude members) conns (without-Distinct exclude members h) in
    (sent, λ c. ground (arith, entries c, has-without exclude c members))

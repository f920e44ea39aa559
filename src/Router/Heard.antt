-- ===== src/Router/Heard.antt =====
-- Who hears that a user speaks: the whole of `handleVoiceSpeaking` with its broadcasts.
use baker_self_hosted_voice.Common.{
  ℕ, suc, String, Bool, true, false, not, Option, none, some, List, [], ◌∷◌, ◌++◌, ◌≡◌, refl, ◌∙◌,
  map, arith, Option-cases, inl, inr, if◌then◌else◌, ◌==◌, ◌&&◌, ◌||◌,
}
use baker_self_hosted_voice.Common.StringMap.{get, set, values}
use baker_self_hosted_voice.Common.StringMap.Laws.{get-set, get-set_self}
use baker_self_hosted_voice.Common.StringSet
use baker_self_hosted_voice.Connection.{GatewayConnection, ConnectionManager}
use baker_self_hosted_voice.Connection.Delivery.{Sent, send_to, send_all}
use baker_self_hosted_voice.Voice.{
  VoiceParticipantRecord, Room, VoiceRoomManager, set_muted, get_participants,
}
use baker_self_hosted_voice.Voice.Slots.{slot, muted, set_muted-slot}
use baker_self_hosted_voice.Voice.Broadcast.{
  VoiceEvent, voice_speaking_updated, connection_ids, without, has-without,
  broadcast_member_updated, broadcast_roster_updated, broadcast_speaking_updated,
}
use baker_self_hosted_voice.Router.{Database, spoken}
use baker_self_hosted_voice.Router.Broadcasts.{
  RuntimeEvent, voice_event, as_voice, voice_guild, broadcast_voice_roster_updated,
  broadcast_voice_network_updated,
}
use baker_self_hosted_voice.Router.Calls.{
  VoiceSpeakingCommandData, announce_muted, handle_voice_speaking,
}

-- Whether the connection is there and its socket takes what is sent.
abbrev pub takes : (accepts : ℕ → Bool) → Option GatewayConnection → Bool
takes accepts none = false
takes accepts (some conn) = accepts conn.socket

-- Whether a connection is sent an event that passes the test.
abbrev pub reaches {ℓ} : {E : Type ℓ} → (E → Bool) → (connection_id : String) → List (Sent E) → Bool
reaches test k [] = false
reaches test k (e ∷ es) = ((e.to == k) && test e.event) || reaches test k es

reaches-append {ℓ} :
    {E : Type ℓ} (test : E → Bool) (k : String) (es fs : List (Sent E))
    → reaches test k (es ++ fs) ≡ (reaches test k es || reaches test k fs)
reaches-append test k [] fs = refl
reaches-append test k (e ∷ es) fs = ground (arith, reaches-append test k es fs)

reaches-map :
    (test : RuntimeEvent → Bool) (k : String) (es : List (Sent VoiceEvent))
    → reaches test k (map as_voice es) ≡ reaches (λ e. test (voice_event e)) k es
reaches-map test k [] = refl
reaches-map test k (e ∷ es) = ground (arith, reaches-map test k es)

module _ {ℓ} {E : Type ℓ} (accepts : ℕ → Bool) (event : E) where
  takes-send_to :
      (c k : String) (m : ConnectionManager)
      → takes accepts (get k (send_to accepts event c m).0.connections)
        ≡ takes accepts (get k m.connections)
  unfolding send_to
  takes-send_to c k m = elim (Option-cases (get c m.connections)) [
    | inl missing ↦ ground arith
    | inr (conn, found) ↦
        ground (arith, get-set c k (record conn { seq = suc conn.seq }) m.connections)
  ]

  takes-send_all :
      (k : String) (cs : List String) (m : ConnectionManager)
      → takes accepts (get k (send_all accepts event cs m).0.connections)
        ≡ takes accepts (get k m.connections)
  unfolding send_all
  takes-send_all k [] m = refl
  takes-send_all k (c ∷ cs) m =
      takes-send_all k cs (send_to accepts event c m).0 ∙ takes-send_to c k m

  reaches-send_to :
      (test : E → Bool) (c k : String) (m : ConnectionManager)
      → reaches test k (send_to accepts event c m).1
        ≡ ((c == k) && (test event && takes accepts (get k m.connections)))
  unfolding send_to
  reaches-send_to test c k m = ground arith

  -- A broadcast is heard by the addressees whose sockets take it.
  reaches-send_all :
      (test : E → Bool) (k : String) (cs : List String) (m : ConnectionManager)
      → reaches test k (send_all accepts event cs m).1
        ≡ (test event && (StringSet.has k cs && takes accepts (get k m.connections)))
  unfolding send_all StringSet.has
  reaches-send_all test k [] m = ground arith
  reaches-send_all test k (c ∷ cs) m =
      let now = send_to accepts event c m in
      ground (
        arith,
        reaches-append test k now.1 (send_all accepts event cs now.0).1,
        reaches-send_to test c k m,
        takes-send_to c k m,
        reaches-send_all test k cs now.0,
      )

-- The speaking update of a user in a channel.
abbrev same_flag : Bool → Bool → Bool
same_flag true b = b
same_flag false b = not b

abbrev pub is_update : (channel_id user_id : String) → (is_speaking : Bool) → RuntimeEvent → Bool
is_update c u b (voice_event (voice_speaking_updated d s v)) =
    (d == c) && ((v == u) && same_flag s b)
is_update c u b _ = false

is_update-own :
    (c u : String) (b : Bool) → is_update c u b (voice_event (voice_speaking_updated c b u)) ≡ true
is_update-own c u true = ground arith
is_update-own c u false = ground arith

-- A changed participant keeps the connection.
ids-set :
    (u : String) (r r' : VoiceParticipantRecord) (room : Room)
    → get u room ≡ some r
    → r'.connection_id ≡ r.connection_id
    → connection_ids (values (set u r' room)) ≡ connection_ids (values room)
unfolding get set
ids-set u r r' [] h e = cc
ids-set u r r' ((v, q) ∷ room) h e = ground (arith, ids-set u r r' room)

ids-set_muted :
    (m : VoiceRoomManager) (c u : String) (b : Bool)
    → connection_ids (get_participants (set_muted m c u b).0 c)
      ≡ connection_ids (get_participants m c)
unfolding set_muted get_participants
ids-set_muted m c u b = elim (Option-cases (get c m.rooms)) [
  | inl missing ↦ ground arith
  | inr (room, found) ↦ elim (Option-cases (get u room)) [
    | inl absent ↦ ground arith
    | inr (r, here) ↦
        let r' = record r { is_muted = b } in
        ground (arith, get-set_self c (set u r' room) m.rooms, ids-set u r r' room here refl)
  ]
]

module _ (accepts : ℕ → Bool) (to_iso_string : ℕ → String) (now_ms : ℕ) (db : Database) where
  told_roster :
      (m : VoiceRoomManager) (c : String) (conns : ConnectionManager) (d u k : String) (b : Bool)
      → let r = broadcast_voice_roster_updated accepts db m c conns in
        (reaches (is_update d u b) k r.1 ≡ false)
        × (takes accepts (get k r.0.connections) ≡ takes accepts (get k conns.connections))
  unfolding broadcast_voice_roster_updated broadcast_roster_updated
  told_roster m c conns d u k b = elim (Option-cases (voice_guild (db.find_channel c))) [
    | inl missing ↦ rw (missing, broadcast_voice_roster_updated) (refl, refl)
    | inr (guild, found) ↦
        rw (found, broadcast_voice_roster_updated, broadcast_roster_updated, reaches-map)
          (reaches-send_all accepts _ _ k _ conns, takes-send_all accepts _ k _ conns)
  ]

  told_member :
      (m : VoiceRoomManager) (c : String) (p : VoiceParticipantRecord) (conns : ConnectionManager)
      (d u k : String) (b : Bool)
      → let r = broadcast_member_updated accepts conns m c p in
        (reaches (is_update d u b) k (map as_voice r.1) ≡ false)
        × (takes accepts (get k r.0.connections) ≡ takes accepts (get k conns.connections))
  unfolding broadcast_member_updated
  told_member m c p conns d u k b = (
    reaches-map _ k _ ∙ reaches-send_all accepts _ _ k _ conns,
    takes-send_all accepts _ k _ conns,
  )

  told_network :
      (m : VoiceRoomManager) (c : String) (conns : ConnectionManager) (d u k : String) (b : Bool)
      → let r = broadcast_voice_network_updated accepts to_iso_string now_ms m c conns in
        (reaches (is_update d u b) k r.1 ≡ false)
        × (takes accepts (get k r.0.connections) ≡ takes accepts (get k conns.connections))
  unfolding broadcast_voice_network_updated
  told_network m c conns d u k b =
      (reaches-send_all accepts _ _ k _ conns, takes-send_all accepts _ k _ conns)

  -- What is told of a participant whose flag is set holds no speaking update and closes no socket.
  told_muted :
      (m : VoiceRoomManager) (c : String) (o : Option VoiceParticipantRecord)
      (conns : ConnectionManager) (d u k : String) (b : Bool)
      → let r = announce_muted accepts to_iso_string now_ms db m c o conns in
        (reaches (is_update d u b) k r.1 ≡ false)
        × (takes accepts (get k r.0.connections) ≡ takes accepts (get k conns.connections))
  told_muted m c none conns d u k b = (refl, refl)
  told_muted m c (some p) conns d u k b =
      let member = broadcast_member_updated accepts conns m c p in
      let roster = broadcast_voice_roster_updated accepts db m c member.0 in
      let network = broadcast_voice_network_updated accepts to_iso_string now_ms m c roster.0 in
      let (no_member, take_member) = told_member m c p conns d u k b in
      let (no_roster, take_roster) = told_roster m c member.0 d u k b in
      let (no_network, take_network) = told_network m c roster.0 d u k b in
      (
        ground (
          arith,
          reaches-append (is_update d u b) k (map as_voice member.1 ++ roster.1) network.1,
          reaches-append (is_update d u b) k (map as_voice member.1) roster.1,
        ),
        take_network ∙ take_roster ∙ take_member,
      )

  heard_speaking :
      (m : VoiceRoomManager) (conns : ConnectionManager) (c u x k : String) (b : Bool)
      → let r = broadcast_speaking_updated accepts conns m c u b x in
        reaches (is_update c u b) k (map as_voice r.1) ≡ (
          StringSet.has k (connection_ids (get_participants m c))
          && (not (k == x) && takes accepts (get k conns.connections)))
  unfolding broadcast_speaking_updated
  heard_speaking m conns c u x k b =
      let ids = connection_ids (get_participants m c) in
      let event = voice_speaking_updated c b u in
      let own : is_update c u b (voice_event event) ≡ true = is_update-own c u b in
      ground (
        arith,
        reaches-map (is_update c u b) k (send_all accepts event (without x ids) conns).1,
        reaches-send_all accepts event (λ e. is_update c u b (voice_event e)) k (without x ids)
            conns,
        has-without x k ids,
      )

  -- A speaking update is answered and sent on for every user, also one who is not in the channel: a
  -- connection hears it exactly if it is a participant's, is not the one that sent it, is there, and its
  -- socket takes it. The user's flag is set, if the user is in the channel; every other slot stays.
  pub handle_voice_speaking-reaches :
      (m : VoiceRoomManager) (conns : ConnectionManager) (connection : GatewayConnection)
      (user : String) (d : VoiceSpeakingCommandData)
      → let r =
          handle_voice_speaking accepts to_iso_string now_ms db m conns connection user (some d) in
        (r.2 ≡ spoken d.channel_id d.is_speaking)
        × ((k : String)
            → reaches (is_update d.channel_id user d.is_speaking) k r.3 ≡ (
                StringSet.has k (connection_ids (get_participants m d.channel_id))
                && (not (k == connection.id) && takes accepts (get k conns.connections))))
        × ((c v : String)
            → slot r.0 c v ≡ (
                if (d.channel_id == c) && (user == v)
                then muted d.is_muted (slot m d.channel_id user)
                else slot m c v))
  unfolding handle_voice_speaking
  handle_voice_speaking-reaches m conns connection user d =
      let c = d.channel_id in
      let after = set_muted m c user d.is_muted in
      let told = announce_muted accepts to_iso_string now_ms db after.0 c after.1 conns in
      let heard =
        broadcast_speaking_updated accepts told.0 after.0 c user d.is_speaking connection.id in
      let test = is_update c user d.is_speaking in
      (
        refl,
        λ k.
            let (no_update, same) = told_muted after.0 c after.1 conns c user k d.is_speaking in
            let ids = ids-set_muted m c user d.is_muted in
            let update = heard_speaking after.0 told.0 c user connection.id k d.is_speaking in
            reaches-append test k told.1 (map as_voice heard.1)
            ∙ rw no_update (update ∙ rw (ids, same) refl),
        λ e v. (set_muted-slot m c user e v d.is_muted).0,
      )

-- ===== src/Handlers/Interleaving.antt =====
-- `voice.join` as a whole and in its two halves: in how many channels a user stands after it.
use baker_self_hosted_voice.Common.{
  String, Bool, true, false, not, Option, none, some, List, [], ◌≡◌, ◌≢◌, refl, sym, ◌∙◌, ap, arith,
  Bool-cases, inl, inr, truthy, Option-cases, if◌then◌else◌, ◌==◌, ◌&&◌,
}
use baker_self_hosted_voice.Common.StringMap.{get, is_some}
use baker_self_hosted_voice.Common.StringMap.Entries.{Distinct}
use baker_self_hosted_voice.Connection.{GatewayConnection, ConnectionManager}
use baker_self_hosted_voice.Voice
use baker_self_hosted_voice.Voice.{
  VoiceParticipantRecord, VoiceRoomManager, get_participant, get_channel_for_user,
}
use baker_self_hosted_voice.Voice.Slots.{
  slot, newcomer, join-slot, leave-slot, get_participant-slot, channel_of-some, channel_of-none,
}
use baker_self_hosted_voice.Router.{GatewayRuntime, ErrorCode, Reply, voice_joined}
use baker_self_hosted_voice.Router.Calls.{is_by}
use baker_self_hosted_voice.Handlers.{Environment}
use baker_self_hosted_voice.Handlers.Joining.{
  owning_connection, leave_existing, begin_from, join_begin, answer_join, join_finish, Begun, go_on,
  handle_voice_join, validate_voice_channel_access,
}
use baker_self_hosted_voice.Handlers.Departing.{handle_voice_leave-departed}
use baker_self_hosted_voice.Handlers.Soundness.{after_joining-IsQuiet}

abbrev pub is_joined : Reply → Bool
is_joined (voice_joined c n ps) = true
is_joined _ = false

-- The user stands in at most one voice channel, whose id is not empty.
abbrev pub IsSole : VoiceRoomManager → (user_id : String) → Type 0
IsSole m u =
    (c : String) → is_some (slot m c u) ≡ true → (get_channel_for_user m u ≡ some c) × (c ≢ "")

-- The connections that the user's records name are the user's, if they are known.
abbrev pub IsOwned : ConnectionManager → VoiceRoomManager → (user_id : String) → Type 0
IsOwned conns m u =
    (c : String) (p : VoiceParticipantRecord) (conn : GatewayConnection)
    → slot m c u ≡ some p
    → get p.connection_id conns.connections ≡ some conn
    → conn.user_id ≡ some u

-- What is needed of the state that `join_begin` leaves: the user is in no channel, and nobody else
-- has moved.
abbrev Cleared : VoiceRoomManager → (user_id : String) → VoiceRoomManager → Type 0
Cleared m u m' = (d v : String) → slot m' d v ≡ (if u == v then none else slot m d v)

owning_connection-own :
    (conns : ConnectionManager) (m : VoiceRoomManager) (u c : String)
    (connection : GatewayConnection) (o : Option VoiceParticipantRecord)
    → slot m c u ≡ o
    → connection.user_id ≡ some u
    → IsOwned conns m u
    → (owning_connection conns connection o).user_id ≡ some u
owning_connection-own conns m u c connection none e own owned = own
owning_connection-own conns m u c connection (some p) e own owned =
    elim (Option-cases (get p.connection_id conns.connections)) [
      | inl gone ↦ rw (gone, owning_connection) own
      | inr (conn, found) ↦ rw (found, owning_connection) (owned c p conn e found)
    ]

module _ {D : Type 0} (env : Environment) where
  answer_join-voice :
      (k c n : String) (o : Option (List VoiceParticipantRecord)) (g : GatewayRuntime D)
      → ((answer_join env k c n o g).0.voice_room ≡ g.voice_room)
        × (is_joined (answer_join env k c n o g).1 ≡ is_some o)
  answer_join-voice k c n none g = (refl, refl)
  answer_join-voice k c n (some ps) g =
      (ap (λ r. r.voice_room) (after_joining-IsQuiet env k c ps g), refl)

  -- The second half: a join of the voice room.
  join_finish-voice :
      (connection : GatewayConnection) (u c n : String) (g : GatewayRuntime D)
      → let r = Voice.join g.voice_room c u connection.id n in
        ((join_finish env connection u c (some n) g).0.voice_room ≡ r.0)
        × (is_joined (join_finish env connection u c (some n) g).1 ≡ is_some r.1)
  unfolding join_finish
  join_finish-voice connection u c n g =
      let r = Voice.join g.voice_room c u connection.id n in
      answer_join-voice connection.id c n r.1 (record g { voice_room = r.0 })

  join_begin_free :
      (connection : GatewayConnection) (u c : String) (g : GatewayRuntime D)
      → validate_voice_channel_access env.database c u ≡ none
      → get_channel_for_user g.voice_room u ≡ none
      → join_begin env connection u c g ≡ (g, none, [])
  unfolding join_begin
  join_begin_free connection u c g allowed free = rw (allowed, join_begin, free) refl

  join_finish-slot :
      (connection : GatewayConnection) (u c n : String) (g : GatewayRuntime D) (d v : String)
      → slot (join_finish env connection u c (some n) g).0.voice_room d v ≡ (
          if (c == d) && (u == v) && not (is_some (slot g.voice_room c u))
          then some (newcomer u connection.id n)
          else slot g.voice_room d v)
  join_finish-slot connection u c n g d v =
      ap (λ m. slot m d v) (join_finish-voice connection u c n g).0
      ∙ (join-slot g.voice_room c u connection.id n d v).0

  -- Two joins of one user, by two connections or one, to two channels: where both begin before either
  -- ends and the user was in no channel, the user stands in both channels at the end. The access of
  -- the user to both channels is granted.
  pub join_finish-interleaved :
      (a b : GatewayConnection) (u c d n p : String) (g : GatewayRuntime D)
      → validate_voice_channel_access env.database c u ≡ none
      → validate_voice_channel_access env.database d u ≡ none
      → get_channel_for_user g.voice_room u ≡ none
      → c ≢ d
      → let first = join_begin env a u c g in
        let second = join_begin env b u d first.0 in
        let third = join_finish env a u c (some n) second.0 in
        let fourth = join_finish env b u d (some p) third.0 in
        (first.1 ≡ none)
        × (second.1 ≡ none)
        × (slot fourth.0.voice_room c u ≡ some (newcomer u a.id n))
        × (slot fourth.0.voice_room d u ≡ some (newcomer u b.id p))
  join_finish-interleaved a b u c d n p g in_c in_d free differ =
      let third = (join_finish env a u c (some n) g).0 in
      let out : (e : String) → slot g.voice_room e u ≡ none =
        λ e. channel_of-none u e g.voice_room.rooms free in
      rw (join_begin_free a u c g in_c free, join_begin_free b u d g in_d free)
        (
          refl,
          refl,
          ground (
            arith,
            join_finish-slot b u d p third c u,
            join_finish-slot a u c n g c u,
            join_finish-slot a u c n g d u,
            out c,
            out d,
          ),
          ground (
            arith,
            join_finish-slot b u d p third d u,
            join_finish-slot a u c n g d u,
            out c,
            out d,
          ),
        )

  leave_existing-Cleared :
      (owner : GatewayConnection) (u existing : String) (g : GatewayRuntime D)
      → is_some (slot g.voice_room existing u) ≡ true
      → IsSole g.voice_room u
      → Cleared g.voice_room u (leave_existing env owner u existing g).0.voice_room
  leave_existing-Cleared owner u existing g here sole =
      elim (Option-cases (Voice.leave g.voice_room existing u).1) [
        | inl missing ↦ absurd (ground (arith, leave-slot g.voice_room existing u existing u))
        | inr (remaining, found) ↦ λ d v.
            ap (λ r. slot r.voice_room d v)
              (handle_voice_leave-departed env owner u existing g remaining found)
            ∙ ground (arith, (leave-slot g.voice_room existing u d v).0, sole d, sole existing here)
      ]

  -- A join that goes on, by the channel that the user was found in.
  begin_from-Cleared :
      (connection : GatewayConnection) (u c : String) (o : Option String) (g : GatewayRuntime D)
      → truthy (get_channel_for_user g.voice_room u) ≡ o
      → connection.user_id ≡ some u
      → Distinct g.voice_room.rooms
      → IsSole g.voice_room u
      → IsOwned g.connections g.voice_room u
      → (begin_from env connection u c o g).1 ≡ none
      → Cleared g.voice_room u (begin_from env connection u c o g).0.voice_room
  begin_from-Cleared connection u c none g e own distinct sole owned going =
      λ d v. ground (arith, sole d)
  begin_from-Cleared connection u c (some existing) g e own distinct sole owned going =
      let p = get_participant g.voice_room existing u in
      let owner = owning_connection g.connections connection p in
      let own_owner =
        owning_connection-own g.connections g.voice_room u existing connection p
          (sym (get_participant-slot g.voice_room existing u)) own owned in
      elim (Bool-cases (existing == c && is_by p connection.id)) [
        | inl same ↦ absurd (ground arith)
        | inr away ↦
            rw (away, own_owner)
              (leave_existing-Cleared owner u existing g
                (channel_of-some u existing g.voice_room.rooms distinct (ground arith)) sole)
      ]

  join_begin_allowed :
      (connection : GatewayConnection) (u c : String) (g : GatewayRuntime D)
      → validate_voice_channel_access env.database c u ≡ none
      → join_begin env connection u c g
        ≡ begin_from env connection u c (truthy (get_channel_for_user g.voice_room u)) g
  unfolding join_begin
  join_begin_allowed connection u c g allowed = rw (allowed, join_begin) refl

  join_begin_denied :
      (connection : GatewayConnection) (u c : String) (g : GatewayRuntime D) (code : ErrorCode)
      → validate_voice_channel_access env.database c u ≡ some code
      → join_begin env connection u c g ≡ (g, some code, [])
  unfolding join_begin
  join_begin_denied connection u c g code denied = rw (denied, join_begin) refl

  join_begin-Cleared :
      (connection : GatewayConnection) (u c : String) (g : GatewayRuntime D)
      → connection.user_id ≡ some u
      → Distinct g.voice_room.rooms
      → IsSole g.voice_room u
      → IsOwned g.connections g.voice_room u
      → (join_begin env connection u c g).1 ≡ none
      → Cleared g.voice_room u (join_begin env connection u c g).0.voice_room
  join_begin-Cleared connection u c g own distinct sole owned going =
      elim (Option-cases (validate_voice_channel_access env.database c u)) [
        | inr (code, denied) ↦
            absurd (ground (arith, ap (λ b. b.1) (join_begin_denied connection u c g code denied)))
        | inl allowed ↦
            let found = truthy (get_channel_for_user g.voice_room u) in
            let same = join_begin_allowed connection u c g allowed in
            rw same (
              begin_from-Cleared connection u c found g refl own distinct sole owned
                (sym (ap (λ b. b.1) same) ∙ going))
      ]

  -- A second half that succeeds, by what the media service answered.
  join_finish-Joined :
      (connection : GatewayConnection) (u c : String) (o : Option String) (g : GatewayRuntime D)
      → is_joined (join_finish env connection u c o g).1 ≡ true
      → (n : String) × ((d v : String)
          → slot (join_finish env connection u c o g).0.voice_room d v ≡ (
              if (c == d) && (u == v)
              then some (newcomer u connection.id n)
              else slot g.voice_room d v))
  unfolding join_finish
  join_finish-Joined connection u c none g joined = absurd (ground arith)
  join_finish-Joined connection u c (some n) g joined = (
    n,
    λ d v. ground (
      arith,
      join_finish-slot connection u c n g d v,
      (join_finish-voice connection u c n g).1,
      (join-slot g.voice_room c u connection.id n d v).1,
    ),
  )

  go_on-Joined :
      (connection : GatewayConnection) (u c r : String) (b : Begun D)
      → is_joined (go_on env connection u c r b).1 ≡ true
      → (b.1 ≡ none)
        × ((n : String) × ((d v : String)
              → slot (go_on env connection u c r b).0.voice_room d v ≡ (
                  if (c == d) && (u == v)
                  then some (newcomer u connection.id n)
                  else slot b.0.voice_room d v)))
  go_on-Joined connection u c r (g, some code, effects) joined = absurd (ground arith)
  go_on-Joined connection u c r (g, none, effects) joined =
      (refl, join_finish-Joined connection u c _ g joined)

  -- After a `voice.join` that succeeds, with nothing in between, the user stands in the channel
  -- joined, by the connection that joined, and in no other; nobody else has moved. Before, no channel
  -- stands twice, the user is in at most one, and the connections that the user's records name are the
  -- user's.
  pub handle_voice_join-sole :
      (connection : GatewayConnection) (u c r : String) (g : GatewayRuntime D)
      → connection.user_id ≡ some u
      → Distinct g.voice_room.rooms
      → IsSole g.voice_room u
      → IsOwned g.connections g.voice_room u
      → is_joined (handle_voice_join env connection u r (some c) g).1 ≡ true
      → (n : String) × ((d v : String)
          → slot (handle_voice_join env connection u r (some c) g).0.voice_room d v ≡ (
              if u == v
              then (if c == d then some (newcomer u connection.id n) else none)
              else slot g.voice_room d v))
  unfolding handle_voice_join
  handle_voice_join-sole connection u c r g own distinct sole owned joined =
      let b = join_begin env connection u c g in
      let (going, (n, after)) = go_on-Joined connection u c r b joined in
      let cleared = join_begin-Cleared connection u c g own distinct sole owned going in
      (n, λ d v. ground (arith, after d v, cleared d v))

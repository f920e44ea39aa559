-- ===== src/Voice/Rosters.antt =====
-- The rosters that the methods return, against the rooms that they leave.
use baker_self_hosted_voice.Common.{
  String, ◌≡◌, Option, none, some, List, [], arith, Option-cases, inl, inr,
}
use baker_self_hosted_voice.Common.StringMap.{StringMap, get, set, delete}
use baker_self_hosted_voice.Common.StringMap.Laws.{
  get-set_self, get-delete_self, delete_absent, set_same, is_empty-set,
}
use baker_self_hosted_voice.Common.StringMap.Entries.{get-Entries}
use baker_self_hosted_voice.Common.StringSet
use baker_self_hosted_voice.Voice.{
  VoiceParticipantRecord, Room, VoiceRoomManager, Departure, join, leave, get_participants, leaver,
}
use baker_self_hosted_voice.Voice.Slots.{in_room, slot, newcomer}
use baker_self_hosted_voice.Voice.Invariant.{IsRoom, IsValid}

-- The roster that `join` returns is the roster that the channel then has.
join-get_participants :
    (m : VoiceRoomManager) (c u k s : String) (roster : List VoiceParticipantRecord)
    → (join m c u k s).1 ≡ some roster
    → get_participants (join m c u k s).0 c ≡ roster
unfolding join get_participants
join-get_participants m c u k s roster e = elim (Option-cases (get c m.rooms)) [
  | inl missing ↦ ground (
    arith,
    get-set_self c (set u (newcomer u k s) []) (set c [] m.rooms),
    is_empty-set u (newcomer u k s) [],
  )
  | inr (room, found) ↦ ground (arith, get-set_self c (set u (newcomer u k s) room) m.rooms)
]

-- The roster that `leave` returns is the roster that the channel then has.
leave-get_participants :
    (m : VoiceRoomManager) (c u : String) (roster : List VoiceParticipantRecord)
    → (leave m c u).1 ≡ some roster
    → get_participants (leave m c u).0 c ≡ roster
unfolding leave get_participants
leave-get_participants m c u roster e = elim (Option-cases (get c m.rooms)) [
  | inl missing ↦ absurd (ground arith)
  | inr (room, found) ↦
      ground (arith, get-set_self c (delete u room) m.rooms, get-delete_self c m.rooms)
]

-- On valid rooms a user who is not in a channel that has a room can leave it: the call succeeds,
-- returns the roster and changes nothing.
leave_by_stranger :
    (m : VoiceRoomManager) (c u : String) (room : Room)
    → IsValid m
    → get c m.rooms ≡ some room
    → slot m c u ≡ none
    → leave m c u ≡ (m, some (get_participants m c))
unfolding leave get_participants
leave_by_stranger m c u room v found absent =
    let r = get-Entries (λ c room. IsRoom room) c room m.rooms found v.rooms_valid in
    ground (arith, r.occupied, delete_absent u room, set_same c room m.rooms)

-- What is said of one departure: it is the user's, from a slot that the connection matches, and it
-- brings the roster that the channel then has.
abbrev pub IsDeparture :
    StringMap Room → String → Option String → StringMap Room → Departure → Type 0
IsDeparture before u k after d =
    (leaver k (in_room u (get d.channel_id before)) ≡ some d.left)
    × (get_participants (record { rooms = after }) d.channel_id ≡ d.remaining)

-- ===== src/Voice/Slots.antt =====
-- The rooms as a function from channel and user to a participant, and what each method does to it.
use baker_self_hosted_voice.Common.{
  String, Bool, true, false, ◌≡◌, refl, Option, none, some, [], ◌∷◌, ◌&&◌, arith, str_dec, ite,
  if◌then◌else◌, ◌==◌, Option-cases, inl, inr, not,
}
use baker_self_hosted_voice.Common.StringMap.{StringMap, get, set, delete, is_empty, is_some}
use baker_self_hosted_voice.Common.StringMap.Laws.{get-set, get-delete}
use baker_self_hosted_voice.Common.StringMap.Entries.{Distinct}
use baker_self_hosted_voice.Voice.{
  VoiceParticipantRecord, Room, VoiceRoomManager, ensure_room, join, put_back, leave,
  get_participant, set_muted, leaver, leave_rooms, leave_all_channels, channel_of,
  get_channel_for_user,
}

-- The participant that `channel` and `user` name in a map of rooms.
abbrev pub in_room : String → Option Room → Option VoiceParticipantRecord
in_room user none = none
in_room user (some room) = get user room

abbrev pub slot : VoiceRoomManager → String → String → Option VoiceParticipantRecord
slot m channel user = in_room user (get channel m.rooms)

pub get_participant-slot :
    (m : VoiceRoomManager) (channel user : String)
    → get_participant m channel user ≡ slot m channel user
unfolding get_participant
get_participant-slot m channel user = ground arith

empty_room : (user : String) (room : Room) → is_empty room ≡ true → get user room ≡ none
unfolding get
empty_room user [] h = refl
empty_room user (e ∷ room) h = cc

in_room-put_back :
    (c d user : String) (room : Room) (rooms : StringMap Room)
    → in_room user (get d (put_back c room rooms))
      ≡ ite (str_dec c d) (get user room) (in_room user (get d rooms))
in_room-put_back c d user room rooms =
    ground (arith, get-set c d room rooms, get-delete c d rooms, empty_room user room)

in_room-ensure_room :
    (c d user : String) (rooms : StringMap Room)
    → in_room user (get d (ensure_room c rooms)) ≡ in_room user (get d rooms)
unfolding get
in_room-ensure_room c d user rooms = ground (arith, get-set c d [] rooms)

-- A new participant, as `join` records one.
abbrev pub newcomer : String → String → String → VoiceParticipantRecord
newcomer user connection session = record {
  connection_id = connection;
  is_muted = false;
  session_id = session;
  user_id = user;
}

-- `join` fills the slot of a user who is not in the channel, and no other; it succeeds exactly then.
pub join-slot :
    (m : VoiceRoomManager) (c u k s d v : String)
    → (slot (join m c u k s).0 d v ≡ (
        if (c == d) && (u == v) && not (is_some (slot m c u))
        then some (newcomer u k s)
        else slot m d v))
      × (is_some (join m c u k s).1 ≡ not (is_some (slot m c u)))
unfolding join get
join-slot m c u k s d v =
    let new = newcomer u k s in
    elim (Option-cases (get c m.rooms)) [
      | inl missing ↦ ground (
        arith,
        get-set c d (set u new []) (set c [] m.rooms),
        get-set c d [] m.rooms,
        get-set u v new [],
      )
      | inr (room, found) ↦
          ground (arith, get-set c d (set u new room) m.rooms, get-set u v new room)
    ]

-- `leave` empties one slot and no other, whether or not the user was there; it fails exactly where
-- the channel has no room.
pub leave-slot :
    (m : VoiceRoomManager) (c u d v : String)
    → (slot (leave m c u).0 d v ≡ (if (c == d) && (u == v) then none else slot m d v))
      × (is_some (leave m c u).1 ≡ is_some (get c m.rooms))
unfolding leave
leave-slot m c u d v = elim (Option-cases (get c m.rooms)) [
  | inl missing ↦ ground arith
  | inr (room, found) ↦
      ground (arith, in_room-put_back c d v (delete u room) m.rooms, get-delete u v room)
]

-- The participant with the flag set.
abbrev pub muted : Bool → Option VoiceParticipantRecord → Option VoiceParticipantRecord
muted is_muted none = none
muted is_muted (some r) = some (record r { is_muted = is_muted })

-- `set_muted` changes the flag of one participant, and nothing else; it returns the changed
-- participant, or nothing where there is none.
pub set_muted-slot :
    (m : VoiceRoomManager) (c u d v : String) (is_muted : Bool)
    → (slot (set_muted m c u is_muted).0 d v
        ≡ (if (c == d) && (u == v) then muted is_muted (slot m c u) else slot m d v))
      × ((set_muted m c u is_muted).1 ≡ muted is_muted (slot m c u))
unfolding set_muted
set_muted-slot m c u d v is_muted = elim (Option-cases (get c m.rooms)) [
  | inl missing ↦ ground arith
  | inr (room, found) ↦ elim (Option-cases (get u room)) [
    | inl absent ↦ ground arith
    | inr (r, here) ↦
        let r' = record r { is_muted = is_muted } in
        ground (arith, get-set c d (set u r' room) m.rooms, get-set u v r' room)
  ]
]

-- The rooms after a user leaves them all.
leave_rooms-get :
    (u : String) (k : Option String) (c v : String) (rooms : StringMap Room)
    → Distinct rooms
    → in_room v (get c (leave_rooms u k rooms).0) ≡ (
        if (u == v) && is_some (leaver k (in_room u (get c rooms)))
        then none
        else in_room v (get c rooms))
unfolding leave_rooms get
leave_rooms-get u k c v [] h = ground arith
leave_rooms-get u k c v ((d, room) ∷ rooms) (new, h) =
    ground
      (arith, leave_rooms-get u k c v rooms h, get-delete u v room, empty_room v (delete u room))

-- Where no channel stands twice, `leave_all_channels` empties the slots of one user, in every channel where the connection is the
-- one given, if one is given, and no other slot.
pub leave_all_channels-slot :
    (m : VoiceRoomManager) (u : String) (k : Option String) (c v : String)
    → Distinct m.rooms
    → slot (leave_all_channels m u k).0 c v
      ≡ (if (u == v) && is_some (leaver k (slot m c u)) then none else slot m c v)
unfolding leave_all_channels
leave_all_channels-slot m u k c v h = leave_rooms-get u k c v m.rooms h

pub channel_of-some :
    (u c : String) (rooms : StringMap Room)
    → Distinct rooms
    → channel_of u rooms ≡ some c
    → is_some (in_room u (get c rooms)) ≡ true
unfolding channel_of get
channel_of-some u c [] h e = cc
channel_of-some u c ((d, room) ∷ rooms) (new, h) e = ground (arith, channel_of-some u c rooms h)

pub channel_of-none :
    (u c : String) (rooms : StringMap Room)
    → channel_of u rooms ≡ none
    → in_room u (get c rooms) ≡ none
unfolding channel_of get
channel_of-none u c [] e = refl
channel_of-none u c ((d, room) ∷ rooms) e = ground (arith, channel_of-none u c rooms)

-- Where no channel stands twice, the channel that is found for a user is one that the user is in, and
-- none is found only if the user is in no channel.
get_channel_for_user-slot :
    (m : VoiceRoomManager) (u : String)
    → Distinct m.rooms
    → ((c : String) → get_channel_for_user m u ≡ some c → is_some (slot m c u) ≡ true)
      × (get_channel_for_user m u ≡ none → (c : String) → slot m c u ≡ none)
get_channel_for_user-slot m u h =
    (λ c e. channel_of-some u c m.rooms h e, λ e c. channel_of-none u c m.rooms e)

-- After a disconnect that names no connection the user is in no channel.
leave_all_channels_empties :
    (m : VoiceRoomManager) (u : String)
    → Distinct m.rooms
    → (c : String) → slot (leave_all_channels m u none).0 c u ≡ none
leave_all_channels_empties m u h c = ground (arith, leave_all_channels-slot m u none c u h)

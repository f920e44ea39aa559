-- ===== src/Voice/Invariant.antt =====
-- What holds of the rooms between two calls.
use baker_self_hosted_voice.Common.{
  String, Bool, true, false, ◌≡◌, refl, Option, none, some, [], ◌∷◌, arith, Option-cases,
  Bool-cases, inl, inr,
}
use baker_self_hosted_voice.Common.StringMap.{StringMap, get, set, delete, is_empty, has}
use baker_self_hosted_voice.Common.StringMap.Laws.{set-set, is_empty-set}
use baker_self_hosted_voice.Common.StringMap.Entries.{
  Distinct, Entries, set-Distinct, delete-Distinct, set-Entries, delete-Entries, get-Entries,
}
use baker_self_hosted_voice.Voice.{
  VoiceParticipantRecord, Room, VoiceRoomManager, join, leave, set_muted, clear_channel,
  leave_rooms, leave_all_channels, leaver,
}
use baker_self_hosted_voice.Voice.Slots.{newcomer}

-- Every record stands under its own user.
abbrev pub IsFiled : String → VoiceParticipantRecord → Type 0
IsFiled user r = r.user_id ≡ user

-- A room holds somebody, nobody twice, and every record under its user.
pub record IsRoom (room : Room) : Type 0 where
  pub occupied : is_empty room ≡ false
  pub distinct : Distinct room
  pub filed : Entries IsFiled room

pub record IsValid (m : VoiceRoomManager) : Type 0 where
  pub distinct : Distinct m.rooms
  pub rooms_valid : Entries (λ c room. IsRoom room) m.rooms

set-IsRoom :
    (u : String) (r : VoiceParticipantRecord) (room : Room)
    → r.user_id ≡ u
    → Distinct room
    → Entries IsFiled room
    → IsRoom (set u r room)
set-IsRoom u r room e d f = record {
  occupied = is_empty-set u r room;
  distinct = set-Distinct u r room d;
  filed = set-Entries IsFiled u r room e f;
}

set-IsValid :
    (c : String) (room : Room) (m : VoiceRoomManager)
    → IsRoom room
    → IsValid m
    → IsValid (record { rooms = set c room m.rooms })
set-IsValid c room m r v = record {
  distinct = set-Distinct c room m.rooms v.distinct;
  rooms_valid = set-Entries (λ c room. IsRoom room) c room m.rooms r v.rooms_valid;
}

pub clear_channel-IsValid :
    (m : VoiceRoomManager) (c : String) → IsValid m → IsValid (clear_channel m c)
unfolding clear_channel
clear_channel-IsValid m c v = record {
  distinct = delete-Distinct c m.rooms v.distinct;
  rooms_valid = delete-Entries (λ c room. IsRoom room) c m.rooms v.rooms_valid;
}

-- The first to join a channel opens its room.
join_new :
    (m : VoiceRoomManager) (c u k s : String)
    → get c m.rooms ≡ none
    → (join m c u k s).0 ≡ record { rooms = set c (set u (newcomer u k s) []) m.rooms }
unfolding join get
join_new m c u k s missing = ground (arith, set-set c (set u (newcomer u k s) []) [] m.rooms)

-- In a room that is there, `join` refuses a member and takes in anybody else.
join_member :
    (m : VoiceRoomManager) (c u k s : String) (room : Room)
    → get c m.rooms ≡ some room
    → has u room ≡ true
    → (join m c u k s).0 ≡ m
unfolding join
join_member m c u k s room found member = ground arith

join_free :
    (m : VoiceRoomManager) (c u k s : String) (room : Room)
    → get c m.rooms ≡ some room
    → has u room ≡ false
    → (join m c u k s).0 ≡ record { rooms = set c (set u (newcomer u k s) room) m.rooms }
unfolding join
join_free m c u k s room found free = ground arith

pub join-IsValid :
    (m : VoiceRoomManager) (c u k s : String) → IsValid m → IsValid (join m c u k s).0
join-IsValid m c u k s v = elim (Option-cases (get c m.rooms)) [
  | inl missing ↦
      rw (join_new m c u k s missing) (
        set-IsValid c (set u (newcomer u k s) []) m (set-IsRoom u (newcomer u k s) [] refl tt tt) v)
  | inr (room, found) ↦
      let r = get-Entries (λ c room. IsRoom room) c room m.rooms found v.rooms_valid in
      elim (Bool-cases (has u room)) [
        | inl member ↦ rw (join_member m c u k s room found member) v
        | inr free ↦ rw (join_free m c u k s room found free) (
            set-IsValid c (set u (newcomer u k s) room) m
              (set-IsRoom u (newcomer u k s) room refl r.distinct r.filed) v)
      ]
]

delete-IsRoom :
    (u : String) (room : Room)
    → is_empty (delete u room) ≡ false
    → IsRoom room
    → IsRoom (delete u room)
delete-IsRoom u room e r = record {
  occupied = e;
  distinct = delete-Distinct u room r.distinct;
  filed = delete-Entries IsFiled u room r.filed;
}

pub leave-IsValid : (m : VoiceRoomManager) (c u : String) → IsValid m → IsValid (leave m c u).0
unfolding leave clear_channel
leave-IsValid m c u v = elim (Option-cases (get c m.rooms)) [
  | inl missing ↦ rw (missing, leave) v
  | inr (room, found) ↦
      let r = get-Entries (λ c room. IsRoom room) c room m.rooms found v.rooms_valid in
      elim (Bool-cases (is_empty (delete u room))) [
        | inl gone ↦ rw (found, leave, gone) (clear_channel-IsValid m c v)
        | inr rest ↦
            rw (found, leave, rest)
              (set-IsValid c (delete u room) m (delete-IsRoom u room rest r) v)
      ]
]

pub set_muted-IsValid :
    (m : VoiceRoomManager) (c u : String) (is_muted : Bool)
    → IsValid m
    → IsValid (set_muted m c u is_muted).0
unfolding set_muted
set_muted-IsValid m c u is_muted v = elim (Option-cases (get c m.rooms)) [
  | inl missing ↦ rw (missing, set_muted) v
  | inr (room, found) ↦
      let r = get-Entries (λ c room. IsRoom room) c room m.rooms found v.rooms_valid in
      elim (Option-cases (get u room)) [
        | inl absent ↦ rw (found, set_muted, absent) v
        | inr (p, here) ↦
            rw (found, set_muted, here)
              (set-IsValid c (set u (record p { is_muted = is_muted }) room) m
                (set-IsRoom u (record p { is_muted = is_muted }) room
                  (get-Entries IsFiled u p room here r.filed) r.distinct r.filed)
                v)
      ]
]

-- The loop drops rooms and takes one user out of others.
pub leave_rooms_absent :
    (u : String) (k : Option String) (c : String) (rooms : StringMap Room)
    → get c rooms ≡ none
    → get c (leave_rooms u k rooms).0 ≡ none
unfolding leave_rooms get
leave_rooms_absent u k c [] h = refl
leave_rooms_absent u k c ((d, room) ∷ rooms) h = ground (arith, leave_rooms_absent u k c rooms)

leave_rooms-IsValid :
    (u : String) (k : Option String) (rooms : StringMap Room)
    → IsValid (record { rooms = rooms })
    → IsValid (record { rooms = (leave_rooms u k rooms).0 })
unfolding leave_rooms get
leave_rooms-IsValid u k [] v = v
leave_rooms-IsValid u k ((d, room) ∷ rooms) v =
    let ih =
      leave_rooms-IsValid u k rooms
        (record { distinct = v.distinct.1; rooms_valid = v.rooms_valid.1 }) in
    let new = leave_rooms_absent u k d rooms v.distinct.0 in
    elim (Option-cases (leaver k (get u room))) [
      | inl stays ↦
          rw (stays, leave_rooms)
            (record {
              distinct = (new, ih.distinct);
              rooms_valid = (v.rooms_valid.0, ih.rooms_valid);
            })
      | inr (left, goes) ↦ elim (Bool-cases (is_empty (delete u room))) [
        | inl empty ↦ rw (goes, leave_rooms, empty) ih
        | inr rest ↦
            rw (goes, leave_rooms, rest)
              (record {
                distinct = (new, ih.distinct);
                rooms_valid = (delete-IsRoom u room rest v.rooms_valid.0, ih.rooms_valid);
              })
      ]
    ]

pub leave_all_channels-IsValid :
    (m : VoiceRoomManager) (u : String) (k : Option String)
    → IsValid m
    → IsValid (leave_all_channels m u k).0
unfolding leave_all_channels
leave_all_channels-IsValid m u k v = leave_rooms-IsValid u k m.rooms v

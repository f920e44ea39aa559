-- ===== src/Music/Invariant.antt =====
-- What holds of the music rooms between two calls.
use baker_self_hosted_voice.Common.{
  String, true, false, ◌≡◌, refl, none, some, arith, Option-cases, Bool-cases, inl, inr, ◌==◌,
}
use baker_self_hosted_voice.Common.StringMap.{get, set, delete}
use baker_self_hosted_voice.Common.StringMap.Entries.{
  Distinct, Entries, set-Distinct, delete-Distinct, set-Entries, delete-Entries, get-Entries,
}
use baker_self_hosted_voice.Common.Nested.{
  AreRooms, room_or_new, put_back, put_back-AreRooms, set-AreRooms, get-AreRooms, set-ensure_room,
}
use baker_self_hosted_voice.Music.{
  MusicListenerRecord, MusicPublicationRecord, Room, MusicRoomManager, get_publication,
}
use baker_self_hosted_voice.Music.Publish.{
  hosts, new_publication, start, stop, replace, with_listener, add_listener, remove_listener,
}
use baker_self_hosted_voice.Music.Hosts.{
  SoleHosts, set-SoleHosts, set_same-SoleHosts, delete-SoleHosts,
}

abbrev pub IsFiled : String → MusicListenerRecord → Type 0
IsFiled user v = v.user_id ≡ user

-- A publication names its channel and its key, and holds each listener once, under the listener's user.
pub record IsPublication (channel music : String) (p : MusicPublicationRecord) : Type 0 where
  pub in_channel : p.channel_id ≡ channel
  pub under_music : p.music_id ≡ music
  pub distinct : Distinct p.listeners
  pub filed : Entries IsFiled p.listeners

-- A room holds each publication once, and no two of one host.
pub record IsRoom (channel : String) (room : Room) : Type 0 where
  pub distinct : Distinct room
  pub sole : SoleHosts room
  pub filed : Entries (IsPublication channel) room

-- Channels are distinct, no room is empty, and every room is sound.
abbrev pub IsValid : MusicRoomManager → Type 0
IsValid m = AreRooms IsRoom m.rooms

room_or_new-IsRoom :
    (c : String) (m : MusicRoomManager) → IsValid m → IsRoom c (room_or_new (get c m.rooms))
room_or_new-IsRoom c m v = elim (Option-cases (get c m.rooms)) [
  | inl missing ↦ rw missing (record { distinct = tt; sole = tt; filed = tt })
  | inr (room, found) ↦ rw found (get-AreRooms IsRoom c room m.rooms found v)
]

-- `start` refuses a user who hosts in the channel, and changes nothing then.
pub start_refused :
    (m : MusicRoomManager) (c s u k n : String)
    → hosts u (room_or_new (get c m.rooms)) ≡ true
    → start m c s u k n ≡ (m, none)
unfolding start hosts
start_refused m c s u k n h = ground arith

pub start_accepted :
    (m : MusicRoomManager) (c s u k n : String)
    → hosts u (room_or_new (get c m.rooms)) ≡ false
    → let p = new_publication c s u k n in
      start m c s u k n
      ≡ (record { rooms = set c (set s p (room_or_new (get c m.rooms))) m.rooms }, some p)
unfolding start
start_accepted m c s u k n h = ground (
  arith,
  set-ensure_room c (set s (new_publication c s u k n) (room_or_new (get c m.rooms))) m.rooms,
)

pub start-IsValid :
    (m : MusicRoomManager) (c s u k n : String) → IsValid m → IsValid (start m c s u k n).0
start-IsValid m c s u k n v =
    let room = room_or_new (get c m.rooms) in
    let r = room_or_new-IsRoom c m v in
    let p = new_publication c s u k n in
    elim (Bool-cases (hosts u room)) [
      | inl taken ↦ rw (start_refused m c s u k n taken) v
      | inr free ↦ rw (start_accepted m c s u k n free) (
          set-AreRooms IsRoom c s p room m.rooms
            (record {
              distinct = set-Distinct s p room r.distinct;
              sole = set-SoleHosts s p room free r.sole;
              filed =
                  set-Entries (IsPublication c) s p room
                    (record { in_channel = refl; under_music = refl; distinct = tt; filed = tt })
                    r.filed;
            })
            v)
    ]

-- What `stop` does to a publication that the user hosts, and to any other.
pub stop_hosted :
    (m : MusicRoomManager) (c s u : String) (room : Room) (p : MusicPublicationRecord)
    → get c m.rooms ≡ some room
    → get s room ≡ some p
    → p.host.user_id ≡ u
    → (stop m c s u).0 ≡ record { rooms = put_back c (delete s room) m.rooms }
unfolding stop
stop_hosted m c s u room p found here mine = ground arith

delete-IsRoom : (c s : String) (room : Room) → IsRoom c room → IsRoom c (delete s room)
delete-IsRoom c s room r = record {
  distinct = delete-Distinct s room r.distinct;
  sole = delete-SoleHosts s room r.sole;
  filed = delete-Entries (IsPublication c) s room r.filed;
}

pub stop-IsValid : (m : MusicRoomManager) (c s u : String) → IsValid m → IsValid (stop m c s u).0
unfolding stop
stop-IsValid m c s u v = elim (Option-cases (get c m.rooms)) [
  | inl missing ↦ rw (missing, stop) v
  | inr (room, found) ↦ elim (Option-cases (get s room)) [
    | inl absent ↦ rw (found, stop, absent) v
    | inr (p, here) ↦ elim (Bool-cases (p.host.user_id == u)) [
      | inl mine ↦ rw (stop_hosted m c s u room p found here (ground arith)) (
          put_back-AreRooms IsRoom c (delete s room) m.rooms
            (delete-IsRoom c s room (get-AreRooms IsRoom c room m.rooms found v)) v)
      | inr other ↦ rw (found, stop, here, other) v
    ]
  ]
]

-- A publication may change in place if it keeps its host and stays sound.
replace-IsValid :
    (m : MusicRoomManager) (c s : String) (p q : MusicPublicationRecord)
    → get_publication m c s ≡ some q
    → p.host ≡ q.host
    → (IsPublication c s q → IsPublication c s p)
    → IsValid m
    → IsValid (replace m c s p)
replace-IsValid m c s p q e same sound v = elim (Option-cases (get c m.rooms)) [
  | inl missing ↦ absurd (ground arith)
  | inr (room, found) ↦
      let here : get s room ≡ some q = ground arith in
      let r = get-AreRooms IsRoom c room m.rooms found v in
      rw (found, replace)
        (set-AreRooms IsRoom c s p room m.rooms
          (record {
            distinct = set-Distinct s p room r.distinct;
            sole = set_same-SoleHosts s p q room here same r.sole;
            filed =
                set-Entries (IsPublication c) s p room
                  (sound (get-Entries (IsPublication c) s q room here r.filed)) r.filed;
          })
          v)
]

pub add_listener-IsValid :
    (m : MusicRoomManager) (c s u k n : String) → IsValid m → IsValid (add_listener m c s u k n).0
unfolding add_listener
add_listener-IsValid m c s u k n v = elim (Option-cases (get_publication m c s)) [
  | inl missing ↦ rw (missing, add_listener) v
  | inr (p, here) ↦ elim (Option-cases (get u p.listeners)) [
    | inl new ↦
        rw (here, add_listener, new)
          (replace-IsValid m c s (with_listener p u k n) p here refl
            (λ i. record {
              in_channel = i.in_channel;
              under_music = i.under_music;
              distinct = set-Distinct u _ p.listeners i.distinct;
              filed = set-Entries IsFiled u _ p.listeners refl i.filed;
            })
            v)
    | inr (w, old) ↦ rw (here, add_listener, old) v
  ]
]

pub remove_listener-IsValid :
    (m : MusicRoomManager) (c s u : String) → IsValid m → IsValid (remove_listener m c s u).0
unfolding remove_listener
remove_listener-IsValid m c s u v = elim (Option-cases (get_publication m c s)) [
  | inl missing ↦ rw (missing, remove_listener) v
  | inr (p, here) ↦
      rw (here, remove_listener)
        (replace-IsValid m c s (record p { listeners = delete u p.listeners }) p here refl
          (λ i. record {
            in_channel = i.in_channel;
            under_music = i.under_music;
            distinct = delete-Distinct u p.listeners i.distinct;
            filed = delete-Entries IsFiled u p.listeners i.filed;
          })
          v)
]

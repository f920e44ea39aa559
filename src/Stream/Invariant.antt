-- ===== src/Stream/Invariant.antt =====
-- What holds of the stream rooms between two calls.
use baker_self_hosted_voice.Common.{
  ℕ, String, true, false, ◌≡◌, refl, none, some, arith, Option-cases, Bool-cases, inl, inr, ◌==◌,
  ◌&&◌,
}
use baker_self_hosted_voice.Common.StringMap.{get, set, delete}
use baker_self_hosted_voice.Common.StringMap.Entries.{
  Distinct, Entries, set-Distinct, delete-Distinct, set-Entries, delete-Entries, get-Entries,
}
use baker_self_hosted_voice.Common.Nested.{
  AreRooms, room_or_new, put_back, put_back-AreRooms, set-AreRooms, get-AreRooms, set-ensure_room,
}
use baker_self_hosted_voice.Stream.{
  StreamSourceType, StreamViewerRecord, StreamPublicationRecord, Room, StreamRoomManager,
  get_publication,
}
use baker_self_hosted_voice.Stream.Publish.{
  hosts, new_publication, start, stop, replace, with_viewer, add_viewer, remove_viewer,
  set_publisher_diagnostics,
}
use baker_self_hosted_voice.Stream.Hosts.{
  SoleHosts, set-SoleHosts, set_same-SoleHosts, delete-SoleHosts,
}

abbrev pub IsFiled : String → StreamViewerRecord → Type 0
IsFiled user v = v.user_id ≡ user

module _ {D : Type 0} where
  -- A publication names its channel and its key, and holds each viewer once, under the viewer's user.
  pub record IsPublication (channel stream : String) (p : StreamPublicationRecord D) : Type 0 where
    pub in_channel : p.channel_id ≡ channel
    pub under_stream : p.stream_id ≡ stream
    pub distinct : Distinct p.viewers
    pub filed : Entries IsFiled p.viewers

  -- A room holds each publication once, and no two of one host.
  pub record IsRoom (channel : String) (room : Room D) : Type 0 where
    pub distinct : Distinct room
    pub sole : SoleHosts room
    pub filed : Entries (IsPublication channel) room

  -- Channels are distinct, no room is empty, and every room is sound.
  abbrev pub IsValid : StreamRoomManager D → Type 0
  IsValid m = AreRooms IsRoom m.rooms

  room_or_new-IsRoom :
      (c : String) (m : StreamRoomManager D) → IsValid m → IsRoom c (room_or_new (get c m.rooms))
  room_or_new-IsRoom c m v = elim (Option-cases (get c m.rooms)) [
    | inl missing ↦ rw missing (record { distinct = tt; sole = tt; filed = tt })
    | inr (room, found) ↦ rw found (get-AreRooms IsRoom c room m.rooms found v)
  ]

  -- `start` refuses a user who hosts in the channel, and changes nothing then.
  pub start_refused :
      (m : StreamRoomManager D) (c s u k n : String) (source : StreamSourceType)
      → hosts u (room_or_new (get c m.rooms)) ≡ true
      → start m c s u k n source ≡ (m, none)
  unfolding start hosts
  start_refused m c s u k n source h = ground arith

  pub start_accepted :
      (m : StreamRoomManager D) (c s u k n : String) (source : StreamSourceType)
      → hosts u (room_or_new (get c m.rooms)) ≡ false
      → let p = new_publication c s u k n source in
        start m c s u k n source
        ≡ (record { rooms = set c (set s p (room_or_new (get c m.rooms))) m.rooms }, some p)
  unfolding start
  start_accepted m c s u k n source h = ground (
    arith,
    set-ensure_room c (set s (new_publication c s u k n source) (room_or_new (get c m.rooms)))
        m.rooms,
  )

  pub start-IsValid :
      (m : StreamRoomManager D) (c s u k n : String) (source : StreamSourceType)
      → IsValid m
      → IsValid (start m c s u k n source).0
  start-IsValid m c s u k n source v =
      let room = room_or_new (get c m.rooms) in
      let r = room_or_new-IsRoom c m v in
      let p = new_publication c s u k n source in
      elim (Bool-cases (hosts u room)) [
        | inl taken ↦ rw (start_refused m c s u k n source taken) v
        | inr free ↦ rw (start_accepted m c s u k n source free) (
            set-AreRooms IsRoom c s p room m.rooms
              (record {
                distinct = set-Distinct s p room r.distinct;
                sole = set-SoleHosts s p room free r.sole;
                filed =
                    set-Entries (IsPublication c) s p room
                      (record { in_channel = refl; under_stream = refl; distinct = tt; filed = tt })
                      r.filed;
              })
              v)
      ]

  -- What `stop` does to a publication that the user hosts, and to any other.
  pub stop_hosted :
      (m : StreamRoomManager D) (c s u : String) (room : Room D) (p : StreamPublicationRecord D)
      → get c m.rooms ≡ some room
      → get s room ≡ some p
      → p.host.user_id ≡ u
      → (stop m c s u).0 ≡ record { rooms = put_back c (delete s room) m.rooms }
  unfolding stop
  stop_hosted m c s u room p found here mine = ground arith

  delete-IsRoom : (c s : String) (room : Room D) → IsRoom c room → IsRoom c (delete s room)
  delete-IsRoom c s room r = record {
    distinct = delete-Distinct s room r.distinct;
    sole = delete-SoleHosts s room r.sole;
    filed = delete-Entries (IsPublication c) s room r.filed;
  }

  pub stop-IsValid :
      (m : StreamRoomManager D) (c s u : String) → IsValid m → IsValid (stop m c s u).0
  unfolding stop
  stop-IsValid m c s u v = elim (Option-cases (get c m.rooms)) [
    | inl missing ↦ rw (missing, stop) v
    | inr (room, found) ↦ elim (Option-cases (get s room)) [
      | inl absent ↦ rw (found, stop, absent) v
      | inr (p, here) ↦ elim (Bool-cases (p.host.user_id == u)) [
        | inl mine ↦ rw (stop_hosted m c s u room p found here (ground arith)) (
            put_back-AreRooms IsRoom c (delete s room) m.rooms
              (delete-IsRoom c s room (get-AreRooms IsRoom c room m.rooms found v)) v)
        | inr other ↦ rw (found, stop, here, other) v
      ]
    ]
  ]

  -- A publication may change in place if it keeps its host and stays sound.
  replace-IsValid :
      (m : StreamRoomManager D) (c s : String) (p q : StreamPublicationRecord D)
      → get_publication m c s ≡ some q
      → p.host ≡ q.host
      → (IsPublication c s q → IsPublication c s p)
      → IsValid m
      → IsValid (replace m c s p)
  replace-IsValid m c s p q e same sound v = elim (Option-cases (get c m.rooms)) [
    | inl missing ↦ absurd (ground arith)
    | inr (room, found) ↦
        let here : get s room ≡ some q = ground arith in
        let r = get-AreRooms IsRoom c room m.rooms found v in
        rw (found, replace)
          (set-AreRooms IsRoom c s p room m.rooms
            (record {
              distinct = set-Distinct s p room r.distinct;
              sole = set_same-SoleHosts s p q room here same r.sole;
              filed =
                  set-Entries (IsPublication c) s p room
                    (sound (get-Entries (IsPublication c) s q room here r.filed)) r.filed;
            })
            v)
  ]

  pub add_viewer-IsValid :
      (m : StreamRoomManager D) (c s u k n : String)
      → IsValid m
      → IsValid (add_viewer m c s u k n).0
  unfolding add_viewer
  add_viewer-IsValid m c s u k n v = elim (Option-cases (get_publication m c s)) [
    | inl missing ↦ rw (missing, add_viewer) v
    | inr (p, here) ↦ elim (Option-cases (get u p.viewers)) [
      | inl new ↦
          rw (here, add_viewer, new)
            (replace-IsValid m c s (with_viewer p u k n) p here refl
              (λ i. record {
                in_channel = i.in_channel;
                under_stream = i.under_stream;
                distinct = set-Distinct u _ p.viewers i.distinct;
                filed = set-Entries IsFiled u _ p.viewers refl i.filed;
              })
              v)
      | inr (w, old) ↦ rw (here, add_viewer, old) v
    ]
  ]

  pub remove_viewer-IsValid :
      (m : StreamRoomManager D) (c s u : String) → IsValid m → IsValid (remove_viewer m c s u).0
  unfolding remove_viewer
  remove_viewer-IsValid m c s u v = elim (Option-cases (get_publication m c s)) [
    | inl missing ↦ rw (missing, remove_viewer) v
    | inr (p, here) ↦
        rw (here, remove_viewer)
          (replace-IsValid m c s (record p { viewers = delete u p.viewers }) p here refl
            (λ i. record {
              in_channel = i.in_channel;
              under_stream = i.under_stream;
              distinct = delete-Distinct u p.viewers i.distinct;
              filed = delete-Entries IsFiled u p.viewers i.filed;
            })
            v)
  ]

  pub set_publisher_diagnostics-IsValid :
      (m : StreamRoomManager D) (c s n k : String) (d : D) (at : ℕ)
      → IsValid m
      → IsValid (set_publisher_diagnostics m c s n k d at).0
  unfolding set_publisher_diagnostics
  set_publisher_diagnostics-IsValid m c s n k d at v = elim (Option-cases (get_publication m c s)) [
    | inl missing ↦ rw (missing, set_publisher_diagnostics) v
    | inr (p, here) ↦ elim (Bool-cases (p.host.session_id == n && p.host.connection_id == k)) [
      | inl ours ↦
          rw (here, set_publisher_diagnostics, ours)
            (replace-IsValid m c s
              (record p {
                publisher_diagnostics = some (record { publisher = d; sampled_at = at });
              })
              p here refl
              (λ i. record {
                in_channel = i.in_channel;
                under_stream = i.under_stream;
                distinct = i.distinct;
                filed = i.filed;
              })
              v)
      | inr other ↦ rw (here, set_publisher_diagnostics, other) v
    ]
  ]

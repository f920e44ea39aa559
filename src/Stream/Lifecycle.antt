-- ===== src/Stream/Lifecycle.antt =====
-- What the methods do to the publications and viewers, read by channel, stream and user.
use baker_self_hosted_voice.Common.{
  String, Bool, true, false, not, ◌≡◌, ◌≢◌, ◌↔◌, refl, Option, none, some, [], ◌∷◌, arith,
  Option-cases, Bool-cases, inl, inr, ◌==◌, ◌&&◌, if◌then◌else◌,
}
use baker_self_hosted_voice.Common.StringMap.{get, set, delete, is_some, values}
use baker_self_hosted_voice.Common.StringMap.Laws.{get-set, get-delete}
use baker_self_hosted_voice.Common.Nested.{room_or_new, get_in-put_back}
use baker_self_hosted_voice.Stream.{
  StreamSourceType, StreamViewerRecord, StreamPublicationRecord, Room, StreamRoomManager,
  SignalMode, stream_publish, stream_watch, get_publication, get_viewer, first_hosted,
  find_hosted_publication_by_user, can_relay_signal, resolve_publication,
}
use baker_self_hosted_voice.Stream.Publish.{
  hosts, new_publication, start, stop, replace, with_viewer, add_viewer, remove_viewer,
}
use baker_self_hosted_voice.Stream.Invariant.{start_refused, start_accepted}

module _ {D : Type 0} where
  abbrev pub hosted_by : String → Option (StreamPublicationRecord D) → Bool
  hosted_by u none = false
  hosted_by u (some p) = p.host.user_id == u

  hosts-first_hosted :
      (u : String) (room : Room D) → is_some (first_hosted u (values room)) ≡ hosts u room
  unfolding hosts first_hosted
  hosts-first_hosted u [] = refl
  hosts-first_hosted u ((s, p) ∷ room) = ground (arith, hosts-first_hosted u room)

  room_or_new-get :
      (c t : String) (m : StreamRoomManager D)
      → get t (room_or_new (get c m.rooms)) ≡ get_publication m c t
  unfolding get
  room_or_new-get c t m = ground arith

  found-hosts :
      (m : StreamRoomManager D) (u c : String)
      → c ≢ ""
      → is_some (find_hosted_publication_by_user m u (some c))
        ≡ hosts u (room_or_new (get c m.rooms))
  unfolding hosts first_hosted
  found-hosts m u c named = elim (Option-cases (get c m.rooms)) [
    | inl missing ↦ ground arith
    | inr (room, found) ↦ ground (arith, hosts-first_hosted u room)
  ]

  -- In a channel whose id is not empty `start` publishes exactly where
  -- `find_hosted_publication_by_user` finds none of the user's in the channel; it sets that one
  -- publication, and refuses otherwise with no publication changed.
  pub start-get_publication :
      (m : StreamRoomManager D) (c s u k n : String) (source : StreamSourceType)
      → c ≢ ""
      → let free = not (is_some (find_hosted_publication_by_user m u (some c))) in
        let p = new_publication c s u k n source in
        ((start m c s u k n source).1 ≡ (if free then some p else none))
        × ((d t : String)
            → get_publication (start m c s u k n source).0 d t
              ≡ (if free && c == d && s == t then some p else get_publication m d t))
  start-get_publication m c s u k n source named =
      let room = room_or_new (get c m.rooms) in
      let p : StreamPublicationRecord D = new_publication c s u k n source in
      let e = found-hosts m u c named in
      elim (Bool-cases (hosts u room)) [
        | inl taken ↦ rw (start_refused m c s u k n source taken, e, taken) (refl, λ d t. refl)
        | inr free ↦
            rw (start_accepted m c s u k n source free, e, free)
              (
                refl,
                λ d t. ground (
                  arith,
                  get-set c d (set s p room) m.rooms,
                  get-set s t p room,
                  room_or_new-get c t m,
                ),
              )
      ]

  -- `stop` removes one publication if the user hosts it, and else changes nothing; it says which.
  stop-get_publication :
      (m : StreamRoomManager D) (c s u d t : String)
      → (get_publication (stop m c s u).0 d t
          ≡ (if is_some (stop m c s u).1 && c == d && s == t then none else get_publication m d t))
        × (is_some (stop m c s u).1 ≡ hosted_by u (get_publication m c s))
  unfolding stop
  stop-get_publication m c s u d t = elim (Option-cases (get c m.rooms)) [
    | inl missing ↦ ground arith
    | inr (room, found) ↦
        ground (arith, get_in-put_back c d t (delete s room) m.rooms, get-delete s t room)
  ]

  get_publication-replace :
      (m : StreamRoomManager D) (c s d t : String) (p q : StreamPublicationRecord D)
      → get_publication m c s ≡ some q
      → get_publication (replace m c s p) d t
        ≡ (if c == d && s == t then some p else get_publication m d t)
  unfolding get
  get_publication-replace m c s d t p q e = elim (Option-cases (get c m.rooms)) [
    | inl missing ↦ absurd (ground arith)
    | inr (room, found) ↦ ground (arith, get-set c d (set s p room) m.rooms, get-set s t p room)
  ]

  -- `add_viewer` admits a user to a publication that is there, unless the user watches already, and
  -- changes no other viewer; it fails exactly where the publication is not there.
  add_viewer-get_viewer :
      (m : StreamRoomManager D) (c s u k n d t w : String)
      → let new = is_some (get_publication m c s) && not (is_some (get_viewer m c s u)) in
        (get_viewer (add_viewer m c s u k n).0 d t w ≡ (
          if new && c == d && s == t && u == w
          then some (record { connection_id = k; session_id = n; user_id = u })
          else get_viewer m d t w))
        × (is_some (add_viewer m c s u k n).1 ≡ is_some (get_publication m c s))
  unfolding add_viewer
  add_viewer-get_viewer m c s u k n d t w = elim (Option-cases (get_publication m c s)) [
    | inl missing ↦ ground arith
    | inr (p, here) ↦
        let v : StreamViewerRecord = record { connection_id = k; session_id = n; user_id = u } in
        let moved = get_publication-replace m c s d t (with_viewer p u k n) p here in
        elim (Option-cases (get u p.viewers)) [
          | inl new ↦ ground (arith, moved, get-set u w v p.viewers)
          | inr (old, watching) ↦ ground arith
        ]
  ]

  -- `remove_viewer` takes one viewer out and says whether there was one.
  remove_viewer-get_viewer :
      (m : StreamRoomManager D) (c s u d t w : String)
      → (get_viewer (remove_viewer m c s u).0 d t w
          ≡ (if c == d && s == t && u == w then none else get_viewer m d t w))
        × ((remove_viewer m c s u).1 ≡ is_some (get_viewer m c s u))
  unfolding remove_viewer
  remove_viewer-get_viewer m c s u d t w = elim (Option-cases (get_publication m c s)) [
    | inl missing ↦ ground arith
    | inr (p, here) ↦
        let p' : StreamPublicationRecord D = record p { viewers = delete u p.viewers } in
        ground (arith, get_publication-replace m c s d t p' p here, get-delete u w p.viewers)
  ]

  -- What the relay of a stream signal asks for: a publication, the sender in its part with its own
  -- session, the target in the other part.
  abbrev pub Relays :
      StreamRoomManager D → String → String → SignalMode → (sender session target : String) → Type 0
  Relays m c s stream_publish sender session target =
      (p : StreamPublicationRecord D) × (get_publication m c s ≡ some p)
      × (p.host.user_id ≡ sender)
      × (p.host.session_id ≡ session)
      × (is_some (get_viewer m c s target) ≡ true)
  Relays m c s stream_watch sender session target =
      (v : StreamViewerRecord) × (get_viewer m c s sender ≡ some v)
      × (v.session_id ≡ session)
      × (hosted_by target (get_publication m c s) ≡ true)

  -- Under a stream id that is not empty a signal is relayed exactly between the host and a viewer,
  -- sent under the session that the sender holds there.
  pub can_relay_signal_iff :
      (m : StreamRoomManager D) (c s : String) (mode : SignalMode) (sender session target : String)
      → s ≢ ""
      → (can_relay_signal m c (some s) mode sender session target ≡ true)
        ↔ Relays m c s mode sender session target
  unfolding can_relay_signal resolve_publication
  can_relay_signal_iff m c s stream_publish sender session target named =
      elim (Option-cases (get_publication m c s)) [
        | inl missing ↦ (λ h. absurd (ground arith), λ h. ground arith)
        | inr (p, here) ↦
            (λ h. (p, here, ground arith, ground arith, ground arith), λ h. ground arith)
      ]
  can_relay_signal_iff m c s stream_watch sender session target named =
      elim (Option-cases (get_publication m c s)) [
        | inl missing ↦ (λ h. absurd (ground arith), λ h. ground arith)
        | inr (p, here) ↦ elim (Option-cases (get sender p.viewers)) [
          | inl absent ↦ (λ h. absurd (ground arith), λ h. ground arith)
          | inr (v, watching) ↦
              (λ h. (v, ground arith, ground arith, ground arith), λ h. ground arith)
        ]
      ]

  -- Once a viewer is removed from a stream whose id is not empty, no signal of that stream is
  -- relayed from or to that user as a viewer.
  can_relay_signal-remove_viewer :
      (m : StreamRoomManager D) (c s u session other : String)
      → s ≢ ""
      → let m' = (remove_viewer m c s u).0 in
        (can_relay_signal m' c (some s) stream_watch u session other ≡ false)
        × (can_relay_signal m' c (some s) stream_publish other session u ≡ false)
  unfolding can_relay_signal resolve_publication
  can_relay_signal-remove_viewer m c s u session other named =
      ground (arith, remove_viewer-get_viewer m c s u c s u)

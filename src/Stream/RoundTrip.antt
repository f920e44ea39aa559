-- ===== src/Stream/RoundTrip.antt =====
-- A publication that is started and stopped again, as `stream.start` does when it cannot be persisted.
use baker_self_hosted_voice.Common.{
  String, false, none, some, [], ◌∷◌, ◌≡◌, ◌∙◌, ap, arith, inl, inr, Option-cases,
}
use baker_self_hosted_voice.Common.StringMap.{get, set, delete, is_empty}
use baker_self_hosted_voice.Common.StringMap.Laws.{
  get-set_self, delete-set, delete_absent, set-set, set_same,
}
use baker_self_hosted_voice.Common.StringMap.Entries.{get-Entries}
use baker_self_hosted_voice.Common.Nested.{room_or_new, put_back}
use baker_self_hosted_voice.Stream.{
  StreamSourceType, StreamPublicationRecord, StreamRoomManager, get_publication,
}
use baker_self_hosted_voice.Stream.Publish.{Stopped, hosts, new_publication, start, stop}
use baker_self_hosted_voice.Stream.Invariant.{IsValid, start_accepted}

module _ {D : Type 0} where
  -- A room with one more publication, taken out again.
  stop_new :
      (m : StreamRoomManager D) (c s u k n : String) (source : StreamSourceType)
      → let p = new_publication c s u k n source in
        let room = room_or_new (get c m.rooms) in
        stop (record { rooms = set c (set s p room) m.rooms }) c s u ≡ (
          record { rooms = put_back c (delete s room) (set c (set s p room) m.rooms) },
          some (record { connection_ids = k ∷ []; session_id = n; stream_id = s }),
        )
  unfolding stop
  stop_new m c s u k n source =
      let p : StreamPublicationRecord D = new_publication c s u k n source in
      let room = room_or_new (get c m.rooms) in
      rw (get-set_self c (set s p room) m.rooms, stop, get-set_self s p room, delete-set s p room)
        (ground arith)

  put_back_room :
      (m : StreamRoomManager D) (c s : String) (p : StreamPublicationRecord D)
      → IsValid m
      → get_publication m c s ≡ none
      → let room = room_or_new (get c m.rooms) in
        put_back c (delete s room) (set c (set s p room) m.rooms) ≡ m.rooms
  unfolding delete
  put_back_room m c s p v fresh = elim (Option-cases (get c m.rooms)) [
    | inl missing ↦ rw missing (delete-set c (set s p []) m.rooms ∙ delete_absent c m.rooms missing)
    | inr (room, found) ↦
        let absent : get s room ≡ none = ground arith in
        let occupied =
          get-Entries (λ c room. is_empty room ≡ false) c room m.rooms found v.occupied in
        rw (found, delete_absent s room absent, occupied)
          (set-set c room (set s p room) m.rooms ∙ set_same c room m.rooms found)
  ]

  -- A stream that is started under a new id and stopped at once leaves the rooms exactly as they
  -- were, and the stop names the host's connection, the session and the stream. The rooms are valid and
  -- the user hosts nothing in the channel.
  pub stop-start :
      (m : StreamRoomManager D) (c s u k n : String) (source : StreamSourceType)
      → IsValid m
      → hosts u (room_or_new (get c m.rooms)) ≡ false
      → get_publication m c s ≡ none
      → stop (start m c s u k n source).0 c s u
        ≡ (m, some (record { connection_ids = k ∷ []; session_id = n; stream_id = s }))
  stop-start m c s u k n source v free fresh =
      let p : StreamPublicationRecord D = new_publication c s u k n source in
      let stopped : Stopped = record { connection_ids = k ∷ []; session_id = n; stream_id = s } in
      ap (λ r. stop r.0 c s u) (start_accepted m c s u k n source free)
      ∙ stop_new m c s u k n source
      ∙ ap (λ rooms. (record { rooms = rooms }, some stopped)) (put_back_room m c s p v fresh)

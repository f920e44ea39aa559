-- ===== src/Handlers/Refusals.antt =====
-- What a refused `stream.start` leaves.
use baker_self_hosted_voice.Common.{
  String, Bool, true, false, Option, none, some, ◌≡◌, refl, ◌∙◌, ap, arith, Bool-cases, inl, inr,
  Option-cases,
}
use baker_self_hosted_voice.Common.StringMap.{get}
use baker_self_hosted_voice.Common.Nested.{room_or_new}
use baker_self_hosted_voice.Connection.{GatewayConnection}
use baker_self_hosted_voice.Stream.{
  StreamSourceType, StreamPublicationRecord, StreamRoomManager, get_publication,
  find_hosted_publication_by_user,
}
use baker_self_hosted_voice.Stream.Publish
use baker_self_hosted_voice.Stream.Publish.{Stopped, Watching, hosts}
use baker_self_hosted_voice.Stream.Invariant.{
  IsValid as StreamIsValid, start_refused, start_accepted,
}
use baker_self_hosted_voice.Stream.RoundTrip.{stop-start}
use baker_self_hosted_voice.Router.{GatewayRuntime, Reply, refused}
use baker_self_hosted_voice.Handlers.{Environment}
use baker_self_hosted_voice.Handlers.Joining.{validate_voice_channel_access}
use baker_self_hosted_voice.Handlers.Streaming.{
  StreamStartCommandData, take_back, persist, answer_start, start_with, handle_stream_start,
}
use baker_self_hosted_voice.Handlers.Frames.{rooms_of}
use baker_self_hosted_voice.Handlers.StreamCommands.{tell_stopped-IsQuiet}

abbrev pub is_refused : Reply → Bool
is_refused (refused code) = true
is_refused _ = false

module _ {D : Type 0} where
  same_streams :
      (g : GatewayRuntime D) (m : StreamRoomManager D)
      → m ≡ g.stream_room
      → rooms_of (record g { stream_room = m }) ≡ rooms_of g
  same_streams g m e = rw e refl

module _ {D : Type 0} (env : Environment) where
  take_back-rooms :
      (c s u : String) (g h : GatewayRuntime D)
      → (Publish.stop h.stream_room c s u).0 ≡ g.stream_room
      → rooms_of (record h { stream_room = g.stream_room }) ≡ rooms_of g
      → rooms_of (take_back env c s u h).0 ≡ rooms_of g
  take_back-rooms c s u g h back same =
      let r = Publish.stop h.stream_room c s u in
      tell_stopped-IsQuiet env c r.1 (record h { stream_room = r.0 })
      ∙ ap (λ m. rooms_of (record h { stream_room = m })) back
      ∙ same

  persist-rooms :
      (c s u n : String) (b : Bool) (g h : GatewayRuntime D)
      → (Publish.stop h.stream_room c s u).0 ≡ g.stream_room
      → rooms_of (record h { stream_room = g.stream_room }) ≡ rooms_of g
      → is_refused (persist env c s u n b h).1 ≡ true
      → rooms_of (persist env c s u n b h).0 ≡ rooms_of g
  persist-rooms c s u n true g h back same turned = absurd (ground arith)
  persist-rooms c s u n false g h back same turned = take_back-rooms c s u g h back same

  answer_start-rooms :
      (c s u n : String) (o : Option (StreamPublicationRecord D)) (g : GatewayRuntime D)
      (m : StreamRoomManager D)
      → (o ≡ none → m ≡ g.stream_room)
      → ((p : StreamPublicationRecord D) → o ≡ some p → (Publish.stop m c s u).0 ≡ g.stream_room)
      → is_refused (answer_start env c s u n o (record g { stream_room = m })).1 ≡ true
      → rooms_of (answer_start env c s u n o (record g { stream_room = m })).0 ≡ rooms_of g
  answer_start-rooms c s u n none g m same back turned = same_streams g m (same refl)
  answer_start-rooms c s u n (some p) g m same back turned =
      persist-rooms c s u n (env.persists n) g (record g { stream_room = m }) (back p refl) refl
        turned

  start-none :
      (m : StreamRoomManager D) (c s u k n : String) (source : StreamSourceType)
      → (Publish.start m c s u k n source).1 ≡ none
      → (Publish.start m c s u k n source).0 ≡ m
  start-none m c s u k n source e = elim (Bool-cases (hosts u (room_or_new (get c m.rooms)))) [
    | inl taken ↦ ap (λ r. r.0) (start_refused m c s u k n source taken)
    | inr free ↦ absurd (ground (arith, ap (λ r. r.1) (start_accepted m c s u k n source free)))
  ]

  stop-started :
      (m : StreamRoomManager D) (c s u k n : String) (source : StreamSourceType)
      (p : StreamPublicationRecord D)
      → StreamIsValid m
      → get_publication m c s ≡ none
      → (Publish.start m c s u k n source).1 ≡ some p
      → (Publish.stop (Publish.start m c s u k n source).0 c s u).0 ≡ m
  stop-started m c s u k n source p v fresh e =
      elim (Bool-cases (hosts u (room_or_new (get c m.rooms)))) [
        | inl taken ↦
            absurd (ground (arith, ap (λ r. r.1) (start_refused m c s u k n source taken)))
        | inr free ↦ ap (λ r. r.0) (stop-start m c s u k n source v free fresh)
      ]

  start_with-rooms :
      (connection : GatewayConnection) (u s : String) (d : StreamStartCommandData)
      (o : Option String) (g : GatewayRuntime D)
      → StreamIsValid g.stream_room
      → get_publication g.stream_room d.channel_id s ≡ none
      → is_refused (start_with env connection u s d o g).1 ≡ true
      → rooms_of (start_with env connection u s d o g).0 ≡ rooms_of g
  start_with-rooms connection u s d none g v fresh turned = refl
  start_with-rooms connection u s d (some n) g v fresh turned =
      let m = g.stream_room in
      let r = Publish.start m d.channel_id s u connection.id n d.source_type in
      answer_start-rooms d.channel_id s u n r.1 g r.0
        (start-none m d.channel_id s u connection.id n d.source_type)
        (λ p. stop-started m d.channel_id s u connection.id n d.source_type p v fresh) turned

  -- A refused `stream.start` leaves all rooms exactly as they were, also where the stream was started
  -- and could not be persisted. The stream rooms are valid, and the new stream's id is new in the
  -- channel.
  pub handle_stream_start-spares :
      (connection : GatewayConnection) (u s r : String) (d : StreamStartCommandData)
      (g : GatewayRuntime D)
      → StreamIsValid g.stream_room
      → get_publication g.stream_room d.channel_id s ≡ none
      → is_refused (handle_stream_start env connection u s r (some d) g).1 ≡ true
      → rooms_of (handle_stream_start env connection u s r (some d) g).0 ≡ rooms_of g
  unfolding handle_stream_start
  handle_stream_start-spares connection u s r d g v fresh turned =
      elim (Option-cases (validate_voice_channel_access env.database d.channel_id u)) [
        | inr (code, denied) ↦ rw (denied, handle_stream_start) refl
        | inl allowed ↦
            elim (Option-cases
              (find_hosted_publication_by_user g.stream_room u (some d.channel_id))) [
                | inr (p, hosting) ↦ rw (allowed, hosting, handle_stream_start) refl
                | inl free ↦
                    rw (allowed, free, handle_stream_start)
                      (start_with-rooms connection u s d _ g v fresh
                        (rw (allowed, free, handle_stream_start) at turned))
              ]
      ]

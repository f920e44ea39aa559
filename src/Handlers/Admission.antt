-- ===== src/Handlers/Admission.antt =====
-- Who is let in: authentication, the guard of the dispatcher, and the access that a closed connection
-- leaves.
use baker_self_hosted_voice.Common.{
  String, Bool, true, false, Option, none, some, List, [], ◌∷◌, ◌≡◌, ◌≢◌, ◌↔◌, ◌⊎◌, refl, ◌∙◌, ap,
  arith, Bool-cases, inl, inr, truthy, Option-cases,
}
use baker_self_hosted_voice.Connection.{GatewayConnection}
use baker_self_hosted_voice.Stream
use baker_self_hosted_voice.Stream.{
  StreamPublicationRecord, resolve_publication, the_only, get_publications,
}
use baker_self_hosted_voice.Router.{
  GatewayRuntime, MediaSessionDescriptor, SessionMode, music_listen, music_publish, stream_publish,
  stream_watch, voice, Reply, authenticated, refused, unauthorized, invalid_payload,
}
use baker_self_hosted_voice.Router.Access.{
  participant_holds, viewer_holds, listener_holds, music_host_holds, music_listener_in,
  stream_host_holds, holds_publication, holds_given, holds_session, validate_media_session_access,
}
use baker_self_hosted_voice.Voice.{get_participant}
use baker_self_hosted_voice.Music
use baker_self_hosted_voice.Router.Sessions.{
  after_departures, validate_media_session_access-after_departures,
}
use baker_self_hosted_voice.Handlers.{
  Environment, socket_closed, AuthSession, TokenResult, claims, expired, invalid,
}
use baker_self_hosted_voice.Handlers.Leaving.{disconnect}
use baker_self_hosted_voice.Handlers.Streaming.{resolve_target_publication}
use baker_self_hosted_voice.Handlers.Sessions.{is_active, authenticate_with, handle_authenticate}
use baker_self_hosted_voice.Handlers.Dispatch.{
  Command, Message, pong, answered, malformed, ping, system_authenticate, command,
  route_gateway_message,
}
use baker_self_hosted_voice.Handlers.Frames.{rooms_of}
use baker_self_hosted_voice.Handlers.Departing.{disconnect-disconnected}
use baker_self_hosted_voice.Handlers.Soundness.{IsSound}

abbrev pub is_authenticated : Reply → Bool
is_authenticated (authenticated k u) = true
is_authenticated _ = false

-- A token of an active session of this user.
abbrev pub Admits : Environment → (access_token user_id : String) → Type 0
Admits env token u =
    (n : String) × (s : AuthSession) × (env.accounts.token_verifier token ≡ claims n u)
    × (env.accounts.find_session n ≡ some s)
    × (s.revoked ≡ false)
    × (s.user_id ≡ u)

is_active_iff :
    (o : Option AuthSession) (u : String)
    → (is_active o u ≡ true)
      ↔ ((s : AuthSession) × (o ≡ some s) × (s.revoked ≡ false) × (s.user_id ≡ u))
is_active_iff none u = (λ h. absurd (ground arith), λ h. absurd (ground arith))
is_active_iff (some s) u = (λ h. (s, refl, ground arith, ground arith), λ h. ground arith)

module _ {D : Type 0} (env : Environment) (connection : GatewayConnection)
    (g : GatewayRuntime D) where
  authenticate_with_iff :
      (r : TokenResult) (u : String)
      → ((authenticate_with env connection r g).1 ≡ authenticated connection.id u)
        ↔ ((n : String) × (r ≡ claims n u) × (is_active (env.accounts.find_session n) u ≡ true))
  authenticate_with_iff expired u = (λ h. absurd (ground arith), λ h. absurd (ground arith))
  authenticate_with_iff invalid u = (λ h. absurd (ground arith), λ h. absurd (ground arith))
  authenticate_with_iff (claims m v) u =
      elim (Bool-cases (is_active (env.accounts.find_session m) v)) [
        | inl active ↦ (λ h. (m, ground arith, ground arith), λ h. ground arith)
        | inr inactive ↦ (λ h. absurd (ground arith), λ h. absurd (ground arith))
      ]

  -- A connection is told that it is authenticated as a user exactly if the token is genuine, names an
  -- auth session that exists and is not revoked, and both the token and that session name the user.
  pub handle_authenticate_iff :
      (token u : String)
      → ((handle_authenticate env connection (some token) g).1 ≡ authenticated connection.id u)
        ↔ Admits env token u
  unfolding handle_authenticate
  handle_authenticate_iff token u =
      let (there, back) = authenticate_with_iff (env.accounts.token_verifier token) u in
      (
        λ h.
            let (n, e, active) = there h in
            let (s, found, live, own) = (is_active_iff (env.accounts.find_session n) u).0 active in
            (n, s, e, found, live, own),
        λ (n, s, e, found, live, own).
            back (n, e, (is_active_iff (env.accounts.find_session n) u).1 (s, found, live, own)),
      )

  authenticate_with_or :
      (r : TokenResult)
      → (is_authenticated (authenticate_with env connection r g).1 ≡ true)
        ⊎ (((authenticate_with env connection r g).0 ≡ g)
            × ((authenticate_with env connection r g).2 ≡ socket_closed connection.id ∷ []))
  authenticate_with_or expired = inr (refl, refl)
  authenticate_with_or invalid = inr (refl, refl)
  authenticate_with_or (claims n u) =
      elim (Bool-cases (is_active (env.accounts.find_session n) u)) [
        | inl active ↦ inl (ground arith)
        | inr inactive ↦ inr (rw inactive (refl, refl))
      ]

  -- A token that does not authenticate changes nothing in the runtime, and the connection's socket is
  -- closed.
  pub handle_authenticate_or :
      (token : String)
      → let r = handle_authenticate env connection (some token) g in
        (is_authenticated r.1 ≡ true) ⊎ ((r.0 ≡ g) × (r.2 ≡ socket_closed connection.id ∷ []))
  unfolding handle_authenticate
  handle_authenticate_or token = authenticate_with_or (env.accounts.token_verifier token)

  -- Without a user, no message but one that authenticates changes the runtime or sends anything: a
  -- command is refused and its socket is closed, whatever it is, a ping is answered, and what is no
  -- message is refused, both of which leave the socket open.
  pub route_gateway_message_anonymous :
      (n s : String) (message : Message D)
      → truthy connection.user_id ≡ none
      → let r = route_gateway_message env n s connection message g in
        ((token : Option String) × (message ≡ system_authenticate token))
        ⊎ ((r.0 ≡ g)
            × (((cmd : Command D) × (message ≡ command cmd)
                  × (r.1 ≡ answered (refused unauthorized))
                  × (r.2 ≡ socket_closed connection.id ∷ []))
                ⊎ (((message ≡ ping) × (r.1 ≡ pong) × (r.2 ≡ []))
                    ⊎ ((message ≡ malformed)
                        × (r.1 ≡ answered (refused invalid_payload))
                        × (r.2 ≡ [])))))
  unfolding route_gateway_message
  route_gateway_message_anonymous n s malformed anonymous = inr (refl, inr (inr (refl, refl, refl)))
  route_gateway_message_anonymous n s ping anonymous = inr (refl, inr (inl (refl, refl, refl)))
  route_gateway_message_anonymous n s (system_authenticate token) anonymous = inl (token, refl)
  route_gateway_message_anonymous n s (command cmd) anonymous =
      inr (rw anonymous (refl, inl (cmd, refl, refl, refl)))

-- The access to a media session hangs on the rooms alone.
module _ {D : Type 0} where
  holds_publication-rooms :
      (g h : GatewayRuntime D) (mode : SessionMode) (c s u k n : String)
      → rooms_of g ≡ rooms_of h
      → holds_publication g mode c s u k n ≡ holds_publication h mode c s u k n
  holds_publication-rooms g h voice c s u k n e = refl
  holds_publication-rooms g h music_publish c s u k n e =
      ap (λ r. music_host_holds (Music.get_publication r.music_room c s) u k n) e
  holds_publication-rooms g h music_listen c s u k n e =
      ap (λ r. listener_holds (music_listener_in (Music.get_publication r.music_room c s) u) k n) e
  holds_publication-rooms g h stream_publish c s u k n e =
      ap (λ r. stream_host_holds (Stream.get_publication r.stream_room c s) u k n) e
  holds_publication-rooms g h stream_watch c s u k n e =
      ap (λ r. viewer_holds (Stream.viewer_in (Stream.get_publication r.stream_room c s) u) k n) e

  holds_given-rooms :
      (g h : GatewayRuntime D) (mode : SessionMode) (c : String) (o : Option String)
      (u k n : String)
      → rooms_of g ≡ rooms_of h
      → holds_given g mode c o u k n ≡ holds_given h mode c o u k n
  holds_given-rooms g h mode c none u k n e = refl
  holds_given-rooms g h mode c (some s) u k n e = holds_publication-rooms g h mode c s u k n e

  holds_session-rooms :
      (g h : GatewayRuntime D) (connection : GatewayConnection) (u : String) (mode : SessionMode)
      (d : MediaSessionDescriptor)
      → rooms_of g ≡ rooms_of h
      → holds_session g connection u mode d ≡ holds_session h connection u mode d
  holds_session-rooms g h connection u voice d e =
      ap
        (λ r.
          participant_holds (get_participant r.voice_room d.channel_id u) connection.id
            d.session_id)
        e
  holds_session-rooms g h connection u music_publish d e =
      holds_given-rooms g h music_publish d.channel_id (truthy d.stream_id) u connection.id
        d.session_id e
  holds_session-rooms g h connection u music_listen d e =
      holds_given-rooms g h music_listen d.channel_id (truthy d.stream_id) u connection.id
        d.session_id e
  holds_session-rooms g h connection u stream_publish d e =
      holds_given-rooms g h stream_publish d.channel_id (truthy d.stream_id) u connection.id
        d.session_id e
  holds_session-rooms g h connection u stream_watch d e =
      holds_given-rooms g h stream_watch d.channel_id (truthy d.stream_id) u connection.id
        d.session_id e

  -- Once its socket is closed, a connection is given access to no media session of its user, of any
  -- mode, whatever it held before. Its id and its user's are not empty, and the rooms are sound, as
  -- they are in every history of the gateway.
  pub validate_media_session_access-disconnect :
      (env : Environment) (connection : GatewayConnection) (u : String) (g : GatewayRuntime D)
      (d : MediaSessionDescriptor)
      → truthy connection.user_id ≡ some u
      → connection.id ≢ ""
      → IsSound (rooms_of g)
      → validate_media_session_access (disconnect env connection g).0 connection u d ≡ false
  unfolding validate_media_session_access
  validate_media_session_access-disconnect env connection u g d named known v =
      let h = after_departures g u connection.id in
      holds_session-rooms (disconnect env connection g).0 h connection u d.mode d
        (disconnect-disconnected env connection u g named)
      ∙ validate_media_session_access-after_departures g u connection.id known v.voices.distinct
          v.streams v.musics connection d refl

  the_only-cases :
      (ps : List (StreamPublicationRecord D))
      → elim ps [ [] ↦ none | p ∷ qs ↦ elim qs [ [] ↦ some p | q ∷ rs ↦ none ] ] ≡ the_only ps
  the_only-cases [] = refl
  the_only-cases (p ∷ []) = refl
  the_only-cases (p ∷ q ∷ ps) = refl

  -- The router's search for the publication that a command means finds what the stream rooms' own
  -- search finds, for every channel and id.
  pub resolve_target_publication-resolve_publication :
      (g : GatewayRuntime D) (c : String) (s : Option String)
      → resolve_target_publication g c s ≡ resolve_publication g.stream_room c s
  unfolding resolve_target_publication resolve_publication
  resolve_target_publication-resolve_publication g c s = elim (Option-cases (truthy s)) [
    | inl unnamed ↦
        rw (unnamed, resolve_target_publication, resolve_publication)
          (the_only-cases (get_publications g.stream_room c))
    | inr (t, named) ↦ rw (named, resolve_target_publication, resolve_publication) refl
  ]

-- ===== src/Handlers/Tests.antt =====
-- Runs of the handlers, and their theorems at concrete inputs.
use baker_self_hosted_voice.Common.{
  ℕ, String, true, false, Option, none, some, List, [], ◌∷◌, ◌≡◌, ◌≢◌, ◌⊎◌, ◌↔◌, refl, arith, All,
  truthy, if◌then◌else◌, ◌==◌, ◌&&◌, not, leb, length, str_dec, Differ, ne_of_test,
}
use baker_self_hosted_voice.Common.StringMap.{get, set, delete, is_some}
use baker_self_hosted_voice.Connection.{GatewayConnection, ConnectionManager}
use baker_self_hosted_voice.Connection.Registry.{is_the, new_connection, authenticate, no_samples}
use baker_self_hosted_voice.Connection.Index.{user_of}
use baker_self_hosted_voice.Voice
use baker_self_hosted_voice.Voice.{
  VoiceRoomManager, get_participant, get_channel_for_user, channel_of,
}
use baker_self_hosted_voice.Voice.Slots.{slot, newcomer}
use baker_self_hosted_voice.Stream
use baker_self_hosted_voice.Music
use baker_self_hosted_voice.Stream.{screen, resolve_publication, first_hosted}
use baker_self_hosted_voice.Stream.Publish.{hosts, start, stop}
use baker_self_hosted_voice.Stream.Invariant.{IsValid as StreamIsValid, start-IsValid}
use baker_self_hosted_voice.Stream.Leave.{leave_channel_for_user}
use baker_self_hosted_voice.Music.Leave as MusicLeave
use baker_self_hosted_voice.Router.{
  GatewayRuntime, p2p, sfu, voice, authenticated, MediaSessionDescriptor, voice_channel, refused,
  unauthorized, invalid_payload,
}
use baker_self_hosted_voice.Router.Access.{validate_media_session_access}
use baker_self_hosted_voice.Router.Broadcasts.{producer_added, SfuProducer, music}
use baker_self_hosted_voice.Handlers.{
  Environment, socket_closed, claims, send_others, tell, ◌⨾◌, set_voice_channel, close_if_sfu,
}
use baker_self_hosted_voice.Handlers.Leaving.{
  leave_streams, leave_musics, handle_voice_leave, disconnect, apply_media_mode,
}
use baker_self_hosted_voice.Handlers.Joining.{
  validate_voice_channel_access, join_begin, join_finish, handle_voice_join,
}
use baker_self_hosted_voice.Handlers.Streaming.{
  resolve_target_publication, StreamStartCommandData, handle_stream_start,
}
use baker_self_hosted_voice.Handlers.Sessions.{handle_authenticate}
use baker_self_hosted_voice.Handlers.Dispatch.{
  Message, Command, command, answered, ping, pong, malformed, voice_join, system_authenticate,
  route_gateway_message,
}
use baker_self_hosted_voice.Handlers.Heartbeat.{fresh, ticks}
use baker_self_hosted_voice.Handlers.Frames.{rooms_of}
use baker_self_hosted_voice.Handlers.Departing.{disconnected, disconnect-disconnected}
use baker_self_hosted_voice.Handlers.Soundness.{IsSound}
use baker_self_hosted_voice.Handlers.ModeChange.{apply_media_mode-empties}
use baker_self_hosted_voice.Handlers.Histories.{
  GatewayEvent, attaches, routes, closes, started, gateway_run, gateway_history-IsSound,
}
use baker_self_hosted_voice.Handlers.Liveness.{ticks-terminated}
use baker_self_hosted_voice.Handlers.Admission.{
  is_authenticated, Admits, handle_authenticate_iff, handle_authenticate_or,
  route_gateway_message_anonymous, validate_media_session_access-disconnect,
  resolve_target_publication-resolve_publication,
}
use baker_self_hosted_voice.Handlers.Interleaving.{
  is_joined, IsSole, IsOwned, join_finish-interleaved, handle_voice_join-sole,
}
use baker_self_hosted_voice.Handlers.Refusals.{is_refused, handle_stream_start-spares}
use baker_self_hosted_voice.Handlers.VoiceLeave.{
  handle_voice_leave-leaves, is_left, without_viewer, without_listener,
}
use baker_self_hosted_voice.Handlers.Producers.{send_others-letters, others}
use baker_self_hosted_voice.Common.StringSet
use baker_self_hosted_voice.Connection.Sequence.{letters, spent}

-- Voice channels of one guild, tokens of Ann, a media service that answers, a database that persists
-- no stream.
abbrev world : Environment
world = record {
  accepts = λ socket. true;
  to_iso_string = λ ms. "now";
  now_ms = 1000;
  database = record {
    find_channel = λ channel. some (record { guild_id = "guild"; channel_type = voice_channel });
    is_member = λ guild user. true;
  };
  media = record {
    create_session = λ request. some "fresh";
    close_session = λ s. none;
    produce = λ d. none;
    operate = λ op d. true;
  };
  accounts = record {
    token_verifier = λ token. claims "login" "ann";
    find_session = λ n. some (record { revoked = false; user_id = "ann" });
    username_of = λ user. some user;
    guild_ids_of = λ user. "guild" ∷ [];
    channels_of = λ guild user. [];
  };
  persists = λ n. false;
}

abbrev ann : GatewayConnection
ann = authenticate (new_connection "c1" 1 none []) "ann" "s1" none []

abbrev ann_again : GatewayConnection
ann_again = authenticate (new_connection "c2" 2 none []) "ann" "s2" none []

abbrev guest : GatewayConnection
guest = new_connection "c3" 3 none []

abbrev conns : ConnectionManager
conns = record {
  connections = ("c1", ann) ∷ ("c2", ann_again) ∷ ("c3", guest) ∷ [];
  connection_quality = ("c3", no_samples) ∷ [];
  user_to_connection_id = ("ann", "c2") ∷ [];
}

-- Nobody in a room.
abbrev quiet : GatewayRuntime ℕ
quiet = record {
  connections = conns;
  voice_room = record { rooms = [] };
  stream_room = record { rooms = [] };
  music_room = record { rooms = [] };
  media_mode = p2p;
}

abbrev attic : VoiceRoomManager
attic = record { rooms = ("attic", ("ann", newcomer "ann" "c1" "v1") ∷ []) ∷ [] }

-- Ann in the attic.
abbrev gateway : GatewayRuntime ℕ
gateway = record quiet { voice_room = attic }

runs : Unit {0}
unfolding get set delete str_dec Voice.join Voice.leave get_participant tell ◌⨾◌ set_voice_channel
    close_if_sfu validate_voice_channel_access join_begin join_finish handle_voice_join
    handle_voice_leave leave_streams leave_musics first_hosted hosts start stop handle_stream_start
runs = tt

gateway-IsSound : IsSound (rooms_of gateway)
unfolding get
gateway-IsSound = record {
  voices = record {
    distinct = (refl, tt);
    rooms_valid = (record { occupied = refl; distinct = (refl, tt); filed = (refl, tt) }, tt);
  };
  streams = record { distinct = tt; occupied = tt; valid = tt };
  musics = record { distinct = tt; occupied = tt; valid = tt };
}

abbrev arrivals : List (Environment × GatewayEvent ℕ)
arrivals =
    (world, attaches 1 none [] 5)
    ∷ (world, routes "r1" "r2" guest (system_authenticate (some "token")))
    ∷ (world, routes "r3" "r4" ann (command (voice_join (some "hall"))))
    ∷ (world, closes ann)
    ∷ []

gateway_history-IsSound_example :
    IsSound (rooms_of (gateway_run (λ now n. "c1") (started p2p) arrivals))
gateway_history-IsSound_example = gateway_history-IsSound (λ now n. "c1") p2p arrivals

-- The token is Ann's, and the session of it is active.
ann-Admits : Admits world "token" "ann"
ann-Admits = ("login", record { revoked = false; user_id = "ann" }, refl, refl, refl, refl)

handle_authenticate_iff_example :
    ((handle_authenticate world guest (some "token") gateway).1 ≡ authenticated "c3" "ann")
    ↔ Admits world "token" "ann"
handle_authenticate_iff_example = handle_authenticate_iff world guest gateway "token" "ann"

-- With a session that has been revoked.
abbrev strict : Environment
strict = record world {
  accounts = record (world.accounts) {
    find_session = λ n. some (record { revoked = true; user_id = "ann" });
  };
}

handle_authenticate_or_example :
    let r = handle_authenticate strict guest (some "token") gateway in
    (is_authenticated r.1 ≡ true) ⊎ ((r.0 ≡ gateway) × (r.2 ≡ socket_closed "c3" ∷ []))
handle_authenticate_or_example = handle_authenticate_or strict guest gateway "token"

abbrev join_hall : Message ℕ
join_hall = command (voice_join (some "hall"))

route_gateway_message_anonymous_example :
    let r = route_gateway_message world "r1" "r2" guest join_hall gateway in
    ((token : Option String) × (join_hall ≡ system_authenticate token))
    ⊎ ((r.0 ≡ gateway)
        × (((cmd : Command ℕ) × (join_hall ≡ command cmd)
              × (r.1 ≡ answered (refused unauthorized))
              × (r.2 ≡ socket_closed "c3" ∷ []))
            ⊎ (((join_hall ≡ ping) × (r.1 ≡ pong) × (r.2 ≡ []))
                ⊎ ((join_hall ≡ malformed)
                    × (r.1 ≡ answered (refused invalid_payload))
                    × (r.2 ≡ [])))))
route_gateway_message_anonymous_example =
    route_gateway_message_anonymous world guest gateway "r1" "r2" join_hall refl

abbrev ann_in_attic : MediaSessionDescriptor
ann_in_attic = record {
  channel_id = "attic";
  mode = voice;
  session_id = "v1";
  stream_id = none;
  user_id = "ann";
}

ann_is_ann : truthy ann.user_id ≡ some "ann"
unfolding str_dec
ann_is_ann = refl

c1_is_named : Differ "c1" ""
unfolding str_dec
c1_is_named = ne_of_test "c1" "" refl

validate_media_session_access-disconnect_example :
    validate_media_session_access (disconnect world ann gateway).0 ann "ann" ann_in_attic ≡ false
validate_media_session_access-disconnect_example =
    validate_media_session_access-disconnect world ann "ann" gateway ann_in_attic ann_is_ann
      c1_is_named gateway-IsSound

disconnect-disconnected_example :
    rooms_of (disconnect world ann gateway).0 ≡ disconnected "ann" "c1" (rooms_of gateway)
disconnect-disconnected_example = disconnect-disconnected world ann "ann" gateway ann_is_ann

attic_is_left : (Voice.leave attic "attic" "ann").1 ≡ some []
unfolding Voice.leave get delete str_dec
attic_is_left = refl

-- Ann shares the screen in the attic.
abbrev sharing : GatewayRuntime ℕ
sharing = record gateway {
  stream_room = (start gateway.stream_room "attic" "st1" "ann" "c1" "n1" screen).0;
}

sharing-IsValid : StreamIsValid sharing.stream_room
sharing-IsValid =
    start-IsValid gateway.stream_room "attic" "st1" "ann" "c1" "n1" screen gateway-IsSound.streams

handle_voice_leave-leaves_example :
    let r = handle_voice_leave world ann "ann" (some "attic") sharing in
    let left = is_some (get "attic" sharing.voice_room.rooms) in
    (is_left r.1 ≡ left)
    × ((d v : String)
        → slot r.0.voice_room d v
          ≡ (if ("attic" == d) && ("ann" == v) then none else slot sharing.voice_room d v))
    × ((d s : String)
        → Stream.get_publication r.0.stream_room d s ≡ (
            if left && ("attic" == d)
            then without_viewer "ann" (Stream.get_publication sharing.stream_room d s)
            else Stream.get_publication sharing.stream_room d s))
    × ((d s : String)
        → Music.get_publication r.0.music_room d s ≡ (
            if left && ("attic" == d)
            then without_listener "ann" (Music.get_publication sharing.music_room d s)
            else Music.get_publication sharing.music_room d s))
    × (r.0.media_mode ≡ sharing.media_mode)
handle_voice_leave-leaves_example =
    handle_voice_leave-leaves world ann "ann" "attic" sharing sharing-IsValid gateway-IsSound.musics

apply_media_mode-empties_example : rooms_of (apply_media_mode world sfu gateway).0 ≡ record {
  voice_room = record { rooms = [] };
  stream_room = record { rooms = [] };
  music_room = record { rooms = [] };
  media_mode = sfu;
}
apply_media_mode-empties_example = apply_media_mode-empties world sfu gateway refl

abbrev half_a_minute : List ℕ
half_a_minute = 5000 ∷ 10000 ∷ 15000 ∷ 20000 ∷ 25000 ∷ 30000 ∷ 35000 ∷ []

ticks-terminated_example :
    (ticks world "c3" half_a_minute fresh gateway).0.terminated ≡ leb 7 (length half_a_minute)
unfolding get str_dec
ticks-terminated_example = ticks-terminated world "c3" half_a_minute gateway refl

hall_is_open : validate_voice_channel_access world.database "hall" "ann" ≡ none
unfolding validate_voice_channel_access
hall_is_open = refl

attic_is_open : validate_voice_channel_access world.database "attic" "ann" ≡ none
unfolding validate_voice_channel_access
attic_is_open = refl

nobody_is_in : get_channel_for_user quiet.voice_room "ann" ≡ none
unfolding channel_of
nobody_is_in = refl

hall_is_not_attic : Differ "hall" "attic"
unfolding str_dec
hall_is_not_attic = ne_of_test "hall" "attic" refl

join_finish-interleaved_example :
    let first = join_begin world ann "ann" "hall" quiet in
    let second = join_begin world ann_again "ann" "attic" first.0 in
    let third = join_finish world ann "ann" "hall" (some "v1") second.0 in
    let fourth = join_finish world ann_again "ann" "attic" (some "v2") third.0 in
    (first.1 ≡ none)
    × (second.1 ≡ none)
    × (slot fourth.0.voice_room "hall" "ann" ≡ some (newcomer "ann" "c1" "v1"))
    × (slot fourth.0.voice_room "attic" "ann" ≡ some (newcomer "ann" "c2" "v2"))
join_finish-interleaved_example =
    join_finish-interleaved world ann ann_again "ann" "hall" "attic" "v1" "v2" quiet hall_is_open
      attic_is_open nobody_is_in hall_is_not_attic

attic_is_named : Differ "attic" ""
unfolding str_dec
attic_is_named = ne_of_test "attic" "" refl

ann-IsSole : IsSole attic "ann"
unfolding get channel_of
ann-IsSole c h = ground (arith, attic_is_named)

ann-IsOwned : IsOwned conns attic "ann"
unfolding get
ann-IsOwned c p conn in_room known = ground arith

join_succeeds :
    is_joined (handle_voice_join world ann_again "ann" "r" (some "hall") gateway).1 ≡ true
unfolding runs channel_of leave_channel_for_user MusicLeave.leave_channel_for_user
join_succeeds = refl

handle_voice_join-sole_example :
    (n : String) × ((d v : String)
      → slot (handle_voice_join world ann_again "ann" "r" (some "hall") gateway).0.voice_room d v
        ≡ (if "ann" == v
            then (if "hall" == d then some (newcomer "ann" "c2" n) else none)
            else slot attic d v))
unfolding get
handle_voice_join-sole_example =
    handle_voice_join-sole world ann_again "ann" "hall" "r" gateway refl (refl, tt) ann-IsSole
      ann-IsOwned join_succeeds

abbrev screen_in_attic : StreamStartCommandData
screen_in_attic = record { channel_id = "attic"; source_type = screen }

-- The stream is started, and taken back.
start_is_refused :
    is_refused (handle_stream_start world ann "ann" "stream" "r" (some screen_in_attic) gateway).1
    ≡ true
unfolding runs
start_is_refused = refl

handle_stream_start-spares_example :
    rooms_of (handle_stream_start world ann "ann" "stream" "r" (some screen_in_attic) gateway).0
    ≡ rooms_of gateway
unfolding get
handle_stream_start-spares_example =
    handle_stream_start-spares world ann "ann" "stream" "r" screen_in_attic gateway
      (record { distinct = tt; occupied = tt; valid = tt }) refl start_is_refused

abbrev tune : SfuProducer
tune = record {
  channel_id = "attic";
  id = "p1";
  session_id = "m1";
  source = music;
  stream_id = none;
  user_id = "ann";
}

two_differ : StringSet.Distinct ("c1" ∷ "c3" ∷ [])
unfolding StringSet.has str_dec
two_differ = (refl, (refl, tt))

send_others-letters_example :
    let event = producer_added tune in
    let r = send_others (λ socket. true) "ann" event ("c1" ∷ "c3" ∷ []) conns in
    (r.1 ≡ letters (λ socket. true) event conns (others conns "ann" ("c1" ∷ "c3" ∷ [])))
    × ((d : String)
        → get d r.0.connections
          ≡ spent
              (StringSet.has d ("c1" ∷ "c3" ∷ [])
                && not (is_the (user_of (get d conns.connections)) "ann"))
              (get d conns.connections))
    × All (λ e. (user_of (get e.to conns.connections) ≢ some "ann") × (e.event ≡ event)) r.1
send_others-letters_example =
    send_others-letters (λ socket. true) "ann" (producer_added tune) ("c1" ∷ "c3" ∷ []) conns
      two_differ

resolve_target_publication-resolve_publication_example :
    resolve_target_publication gateway "attic" none
    ≡ resolve_publication gateway.stream_room "attic" none
resolve_target_publication-resolve_publication_example =
    resolve_target_publication-resolve_publication gateway "attic" none

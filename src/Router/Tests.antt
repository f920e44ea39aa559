-- ===== src/Router/Tests.antt =====
-- Runs of the command handlers, and their theorems at concrete inputs.
use baker_self_hosted_voice.Common.{
  ℕ, String, true, false, ◌≡◌, ◌↔◌, ◌⊎◌, refl, none, some, [], ◌∷◌, All, ◌==◌, ◌&&◌, if◌then◌else◌,
  not, str_dec, ne_of_test, Differ, arith,
}
use baker_self_hosted_voice.Common.StringMap.{get, set, delete, is_some}
use baker_self_hosted_voice.Common.StringMap.Entries.{Distinct}
use baker_self_hosted_voice.Common.StringSet
use baker_self_hosted_voice.Connection.{GatewayConnection, ConnectionManager}
use baker_self_hosted_voice.Connection.Registry.{new_connection, authenticate, find_by_user_id}
use baker_self_hosted_voice.Connection.Delivery.{send_to, send_all}
use baker_self_hosted_voice.Connection.Index.{IsIndexed, user_of}
use baker_self_hosted_voice.Voice.{
  VoiceParticipantRecord, set_muted, get_participant, get_participants,
}
use baker_self_hosted_voice.Voice.Slots.{newcomer, slot, muted}
use baker_self_hosted_voice.Voice.Broadcast.{
  connection_ids, broadcast_speaking_updated, voice_speaking_updated,
}
use baker_self_hosted_voice.Router.Broadcasts.{voice_event}
use baker_self_hosted_voice.Router.Calls.{
  VoiceSpeakingCommandData, VoiceNetworkSelfReportCommandData, handle_voice_speaking,
  handle_voice_network_self_report,
}
use baker_self_hosted_voice.Router.Heard.{reaches, takes, is_update, handle_voice_speaking-reaches}
use baker_self_hosted_voice.Router.Speaking.{is_reported, handle_voice_network_self_report_iff}
use baker_self_hosted_voice.Router.{
  p2p, GatewayRuntime, voice, MediaSessionDescriptor, forbidden, channel_not_text, relayed, refused,
  spoken, text, voice_channel, Channel, Database,
}
use baker_self_hosted_voice.Router.Access.{validate_media_session_access}
use baker_self_hosted_voice.Router.Signal.{MediaSignalCommandData, handle_media_signal_relay}
use baker_self_hosted_voice.Router.Channels.{handle_channel_subscribe, handle_channel_unsubscribe}
use baker_self_hosted_voice.Router.Relay.{
  is_relayed, MayReach, handle_media_signal_relay_iff, handle_media_signal_relay-reaches,
}
use baker_self_hosted_voice.Router.Subscriptions.{
  hears, is_accepted, handle_channel_subscribe-hears,
}

abbrev ann : GatewayConnection
ann = authenticate (new_connection "c1" 1 none []) "ann" "s1" none []

abbrev bob : GatewayConnection
bob = authenticate (new_connection "c2" 2 none []) "bob" "s2" none []

abbrev both : ConnectionManager
both = record {
  connections = ("c1", ann) ∷ ("c2", bob) ∷ [];
  connection_quality = [];
  user_to_connection_id = ("bob", "c2") ∷ [];
}

-- Two users in one voice channel.
abbrev gateway : GatewayRuntime ℕ
gateway = record {
  connections = both;
  voice_room = record {
    rooms =
        ("hall", ("ann", newcomer "ann" "c1" "v1") ∷ ("bob", newcomer "bob" "c2" "v2") ∷ []) ∷ [];
  };
  stream_room = record { rooms = [] };
  music_room = record { rooms = [] };
  media_mode = p2p;
}

abbrev session : MediaSessionDescriptor
session = record {
  channel_id = "hall";
  mode = voice;
  session_id = "v1";
  stream_id = none;
  user_id = "ann";
}

abbrev offer : MediaSignalCommandData ℕ
offer = record { target_user_id = "bob"; signal = record { session = session; content = 7 } }

-- One text and one voice channel, of which ann may use both.
abbrev library : Database
library = record {
  find_channel = λ c.
      if c == "news"
      then some (record { guild_id = "g"; channel_type = text })
      else some (record { guild_id = "g"; channel_type = voice_channel });
  is_member = λ g u. u == "ann";
}

abbrev eve : GatewayConnection
eve = authenticate (new_connection "c3" 3 none []) "eve" "s3" none []

abbrev loud : VoiceSpeakingCommandData
loud = record { channel_id = "hall"; is_muted = false; is_speaking = true }

abbrev loss : VoiceNetworkSelfReportCommandData
loss = record { channel_id = "hall"; media_self_loss = 20000 }

handlers : Unit {0}
unfolding set_muted handle_voice_speaking broadcast_speaking_updated get_participants send_all get
    set delete find_by_user_id send_to get_participant handle_media_signal_relay
    handle_channel_subscribe handle_channel_unsubscribe validate_media_session_access StringSet.add
    StringSet.remove StringSet.has StringSet.add_all StringSet.from_list str_dec
handlers = tt

relay_runs : (handle_media_signal_relay (λ s. true) gateway "ann" (some offer)).1 ≡ relayed "bob"
unfolding handlers
relay_runs = refl

-- Another user cannot send under the session.
forged_runs :
    (handle_media_signal_relay (λ s. true) gateway "bob" (some offer)).1 ≡ refused forbidden
unfolding handlers
forged_runs = refl

access_runs : validate_media_session_access gateway ann "ann" session ≡ true
unfolding handlers
access_runs = refl

subscribe_runs :
    hears (handle_channel_subscribe library both ann "ann" (some "news")).0 "c1" "news" ≡ true
unfolding handlers
subscribe_runs = refl

subscribe_voice_runs :
    (handle_channel_subscribe library both ann "ann" (some "hall")).1 ≡ refused channel_not_text
unfolding handlers
subscribe_voice_runs = refl

stranger_runs :
    (handle_voice_speaking
      (λ s. true)
      (λ t. "")
      0
      library
      gateway.voice_room
      both
      eve
      "eve"
      (some loud)).3
    ≡ record { to = "c1"; seq = 1; event = voice_event (voice_speaking_updated "hall" true "eve") }
      ∷ record {
        to = "c2";
        seq = 1;
        event = voice_event (voice_speaking_updated "hall" true "eve");
      }
      ∷ []
unfolding handlers
stranger_runs = refl

-- What the theorems ask of these inputs.
only_entry : (k v u c : String) → get u ((k, v) ∷ []) ≡ some c → (k ≡ u) × (v ≡ c)
unfolding get
only_entry k v u c e = ground arith

c2_is_bob : user_of (get "c2" both.connections) ≡ some "bob"
unfolding get str_dec
c2_is_bob = refl

bob_named : Differ "bob" ""
unfolding str_dec
bob_named = ne_of_test "bob" "" refl

both-IsIndexed : IsIndexed both
both-IsIndexed u c e =
    let (user, conn) = only_entry "bob" "c2" u c e in rw (← user, ← conn) (c2_is_bob, bob_named)

c1_named : Differ "c1" ""
unfolding str_dec
c1_named = ne_of_test "c1" "" refl

hall-Distinct : Distinct gateway.voice_room.rooms
unfolding get
hall-Distinct = (refl, tt)

c1_is_ann : get "c1" both.connections ≡ some ann
unfolding get str_dec
c1_is_ann = refl

handle_media_signal_relay_iff_example :
    (is_relayed (handle_media_signal_relay (λ s. true) gateway "ann" (some offer)).1 ≡ true) ↔ (
      (session.user_id ≡ "ann")
      × (is_some (find_by_user_id both "bob") ≡ true)
      × MayReach gateway voice "hall" "" "v1" "ann" "bob")
handle_media_signal_relay_iff_example =
    handle_media_signal_relay_iff (λ s. true) gateway "ann" offer "" tt

handle_media_signal_relay-reaches_example :
    let r = handle_media_signal_relay (λ s. true) gateway "ann" (some offer) in
    All
      (λ e.
        (user_of (get e.to both.connections) ≡ some "bob")
        × (e.event ≡ record { from_user_id = "ann"; signal = offer.signal }))
      r.2
    × ((is_relayed r.1 ≡ true) ⊎ ((r.0 ≡ gateway) × (r.2 ≡ [])))
handle_media_signal_relay-reaches_example =
    handle_media_signal_relay-reaches (λ s. true) gateway "ann" offer both-IsIndexed
      (refl, (refl, tt))

handle_channel_subscribe-hears_example :
    let r = handle_channel_subscribe library both ann "ann" (some "news") in
    ((is_accepted r.1 ≡ true) ↔ (
      (channel : Channel) × (library.find_channel "news" ≡ some channel)
      × (channel.channel_type ≡ text)
      × (library.is_member channel.guild_id "ann" ≡ true)))
    × ((k d : String)
        → hears r.0 k d
          ≡ (if is_accepted r.1 && "c1" == k && "news" == d then true else hears both k d))
handle_channel_subscribe-hears_example =
    handle_channel_subscribe-hears library both ann "ann" "news" c1_is_ann

eve_absent : slot gateway.voice_room "hall" "eve" ≡ none
unfolding get str_dec
eve_absent = refl

-- Eve is in no channel, and is heard in the hall.
handle_voice_speaking-reaches_example :
    let r =
      handle_voice_speaking
        (λ s. true)
        (λ t. "")
        0
        library
        gateway.voice_room
        both
        eve
        "eve"
        (some loud) in
    (r.2 ≡ spoken "hall" true)
    × ((k : String)
        → reaches (is_update "hall" "eve" true) k r.3 ≡ (
            StringSet.has k (connection_ids (get_participants gateway.voice_room "hall"))
            && (not (k == "c3") && takes (λ s. true) (get k both.connections))))
    × ((c v : String)
        → slot r.0 c v ≡ (
            if ("hall" == c) && ("eve" == v)
            then muted loud.is_muted (slot gateway.voice_room "hall" "eve")
            else slot gateway.voice_room c v))
handle_voice_speaking-reaches_example =
    handle_voice_speaking-reaches (λ s. true) (λ t. "") 0 library gateway.voice_room both eve "eve"
      loud

handle_voice_network_self_report_iff_example :
    let r =
      handle_voice_network_self_report
        (λ s. true)
        (λ t. "")
        0
        library
        gateway.voice_room
        both
        ann
        "ann"
        (some loss) in
    ((is_reported r.1 ≡ true) ↔ (
      (ann.voice_channel_id ≡ some "hall")
      × ((p : VoiceParticipantRecord) × (slot gateway.voice_room "hall" "ann" ≡ some p)
          × (p.connection_id ≡ ann.id))))
    × ((k : String) → (ann.id ≡ k) ⊎ (get k r.0.connection_quality ≡ get k both.connection_quality))
    × ((is_reported r.1 ≡ true) ⊎ ((r.0 ≡ both) × (r.2 ≡ [])))
handle_voice_network_self_report_iff_example =
    handle_voice_network_self_report_iff (λ s. true) (λ t. "") 0 library gateway.voice_room both ann
      "ann" loss

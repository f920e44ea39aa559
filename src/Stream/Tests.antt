-- ===== src/Stream/Tests.antt =====
-- Runs of the stream rooms, and their theorems at concrete inputs.
use baker_self_hosted_voice.Common.{
  ℕ, String, true, not, ◌≡◌, ◌↔◌, refl, none, some, List, [], ◌∷◌, ◌==◌, ◌&&◌, ◌||◌, if◌then◌else◌,
  str_dec, ne_of_test, Differ,
}
use mathlib.Core.Path.{subst}
use baker_self_hosted_voice.Common.StringMap.{get, set, delete, is_some}
use baker_self_hosted_voice.Common.StringSet
use baker_self_hosted_voice.Connection.{ConnectionManager}
use baker_self_hosted_voice.Connection.Sequence.{letters, spent}
use baker_self_hosted_voice.Stream.{
  StreamViewerRecord, StreamPublicationRecord, StreamRoomManager, screen, camera, stream_publish,
  stream_watch, get_publication, get_publications, first_hosted, find_hosted_publication_by_user,
  resolve_publication, can_relay_signal, get_broadcast_connection_ids,
}
use baker_self_hosted_voice.Stream.Publish.{
  hosts, new_publication, start, stop, add_viewer, remove_viewer,
}
use baker_self_hosted_voice.Stream.Leave.{
  host_stopped, viewer_left, leave_publications, leave_rooms, leave_channel_for_user,
  leave_all_for_user,
}
use baker_self_hosted_voice.Stream.Snapshot.{create_snapshot, broadcast_state_updated}
use baker_self_hosted_voice.Stream.Invariant.{IsValid}
use baker_self_hosted_voice.Stream.Lifecycle.{Relays, start-get_publication, can_relay_signal_iff}
use baker_self_hosted_voice.Stream.RoundTrip.{stop-start}
use baker_self_hosted_voice.Stream.Audience.{takes_part, broadcast_state_updated-letters}
use baker_self_hosted_voice.Stream.Histories.{
  StreamCall, starts, watches, run, stream_history-IsValid,
}

abbrev bob_viewing : StreamViewerRecord
bob_viewing = record { connection_id = "c2"; session_id = "v2"; user_id = "bob" }

abbrev show : StreamPublicationRecord ℕ
show = record {
  channel_id = "hall";
  host = record { connection_id = "c1"; session_id = "n1"; source_type = screen; user_id = "ann" };
  stream_id = "st1";
  publisher_diagnostics = none;
  viewers = ("bob", bob_viewing) ∷ [];
}

-- One publication, with one viewer.
abbrev cinema : StreamRoomManager ℕ
cinema = record { rooms = ("hall", ("st1", show) ∷ []) ∷ [] }

abbrev opening : List (StreamCall ℕ)
opening = starts "hall" "st1" "ann" "c1" "n1" screen ∷ watches "hall" "st1" "bob" "c2" "v2" ∷ []

abbrev closed : StreamRoomManager ℕ
closed = record { rooms = [] }

rooms : Unit {0}
unfolding get set delete hosts start stop add_viewer remove_viewer leave_publications leave_rooms
    leave_channel_for_user leave_all_for_user first_hosted resolve_publication can_relay_signal run
    str_dec
rooms = tt

opening_runs : run closed opening ≡ cinema
unfolding rooms
opening_runs = refl

start_again_runs : start cinema "hall" "st2" "ann" "c9" "n9" camera ≡ (cinema, none)
unfolding rooms
start_again_runs = refl

relay_runs : can_relay_signal cinema "hall" (some "st1") stream_watch "bob" "v2" "ann" ≡ true
unfolding rooms
relay_runs = refl

-- Without a stream id the channel's only publication is meant.
relay_only_runs : can_relay_signal cinema "hall" none stream_publish "ann" "n1" "bob" ≡ true
unfolding rooms
relay_only_runs = refl

leave_viewer_runs :
    (leave_all_for_user cinema "bob" (some "c2")).1 ≡ viewer_left "hall" "v2" "st1" ∷ []
unfolding rooms
leave_viewer_runs = refl

leave_host_runs :
    leave_all_for_user cinema "ann" none
    ≡ (closed, host_stopped "hall" ("c1" ∷ "c2" ∷ []) "n1" "st1" ∷ [])
unfolding rooms
leave_host_runs = refl

-- What the theorems ask of these inputs.
cinema-IsValid : IsValid cinema
cinema-IsValid = subst IsValid opening_runs (stream_history-IsValid opening)

hall_named : Differ "hall" ""
unfolding str_dec
hall_named = ne_of_test "hall" "" refl

stream_named : Differ "st1" ""
unfolding str_dec
stream_named = ne_of_test "st1" "" refl

abbrev nobody : ConnectionManager
nobody = record { connections = []; connection_quality = []; user_to_connection_id = [] }

start-get_publication_example :
    let free = not (is_some (find_hosted_publication_by_user cinema "bob" (some "hall"))) in
    let p : StreamPublicationRecord ℕ = new_publication "hall" "st2" "bob" "c2" "n2" camera in
    ((start cinema "hall" "st2" "bob" "c2" "n2" camera).1 ≡ (if free then some p else none))
    × ((d t : String)
        → get_publication (start cinema "hall" "st2" "bob" "c2" "n2" camera).0 d t
          ≡ (if free && "hall" == d && "st2" == t then some p else get_publication cinema d t))
start-get_publication_example =
    start-get_publication cinema "hall" "st2" "bob" "c2" "n2" camera hall_named

can_relay_signal_iff_example :
    (can_relay_signal cinema "hall" (some "st1") stream_watch "bob" "v2" "ann" ≡ true)
    ↔ Relays cinema "hall" "st1" stream_watch "bob" "v2" "ann"
can_relay_signal_iff_example =
    can_relay_signal_iff cinema "hall" "st1" stream_watch "bob" "v2" "ann" stream_named

broadcast_state_updated-letters_example :
    let r = broadcast_state_updated (λ s. true) nobody cinema "hall" ("c9" ∷ []) in
    (r.1
      ≡ letters
          (λ s. true)
          (create_snapshot cinema "hall")
          nobody
          (get_broadcast_connection_ids cinema "hall" ("c9" ∷ [])))
    × ((c : String)
        → get c r.0.connections
          ≡ spent
              (StringSet.has c ("c9" ∷ []) || takes_part c (get_publications cinema "hall"))
              (get c nobody.connections))
broadcast_state_updated-letters_example =
    broadcast_state_updated-letters (λ s. true) nobody cinema "hall" ("c9" ∷ [])

stop-start_example :
    stop (start cinema "hall" "st2" "bob" "c2" "n2" camera).0 "hall" "st2" "bob"
    ≡ (cinema, some (record { connection_ids = "c2" ∷ []; session_id = "n2"; stream_id = "st2" }))
unfolding rooms
stop-start_example = stop-start cinema "hall" "st2" "bob" "c2" "n2" camera cinema-IsValid refl refl

-- ===== src/Music/Tests.antt =====
-- Runs of the music rooms, and their theorems at concrete inputs.
use baker_self_hosted_voice.Common.{
  true, ◌≡◌, refl, none, some, List, [], ◌∷◌, str_dec, ne_of_test, Differ,
}
use mathlib.Core.Path.{subst}
use baker_self_hosted_voice.Common.StringMap.{get, set, delete}
use baker_self_hosted_voice.Music.{
  MusicListenerRecord, MusicPublicationRecord, MusicRoomManager, music_listen, first_hosted,
  can_relay_signal,
}
use baker_self_hosted_voice.Music.Publish.{hosts, start, stop, add_listener, remove_listener}
use baker_self_hosted_voice.Music.Leave.{
  host_stopped, listener_left, leave_publications, leave_rooms, leave_channel_for_user,
  leave_all_for_user,
}
use baker_self_hosted_voice.Music.Invariant.{IsValid}
use baker_self_hosted_voice.Music.Histories.{MusicCall, starts, listens, run, music_history-IsValid}

abbrev bob_listening : MusicListenerRecord
bob_listening = record { connection_id = "c2"; session_id = "v2"; user_id = "bob" }

abbrev song : MusicPublicationRecord
song = record {
  channel_id = "hall";
  host = record { connection_id = "c1"; session_id = "n1"; user_id = "ann" };
  music_id = "st1";
  listeners = ("bob", bob_listening) ∷ [];
}

-- One publication, with one listener.
abbrev concert : MusicRoomManager
concert = record { rooms = ("hall", ("st1", song) ∷ []) ∷ [] }

abbrev opening : List MusicCall
opening = starts "hall" "st1" "ann" "c1" "n1" ∷ listens "hall" "st1" "bob" "c2" "v2" ∷ []

abbrev closed : MusicRoomManager
closed = record { rooms = [] }

rooms : Unit {0}
unfolding get set delete hosts start stop add_listener remove_listener leave_publications
    leave_rooms leave_channel_for_user leave_all_for_user first_hosted can_relay_signal run str_dec
rooms = tt

opening_runs : run closed opening ≡ concert
unfolding rooms
opening_runs = refl

start_again_runs : start concert "hall" "st2" "ann" "c9" "n9" ≡ (concert, none)
unfolding rooms
start_again_runs = refl

relay_runs : can_relay_signal concert "hall" (some "st1") music_listen "bob" "v2" "ann" ≡ true
unfolding rooms
relay_runs = refl

leave_listener_runs :
    (leave_all_for_user concert "bob" (some "c2")).1 ≡ listener_left "hall" "v2" "st1" ∷ []
unfolding rooms
leave_listener_runs = refl

leave_host_runs :
    leave_all_for_user concert "ann" none
    ≡ (closed, host_stopped "hall" ("c1" ∷ "c2" ∷ []) "n1" "st1" ∷ [])
unfolding rooms
leave_host_runs = refl

-- What the theorems ask of these inputs.
concert-IsValid : IsValid concert
concert-IsValid = subst IsValid opening_runs (music_history-IsValid opening)

hall_named : Differ "hall" ""
unfolding str_dec
hall_named = ne_of_test "hall" "" refl

music_named : Differ "st1" ""
unfolding str_dec
music_named = ne_of_test "st1" "" refl

-- ===== src/Voice/Tests.antt =====
-- Runs of the voice rooms, and their theorems at concrete inputs.
use baker_self_hosted_voice.Common.{
  not, ◌≡◌, refl, none, some, List, [], ◌∷◌, ◌==◌, ◌&&◌, if◌then◌else◌, str_dec,
}
use baker_self_hosted_voice.Common.StringMap.{get, set, delete, is_some}
use baker_self_hosted_voice.Common.StringMap.Entries.{Distinct}
use baker_self_hosted_voice.Common.StringSet
use baker_self_hosted_voice.Connection.{ConnectionManager}
use baker_self_hosted_voice.Voice.{
  VoiceParticipantRecord, Room, VoiceRoomManager, join, leave, get_participants, set_muted,
  leave_rooms, leave_all_channels, channel_of,
}
use baker_self_hosted_voice.Voice.Broadcast.{connection_ids}
use baker_self_hosted_voice.Voice.Slots.{slot, newcomer, join-slot}
use baker_self_hosted_voice.Voice.Invariant.{IsValid}
use baker_self_hosted_voice.Voice.Histories.{VoiceCall, joins, no_rooms, run, voice_history-IsValid}

abbrev ann : VoiceParticipantRecord
ann = newcomer "ann" "c1" "s1"

abbrev bob : VoiceParticipantRecord
bob = newcomer "bob" "c2" "s2"

abbrev hall : Room
hall = ("ann", ann) ∷ ("bob", bob) ∷ []

-- Two people in one channel, one of them in another too.
abbrev party : VoiceRoomManager
party = record { rooms = ("hall", hall) ∷ ("attic", ("ann", ann) ∷ []) ∷ [] }

abbrev arrivals : List VoiceCall
arrivals =
    joins "hall" "ann" "c1" "s1" ∷ joins "hall" "bob" "c2" "s2" ∷ joins "attic" "ann" "c1" "s1" ∷ []

rooms : Unit {0}
unfolding get set delete join leave set_muted get_participants leave_rooms leave_all_channels
    channel_of run str_dec
rooms = tt

arrivals-run : run no_rooms arrivals ≡ party
unfolding rooms
arrivals-run = refl

join_twice_runs : (join party "hall" "ann" "c9" "s9").1 ≡ none
unfolding rooms
join_twice_runs = refl

leave_last_runs : (leave party "attic" "ann").0.rooms ≡ ("hall", hall) ∷ []
unfolding rooms
leave_last_runs = refl

leave_all_runs : leave_all_channels party "ann" (some "c1") ≡ (
  record { rooms = ("hall", ("bob", bob) ∷ []) ∷ [] },
  record { channel_id = "hall"; left = ann; remaining = bob ∷ [] }
      ∷ record { channel_id = "attic"; left = ann; remaining = [] }
      ∷ [],
)
unfolding rooms
leave_all_runs = refl

-- Another connection of the same user takes nobody out.
leave_all_other_runs : leave_all_channels party "ann" (some "c7") ≡ (party, [])
unfolding rooms
leave_all_other_runs = refl

party-IsValid : IsValid party
party-IsValid = rw (← arrivals-run) (voice_history-IsValid arrivals)

hall_found : get "hall" party.rooms ≡ some hall
unfolding rooms
hall_found = refl

eve_absent : slot party "hall" "eve" ≡ none
unfolding rooms
eve_absent = refl

members-Distinct : StringSet.Distinct (connection_ids (get_participants party "hall"))
unfolding rooms StringSet.has
members-Distinct = (refl, (refl, tt))

abbrev nobody : ConnectionManager
nobody = record { connections = []; connection_quality = []; user_to_connection_id = [] }

join-slot_example :
    (slot (join party "hall" "eve" "c3" "s3").0 "hall" "eve" ≡ (
      if ("hall" == "hall") && ("eve" == "eve") && not (is_some (slot party "hall" "eve"))
      then some (newcomer "eve" "c3" "s3")
      else slot party "hall" "eve"))
    × (is_some (join party "hall" "eve" "c3" "s3").1 ≡ not (is_some (slot party "hall" "eve")))
join-slot_example = join-slot party "hall" "eve" "c3" "s3" "hall" "eve"

-- ===== src/Voice/Histories.antt =====
-- Any sequence of calls of the voice rooms, from the empty manager on.
use baker_self_hosted_voice.Common.{String, Bool, Option, List, [], ◌∷◌}
use baker_self_hosted_voice.Voice.{
  VoiceRoomManager, join, leave, set_muted, clear_channel, leave_all_channels,
}
use baker_self_hosted_voice.Voice.Invariant.{
  IsValid, join-IsValid, leave-IsValid, set_muted-IsValid, clear_channel-IsValid,
  leave_all_channels-IsValid,
}

pub data VoiceCall : Type 0 where
  joins : (channel_id user_id connection_id session_id : String) → VoiceCall
  leaves : (channel_id user_id : String) → VoiceCall
  mutes : (channel_id user_id : String) → Bool → VoiceCall
  clears : (channel_id : String) → VoiceCall
  leaves_all : (user_id : String) → (connection_id : Option String) → VoiceCall

abbrev pub no_rooms : VoiceRoomManager
no_rooms = record { rooms = [] }

abbrev pub step : VoiceRoomManager → VoiceCall → VoiceRoomManager
step m (joins c u k s) = (join m c u k s).0
step m (leaves c u) = (leave m c u).0
step m (mutes c u b) = (set_muted m c u b).0
step m (clears c) = clear_channel m c
step m (leaves_all u k) = (leave_all_channels m u k).0

unfoldable pub run : VoiceRoomManager → List VoiceCall → VoiceRoomManager
run m [] = m
run m (call ∷ calls) = run (step m call) calls

step-IsValid : (m : VoiceRoomManager) (call : VoiceCall) → IsValid m → IsValid (step m call)
step-IsValid m (joins c u k s) v = join-IsValid m c u k s v
step-IsValid m (leaves c u) v = leave-IsValid m c u v
step-IsValid m (mutes c u b) v = set_muted-IsValid m c u b v
step-IsValid m (clears c) v = clear_channel-IsValid m c v
step-IsValid m (leaves_all u k) v = leave_all_channels-IsValid m u k v

run-IsValid : (m : VoiceRoomManager) (calls : List VoiceCall) → IsValid m → IsValid (run m calls)
unfolding run
run-IsValid m [] v = v
run-IsValid m (call ∷ calls) v = run-IsValid (step m call) calls (step-IsValid m call v)

-- After any sequence of calls the channels are distinct, no room is empty, no user stands twice in a
-- room, and every record stands under its own user.
pub voice_history-IsValid : (calls : List VoiceCall) → IsValid (run no_rooms calls)
voice_history-IsValid calls =
    run-IsValid no_rooms calls (record { distinct = tt; rooms_valid = tt })

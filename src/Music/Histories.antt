-- ===== src/Music/Histories.antt =====
-- Any sequence of calls of the music rooms, from the empty manager on.
use baker_self_hosted_voice.Common.{String, Option, List, [], ◌∷◌}
use baker_self_hosted_voice.Music.{MusicRoomManager}
use baker_self_hosted_voice.Music.Publish.{start, stop, add_listener, remove_listener}
use baker_self_hosted_voice.Music.Leave.{leave_channel_for_user, leave_all_for_user, clear_all}
use baker_self_hosted_voice.Music.Invariant.{
  IsValid, start-IsValid, stop-IsValid, add_listener-IsValid, remove_listener-IsValid,
}
use baker_self_hosted_voice.Music.Reports.{
  leave_channel_for_user-IsValid, leave_all_for_user-IsValid,
}

pub data MusicCall : Type 0 where
  starts : (channel_id music_id user_id connection_id session_id : String) → MusicCall
  stops : (channel_id music_id user_id : String) → MusicCall
  listens : (channel_id music_id user_id connection_id session_id : String) → MusicCall
  unlistens : (channel_id music_id user_id : String) → MusicCall
  leaves : (channel_id user_id : String) → MusicCall
  leaves_all : (user_id : String) → (connection_id : Option String) → MusicCall
  clears : MusicCall

abbrev pub step : MusicRoomManager → MusicCall → MusicRoomManager
step m (starts c s u k n) = (start m c s u k n).0
step m (stops c s u) = (stop m c s u).0
step m (listens c s u k n) = (add_listener m c s u k n).0
step m (unlistens c s u) = (remove_listener m c s u).0
step m (leaves c u) = (leave_channel_for_user m c u).0
step m (leaves_all u k) = (leave_all_for_user m u k).0
step m clears = (clear_all m).0

unfoldable pub run : MusicRoomManager → List MusicCall → MusicRoomManager
run m [] = m
run m (call ∷ calls) = run (step m call) calls

step-IsValid : (m : MusicRoomManager) (call : MusicCall) → IsValid m → IsValid (step m call)
unfolding clear_all
step-IsValid m (starts c s u k n) v = start-IsValid m c s u k n v
step-IsValid m (stops c s u) v = stop-IsValid m c s u v
step-IsValid m (listens c s u k n) v = add_listener-IsValid m c s u k n v
step-IsValid m (unlistens c s u) v = remove_listener-IsValid m c s u v
step-IsValid m (leaves c u) v = leave_channel_for_user-IsValid m c u v
step-IsValid m (leaves_all u k) v = leave_all_for_user-IsValid u k m v
step-IsValid m clears v = record { distinct = tt; occupied = tt; valid = tt }

run-IsValid : (m : MusicRoomManager) (calls : List MusicCall) → IsValid m → IsValid (run m calls)
unfolding run
run-IsValid m [] v = v
run-IsValid m (call ∷ calls) v = run-IsValid (step m call) calls (step-IsValid m call v)

-- After any sequence of calls the channels are distinct, no room is empty, no user hosts two
-- publications of a channel, and every publication stands under its channel and its music, with
-- each listener once, under the listener's user.
pub music_history-IsValid : (calls : List MusicCall) → IsValid (run (record { rooms = [] }) calls)
music_history-IsValid calls =
    run-IsValid (record { rooms = [] }) calls (record { distinct = tt; occupied = tt; valid = tt })

-- ===== src/Stream/Histories.antt =====
-- Any sequence of calls of the stream rooms, from the empty manager on.
use baker_self_hosted_voice.Common.{ℕ, String, Option, List, [], ◌∷◌}
use baker_self_hosted_voice.Stream.{StreamSourceType, StreamRoomManager}
use baker_self_hosted_voice.Stream.Publish.{
  start, stop, add_viewer, remove_viewer, set_publisher_diagnostics,
}
use baker_self_hosted_voice.Stream.Leave.{leave_channel_for_user, leave_all_for_user, clear_all}
use baker_self_hosted_voice.Stream.Invariant.{
  IsValid, start-IsValid, stop-IsValid, add_viewer-IsValid, remove_viewer-IsValid,
  set_publisher_diagnostics-IsValid,
}
use baker_self_hosted_voice.Stream.Reports.{
  leave_channel_for_user-IsValid, leave_all_for_user-IsValid,
}

pub data StreamCall (D : Type 0) : Type 0 where
  starts :
      (channel_id stream_id user_id connection_id session_id : String)
      → StreamSourceType
      → StreamCall D
  stops : (channel_id stream_id user_id : String) → StreamCall D
  watches : (channel_id stream_id user_id connection_id session_id : String) → StreamCall D
  unwatches : (channel_id stream_id user_id : String) → StreamCall D
  diagnoses : (channel_id stream_id session_id connection_id : String) → D → ℕ → StreamCall D
  leaves : (channel_id user_id : String) → StreamCall D
  leaves_all : (user_id : String) → (connection_id : Option String) → StreamCall D
  clears : StreamCall D

module _ {D : Type 0} where
  abbrev pub step : StreamRoomManager D → StreamCall D → StreamRoomManager D
  step m (starts c s u k n source) = (start m c s u k n source).0
  step m (stops c s u) = (stop m c s u).0
  step m (watches c s u k n) = (add_viewer m c s u k n).0
  step m (unwatches c s u) = (remove_viewer m c s u).0
  step m (diagnoses c s n k d at) = (set_publisher_diagnostics m c s n k d at).0
  step m (leaves c u) = (leave_channel_for_user m c u).0
  step m (leaves_all u k) = (leave_all_for_user m u k).0
  step m clears = (clear_all m).0

  unfoldable pub run : StreamRoomManager D → List (StreamCall D) → StreamRoomManager D
  run m [] = m
  run m (call ∷ calls) = run (step m call) calls

  step-IsValid : (m : StreamRoomManager D) (call : StreamCall D) → IsValid m → IsValid (step m call)
  unfolding clear_all
  step-IsValid m (starts c s u k n source) v = start-IsValid m c s u k n source v
  step-IsValid m (stops c s u) v = stop-IsValid m c s u v
  step-IsValid m (watches c s u k n) v = add_viewer-IsValid m c s u k n v
  step-IsValid m (unwatches c s u) v = remove_viewer-IsValid m c s u v
  step-IsValid m (diagnoses c s n k d at) v = set_publisher_diagnostics-IsValid m c s n k d at v
  step-IsValid m (leaves c u) v = leave_channel_for_user-IsValid m c u v
  step-IsValid m (leaves_all u k) v = leave_all_for_user-IsValid u k m v
  step-IsValid m clears v = record { distinct = tt; occupied = tt; valid = tt }

  run-IsValid :
      (m : StreamRoomManager D) (calls : List (StreamCall D)) → IsValid m → IsValid (run m calls)
  unfolding run
  run-IsValid m [] v = v
  run-IsValid m (call ∷ calls) v = run-IsValid (step m call) calls (step-IsValid m call v)

  -- After any sequence of calls the channels are distinct, no room is empty, no user hosts two
  -- publications of a channel, and every publication stands under its channel and its stream, with
  -- each viewer once, under the viewer's user.
  pub stream_history-IsValid :
      (calls : List (StreamCall D)) → IsValid (run (record { rooms = [] }) calls)
  stream_history-IsValid calls =
      run-IsValid (record { rooms = [] }) calls
        (record { distinct = tt; occupied = tt; valid = tt })

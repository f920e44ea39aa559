-- ===== src/Handlers/Departing.antt =====
-- What leaving a voice channel, a closed socket and a change of the media mode do to the rooms, over
-- the whole handler with its broadcasts and calls.
use baker_self_hosted_voice.Common.{String, Option, none, some, List, ◌≡◌, ◌∙◌, ap, truthy}
use baker_self_hosted_voice.Connection.{GatewayConnection}
use baker_self_hosted_voice.Connection.Registry.{detach}
use baker_self_hosted_voice.Voice
use baker_self_hosted_voice.Voice.{get_participant, VoiceParticipantRecord}
use baker_self_hosted_voice.Stream.Leave
use baker_self_hosted_voice.Music.Leave as MusicLeave
use baker_self_hosted_voice.Router.{GatewayRuntime}
use baker_self_hosted_voice.Handlers.{Environment, Action, ◌⨾◌}
use baker_self_hosted_voice.Handlers.Leaving.{
  leave_streams, leave_musics, after_leaving, handle_voice_leave, leave_all_voice,
  leave_all_streams, leave_all_musics, disconnect,
}
use baker_self_hosted_voice.Handlers.Frames.{
  Rooms, rooms_of, IsQuiet, tell-IsQuiet, set_voice_channel-IsQuiet, close_voice-IsQuiet,
  tell_remaining-IsQuiet, voice_departures-IsQuiet, stream_changes-IsQuiet, music_changes-IsQuiet,
  disconnect_stream_changes-IsQuiet,
}

module _ {D : Type 0} where
  -- What an action does to the rooms.
  abbrev pub Acts : Action D → (Rooms D → Rooms D) → Type 0
  Acts a f = (g : GatewayRuntime D) → rooms_of (a g).0 ≡ f (rooms_of g)

  pub then-Acts :
      (a b : Action D) (f h : Rooms D → Rooms D) → Acts a f → Acts b h → Acts (a ⨾ b) (λ r. h (f r))
  unfolding ◌⨾◌
  then-Acts a b f h p q g = q (a g).0 ∙ ap h (p g)

  quiet-Acts : (f : Rooms D → Rooms D) (a b : Action D) → IsQuiet a → Acts b f → Acts (a ⨾ b) f
  quiet-Acts f a b p q = then-Acts a b (λ r. r) f p q

  abbrev pub without_streams : (channel_id user_id : String) → Rooms D → Rooms D
  without_streams c u r = record r {
    stream_room = (Leave.leave_channel_for_user r.stream_room c u).0;
  }

  abbrev pub without_musics : (channel_id user_id : String) → Rooms D → Rooms D
  without_musics c u r = record r {
    music_room = (MusicLeave.leave_channel_for_user r.music_room c u).0;
  }

  abbrev pub without_voice : (channel_id user_id : String) → Rooms D → Rooms D
  without_voice c u r = record r { voice_room = (Voice.leave r.voice_room c u).0 }

  -- Out of the voice room, the streams and the music of a channel, if it has a voice room.
  abbrev pub departed : (channel_id user_id : String) → Rooms D → Rooms D
  departed c u r = without_musics c u (without_streams c u (without_voice c u r))

  abbrev pub without_all_voice : (user_id connection_id : String) → Rooms D → Rooms D
  without_all_voice u k r = record r {
    voice_room = (Voice.leave_all_channels r.voice_room u (some k)).0;
  }

  abbrev pub without_all_streams : (user_id connection_id : String) → Rooms D → Rooms D
  without_all_streams u k r = record r {
    stream_room = (Leave.leave_all_for_user r.stream_room u (some k)).0;
  }

  abbrev pub without_all_musics : (user_id connection_id : String) → Rooms D → Rooms D
  without_all_musics u k r = record r {
    music_room = (MusicLeave.leave_all_for_user r.music_room u (some k)).0;
  }

  -- Out of everything that one connection holds.
  abbrev pub disconnected : (user_id connection_id : String) → Rooms D → Rooms D
  disconnected u k r = without_all_musics u k (without_all_streams u k (without_all_voice u k r))

module _ {D : Type 0} (env : Environment) where
  leave_streams-Acts : (c u : String) → Acts (leave_streams {D = D} env c u) (without_streams c u)
  unfolding leave_streams
  leave_streams-Acts c u g = stream_changes-IsQuiet env _ _

  leave_musics-Acts : (c u : String) → Acts (leave_musics {D = D} env c u) (without_musics c u)
  unfolding leave_musics
  leave_musics-Acts c u g = music_changes-IsQuiet env _ _

  after_leaving-Acts :
      (k c u : String) (existing : Option VoiceParticipantRecord)
      (remaining : List VoiceParticipantRecord)
      → Acts
          (after_leaving {D = D} env k c u existing remaining)
          (λ r. without_musics c u (without_streams c u r))
  after_leaving-Acts k c u existing remaining =
      let last : Rooms D → Rooms D = λ r. without_musics c u (without_streams c u r) in
      quiet-Acts last _ _ (set_voice_channel-IsQuiet k none) (
        quiet-Acts last _ _ (close_voice-IsQuiet env c existing) (
          quiet-Acts last _ _ (tell_remaining-IsQuiet env c remaining) (
            quiet-Acts last _ _ (tell-IsQuiet _ _) (
              quiet-Acts last _ _ (tell-IsQuiet _ _) (
                then-Acts _ _ (without_streams c u) (without_musics c u) (leave_streams-Acts c u)
                  (leave_musics-Acts c u))))))

  -- `voice.leave` of a channel with a room takes the user out of its voice room, its streams and its
  -- music, and leaves every other room as it is.
  pub handle_voice_leave-departed :
      (connection : GatewayConnection) (u c : String) (g : GatewayRuntime D)
      (remaining : List VoiceParticipantRecord)
      → (Voice.leave g.voice_room c u).1 ≡ some remaining
      → rooms_of (handle_voice_leave env connection u (some c) g).0 ≡ departed c u (rooms_of g)
  unfolding handle_voice_leave
  handle_voice_leave-departed connection u c g remaining found = rw found (
      after_leaving-Acts connection.id c u (get_participant g.voice_room c u) remaining
        (record g { voice_room = (Voice.leave g.voice_room c u).0 }))

  leave_all_voice-Acts :
      (u k : String) → Acts (leave_all_voice {D = D} env u k) (without_all_voice u k)
  unfolding leave_all_voice
  leave_all_voice-Acts u k g = voice_departures-IsQuiet env _ _

  leave_all_streams-Acts :
      (u k : String) → Acts (leave_all_streams {D = D} env u k) (without_all_streams u k)
  unfolding leave_all_streams
  leave_all_streams-Acts u k g = disconnect_stream_changes-IsQuiet env _ _

  leave_all_musics-Acts :
      (u k : String) → Acts (leave_all_musics {D = D} env u k) (without_all_musics u k)
  unfolding leave_all_musics
  leave_all_musics-Acts u k g = music_changes-IsQuiet env _ _

  -- When the socket of a user's connection closes, the voice, stream and music rooms become what the
  -- three `leaveAll` methods make of them for that user and connection; the sessions that are closed
  -- and the broadcasts in between change no room.
  pub disconnect-disconnected :
      (connection : GatewayConnection) (u : String) (g : GatewayRuntime D)
      → truthy connection.user_id ≡ some u
      → rooms_of (disconnect env connection g).0 ≡ disconnected u connection.id (rooms_of g)
  unfolding disconnect
  disconnect-disconnected connection u g named =
      let k = connection.id in
      rw named (
        then-Acts _ _ (without_all_voice u k)
          (λ r. without_all_musics u k (without_all_streams u k r)) (leave_all_voice-Acts u k)
          (then-Acts _ _ (without_all_streams u k) (without_all_musics u k)
            (leave_all_streams-Acts u k) (leave_all_musics-Acts u k))
          (record g { connections = detach g.connections k }))

-- ===== src/Handlers/Frames.antt =====
-- What a broadcast, a note or a call of the media service leaves alone: the rooms and the mode.
use baker_self_hosted_voice.Common.{
  String, Option, none, some, List, [], ◌∷◌, ◌≡◌, refl, ◌∙◌, Bool-cases, inl, inr,
}
use baker_self_hosted_voice.Connection.{ConnectionManager}
use baker_self_hosted_voice.Connection.Delivery.{Sent}
use baker_self_hosted_voice.Voice.{VoiceRoomManager, VoiceParticipantRecord, Departure}
use baker_self_hosted_voice.Stream.{StreamRoomManager, StreamPublicationRecord}
use baker_self_hosted_voice.Stream.Leave.{StreamDisconnectResult, host_stopped, viewer_left}
use baker_self_hosted_voice.Music.{MusicRoomManager, MusicPublicationRecord}
use baker_self_hosted_voice.Music.Leave.{
  MusicDisconnectResult, host_stopped as music_host_stopped, listener_left,
}
use baker_self_hosted_voice.Router.{GatewayRuntime, MediaMode, ChannelType, text, voice_channel}
use baker_self_hosted_voice.Router.Broadcasts.{RuntimeEvent, SfuProducer}
use baker_self_hosted_voice.Handlers.{
  Environment, Action, SfuSession, ◌⨾◌, tell, set_voice_channel, tell_removed, close_sfu_session,
  close_if_sfu, is_sfu_mode,
}
use baker_self_hosted_voice.Handlers.Leaving.{
  close_voice, tell_remaining, stream_change, stream_changes, music_change, music_changes,
  voice_departures, disconnect_stream_change, disconnect_stream_changes, idle_sessions,
}
use baker_self_hosted_voice.Handlers.Joining.{tell_streams_if_any, tell_music_if_any}
use baker_self_hosted_voice.Handlers.Sessions.{
  tell_channels, send_voice_roster_snapshot_to_connection,
}

-- The part of the runtime that only the methods of the room managers change.
pub record Rooms (D : Type 0) : Type 0 where
  pub voice_room : VoiceRoomManager
  pub stream_room : StreamRoomManager D
  pub music_room : MusicRoomManager
  pub media_mode : MediaMode

abbrev pub rooms_of : {D : Type 0} → GatewayRuntime D → Rooms D
rooms_of g = record {
  voice_room = g.voice_room;
  stream_room = g.stream_room;
  music_room = g.music_room;
  media_mode = g.media_mode;
}

module _ {D : Type 0} where
  abbrev pub IsQuiet : Action D → Type 0
  IsQuiet a = (g : GatewayRuntime D) → rooms_of (a g).0 ≡ rooms_of g

  -- One quiet action and then another.
  pub then-IsQuiet : (a b : Action D) → IsQuiet a → IsQuiet b → IsQuiet (a ⨾ b)
  unfolding ◌⨾◌
  then-IsQuiet a b p q g = q (a g).0 ∙ p g

  pub tell-IsQuiet :
      {E : Type 0} (f : E → RuntimeEvent)
      (broadcast : GatewayRuntime D → ConnectionManager × List (Sent E))
      → IsQuiet (tell f broadcast)
  unfolding tell
  tell-IsQuiet f broadcast g = refl

  pub set_voice_channel-IsQuiet :
      (c : String) (o : Option String) → IsQuiet (set_voice_channel {D = D} c o)
  unfolding set_voice_channel
  set_voice_channel-IsQuiet c o g = refl

  pub idle_sessions-IsQuiet :
      (changes : List StreamDisconnectResult) → IsQuiet (idle_sessions {D = D} changes)
  idle_sessions-IsQuiet [] = λ g. refl
  idle_sessions-IsQuiet (host_stopped c ids n s ∷ rest) =
      then-IsQuiet (λ g. (g, _)) (idle_sessions rest) (λ g. refl) (idle_sessions-IsQuiet rest)
  idle_sessions-IsQuiet (viewer_left c n s ∷ rest) = idle_sessions-IsQuiet rest

module _ {D : Type 0} (env : Environment) where
  tell_removed-IsQuiet : (o : Option SfuProducer) → IsQuiet (tell_removed {D = D} env o)
  unfolding tell
  tell_removed-IsQuiet none g = refl
  tell_removed-IsQuiet (some p) g = refl

  pub close_sfu_session-IsQuiet : (s : SfuSession) → IsQuiet (close_sfu_session {D = D} env s)
  unfolding ◌⨾◌
  close_sfu_session-IsQuiet s g = tell_removed-IsQuiet (env.media.close_session s) g

  pub close_if_sfu-IsQuiet : (s : SfuSession) → IsQuiet (close_if_sfu {D = D} env s)
  unfolding close_if_sfu
  close_if_sfu-IsQuiet s g = elim (Bool-cases (is_sfu_mode g.media_mode)) [
    | inl on ↦ rw on (close_sfu_session-IsQuiet s g)
    | inr off ↦ rw off refl
  ]

  pub close_voice-IsQuiet :
      (c : String) (o : Option VoiceParticipantRecord) → IsQuiet (close_voice {D = D} env c o)
  close_voice-IsQuiet c none g = refl
  close_voice-IsQuiet c (some p) g = close_if_sfu-IsQuiet _ g

  pub tell_remaining-IsQuiet :
      (c : String) (ps : List VoiceParticipantRecord) → IsQuiet (tell_remaining {D = D} env c ps)
  unfolding tell
  tell_remaining-IsQuiet c [] g = refl
  tell_remaining-IsQuiet c (p ∷ ps) g = refl

  pub voice_departures-IsQuiet : (ds : List Departure) → IsQuiet (voice_departures {D = D} env ds)
  voice_departures-IsQuiet [] = λ g. refl
  voice_departures-IsQuiet (d ∷ ds) =
      then-IsQuiet _ _
        (then-IsQuiet _ _ (tell_remaining-IsQuiet d.channel_id d.remaining) (
          then-IsQuiet _ _ (close_voice-IsQuiet d.channel_id (some d.left))
            (then-IsQuiet _ _ (tell-IsQuiet _ _) (tell-IsQuiet _ _))))
        (voice_departures-IsQuiet ds)

  stream_change-IsQuiet :
      (change : StreamDisconnectResult) → IsQuiet (stream_change {D = D} env change)
  stream_change-IsQuiet (host_stopped c ids n s) g =
      then-IsQuiet _ _ (tell-IsQuiet _ _) (then-IsQuiet _ _ (λ h. refl) (close_if_sfu-IsQuiet _)) g
  stream_change-IsQuiet (viewer_left c n s) g =
      then-IsQuiet _ _ (close_if_sfu-IsQuiet _) (tell-IsQuiet _ _) g

  pub stream_changes-IsQuiet :
      (changes : List StreamDisconnectResult) → IsQuiet (stream_changes {D = D} env changes)
  stream_changes-IsQuiet [] = λ g. refl
  stream_changes-IsQuiet (change ∷ rest) =
      then-IsQuiet _ _ (stream_change-IsQuiet change) (stream_changes-IsQuiet rest)

  music_change-IsQuiet :
      (change : MusicDisconnectResult) → IsQuiet (music_change {D = D} env change)
  music_change-IsQuiet (music_host_stopped c ids n s) g =
      then-IsQuiet _ _ (tell-IsQuiet _ _) (close_if_sfu-IsQuiet _) g
  music_change-IsQuiet (listener_left c n s) g =
      then-IsQuiet _ _ (close_if_sfu-IsQuiet _) (tell-IsQuiet _ _) g

  pub music_changes-IsQuiet :
      (changes : List MusicDisconnectResult) → IsQuiet (music_changes {D = D} env changes)
  music_changes-IsQuiet [] = λ g. refl
  music_changes-IsQuiet (change ∷ rest) =
      then-IsQuiet _ _ (music_change-IsQuiet change) (music_changes-IsQuiet rest)

  disconnect_stream_change-IsQuiet :
      (change : StreamDisconnectResult) → IsQuiet (disconnect_stream_change {D = D} env change)
  disconnect_stream_change-IsQuiet (host_stopped c ids n s) g =
      then-IsQuiet _ _ (tell-IsQuiet _ _) (then-IsQuiet _ _ (close_if_sfu-IsQuiet _) (λ h. refl)) g
  disconnect_stream_change-IsQuiet (viewer_left c n s) g =
      stream_change-IsQuiet (viewer_left c n s) g

  pub disconnect_stream_changes-IsQuiet :
      (changes : List StreamDisconnectResult)
      → IsQuiet (disconnect_stream_changes {D = D} env changes)
  disconnect_stream_changes-IsQuiet [] = λ g. refl
  disconnect_stream_changes-IsQuiet (change ∷ rest) =
      then-IsQuiet _ _ (disconnect_stream_change-IsQuiet change)
        (disconnect_stream_changes-IsQuiet rest)

  pub tell_streams_if_any-IsQuiet :
      (k c : String) (ps : List (StreamPublicationRecord D))
      → IsQuiet (tell_streams_if_any env k c ps)
  unfolding tell
  tell_streams_if_any-IsQuiet k c [] g = refl
  tell_streams_if_any-IsQuiet k c (p ∷ ps) g = refl

  pub tell_music_if_any-IsQuiet :
      (k c : String) (ps : List MusicPublicationRecord)
      → IsQuiet (tell_music_if_any {D = D} env k c ps)
  unfolding tell
  tell_music_if_any-IsQuiet k c [] g = refl
  tell_music_if_any-IsQuiet k c (p ∷ ps) g = refl

  tell_channels-IsQuiet :
      (k : String) (cs : List (String × ChannelType)) → IsQuiet (tell_channels {D = D} env k cs)
  tell_channels-IsQuiet k [] = λ g. refl
  tell_channels-IsQuiet k ((c, text) ∷ cs) = tell_channels-IsQuiet k cs
  tell_channels-IsQuiet k ((c, voice_channel) ∷ cs) =
      then-IsQuiet _ _ (tell-IsQuiet _ _) (tell_channels-IsQuiet k cs)

  pub send_voice_roster_snapshot_to_connection-IsQuiet :
      (k u : String) (guilds : List String)
      → IsQuiet (send_voice_roster_snapshot_to_connection {D = D} env k u guilds)
  unfolding send_voice_roster_snapshot_to_connection
  send_voice_roster_snapshot_to_connection-IsQuiet k u [] = λ g. refl
  send_voice_roster_snapshot_to_connection-IsQuiet k u (guild ∷ guilds) =
      then-IsQuiet _ _ (tell_channels-IsQuiet k (env.accounts.channels_of guild u))
        (send_voice_roster_snapshot_to_connection-IsQuiet k u guilds)

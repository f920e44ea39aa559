-- ===== src/Handlers/ModeChange.antt =====
-- What a change of the media mode leaves of the rooms.
use baker_self_hosted_voice.Common.{
  String, false, none, List, [], ◌∷◌, ◌≡◌, refl, ◌∙◌, ap, arith, if◌then◌else◌,
}
use baker_self_hosted_voice.Common.StringMap.{StringMap, get, keys}
use baker_self_hosted_voice.Common.StringMap.Laws.{get-delete}
use baker_self_hosted_voice.Common.StringSet
use baker_self_hosted_voice.Voice.{Room, VoiceRoomManager, clear_channel, get_active_channel_ids}
use baker_self_hosted_voice.Stream.Leave
use baker_self_hosted_voice.Music.Leave as MusicLeave
use baker_self_hosted_voice.Router.{GatewayRuntime, MediaMode}
use baker_self_hosted_voice.Handlers.{Environment, ◌⨾◌, tell}
use baker_self_hosted_voice.Handlers.Leaving.{is_same_mode, clear_voice, apply_media_mode}
use baker_self_hosted_voice.Handlers.Frames.{
  rooms_of, then-IsQuiet, tell-IsQuiet, idle_sessions-IsQuiet,
}
use baker_self_hosted_voice.Handlers.Departing.{Acts, then-Acts}

-- The rooms after the loop over channels.
unfoldable clear_channels : List String → VoiceRoomManager → VoiceRoomManager
clear_channels [] m = m
clear_channels (c ∷ cs) m = clear_channels cs (clear_channel m c)

get-clear_channels :
    (cs : List String) (m : VoiceRoomManager) (c : String)
    → get c (clear_channels cs m).rooms ≡ (if StringSet.has c cs then none else get c m.rooms)
unfolding clear_channels clear_channel StringSet.has
get-clear_channels [] m c = refl
get-clear_channels (d ∷ cs) m c =
    ground (arith, get-clear_channels cs (clear_channel m d) c, get-delete d c m.rooms)

get-keys :
    (rooms : StringMap Room) (c : String)
    → StringSet.has c (keys rooms) ≡ false
    → get c rooms ≡ none
unfolding get StringSet.has
get-keys [] c h = refl
get-keys ((d, room) ∷ rooms) c h = ground (arith, get-keys rooms c)

unoccupied : (rooms : StringMap Room) → ((c : String) → get c rooms ≡ none) → rooms ≡ []
unfolding get
unoccupied [] h = refl
unoccupied ((d, room) ∷ rooms) h = absurd (ground (arith, h d))

clear_channels-all :
    (m : VoiceRoomManager) → clear_channels (get_active_channel_ids m) m ≡ record { rooms = [] }
clear_channels-all m =
    ap (λ r. record { rooms = r })
      (unoccupied (clear_channels (keys m.rooms) m).rooms
        (λ c. ground (arith, get-clear_channels (keys m.rooms) m c, get-keys m.rooms c)))

module _ {D : Type 0} (env : Environment) where
  clear_voice-Acts :
      (cs : List String)
      → Acts
          (clear_voice {D = D} env cs)
          (λ r. record r { voice_room = clear_channels cs r.voice_room })
  unfolding clear_voice clear_channels tell ◌⨾◌
  clear_voice-Acts [] g = refl
  clear_voice-Acts (c ∷ cs) g = clear_voice-Acts cs _

  -- A change to another media mode empties every voice, stream and music room, whoever was there.
  pub apply_media_mode-empties :
      (mode : MediaMode) (g : GatewayRuntime D)
      → is_same_mode g.media_mode mode ≡ false
      → rooms_of (apply_media_mode env mode g).0 ≡ record {
        voice_room = record { rooms = [] };
        stream_room = record { rooms = [] };
        music_room = record { rooms = [] };
        media_mode = mode;
      }
  unfolding apply_media_mode Leave.clear_all MusicLeave.clear_all
  apply_media_mode-empties mode g different =
      let channels = get_active_channel_ids g.voice_room in
      let streams = (Leave.clear_all g.stream_room).1 in
      rw different (
        then-Acts _ _ (λ r. record r { voice_room = clear_channels channels r.voice_room }) (λ r. r)
          (clear_voice-Acts channels)
          (then-IsQuiet _ _ (idle_sessions-IsQuiet streams) (tell-IsQuiet _ _)) _
        ∙ ap
            (λ m. record {
              voice_room = m;
              stream_room = record { rooms = [] };
              music_room = record { rooms = [] };
              media_mode = mode;
            })
            (clear_channels-all g.voice_room))

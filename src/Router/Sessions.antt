-- ===== src/Router/Sessions.antt =====
-- Media sessions across the three room managers: none outlives the connection that holds it.
use baker_self_hosted_voice.Common.{
  String, false, ◌≡◌, ◌≢◌, refl, Option, none, some, arith, Option-cases, inl, inr, truthy,
}
use baker_self_hosted_voice.Common.StringMap.{get}
use baker_self_hosted_voice.Common.StringMap.Laws.{get-delete_self}
use baker_self_hosted_voice.Common.StringMap.Entries.{Distinct}
use baker_self_hosted_voice.Connection.{GatewayConnection}
use baker_self_hosted_voice.Voice.{get_participant, leave_all_channels}
use baker_self_hosted_voice.Voice.Slots.{get_participant-slot, leave_all_channels-slot}
use baker_self_hosted_voice.Stream
use baker_self_hosted_voice.Stream.{StreamPublicationRecord}
use baker_self_hosted_voice.Stream.Leave
use baker_self_hosted_voice.Stream.Invariant.{IsValid as StreamIsValid}
use baker_self_hosted_voice.Stream.Departures.{
  after_leave as stream_after_leave, leave_all_for_user-get_publication,
}
use baker_self_hosted_voice.Music
use baker_self_hosted_voice.Music.{MusicPublicationRecord}
use baker_self_hosted_voice.Music.Leave as MusicLeave
use baker_self_hosted_voice.Music.Invariant.{IsValid as MusicIsValid}
use baker_self_hosted_voice.Music.Departures.{
  after_leave as music_after_leave, music_leave_all_for_user-get_publication,
}
use baker_self_hosted_voice.Router.{
  GatewayRuntime, SessionMode, music_listen, music_publish, stream_publish, stream_watch, voice,
  MediaSessionDescriptor,
}
use baker_self_hosted_voice.Router.Access.{
  participant_holds, viewer_holds, listener_holds, music_host_holds, music_listener_in,
  stream_host_holds, holds_publication, holds_given, holds_session, validate_media_session_access,
}

-- The departures of one user by one connection from all rooms.
abbrev pub after_departures :
    {D : Type 0} → GatewayRuntime D → (user_id connection_id : String) → GatewayRuntime D
after_departures g u k = record g {
  voice_room = (leave_all_channels g.voice_room u (some k)).0;
  stream_room = (Leave.leave_all_for_user g.stream_room u (some k)).0;
  music_room = (MusicLeave.leave_all_for_user g.music_room u (some k)).0;
}

stream_host_gone :
    {D : Type 0} (u k n : String) (o : Option (StreamPublicationRecord D))
    → k ≢ ""
    → stream_host_holds (stream_after_leave u (some k) o) u k n ≡ false
stream_host_gone u k n o named = ground arith

stream_viewer_gone :
    {D : Type 0} (u k n : String) (o : Option (StreamPublicationRecord D))
    → k ≢ ""
    → viewer_holds (Stream.viewer_in (stream_after_leave u (some k) o) u) k n ≡ false
stream_viewer_gone u k n none named = refl
stream_viewer_gone u k n (some p) named = elim (Option-cases (get u p.viewers)) [
  | inl absent ↦ ground arith
  | inr (v, watching) ↦ ground (arith, get-delete_self u p.viewers)
]

music_host_gone :
    (u k n : String) (o : Option MusicPublicationRecord)
    → k ≢ ""
    → music_host_holds (music_after_leave u (some k) o) u k n ≡ false
music_host_gone u k n o named = ground arith

music_listener_gone :
    (u k n : String) (o : Option MusicPublicationRecord)
    → k ≢ ""
    → listener_holds (music_listener_in (music_after_leave u (some k) o) u) k n ≡ false
music_listener_gone u k n none named = refl
music_listener_gone u k n (some p) named = elim (Option-cases (get u p.listeners)) [
  | inl absent ↦ ground arith
  | inr (l, listening) ↦ ground (arith, get-delete_self u p.listeners)
]

module _ {D : Type 0} (g : GatewayRuntime D) (u k : String) (named : k ≢ "")
    (voices : Distinct g.voice_room.rooms) (streams : StreamIsValid g.stream_room)
    (musics : MusicIsValid g.music_room) where
  voice_gone :
      (c n : String)
      → participant_holds (get_participant (after_departures g u k).voice_room c u) k n ≡ false
  voice_gone c n =
      rw
        (
          get_participant-slot (after_departures g u k).voice_room c u,
          leave_all_channels-slot g.voice_room u (some k) c u voices,
        )
        (ground (arith, named))

  publication_gone :
      (mode : SessionMode) (c s n : String)
      → holds_publication (after_departures g u k) mode c s u k n ≡ false
  publication_gone voice c s n = refl
  publication_gone stream_publish c s n =
      rw (leave_all_for_user-get_publication g.stream_room u (some k) c s streams)
        (stream_host_gone u k n (Stream.get_publication g.stream_room c s) named)
  publication_gone stream_watch c s n =
      rw (leave_all_for_user-get_publication g.stream_room u (some k) c s streams)
        (stream_viewer_gone u k n (Stream.get_publication g.stream_room c s) named)
  publication_gone music_publish c s n =
      rw (music_leave_all_for_user-get_publication g.music_room u (some k) c s musics)
        (music_host_gone u k n (Music.get_publication g.music_room c s) named)
  publication_gone music_listen c s n =
      rw (music_leave_all_for_user-get_publication g.music_room u (some k) c s musics)
        (music_listener_gone u k n (Music.get_publication g.music_room c s) named)

  holds_given_gone :
      (mode : SessionMode) (c n : String) (o : Option String)
      → holds_given (after_departures g u k) mode c o u k n ≡ false
  holds_given_gone mode c n none = refl
  holds_given_gone mode c n (some s) = publication_gone mode c s n

  holds_session_gone :
      (connection : GatewayConnection) (mode : SessionMode) (d : MediaSessionDescriptor)
      → connection.id ≡ k
      → holds_session (after_departures g u k) connection u mode d ≡ false
  holds_session_gone connection voice d e = rw e (voice_gone d.channel_id d.session_id)
  holds_session_gone connection stream_publish d e =
      rw e (holds_given_gone stream_publish d.channel_id d.session_id (truthy d.stream_id))
  holds_session_gone connection stream_watch d e =
      rw e (holds_given_gone stream_watch d.channel_id d.session_id (truthy d.stream_id))
  holds_session_gone connection music_publish d e =
      rw e (holds_given_gone music_publish d.channel_id d.session_id (truthy d.stream_id))
  holds_session_gone connection music_listen d e =
      rw e (holds_given_gone music_listen d.channel_id d.session_id (truthy d.stream_id))

  -- After a user has left all voice, stream and music rooms by a connection whose id is not empty,
  -- that connection is given access to no media session of the user, of any mode. Before, no voice
  -- channel stands twice and the stream and music rooms are valid.
  pub validate_media_session_access-after_departures :
      (connection : GatewayConnection) (d : MediaSessionDescriptor)
      → connection.id ≡ k
      → validate_media_session_access (after_departures g u k) connection u d ≡ false
  unfolding validate_media_session_access
  validate_media_session_access-after_departures connection d e =
      holds_session_gone connection d.mode d e

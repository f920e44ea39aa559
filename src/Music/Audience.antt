-- ===== src/Music/Audience.antt =====
-- Who gets a music broadcast: the hosts and listeners of the channel and the extra connections, each
-- once.
use baker_self_hosted_voice.Common.{
  ℕ, String, Bool, false, ◌≡◌, refl, ap, ◌∙◌, List, [], ◌∷◌, arith, map, ◌||◌, ◌==◌,
}
use baker_self_hosted_voice.Common.StringMap.{get, values}
use baker_self_hosted_voice.Common.StringSet
use baker_self_hosted_voice.Connection.{ConnectionManager}
use baker_self_hosted_voice.Connection.Delivery.{send_all}
use baker_self_hosted_voice.Connection.Sequence.{letters, send_all-letters, spent}
use baker_self_hosted_voice.Music.{
  MusicListenerRecord, MusicPublicationRecord, MusicRoomManager, get_publications, audience_all,
  get_broadcast_connection_ids,
}
use baker_self_hosted_voice.Music.Snapshot.{create_snapshot, broadcast_state_updated}

-- Whether a connection is that of a listener in a list.
abbrev pub is_listener : String → List MusicListenerRecord → Bool
is_listener c [] = false
is_listener c (v ∷ vs) = v.connection_id == c || is_listener c vs

has-listeners :
    (c : String) (vs : List MusicListenerRecord)
    → StringSet.has c (map (λ v. v.connection_id) vs) ≡ is_listener c vs
unfolding StringSet.has
has-listeners c [] = refl
has-listeners c (v ∷ vs) = ground (arith, has-listeners c vs)

-- Whether a connection hosts or listens to a publication of a list.
abbrev pub takes_part : String → List MusicPublicationRecord → Bool
takes_part c [] = false
takes_part c (p ∷ ps) =
    p.host.connection_id == c || is_listener c (values p.listeners) || takes_part c ps

has-audience_all :
    (c : String) (ps : List MusicPublicationRecord)
    → StringSet.has c (audience_all ps) ≡ takes_part c ps
unfolding StringSet.has
has-audience_all c [] = refl
has-audience_all c (p ∷ ps) = ground (
  arith,
  has-audience_all c ps,
  has-listeners c (values p.listeners),
  StringSet.has-append c (map (λ v. v.connection_id) (values p.listeners)) (audience_all ps),
)

-- The addressees of a broadcast are the extra connections and those that host or listen to in the
-- channel, none of them twice.
music_get_broadcast_connection_ids-has :
    (m : MusicRoomManager) (channel : String) (extra : List String)
    → StringSet.Distinct (get_broadcast_connection_ids m channel extra)
      × ((c : String)
          → StringSet.has c (get_broadcast_connection_ids m channel extra)
            ≡ (StringSet.has c extra || takes_part c (get_publications m channel)))
unfolding get_broadcast_connection_ids
music_get_broadcast_connection_ids-has m channel extra =
    let ps = get_publications m channel in
    (
      StringSet.add_all-Distinct (audience_all ps) (StringSet.from_list extra)
          (StringSet.from_list-Distinct extra),
      λ c. ground (
        arith,
        StringSet.has-add_all c (audience_all ps) (StringSet.from_list extra),
        StringSet.has-from_list c extra,
        has-audience_all c ps,
      ),
    )

updated-send_all :
    (accepts : ℕ → Bool) (conns : ConnectionManager) (m : MusicRoomManager) (channel : String)
    (extra : List String)
    → broadcast_state_updated accepts conns m channel extra
      ≡ send_all accepts
          (create_snapshot m channel)
          (get_broadcast_connection_ids m channel extra)
          conns
unfolding broadcast_state_updated send_all
updated-send_all accepts conns m channel extra = ground arith

-- A state update sends the channel's snapshot once to each live addressee, under its next number;
-- the numbers of the extra connections and of those that take part are spent, and nothing else
-- of any connection changes.
music_broadcast_state_updated-letters :
    (accepts : ℕ → Bool) (conns : ConnectionManager) (m : MusicRoomManager) (channel : String)
    (extra : List String)
    → let r = broadcast_state_updated accepts conns m channel extra in
      (r.1
        ≡ letters accepts
            (create_snapshot m channel)
            conns
            (get_broadcast_connection_ids m channel extra))
      × ((c : String)
          → get c r.0.connections
            ≡ spent
                (StringSet.has c extra || takes_part c (get_publications m channel))
                (get c conns.connections))
music_broadcast_state_updated-letters accepts conns m channel extra =
    let ids = get_broadcast_connection_ids m channel extra in
    let (distinct, members) = music_get_broadcast_connection_ids-has m channel extra in
    let (sent, entries) = send_all-letters accepts (create_snapshot m channel) ids conns distinct in
    rw (updated-send_all accepts conns m channel extra)
      (sent, λ c. entries c ∙ ap (λ b. spent b (get c conns.connections)) (members c))

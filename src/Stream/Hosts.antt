-- ===== src/Stream/Hosts.antt =====
-- No user hosts two publications of a room.
use baker_self_hosted_voice.Common.{String, false, ◌≡◌, ◌≢◌, refl, some, [], ◌∷◌, arith}
use baker_self_hosted_voice.Common.StringMap.{get, set, delete}
use baker_self_hosted_voice.Stream.{StreamPublicationRecord, Room}
use baker_self_hosted_voice.Stream.Publish.{hosts}

module _ {D : Type 0} where
  abbrev pub SoleHosts : Room D → Type 0
  SoleHosts [] = Unit
  SoleHosts ((s, p) ∷ room) = (hosts p.host.user_id room ≡ false) × SoleHosts room

  hosts-set :
      (u s : String) (p : StreamPublicationRecord D) (room : Room D)
      → hosts u room ≡ false
      → p.host.user_id ≢ u
      → hosts u (set s p room) ≡ false
  unfolding hosts set
  hosts-set u s p [] h ne = ground (arith, ne)
  hosts-set u s p ((t, q) ∷ room) h ne = ground (arith, ne, hosts-set u s p room)

  pub hosts-delete :
      (u s : String) (room : Room D) → hosts u room ≡ false → hosts u (delete s room) ≡ false
  unfolding hosts delete
  hosts-delete u s [] h = refl
  hosts-delete u s ((t, q) ∷ room) h = ground (arith, hosts-delete u s room)

  -- A publication of a user who hosted none keeps the hosts apart.
  pub set-SoleHosts :
      (s : String) (p : StreamPublicationRecord D) (room : Room D)
      → hosts p.host.user_id room ≡ false
      → SoleHosts room
      → SoleHosts (set s p room)
  unfolding hosts set
  set-SoleHosts s p [] h o = (refl, tt)
  set-SoleHosts s p ((t, q) ∷ room) h o =
      ground (arith, set-SoleHosts s p room, hosts-set q.host.user_id s p room)

  hosts-set_same :
      (u s : String) (p q : StreamPublicationRecord D) (room : Room D)
      → get s room ≡ some q
      → p.host ≡ q.host
      → hosts u (set s p room) ≡ hosts u room
  unfolding hosts set get
  hosts-set_same u s p q [] e h = cc
  hosts-set_same u s p q ((t, r) ∷ room) e h = ground (arith, hosts-set_same u s p q room)

  -- A change of a publication that keeps its host keeps the hosts apart.
  pub set_same-SoleHosts :
      (s : String) (p q : StreamPublicationRecord D) (room : Room D)
      → get s room ≡ some q
      → p.host ≡ q.host
      → SoleHosts room
      → SoleHosts (set s p room)
  unfolding hosts set get
  set_same-SoleHosts s p q [] e h o = cc
  set_same-SoleHosts s p q ((t, r) ∷ room) e h o =
      ground (arith, set_same-SoleHosts s p q room, hosts-set_same r.host.user_id s p q room)

  pub delete-SoleHosts : (s : String) (room : Room D) → SoleHosts room → SoleHosts (delete s room)
  unfolding hosts delete
  delete-SoleHosts s [] o = tt
  delete-SoleHosts s ((t, q) ∷ room) o =
      ground (arith, delete-SoleHosts s room o.1, hosts-delete q.host.user_id s room o.0)

-- ===== src/Desktop/Removal.antt =====
-- What a removal does to the active server, and that it takes back an insertion.
use mathlib.Core.Path.{subst}
use mathlib.Core.List.{append-nil}
use baker_self_hosted_voice.Common.{
  ℕ, zero, suc, ◌-◌, min, String, Bool, true, false, Option, none, some, List, [], ◌∷◌, ◌++◌, ◌≡◌,
  ◌≢◌, refl, sym, ◌∙◌, ap, length, length-append, arith,
}
use baker_self_hosted_voice.Common.StringMap.{is_some}
use baker_self_hosted_voice.Desktop.{
  DesktopServerEntry, DesktopServerRegistry, find_index, upsert_desktop_server, without, renumber,
  id_at, active_after, remove_at, remove_desktop_server,
}
use baker_self_hosted_voice.Desktop.Registry.{
  lists, Distinct, IsNumbered, IsListed, IsValid, find_index-lists,
}

-- The id of the last server, if there is one.
abbrev pub last_id : List DesktopServerEntry → Option String
last_id [] = none
last_id (e ∷ []) = some e.id
last_id (e ∷ f ∷ es) = last_id (f ∷ es)

-- The server that stands next, or else the one before.
abbrev pub neighbour : (before after : List DesktopServerEntry) → Option String
neighbour before [] = last_id before
neighbour before (e ∷ after) = some e.id

without_absent :
    (x : String) (es : List DesktopServerEntry) → lists x es ≡ false → without x es ≡ es
unfolding without lists
without_absent x [] h = refl
without_absent x (e ∷ es) h = ground (arith, without_absent x es)

middle-listed :
    (x : String) (before after : List DesktopServerEntry) (e : DesktopServerEntry)
    → e.id ≡ x
    → lists x (before ++ (e ∷ after)) ≡ true
unfolding lists
middle-listed x [] after e h = ground arith
middle-listed x (f ∷ before) after e h = ground (arith, middle-listed x before after e h)

-- A server that is listed once.
lists-middle :
    (before after : List DesktopServerEntry) (e : DesktopServerEntry)
    → Distinct (before ++ (e ∷ after))
    → (lists e.id before ≡ false) × (lists e.id after ≡ false)
unfolding lists
lists-middle [] after e d = (refl, d.0)
lists-middle (f ∷ before) after e d =
    let rest = lists-middle before after e d.1 in ground (arith, middle-listed f.id before after e)

find_index-middle :
    (before after : List DesktopServerEntry) (e : DesktopServerEntry)
    → lists e.id before ≡ false
    → find_index e.id (before ++ (e ∷ after)) ≡ some (length before)
unfolding find_index lists
find_index-middle [] after e h = ground arith
find_index-middle (f ∷ before) after e h = ground (arith, find_index-middle before after e)

without-middle :
    (x : String) (before after : List DesktopServerEntry) (e : DesktopServerEntry)
    → e.id ≡ x
    → lists x before ≡ false
    → lists x after ≡ false
    → without x (before ++ (e ∷ after)) ≡ before ++ after
unfolding without lists
without-middle x [] after e h b a = ground (arith, without_absent x after a)
without-middle x (f ∷ before) after e h b a = ground (arith, without-middle x before after e h)

id_at-renumber : (i k : ℕ) (es : List DesktopServerEntry) → id_at i (renumber k es) ≡ id_at i es
unfolding id_at renumber
id_at-renumber i k [] = refl
id_at-renumber zero k (e ∷ es) = refl
id_at-renumber (suc i) k (e ∷ es) = id_at-renumber i (suc k) es

length-renumber : (k : ℕ) (es : List DesktopServerEntry) → length (renumber k es) ≡ length es
unfolding renumber
length-renumber k [] = refl
length-renumber k (e ∷ es) = ap suc (length-renumber (suc k) es)

id_at-next :
    (before after : List DesktopServerEntry) (e : DesktopServerEntry)
    → id_at (length before) (before ++ (e ∷ after)) ≡ some e.id
unfolding id_at
id_at-next [] after e = refl
id_at-next (f ∷ before) after e = id_at-next before after e

id_at-last :
    (e : DesktopServerEntry) (es : List DesktopServerEntry)
    → id_at (length es) (e ∷ es) ≡ last_id (e ∷ es)
unfolding id_at
id_at-last e [] = refl
id_at-last e (f ∷ es) = id_at-last f es

fallback-last :
    (es : List DesktopServerEntry) → id_at (min (length es) (length es - 1)) es ≡ last_id es
unfolding id_at
fallback-last [] = refl
fallback-last (e ∷ es) =
    let place : min (suc (length es)) (suc (length es) - 1) ≡ length es = omega arith in
    ap (λ i. id_at i (e ∷ es)) place ∙ id_at-last e es

-- What the fallback reads.
fallback-neighbour :
    (before after : List DesktopServerEntry)
    → id_at (min (length before) (length (before ++ after) - 1)) (before ++ after)
      ≡ neighbour before after
unfolding id_at
fallback-neighbour before [] = rw append-nil (fallback-last before)
fallback-neighbour before (f ∷ after) =
    let place : min (length before) (length (before ++ (f ∷ after)) - 1) ≡ length before =
      omega (arith, length-append before (f ∷ after)) in
    rw place (id_at-next before after f)

remove_at-neighbour :
    (r : DesktopServerRegistry) (before after : List DesktopServerEntry) (e : DesktopServerEntry)
    → r.servers ≡ before ++ (e ∷ after)
    → r.active_server_id ≡ some e.id
    → without e.id r.servers ≡ before ++ after
    → (remove_at (some (length before)) r e.id).active_server_id ≡ neighbour before after
remove_at-neighbour r before after e split active left =
    let es = before ++ after in
    let i = min (length before) (length es - 1) in
    let fallback = id_at-renumber i 0 es ∙ fallback-neighbour before after in
    rw (active, left, length-renumber 0 es) (ground (arith, fallback))

-- Where the active server is removed, the one that stood next becomes active, or else the one that
-- stood before it, or else none. The registry is valid and `before` and `after` are the servers around the
-- removed one.
pub remove_desktop_server-neighbour :
    (r : DesktopServerRegistry) (before after : List DesktopServerEntry) (e : DesktopServerEntry)
    → IsValid r
    → r.servers ≡ before ++ (e ∷ after)
    → r.active_server_id ≡ some e.id
    → ((remove_desktop_server r e.id).active_server_id ≡ neighbour before after)
      × ((remove_desktop_server r e.id).servers ≡ renumber 0 (before ++ after))
unfolding remove_desktop_server
remove_desktop_server-neighbour r before after e v split active =
    let once = lists-middle before after e (subst Distinct split v.distinct) in
    let place : find_index e.id r.servers ≡ some (length before) =
      rw split (find_index-middle before after e once.0) in
    let left : without e.id r.servers ≡ before ++ after =
      rw split (without-middle e.id before after e refl once.0 once.1) in
    rw place (remove_at-neighbour r before after e split active left, ap (renumber 0) left)

pub renumber_same : (k : ℕ) (es : List DesktopServerEntry) → IsNumbered k es → renumber k es ≡ es
unfolding renumber
renumber_same k [] n = refl
renumber_same k (e ∷ es) n =
    rw (renumber_same (suc k) es n.1) (ap (λ i. record e { order = i } ∷ es) (sym n.0))

active_after-other :
    (a : Option String) (x : String) (fallback : Option String) (es : List DesktopServerEntry)
    → IsListed a es
    → lists x es ≡ false
    → active_after a x fallback ≡ a
active_after-other none x fallback es l h = refl
active_after-other (some a) x fallback es l h =
    let other : a ≢ x = λ same. cc (ap (λ y. lists y es) same) in ground arith

find_index-none : (o : Option ℕ) (b : Bool) → is_some o ≡ b → b ≡ false → o ≡ none
find_index-none none b e h = refl
find_index-none (some i) b e h = cc

-- A server that is added under a new id, without making it active, and removed again leaves the
-- registry as it was. The registry is valid.
pub remove_desktop_server-upsert_desktop_server :
    (r : DesktopServerRegistry) (s : DesktopServerEntry)
    → IsValid r
    → lists s.id r.servers ≡ false
    → remove_desktop_server (upsert_desktop_server r s false) s.id ≡ r
unfolding remove_desktop_server upsert_desktop_server lists
remove_desktop_server-upsert_desktop_server r s v fresh =
    let es = r.servers in
    let new : DesktopServerEntry = record s { order = length es } in
    let added : find_index s.id es ≡ none =
      find_index-none (find_index s.id es) (lists s.id es) (find_index-lists s.id es) fresh in
    let place = find_index-middle es [] new fresh in
    let fallback = id_at (min (length es) (length es - 1)) es in
    let left = without-middle s.id es [] new refl fresh refl in
    rw (added, place, left, append-nil, renumber_same 0 es v.numbered)
      (ap (λ a. record { active_server_id = a; servers = es })
        (active_after-other r.active_server_id s.id fallback es v.active fresh))

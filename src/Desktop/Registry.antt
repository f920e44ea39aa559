-- ===== src/Desktop/Registry.antt =====
-- The invariant of the server registry: different ids, orders that count the places, and an active
-- server that is listed.
use baker_self_hosted_voice.Common.{
  ℕ, zero, suc, ◌+◌, ◌-◌, min, String, Bool, true, false, Option, none, some, List, [], ◌∷◌, ◌++◌,
  ◌≡◌, refl, sym, ite, str_dec, length, arith, if◌then◌else◌,
}
use baker_self_hosted_voice.Common.StringMap.{is_some}
use baker_self_hosted_voice.Desktop.{
  DesktopServerEntry, DesktopServerRegistry, one_later, find_index, replace, upsert_at,
  upsert_desktop_server, without, renumber, id_at, active_after, remove_at, remove_desktop_server,
}

unfoldable pub lists : (id : String) → List DesktopServerEntry → Bool
lists x [] = false
lists x (e ∷ es) = ite (str_dec e.id x) true (lists x es)

abbrev pub Distinct : List DesktopServerEntry → Type 0
Distinct [] = Unit
Distinct (e ∷ es) = (lists e.id es ≡ false) × Distinct es

-- The orders count from `k`.
abbrev pub IsNumbered : (k : ℕ) → List DesktopServerEntry → Type 0
IsNumbered k [] = Unit
IsNumbered k (e ∷ es) = (e.order ≡ k) × IsNumbered (suc k) es

abbrev pub IsListed : Option String → List DesktopServerEntry → Type 0
IsListed none es = Unit
IsListed (some x) es = lists x es ≡ true

pub record IsValid (r : DesktopServerRegistry) : Type 0 where
  pub distinct : Distinct r.servers
  pub numbered : IsNumbered 0 r.servers
  pub active : IsListed r.active_server_id r.servers

is_some-one_later : (o : Option ℕ) → is_some (one_later o) ≡ is_some o
is_some-one_later none = refl
is_some-one_later (some i) = refl

pub find_index-lists :
    (x : String) (es : List DesktopServerEntry) → is_some (find_index x es) ≡ lists x es
unfolding find_index lists
find_index-lists x [] = refl
find_index-lists x (e ∷ es) =
    ground (arith, find_index-lists x es, is_some-one_later (find_index x es))

lists-append :
    (x : String) (es : List DesktopServerEntry) (e : DesktopServerEntry)
    → lists x (es ++ (e ∷ [])) ≡ ite (str_dec e.id x) true (lists x es)
unfolding lists
lists-append x [] e = refl
lists-append x (d ∷ es) e = ground (arith, lists-append x es e)

lists-without :
    (x y : String) (es : List DesktopServerEntry)
    → lists y (without x es) ≡ ite (str_dec x y) false (lists y es)
unfolding without lists
lists-without x y [] = ground arith
lists-without x y (e ∷ es) = ground (arith, lists-without x y es)

lists-replace :
    (s : DesktopServerEntry) (y : String) (es : List DesktopServerEntry)
    → lists y (replace s es) ≡ lists y es
unfolding replace lists
lists-replace s y [] = refl
lists-replace s y (e ∷ es) = ground (arith, lists-replace s y es)

lists-renumber :
    (y : String) (k : ℕ) (es : List DesktopServerEntry) → lists y (renumber k es) ≡ lists y es
unfolding renumber lists
lists-renumber y k [] = refl
lists-renumber y k (e ∷ es) = ground (arith, lists-renumber y (suc k) es)

append-Distinct :
    (es : List DesktopServerEntry) (e : DesktopServerEntry)
    → Distinct es
    → lists e.id es ≡ false
    → Distinct (es ++ (e ∷ []))
unfolding lists
append-Distinct [] e d h = (refl, tt)
append-Distinct (f ∷ es) e d h =
    (ground (arith, lists-append f.id es e), append-Distinct es e d.1 (ground arith))

replace-Distinct :
    (s : DesktopServerEntry) (es : List DesktopServerEntry) → Distinct es → Distinct (replace s es)
unfolding replace
replace-Distinct s [] d = tt
replace-Distinct s (e ∷ es) d =
    ground (arith, replace-Distinct s es d.1, lists-replace s e.id es, lists-replace s s.id es)

without-Distinct :
    (x : String) (es : List DesktopServerEntry) → Distinct es → Distinct (without x es)
unfolding without
without-Distinct x [] d = tt
without-Distinct x (e ∷ es) d = ground (arith, without-Distinct x es d.1, lists-without x e.id es)

pub renumber-Distinct :
    (k : ℕ) (es : List DesktopServerEntry) → Distinct es → Distinct (renumber k es)
unfolding renumber
renumber-Distinct k [] d = tt
renumber-Distinct k (e ∷ es) d =
    (ground (arith, lists-renumber e.id (suc k) es), renumber-Distinct (suc k) es d.1)

pub renumber-IsNumbered : (k : ℕ) (es : List DesktopServerEntry) → IsNumbered k (renumber k es)
unfolding renumber
renumber-IsNumbered k [] = tt
renumber-IsNumbered k (e ∷ es) = (refl, renumber-IsNumbered (suc k) es)

append-IsNumbered :
    (k i : ℕ) (es : List DesktopServerEntry) (s : DesktopServerEntry)
    → i ≡ k + length es
    → IsNumbered k es
    → IsNumbered k (es ++ (record s { order = i } ∷ []))
append-IsNumbered k i [] s h n = (omega arith, tt)
append-IsNumbered k i (e ∷ es) s h n = (n.0, append-IsNumbered (suc k) i es s (omega arith) n.1)

replace-IsNumbered :
    (k : ℕ) (s : DesktopServerEntry) (es : List DesktopServerEntry)
    → IsNumbered k es
    → IsNumbered k (replace s es)
unfolding replace
replace-IsNumbered k s [] n = tt
replace-IsNumbered k s (e ∷ es) n = ground (arith, replace-IsNumbered (suc k) s es n.1)

-- What is listed stays so where a server is put in front.
front-IsListed :
    (o : Option String) (e : DesktopServerEntry) (es : List DesktopServerEntry)
    → IsListed o es
    → IsListed o (e ∷ es)
unfolding lists
front-IsListed none e es h = tt
front-IsListed (some x) e es h = ground arith

-- The server at a place is listed.
pub id_at-IsListed : (i : ℕ) (es : List DesktopServerEntry) → IsListed (id_at i es) es
unfolding id_at lists
id_at-IsListed i [] = tt
id_at-IsListed zero (e ∷ es) = ground arith
id_at-IsListed (suc i) (e ∷ es) = front-IsListed (id_at i es) e es (id_at-IsListed i es)

active_after-IsListed :
    (a : Option String) (x : String) (i k : ℕ) (es : List DesktopServerEntry)
    → IsListed a es
    → let left = renumber k (without x es) in IsListed (active_after a x (id_at i left)) left
active_after-IsListed none x i k es h = tt
active_after-IsListed (some a) x i k es h =
    let left = renumber k (without x es) in
    ground (arith, lists-renumber a k (without x es), lists-without x a es, id_at-IsListed i left)

upsert_at-lists :
    (i : Option ℕ) (s : DesktopServerEntry) (y : String) (es : List DesktopServerEntry)
    → is_some i ≡ lists s.id es
    → lists y (upsert_at i s es) ≡ ite (str_dec s.id y) true (lists y es)
upsert_at-lists none s y es h = lists-append y es (record s { order = length es })
upsert_at-lists (some i) s y es h = ground (arith, lists-replace s y es)

upsert_at-Distinct :
    (i : Option ℕ) (s : DesktopServerEntry) (es : List DesktopServerEntry)
    → is_some i ≡ lists s.id es
    → Distinct es
    → Distinct (upsert_at i s es)
upsert_at-Distinct none s es h d = append-Distinct es (record s { order = length es }) d (sym h)
upsert_at-Distinct (some i) s es h d = replace-Distinct s es d

upsert_at-IsNumbered :
    (i : Option ℕ) (s : DesktopServerEntry) (es : List DesktopServerEntry)
    → IsNumbered 0 es
    → IsNumbered 0 (upsert_at i s es)
upsert_at-IsNumbered none s es n = append-IsNumbered 0 (length es) es s (omega arith) n
upsert_at-IsNumbered (some i) s es n = replace-IsNumbered 0 s es n

upsert_at-IsListed :
    (i : Option ℕ) (s : DesktopServerEntry) (es : List DesktopServerEntry)
    → is_some i ≡ lists s.id es
    → (make_active : Bool) (a : Option String) → IsListed a es
    → IsListed (if make_active then some s.id else a) (upsert_at i s es)
upsert_at-IsListed i s es h true a l = ground (arith, upsert_at-lists i s s.id es h)
upsert_at-IsListed i s es h false none l = tt
upsert_at-IsListed i s es h false (some x) l = ground (arith, upsert_at-lists i s x es h)

pub upsert_desktop_server-IsValid :
    (r : DesktopServerRegistry) (s : DesktopServerEntry) (make_active : Bool)
    → IsValid r
    → IsValid (upsert_desktop_server r s make_active)
unfolding upsert_desktop_server
upsert_desktop_server-IsValid r s make_active v =
    let i = find_index s.id r.servers in
    let h = find_index-lists s.id r.servers in
    record {
      distinct = upsert_at-Distinct i s r.servers h v.distinct;
      numbered = upsert_at-IsNumbered i s r.servers v.numbered;
      active = upsert_at-IsListed i s r.servers h make_active r.active_server_id v.active;
    }

remove_at-IsValid :
    (i : Option ℕ) (r : DesktopServerRegistry) (x : String) → IsValid r → IsValid (remove_at i r x)
remove_at-IsValid none r x v = v
remove_at-IsValid (some i) r x v =
    let servers = renumber 0 (without x r.servers) in
    record {
      distinct =
          renumber-Distinct 0 (without x r.servers) (without-Distinct x r.servers v.distinct);
      numbered = renumber-IsNumbered 0 (without x r.servers);
      active =
          active_after-IsListed r.active_server_id x (min i (length servers - 1)) 0 r.servers
            v.active;
    }

pub remove_desktop_server-IsValid :
    (r : DesktopServerRegistry) (x : String) → IsValid r → IsValid (remove_desktop_server r x)
unfolding remove_desktop_server
remove_desktop_server-IsValid r x v = remove_at-IsValid (find_index x r.servers) r x v

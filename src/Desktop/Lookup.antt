-- ===== src/Desktop/Lookup.antt =====
-- What is found in the server registry after a server is added or changed.
use baker_self_hosted_voice.Common.{
  ℕ, String, Bool, true, false, Option, none, some, List, [], ◌∷◌, ◌++◌, ◌≡◌, ◌≢◌, refl, ite,
  str_dec, length, arith,
}
use baker_self_hosted_voice.Common.StringMap.{is_some}
use baker_self_hosted_voice.Desktop.{
  DesktopServerEntry, DesktopServerRegistry, find_index, replace, upsert_at, upsert_desktop_server,
}
use baker_self_hosted_voice.Desktop.Registry.{lists, find_index-lists}

-- The first server with an id.
unfoldable pub entry_of : (id : String) → List DesktopServerEntry → Option DesktopServerEntry
entry_of x [] = none
entry_of x (e ∷ es) = ite (str_dec e.id x) (some e) (entry_of x es)

abbrev pub order_or : ℕ → Option DesktopServerEntry → ℕ
order_or n none = n
order_or n (some e) = e.order

is_some-entry_of :
    (x : String) (es : List DesktopServerEntry) → is_some (entry_of x es) ≡ lists x es
unfolding entry_of lists
is_some-entry_of x [] = refl
is_some-entry_of x (e ∷ es) = ground (arith, is_some-entry_of x es)

entry_of-append :
    (y : String) (es : List DesktopServerEntry) (s : DesktopServerEntry)
    → lists s.id es ≡ false
    → entry_of y (es ++ (s ∷ [])) ≡ ite (str_dec s.id y) (some s) (entry_of y es)
unfolding entry_of lists
entry_of-append y [] s h = refl
entry_of-append y (e ∷ es) s h = ground (arith, entry_of-append y es s)

entry_of-replace_other :
    (y : String) (es : List DesktopServerEntry) (s : DesktopServerEntry)
    → s.id ≢ y
    → entry_of y (replace s es) ≡ entry_of y es
unfolding entry_of replace
entry_of-replace_other y [] s h = refl
entry_of-replace_other y (e ∷ es) s h = ground (arith, entry_of-replace_other y es s h)

entry_of-replace_same :
    (n : ℕ) (es : List DesktopServerEntry) (s : DesktopServerEntry)
    → lists s.id es ≡ true
    → entry_of s.id (replace s es) ≡ some (record s { order = order_or n (entry_of s.id es) })
unfolding entry_of lists replace
entry_of-replace_same n [] s h = cc
entry_of-replace_same n (e ∷ es) s h = ground (arith, entry_of-replace_same n es s)

entry_of-replace :
    (y : String) (n : ℕ) (es : List DesktopServerEntry) (s : DesktopServerEntry)
    → lists s.id es ≡ true
    → entry_of y (replace s es)
      ≡ ite
          (str_dec s.id y)
          (some (record s { order = order_or n (entry_of s.id es) }))
          (entry_of y es)
entry_of-replace y n es s h =
    ground (arith, entry_of-replace_same n es s h, entry_of-replace_other y es s)

upsert_at-entry_of :
    (i : Option ℕ) (s : DesktopServerEntry) (y : String) (es : List DesktopServerEntry)
    → is_some i ≡ lists s.id es
    → entry_of y (upsert_at i s es)
      ≡ ite
          (str_dec s.id y)
          (some (record s { order = order_or (length es) (entry_of s.id es) }))
          (entry_of y es)
upsert_at-entry_of none s y es h =
    let new : DesktopServerEntry = record s { order = length es } in
    ground (arith, is_some-entry_of s.id es, entry_of-append y es new)
upsert_at-entry_of (some i) s y es h = ground (arith, entry_of-replace y (length es) es s)

-- After a server is added or changed, its id finds it, with the order of the server it replaces or,
-- where there was none, the number of servers; every other id finds what it found before.
pub upsert_desktop_server-entry_of :
    (r : DesktopServerRegistry) (s : DesktopServerEntry) (make_active : Bool) (y : String)
    → entry_of y (upsert_desktop_server r s make_active).servers
      ≡ ite
          (str_dec s.id y)
          (some (record s { order = order_or (length r.servers) (entry_of s.id r.servers) }))
          (entry_of y r.servers)
unfolding upsert_desktop_server
upsert_desktop_server-entry_of r s make_active y =
    upsert_at-entry_of (find_index s.id r.servers) s y r.servers (find_index-lists s.id r.servers)

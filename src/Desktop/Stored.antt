-- ===== src/Desktop/Stored.antt =====
-- What is read from a stored file is a valid registry, and stays one.
use baker_self_hosted_voice.Common.{
  String, Bool, true, false, Option, none, some, List, [], ◌∷◌, ◌≡◌, refl, ite, str_dec, arith,
  if◌then◌else◌,
}
use baker_self_hosted_voice.Common.StringSet.{has, add, has-add}
use baker_self_hosted_voice.Desktop.{
  DesktopServerRegistry, upsert_desktop_server, remove_desktop_server, DesktopServerConfig,
  DesktopServerEntry, renumber,
}
use baker_self_hosted_voice.Desktop.Parse.{
  Fields, Value, other, number, text, array, object, keep_new, insert_by_order, sort_by_order,
  active_of, items, is_current, ParsedDesktopServerRegistry, parse_current, migrate, parse_object,
  parse_desktop_server_registry, read_entries, read_string, field, read_config,
}
use baker_self_hosted_voice.Desktop.Registry.{
  lists, Distinct, upsert_desktop_server-IsValid, remove_desktop_server-IsValid, IsListed, IsValid,
  renumber-Distinct, renumber-IsNumbered, id_at-IsListed,
}

-- What was seen is not kept again.
lists-keep_new :
    (x : String) (seen : List String) (es : List (Option DesktopServerEntry))
    → has x seen ≡ true
    → lists x (keep_new seen es) ≡ false
unfolding lists keep_new
lists-keep_new x seen [] h = refl
lists-keep_new x seen (none ∷ es) h = lists-keep_new x seen es h
lists-keep_new x seen (some e ∷ es) h =
    ground
      (arith, lists-keep_new x seen es h, lists-keep_new x (add e.id seen) es, has-add e.id x seen)

keep_new-Distinct :
    (seen : List String) (es : List (Option DesktopServerEntry)) → Distinct (keep_new seen es)
unfolding keep_new
keep_new-Distinct seen [] = tt
keep_new-Distinct seen (none ∷ es) = keep_new-Distinct seen es
keep_new-Distinct seen (some e ∷ es) = ground (
  arith,
  keep_new-Distinct seen es,
  keep_new-Distinct (add e.id seen) es,
  lists-keep_new e.id (add e.id seen) es,
  has-add e.id e.id seen,
)

lists-insert_by_order :
    (x : String) (e : DesktopServerEntry) (es : List DesktopServerEntry)
    → lists x (insert_by_order e es) ≡ ite (str_dec e.id x) true (lists x es)
unfolding lists insert_by_order
lists-insert_by_order x e [] = refl
lists-insert_by_order x e (f ∷ es) = ground (arith, lists-insert_by_order x e es)

insert_by_order-Distinct :
    (e : DesktopServerEntry) (es : List DesktopServerEntry)
    → lists e.id es ≡ false
    → Distinct es
    → Distinct (insert_by_order e es)
unfolding lists insert_by_order
insert_by_order-Distinct e [] h d = (refl, tt)
insert_by_order-Distinct e (f ∷ es) h d =
    ground (arith, insert_by_order-Distinct e es, d, lists-insert_by_order f.id e es)

lists-sort_by_order :
    (x : String) (es : List DesktopServerEntry) → lists x (sort_by_order es) ≡ lists x es
unfolding lists sort_by_order
lists-sort_by_order x [] = refl
lists-sort_by_order x (e ∷ es) =
    ground (arith, lists-insert_by_order x e (sort_by_order es), lists-sort_by_order x es)

sort_by_order-Distinct : (es : List DesktopServerEntry) → Distinct es → Distinct (sort_by_order es)
unfolding sort_by_order
sort_by_order-Distinct [] d = tt
sort_by_order-Distinct (e ∷ es) d =
    insert_by_order-Distinct e (sort_by_order es) (rw (lists-sort_by_order e.id es) d.0)
      (sort_by_order-Distinct es d.1)

active_of-IsListed :
    (a : Option String) (es : List DesktopServerEntry) → IsListed (active_of a es) es
active_of-IsListed none es = id_at-IsListed 0 es
active_of-IsListed (some x) es = ground (arith, id_at-IsListed 0 es)

-- What a user does with the registry.
pub data Change : Type 0 where
  upsert : (server : DesktopServerEntry) (make_active : Bool) → Change
  remove : (id : String) → Change

abbrev pub change : Change → DesktopServerRegistry → DesktopServerRegistry
change (upsert s make_active) r = upsert_desktop_server r s make_active
change (remove x) r = remove_desktop_server r x

change-IsValid : (c : Change) (r : DesktopServerRegistry) → IsValid r → IsValid (change c r)
change-IsValid (upsert s make_active) r v = upsert_desktop_server-IsValid r s make_active v
change-IsValid (remove x) r v = remove_desktop_server-IsValid r x v

abbrev pub changes : List Change → DesktopServerRegistry → DesktopServerRegistry
changes [] r = r
changes (c ∷ cs) r = changes cs (change c r)

changes-IsValid :
    (cs : List Change) (r : DesktopServerRegistry) → IsValid r → IsValid (changes cs r)
changes-IsValid [] r v = v
changes-IsValid (c ∷ cs) r v = changes-IsValid cs (change c r) (change-IsValid c r v)

chosen-IsValid :
    (b : Bool) (p q : ParsedDesktopServerRegistry)
    → IsValid p.registry
    → IsValid q.registry
    → IsValid (if b then p else q).registry
chosen-IsValid true p q h k = h
chosen-IsValid false p q h k = k

module _ (trim : String → String) where
  parse_current-IsValid : (fs : Fields) → IsValid (parse_current trim fs).registry
  parse_current-IsValid fs =
      let known = keep_new [] (read_entries trim 0 (items (field "servers" fs))) in
      let sorted = sort_by_order known in
      let distinct = sort_by_order-Distinct known (keep_new-Distinct [] _) in
      record {
        distinct = renumber-Distinct 0 sorted distinct;
        numbered = renumber-IsNumbered 0 sorted;
        active =
            active_of-IsListed (read_string trim (field "activeServerId" fs)) (renumber 0 sorted);
      }

  migrate-IsValid :
      (o : Option DesktopServerConfig) (id : String) → IsValid (migrate trim o id).registry
  unfolding lists
  migrate-IsValid none id = record { distinct = tt; numbered = tt; active = tt }
  migrate-IsValid (some c) id = record {
    distinct = (refl, tt);
    numbered = (refl, tt);
    active = ground arith;
  }

  parse_object-IsValid : (fs : Fields) (id : String) → IsValid (parse_object trim fs id).registry
  parse_object-IsValid fs id =
      chosen-IsValid (is_current (field "schemaVersion" fs)) (parse_current trim fs)
        (migrate trim (read_config trim fs) id) (parse_current-IsValid fs)
        (migrate-IsValid (read_config trim fs) id)

  parse-IsValid :
      (v : Value) (id : String) → IsValid (parse_desktop_server_registry trim v id).registry
  unfolding parse_desktop_server_registry
  parse-IsValid (object fs) id = parse_object-IsValid fs id
  parse-IsValid other id = migrate-IsValid none id
  parse-IsValid (number n) id = migrate-IsValid none id
  parse-IsValid (text s) id = migrate-IsValid none id
  parse-IsValid (array vs) id = migrate-IsValid none id

  -- Whatever value is stored, and whatever servers are added, changed and removed after it is read:
  -- the ids of the servers are different, the orders count the places from 0, and the active server,
  -- if any, is listed.
  pub registry_history-IsValid :
      (v : Value) (id : String) (cs : List Change)
      → IsValid (changes cs (parse_desktop_server_registry trim v id).registry)
  registry_history-IsValid v id cs = changes-IsValid cs _ (parse-IsValid v id)

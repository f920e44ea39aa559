-- ===== src/Desktop/RoundTrip.antt =====
-- apps/desktop/electron/main.ts: the registry as it is written to its file, and read again.
use baker_self_hosted_voice.Common.{
  ℕ, suc, String, true, false, Option, none, some, List, [], ◌∷◌, ◌≡◌, ◌≢◌, refl, arith, map,
  str_dec, truthy, All,
}
use baker_self_hosted_voice.Common.StringSet.{has, add, has-add}
use baker_self_hosted_voice.Desktop.{DesktopServerEntry, DesktopServerRegistry, id_at}
use baker_self_hosted_voice.Desktop.Parse.{
  from_zero, Value, Values, Fields, other, number, text, array, object, no_values, a_value,
  no_fields, a_field, field, read_string, read_config, read_fields, read_entries, keep_new,
  insert_by_order, sort_by_order, active_of, parse_desktop_server_registry,
}
use baker_self_hosted_voice.Desktop.Registry.{lists, Distinct, IsNumbered, IsListed, IsValid}
use baker_self_hosted_voice.Desktop.Removal.{renumber_same}

-- A text or null.
abbrev pub text_or_null : Option String → Value
text_or_null none = other
text_or_null (some s) = text s

abbrev pub entry_fields : DesktopServerEntry → Fields
entry_fields e = a_field "apiBaseUrl" (text e.config.api_base_url) (
    a_field "gatewayUrl" (text e.config.gateway_url) (
      a_field "input" (text e.config.input) (
        a_field "savedAt" (text e.config.saved_at) (
          a_field "serverVersion" (text e.config.server_version) (
            a_field "createdAt" (text e.created_at) (
              a_field "id" (text e.id) (
                a_field "lastConnectedAt" (text_or_null e.last_connected_at) (
                  a_field "name" (text e.name)
                    (a_field "order" (number (from_zero e.order true)) no_fields)))))))))

unfoldable pub entry_values : List DesktopServerEntry → Values
entry_values [] = no_values
entry_values (e ∷ es) = a_value (object (entry_fields e)) (entry_values es)

-- The value that `writeDesktopJson` writes and `JSON.parse` gives back.
abbrev pub registry_value : DesktopServerRegistry → Value
registry_value r = object (
    a_field "activeServerId" (text_or_null r.active_server_id) (
      a_field "schemaVersion" (number (from_zero 2 true))
        (a_field "servers" (array (entry_values r.servers)) no_fields)))

module _ (trim : String → String) where
  -- A text that is not blank.
  abbrev pub IsText : String → Type 0
  IsText s = (s ≢ "") × (trim s ≢ "")

  abbrev pub IsTextOrNull : Option String → Type 0
  IsTextOrNull none = Unit
  IsTextOrNull (some s) = trim s ≢ ""

  pub record IsWritten (e : DesktopServerEntry) : Type 0 where
    pub api_base_url : IsText e.config.api_base_url
    pub gateway_url : IsText e.config.gateway_url
    pub input : IsText e.config.input
    pub saved_at : IsText e.config.saved_at
    pub server_version : IsText e.config.server_version
    pub created_at : IsText e.created_at
    pub id : IsText e.id
    pub last_connected_at : IsTextOrNull e.last_connected_at
    pub name : IsText e.name

  read_string-text : (s : String) → trim s ≢ "" → read_string trim (text s) ≡ some s
  read_string-text s h = ground arith

  read_string-null : (o : Option String) → IsTextOrNull o → read_string trim (text_or_null o) ≡ o
  read_string-null none h = refl
  read_string-null (some s) h = read_string-text s h

  truthy-text : (s : String) → IsText s → truthy (read_string trim (text s)) ≡ some s
  truthy-text s h = ground arith

  read_config-entry_fields :
      (e : DesktopServerEntry) → IsWritten e → read_config trim (entry_fields e) ≡ some e.config
  unfolding read_config field str_dec
  read_config-entry_fields e w =
      let c = e.config in
      rw
        (
          truthy-text c.api_base_url w.api_base_url,
          truthy-text c.gateway_url w.gateway_url,
          truthy-text c.input w.input,
          truthy-text c.saved_at w.saved_at,
          truthy-text c.server_version w.server_version,
        )
        refl

  read_fields-entry_fields :
      (e : DesktopServerEntry) (n : ℕ) → IsWritten e → read_fields trim (entry_fields e) n ≡ some e
  unfolding field str_dec
  read_fields-entry_fields e n w =
      rw
        (
          read_config-entry_fields e w,
          truthy-text e.id w.id,
          read_string-text e.created_at w.created_at.1,
          read_string-null e.last_connected_at w.last_connected_at,
          read_string-text e.name w.name.1,
        )
        refl

  read_entries-entry_values :
      (k : ℕ) (es : List DesktopServerEntry)
      → All IsWritten es
      → read_entries trim k (entry_values es) ≡ map some es
  unfolding read_entries entry_values
  read_entries-entry_values k [] w = refl
  read_entries-entry_values k (e ∷ es) w =
      rw (read_fields-entry_fields e k w.0, read_entries-entry_values (suc k) es w.1) refl

-- None of the servers was seen.
abbrev IsUnseen : List String → DesktopServerEntry → Type 0
IsUnseen seen e = has e.id seen ≡ false

IsUnseen-add :
    (x : String) (seen : List String) (es : List DesktopServerEntry)
    → lists x es ≡ false
    → All (IsUnseen seen) es
    → All (IsUnseen (add x seen)) es
unfolding lists
IsUnseen-add x seen [] h u = tt
IsUnseen-add x seen (e ∷ es) h u =
    (ground (arith, has-add x e.id seen), IsUnseen-add x seen es (ground arith) u.1)

keep_new-map :
    (seen : List String) (es : List DesktopServerEntry)
    → Distinct es
    → All (IsUnseen seen) es
    → keep_new seen (map some es) ≡ es
unfolding keep_new
keep_new-map seen [] d u = refl
keep_new-map seen (e ∷ es) d u =
    rw (u.0, keep_new-map (add e.id seen) es d.1 (IsUnseen-add e.id seen es d.0 u.1)) refl

IsUnseen-at_first : (es : List DesktopServerEntry) → All (IsUnseen []) es
unfolding has
IsUnseen-at_first [] = tt
IsUnseen-at_first (e ∷ es) = (refl, IsUnseen-at_first es)

insert_by_order-first :
    (k : ℕ) (e : DesktopServerEntry) (es : List DesktopServerEntry)
    → e.order ≡ k
    → IsNumbered (suc k) es
    → insert_by_order e es ≡ e ∷ es
unfolding insert_by_order
insert_by_order-first k e [] h n = refl
insert_by_order-first k e (f ∷ es) h n = ground (arith, n.0)

sort_by_order-IsNumbered :
    (k : ℕ) (es : List DesktopServerEntry) → IsNumbered k es → sort_by_order es ≡ es
unfolding sort_by_order
sort_by_order-IsNumbered k [] n = refl
sort_by_order-IsNumbered k (e ∷ es) n =
    rw (sort_by_order-IsNumbered (suc k) es n.1) (insert_by_order-first k e es n.0 n.1)

active_of_same :
    (a : Option String) (es : List DesktopServerEntry)
    → IsListed a es
    → (a ≡ none → es ≡ [])
    → active_of a es ≡ a
unfolding id_at
active_of_same none es l h = rw (h refl) refl
active_of_same (some x) es l h = ground arith

module _ (trim : String → String) where
  -- A valid registry that is written to its file is read again as it was, and nothing is migrated.
  -- Its texts are not blank, and a server is active unless there is none.
  pub parse_desktop_server_registry-registry_value :
      (r : DesktopServerRegistry) (id : String)
      → IsValid r
      → All (IsWritten trim) r.servers
      → IsTextOrNull trim r.active_server_id
      → (r.active_server_id ≡ none → r.servers ≡ [])
      → parse_desktop_server_registry trim (registry_value r) id
        ≡ record { migrated = false; registry = r }
  unfolding parse_desktop_server_registry field str_dec
  parse_desktop_server_registry-registry_value r id v w t h =
      let es = r.servers in
      rw
        (
          read_entries-entry_values trim 0 es w,
          keep_new-map [] es v.distinct (IsUnseen-at_first es),
          sort_by_order-IsNumbered 0 es v.numbered,
          renumber_same 0 es v.numbered,
          read_string-null trim r.active_server_id t,
          active_of_same r.active_server_id es v.active h,
        )
        refl

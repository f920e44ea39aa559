-- ===== src/Desktop/Parse.antt =====
-- apps/desktop/src/server-registry.ts: what is read from a stored file, of this version or of the
-- version before, which kept one server. `trim` and the new id are parameters.
use baker_self_hosted_voice.Common.{
  ℕ, suc, String, Bool, true, false, Option, none, some, List, [], ◌∷◌, if◌then◌else◌, ◌==◌, truthy,
  or_else, leb, ◌&&◌,
}
use baker_self_hosted_voice.Common.StringSet.{has, add}
use baker_self_hosted_voice.Desktop.{
  DesktopServerConfig, DesktopServerEntry, DesktopServerRegistry, create_empty_server_registry,
  create_desktop_server_entry, renumber, id_at,
}
use baker_self_hosted_voice.Desktop.Registry.{lists}

infixl 15 ◌>>=◌
abbrev pub ◌>>=◌ : {A B : Type 0} → Option A → (A → Option B) → Option B
none >>= f = none
some a >>= f = f a

-- What the code reads of a number: its sign, its whole part and whether that is all of it.
pub data Number : Type 0 where
  below_zero : Number
  from_zero : (whole_part : ℕ) (is_whole : Bool) → Number
  not_finite : Number

-- A value of `JSON.parse`; `other` is null, a truth value or a field that is not there.
mutual
  pub data Value : Type 0 where
    other : Value
    number : Number → Value
    text : String → Value
    array : Values → Value
    object : Fields → Value

  pub data Values : Type 0 where
    no_values : Values
    a_value : Value → Values → Values

  pub data Fields : Type 0 where
    no_fields : Fields
    a_field : (key : String) → Value → Fields → Fields

unfoldable pub field : (key : String) → Fields → Value
field k no_fields = other
field k (a_field j v fs) = let rest = field k fs in if j == k then v else rest

module _ (trim : String → String) where
  abbrev pub read_string : Value → Option String
  read_string (text s) = if trim s == "" then none else some s
  read_string _ = none

  -- A text that must be there.
  abbrev given : (key : String) → Fields → Option String
  given k fs = truthy (read_string (field k fs))

  unfoldable pub read_config : Fields → Option DesktopServerConfig
  read_config fs = do
    api_base_url ← given "apiBaseUrl" fs
    gateway_url ← given "gatewayUrl" fs
    input ← given "input" fs
    saved_at ← given "savedAt" fs
    server_version ← given "serverVersion" fs
    some (record {
      api_base_url = api_base_url;
      gateway_url = gateway_url;
      input = input;
      saved_at = saved_at;
      server_version = server_version;
    })

  abbrev pub read_legacy_server : Value → Option DesktopServerConfig
  read_legacy_server (object fs) = read_config fs
  read_legacy_server _ = none

  abbrev pub read_order : Value → (fallback : ℕ) → ℕ
  read_order (number below_zero) n = 0
  read_order (number (from_zero i is_whole)) n = i
  read_order _ n = n

  abbrev pub read_fields : Fields → (fallback_order : ℕ) → Option DesktopServerEntry
  read_fields fs n = do
    config ← read_config fs
    id ← given "id" fs
    some (record {
      config = config;
      created_at = or_else (read_string (field "createdAt" fs)) config.saved_at;
      id = id;
      last_connected_at = read_string (field "lastConnectedAt" fs);
      name = or_else (read_string (field "name" fs)) "Baker";
      order = read_order (field "order" fs) n;
    })

  abbrev pub read_server_entry : Value → (fallback_order : ℕ) → Option DesktopServerEntry
  read_server_entry (object fs) n = read_fields fs n
  read_server_entry _ n = none

  -- `source.map((entry, index) => readServerEntry(entry, index))`, counted from `k`.
  unfoldable pub read_entries : (k : ℕ) → Values → List (Option DesktopServerEntry)
  read_entries k no_values = []
  read_entries k (a_value v vs) = read_server_entry v k ∷ read_entries (suc k) vs

-- The entries that could be read, without those whose id was seen before.
unfoldable pub keep_new :
    (seen : List String) → List (Option DesktopServerEntry) → List DesktopServerEntry
keep_new seen [] = []
keep_new seen (none ∷ es) = keep_new seen es
keep_new seen (some e ∷ es) =
    let known = keep_new seen es in
    let rest = keep_new (add e.id seen) es in if has e.id seen then known else (e ∷ rest)

-- `sort((left, right) => left.order - right.order)`, which keeps equals in their order.
unfoldable pub insert_by_order :
    DesktopServerEntry → List DesktopServerEntry → List DesktopServerEntry
insert_by_order e [] = e ∷ []
insert_by_order e (f ∷ fs) =
    let rest = insert_by_order e fs in if leb e.order f.order then (e ∷ f ∷ fs) else (f ∷ rest)

unfoldable pub sort_by_order : List DesktopServerEntry → List DesktopServerEntry
sort_by_order [] = []
sort_by_order (e ∷ es) = insert_by_order e (sort_by_order es)

-- The stored active server, if it is listed, or else the first one.
abbrev pub active_of : Option String → List DesktopServerEntry → Option String
active_of none es = id_at 0 es
active_of (some x) es = if lists x es then some x else id_at 0 es

-- `Array.isArray(value) ? value : []`
abbrev pub items : Value → Values
items (array vs) = vs
items _ = no_values

abbrev pub is_current : Value → Bool
is_current (number (from_zero n is_whole)) = is_whole && (leb n 2 && leb 2 n)
is_current _ = false

pub record ParsedDesktopServerRegistry : Type 0 where
  pub migrated : Bool
  pub registry : DesktopServerRegistry

module _ (trim : String → String) where
  abbrev pub parse_current : Fields → ParsedDesktopServerRegistry
  parse_current fs =
      let servers =
        renumber 0
          (sort_by_order (keep_new [] (read_entries trim 0 (items (field "servers" fs))))) in
      record {
        migrated = false;
        registry = record {
          active_server_id = active_of (read_string trim (field "activeServerId" fs)) servers;
          servers = servers;
        };
      }

  abbrev pub migrate : Option DesktopServerConfig → (id : String) → ParsedDesktopServerRegistry
  migrate none id = record { migrated = false; registry = create_empty_server_registry }
  migrate (some legacy) id =
      let server = create_desktop_server_entry trim legacy id "Baker" legacy.saved_at 0 in
      record {
        migrated = true;
        registry = record { active_server_id = some server.id; servers = server ∷ [] };
      }

  abbrev pub parse_object : Fields → (id : String) → ParsedDesktopServerRegistry
  parse_object fs id =
      if is_current (field "schemaVersion" fs)
      then parse_current fs
      else migrate (read_config trim fs) id

  -- `id` is the result of `createId()`.
  unfoldable pub parse_desktop_server_registry : Value → (id : String) → ParsedDesktopServerRegistry
  parse_desktop_server_registry (object fs) id = parse_object fs id
  parse_desktop_server_registry v id = migrate (read_legacy_server trim v) id

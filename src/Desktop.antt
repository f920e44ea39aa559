-- ===== src/Desktop.antt =====
-- apps/desktop/src/server-registry.ts: the servers that the desktop client knows, the active one among
-- them, and what adding and removing a server does to them. `trim` is a parameter.
use baker_self_hosted_voice.Common.{
  ℕ, zero, suc, ◌-◌, min, String, Bool, true, false, Option, none, some, List, [], ◌∷◌, ◌++◌, ite,
  if◌then◌else◌, ◌==◌, str_dec, length,
}
pub mod Registry
pub mod Removal
pub mod Lookup
pub mod Parse
pub mod Stored
pub mod RoundTrip
pub mod Tests

pub record DesktopServerConfig : Type 0 where
  pub api_base_url : String
  pub gateway_url : String
  pub input : String
  pub saved_at : String
  pub server_version : String

pub record DesktopServerEntry : Type 0 where
  pub config : DesktopServerConfig
  pub created_at : String
  pub id : String
  pub last_connected_at : Option String
  pub name : String
  pub order : ℕ

-- The schema version is the constant 2 and is left out.
pub record DesktopServerRegistry : Type 0 where
  pub active_server_id : Option String
  pub servers : List DesktopServerEntry

abbrev pub create_empty_server_registry : DesktopServerRegistry
create_empty_server_registry = record { active_server_id = none; servers = [] }

module _ (trim : String → String) where
  abbrev pub create_desktop_server_entry :
      (config : DesktopServerConfig) (id name now : String) (order : ℕ) → DesktopServerEntry
  create_desktop_server_entry config id name now order = record {
    config = config;
    created_at = now;
    id = id;
    last_connected_at = some now;
    name = if trim name == "" then "Baker" else trim name;
    order = order;
  }

abbrev pub one_later : Option ℕ → Option ℕ
one_later none = none
one_later (some i) = some (suc i)

-- `servers.findIndex((entry) => entry.id === id)`, none for -1.
unfoldable pub find_index : (id : String) → List DesktopServerEntry → Option ℕ
find_index x [] = none
find_index x (e ∷ es) = let rest = one_later (find_index x es) in ite (str_dec e.id x) (some 0) rest

unfoldable pub replace : DesktopServerEntry → List DesktopServerEntry → List DesktopServerEntry
replace s [] = []
replace s (e ∷ es) =
    let rest = replace s es in
    ite (str_dec e.id s.id) (record s { order = e.order } ∷ rest) (e ∷ rest)

abbrev pub upsert_at :
    Option ℕ → DesktopServerEntry → List DesktopServerEntry → List DesktopServerEntry
upsert_at none s es = es ++ (record s { order = length es } ∷ [])
upsert_at (some i) s es = replace s es

unfoldable pub upsert_desktop_server :
    DesktopServerRegistry
    → (server : DesktopServerEntry) (make_active : Bool) → DesktopServerRegistry
upsert_desktop_server r s make_active = record {
  active_server_id = if make_active then some s.id else r.active_server_id;
  servers = upsert_at (find_index s.id r.servers) s r.servers;
}

-- `servers.filter((entry) => entry.id !== id)`
unfoldable pub without : (id : String) → List DesktopServerEntry → List DesktopServerEntry
without x [] = []
without x (e ∷ es) = let rest = without x es in ite (str_dec e.id x) rest (e ∷ rest)

-- `servers.map((entry, order) => ({ ...entry, order }))`, counted from `k`.
unfoldable pub renumber : (k : ℕ) → List DesktopServerEntry → List DesktopServerEntry
renumber k [] = []
renumber k (e ∷ es) = record e { order = k } ∷ renumber (suc k) es

-- `servers[i]?.id ?? null`
unfoldable pub id_at : ℕ → List DesktopServerEntry → Option String
id_at i [] = none
id_at zero (e ∷ es) = some e.id
id_at (suc i) (e ∷ es) = id_at i es

-- The active server after a removal, by the one before.
abbrev pub active_after : Option String → (id : String) → (fallback : Option String) → Option String
active_after none x fallback = none
active_after (some a) x fallback = if a == x then fallback else some a

abbrev pub remove_at : Option ℕ → DesktopServerRegistry → (id : String) → DesktopServerRegistry
remove_at none r x = r
remove_at (some i) r x =
    let servers = renumber 0 (without x r.servers) in
    record {
      active_server_id =
          active_after r.active_server_id x (id_at (min i (length servers - 1)) servers);
      servers = servers;
    }

unfoldable pub remove_desktop_server : DesktopServerRegistry → (id : String) → DesktopServerRegistry
remove_desktop_server r x = remove_at (find_index x r.servers) r x

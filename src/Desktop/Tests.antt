-- ===== src/Desktop/Tests.antt =====
-- Runs of the server registry, and its theorems at concrete inputs.
use baker_self_hosted_voice.Common.{
  ℕ, String, false, true, ◌≡◌, refl, some, none, List, [], ◌∷◌, ite, str_dec, ne_of_test, All, ◌==◌,
}
use baker_self_hosted_voice.Desktop.{
  DesktopServerConfig, DesktopServerEntry, DesktopServerRegistry, create_empty_server_registry,
  create_desktop_server_entry, find_index, without, renumber, id_at, upsert_desktop_server,
  remove_desktop_server,
}
use baker_self_hosted_voice.Desktop.Registry.{lists, IsValid}
use baker_self_hosted_voice.Common.StringSet.{has, add}
use baker_self_hosted_voice.Desktop.Parse.{
  Number, below_zero, from_zero, Value, other, number, text, array, object, no_values, a_value,
  no_fields, a_field, field, read_config, read_entries, keep_new, insert_by_order, sort_by_order,
  parse_desktop_server_registry,
}
use baker_self_hosted_voice.Desktop.RoundTrip.{
  IsText, IsTextOrNull, IsWritten, registry_value, parse_desktop_server_registry-registry_value,
}
use baker_self_hosted_voice.Desktop.Stored.{
  Change, upsert, remove, changes, registry_history-IsValid,
}
use baker_self_hosted_voice.Desktop.Removal.{
  remove_desktop_server-neighbour, remove_desktop_server-upsert_desktop_server,
}
use baker_self_hosted_voice.Desktop.Lookup.{entry_of, order_or, upsert_desktop_server-entry_of}

abbrev config : DesktopServerConfig
config = record {
  api_base_url = "https://baker.example/api";
  gateway_url = "wss://baker.example/ws";
  input = "baker.example";
  saved_at = "2026-01-01";
  server_version = "1.2.3";
}

abbrev known : (id name : String) → DesktopServerEntry
known id name = create_desktop_server_entry (λ s. s) config id name "2026-01-01" 0

-- Three servers are added, the second one is active and is removed.
abbrev visits : List Change
visits =
    upsert (known "h" "Home") true
    ∷ upsert (known "w" "Work") true
    ∷ upsert (known "c" "") false
    ∷ remove "w"
    ∷ []

visits_run : changes visits create_empty_server_registry ≡ record {
  active_server_id = some "c";
  servers = known "h" "Home" ∷ record (known "c" "Baker") { order = 1 } ∷ [];
}
unfolding upsert_desktop_server remove_desktop_server find_index without renumber id_at str_dec
visits_run = refl

-- A stored file: a server without a name, a copy of it, one that cannot be read, and one that comes
-- first by its order.
abbrev stored : (id : String) → Number → Value
stored id order = object (
    a_field "apiBaseUrl" (text "https://baker.example/api") (
      a_field "gatewayUrl" (text "wss://baker.example/ws") (
        a_field "input" (text "baker.example") (
          a_field "savedAt" (text "2026-01-01") (
            a_field "serverVersion" (text "1.2.3")
              (a_field "id" (text id) (a_field "order" (number order) no_fields)))))))

abbrev file : Value
file = object (
    a_field "schemaVersion" (number (from_zero 2 true)) (
      a_field "activeServerId" (text "gone") (
        a_field "servers"
          (array (
            a_value (stored "h" (from_zero 5 true)) (
              a_value (stored "h" below_zero)
                (a_value other (a_value (stored "w" (from_zero 4 false)) no_values)))))
          no_fields)))

abbrev unnamed : (id : String) (order : ℕ) → DesktopServerEntry
unnamed id order = record {
  config = config;
  created_at = "2026-01-01";
  id = id;
  last_connected_at = none;
  name = "Baker";
  order = order;
}

parse_run : parse_desktop_server_registry (λ s. s) file "new" ≡ record {
  migrated = false;
  registry = record { active_server_id = some "w"; servers = unnamed "w" 0 ∷ unnamed "h" 1 ∷ [] };
}
unfolding parse_desktop_server_registry read_config read_entries field keep_new has add
    sort_by_order insert_by_order lists renumber id_at str_dec
parse_run = refl

registry_history-IsValid_example :
    IsValid (changes visits (parse_desktop_server_registry (λ s. s) file "new").registry)
registry_history-IsValid_example = registry_history-IsValid (λ s. s) file "new" visits

abbrev home_and_work : DesktopServerRegistry
home_and_work = record {
  active_server_id = some "w";
  servers = known "h" "Home" ∷ record (known "w" "Work") { order = 1 } ∷ [];
}

home_and_work-IsValid : IsValid home_and_work
unfolding lists str_dec
home_and_work-IsValid = record {
  distinct = (refl, (refl, tt));
  numbered = (refl, (refl, tt));
  active = refl;
}

remove_desktop_server-neighbour_example :
    ((remove_desktop_server home_and_work "w").active_server_id ≡ some "h")
    × ((remove_desktop_server home_and_work "w").servers ≡ renumber 0 (known "h" "Home" ∷ []))
remove_desktop_server-neighbour_example =
    remove_desktop_server-neighbour home_and_work (known "h" "Home" ∷ []) []
      (record (known "w" "Work") { order = 1 }) home_and_work-IsValid refl refl

club_new : lists "c" home_and_work.servers ≡ false
unfolding lists str_dec
club_new = refl

remove_desktop_server-upsert_desktop_server_example :
    remove_desktop_server (upsert_desktop_server home_and_work (known "c" "Club") false) "c"
    ≡ home_and_work
remove_desktop_server-upsert_desktop_server_example =
    remove_desktop_server-upsert_desktop_server home_and_work (known "c" "Club")
      home_and_work-IsValid club_new

upsert_desktop_server-entry_of_example :
    entry_of "w" (upsert_desktop_server home_and_work (known "w" "Office") false).servers
    ≡ ite
        (str_dec "w" "w")
        (some
          (record (known "w" "Office") { order = order_or 2 (entry_of "w" home_and_work.servers) }))
        (entry_of "w" home_and_work.servers)
upsert_desktop_server-entry_of_example =
    upsert_desktop_server-entry_of home_and_work (known "w" "Office") false "w"

-- A text that is not empty, read without trimming.
is_text : (s : String) → s == "" ≡ false → IsText (λ s. s) s
is_text s h = (ne_of_test s "" h, ne_of_test s "" h)

written :
    (id name : String) (order : ℕ)
    → id == "" ≡ false
    → name == "" ≡ false
    → IsWritten (λ s. s) (record (known id "Baker") { name = name; order = order })
unfolding str_dec
written id name order h k = record {
  api_base_url = is_text config.api_base_url refl;
  gateway_url = is_text config.gateway_url refl;
  input = is_text config.input refl;
  saved_at = is_text config.saved_at refl;
  server_version = is_text config.server_version refl;
  created_at = is_text "2026-01-01" refl;
  id = is_text id h;
  last_connected_at = ne_of_test "2026-01-01" "" refl;
  name = is_text name k;
}

All-IsWritten : All (IsWritten (λ s. s)) home_and_work.servers
unfolding str_dec
All-IsWritten = (written "h" "Home" 0 refl refl, (written "w" "Work" 1 refl refl, tt))

work_named : IsTextOrNull (λ s. s) (some "w")
unfolding str_dec
work_named = ne_of_test "w" "" refl

parse_desktop_server_registry-registry_value_example :
    parse_desktop_server_registry (λ s. s) (registry_value home_and_work) "new"
    ≡ record { migrated = false; registry = home_and_work }
parse_desktop_server_registry-registry_value_example =
    parse_desktop_server_registry-registry_value (λ s. s) home_and_work "new" home_and_work-IsValid
      All-IsWritten work_named (λ e. cc e)

-- ===== src/Tests/Syncs.antt =====
-- Syncs of a store at concrete data: a server that answers, one that fails, and ID lists.
use statsig_go_sdk.Prelude.{
  ℕ, String, ◌≡◌, ◌⊎◌, refl, true, false, Option, none, some, List, [], ◌∷◌, ◌++◌, or_default,
}
use statsig_go_sdk.Prelude.Int.{pos}
use statsig_go_sdk.Dict.{Dict, lookup, insert}
use statsig_go_sdk.Text.{Codes, codes, split}
use statsig_go_sdk.Text.Space.{replace_crlf, trim_space}
use statsig_go_sdk.Runtime.{Runtime}
use statsig_go_sdk.Spec.{DownloadConfigSpecResponse}
use statsig_go_sdk.Store.State.{
  Store, empty_store, get_gate, get_dynamic_config, get_layer_config, get_experiment_layer,
  get_id_list,
}
use statsig_go_sdk.Store.Specs.{set_config_specs, process_config_specs, specs_by_name}
use statsig_go_sdk.Store.Specs.Laws.{last_named, last_layer, set_config_specs-known}
use statsig_go_sdk.Store.IdLists.{ServerList, Download, body, sync_id_lists}
use statsig_go_sdk.Store.IdLists.Lines.{
  holds, changes_of, content_lines, apply_content, apply_changes, change_of,
}
use statsig_go_sdk.Store.IdLists.Laws.{last_change, apply_content-holds, apply_content-append}
use statsig_go_sdk.Store.IdLists.Valid.{IsValid, is_named, sync_id_lists-IsValid}
use statsig_go_sdk.Store.Sync.{
  Setup, received, fetch_config_specs_from_server, load_config_specs, load_locally,
  new_store_internal, stop_polling,
}
use statsig_go_sdk.Store.Sync.Failures.{fetch_config_specs_from_server-count}
use statsig_go_sdk.Store.Sync.Reach.{created, step, stop, IsSound, Reach-IsSound}
use statsig_go_sdk.Tests.Data.{test_runtime, open_gate, shut_gate}

-- Two gates of one name: the later one counts.
abbrev pub answer : DownloadConfigSpecResponse
answer = record {
  has_updates = true;
  time = pos 7;
  feature_gates = open_gate ∷ record shut_gate { name = "open" } ∷ [];
  dynamic_configs = [];
  layer_configs = [];
  layers = ("left", "e" ∷ []) ∷ ("right", "e" ∷ "f" ∷ []) ∷ [];
  id_lists = [];
  diagnostics_sample_rates = ("log", pos 10) ∷ [];
  sdk_keys_to_app_id = [];
}

abbrev unchanged : DownloadConfigSpecResponse
unchanged = record answer { has_updates = false }

later_gate :
    get_gate (set_config_specs empty_store answer).0 "open"
    ≡ some (record shut_gate { name = "open" })
unfolding set_config_specs lookup specs_by_name insert
later_gate = refl

set_config_specs-known_example :
    ((set_config_specs empty_store answer).1 ≡ true)
    × ((set_config_specs empty_store answer).0.last_sync_time ≡ pos 7)
    × ((name : String)
        → (get_gate (set_config_specs empty_store answer).0 name
            ≡ last_named name answer.feature_gates)
          × (get_dynamic_config (set_config_specs empty_store answer).0 name ≡ last_named name [])
          × (get_layer_config (set_config_specs empty_store answer).0 name ≡ last_named name [])
          × (get_experiment_layer (set_config_specs empty_store answer).0 name
              ≡ last_layer name answer.layers))
set_config_specs-known_example = set_config_specs-known empty_store answer refl

abbrev content : Codes
content = codes "+ada\n-bob\n"

apply_content-holds_example :
    (ids' : List Codes) × (apply_content content (some (codes "bob" ∷ [])) ≡ some (some ids'))
    × ((id : Codes)
        → holds id ids'
          ≡ or_default
              (last_change id (changes_of (content_lines content)))
              (holds id (codes "bob" ∷ [])))
apply_content-holds_example = apply_content-holds content (codes "bob" ∷ [])

first_part : apply_content (codes "+ada") (some []) ≡ some (some (codes "ada" ∷ []))
unfolding apply_content split replace_crlf trim_space apply_changes content_lines change_of
first_part = refl

apply_content-append_example :
    apply_content (codes "+ada" ++ (10 ∷ codes "-ada")) (some [])
    ≡ apply_content (codes "-ada") (some (codes "ada" ∷ []))
apply_content-append_example =
    apply_content-append (codes "+ada") (codes "-ada") [] (codes "ada" ∷ []) refl first_part

abbrev pub staff_server : ServerList
staff_server = record {
  size = pos 10;
  creation_time = pos 1;
  url = "https://idlist/staff";
  file_id = "f1";
}

abbrev pub served : String → ℕ → Download
served url size = body 10 content

abbrev pub servers : Option (Dict ServerList)
servers = some (("staff", staff_server) ∷ ("broken", record staff_server { url = "" }) ∷ [])

pub empty_store-IsValid : IsValid empty_store
unfolding lookup
empty_store-IsValid = record { has_ids = λ name list e. cc }

sync_id_lists-IsValid_example :
    (s' : Store) × (sync_id_lists served empty_store servers ≡ some s')
    × IsValid s'
    × ((name : String) → (get_id_list s' name ≡ none) ⊎ (is_named name servers ≡ true))
sync_id_lists-IsValid_example = sync_id_lists-IsValid served empty_store servers empty_store-IsValid

-- An interval of ten seconds.
abbrev pub setup : Setup
setup = record {
  config_sync_interval = 10000000000;
  bootstrap_values = "";
  has_callback = true;
  has_adapter = false;
}

abbrev failing : Store
failing = record empty_store { sync_failure_count = 12 }

fetch_config_specs_from_server-count_example :
    (fetch_config_specs_from_server test_runtime setup failing false
      (received answer)).0.sync_failure_count
    ≡ 12
fetch_config_specs_from_server-count_example =
    fetch_config_specs_from_server-count setup failing test_runtime false answer

-- A runtime that decodes every text as the answer.
abbrev pub decoding : Runtime
decoding = record test_runtime { unmarshal_specs = λ text. some answer }

abbrev pub adapter_setup : Setup
adapter_setup = record setup { has_adapter = true }

abbrev bootstrap_setup : Setup
bootstrap_setup = record setup { bootstrap_values = "{}" }

abbrev new_store : Store
new_store =
    or_default (new_store_internal test_runtime setup none (received answer) served servers).0
      empty_store

new_store-created :
    (new_store_internal test_runtime setup none (received answer) served servers).0 ≡ some new_store
unfolding new_store_internal load_config_specs fetch_config_specs_from_server set_config_specs
    sync_id_lists lookup apply_content split replace_crlf trim_space load_locally
    process_config_specs apply_changes content_lines
new_store-created = refl

Reach-IsSound_example : IsSound (stop_polling new_store)
Reach-IsSound_example =
    Reach-IsSound test_runtime setup
      (step (created none (received answer) served servers new_store-created) (stop new_store))

-- ===== src/Store/Markers.antt =====
-- store.go and error_boundary.go: the markers that a fetch of specs, a sync of the ID lists and a
-- captured call leave, in their order.
pub mod Pairs
pub mod Laws
use statsig_go_sdk.Prelude.{
  ℕ, String, Bool, true, false, not, Option, none, some, List, [], ◌∷◌, ◌++◌, leb, if◌then◌else◌,
}
use statsig_go_sdk.Prelude.Int.{ℤ}
use statsig_go_sdk.Runtime.{Runtime}
use statsig_go_sdk.Spec.{DownloadConfigSpecResponse}
use statsig_go_sdk.Diagnostics.{Marker, DiagnosticsContext, initialize, config_sync}
use statsig_go_sdk.Diagnostics.Markers.{
  DiagnosticsKey, download_config_specs, bootstrap, get_id_list_sources, get_id_list, overall,
  data_store_config_specs, check_gate_api, get_config_api, get_layer_api, network_request, fetch,
  process, start, end, keyed, with_step, with_action, with_success, with_status_code,
  with_sdk_region, with_id_list_count, with_url,
}
use statsig_go_sdk.Store.State.{Store}
use statsig_go_sdk.Store.Specs.{ConfigSpecs, raw, decoded, process_config_specs}
use statsig_go_sdk.Store.IdLists.{Download, failed, body, is_malformed}

-- `addDiagnostics`
unfoldable pub add_diagnostics : Store → DiagnosticsContext
add_diagnostics s = if s.initialized_id_lists then config_sync else initialize

-- The parts of an `http.Response` that a marker has: the status, and the region's header.
pub record Response : Type 0 where
  pub status_code : ℤ
  pub region : List String

-- `safeGetFirst`
abbrev pub safe_get_first : List String → String
safe_get_first [] = ""
safe_get_first (s ∷ _) = s

abbrev pub with_response : Response → Marker → Marker
with_response res m =
    with_sdk_region (safe_get_first res.region) (with_status_code res.status_code m)

abbrev pub with_response_if_any : Option Response → Marker → Marker
with_response_if_any none m = m
with_response_if_any (some res) m = with_response res m

-- The two markers of `processConfigSpecs`, on the marker that it is given.
unfoldable pub process_markers : Marker → Bool → List Marker
unfolding with_step with_action
process_markers m success =
    with_action start (with_step process m)
    ∷ with_success success (with_action end (with_step process m))
    ∷ []

-- The end of a request for config specs: no answer, or an answer.
pub data Exchange : Type 0 where
  unanswered : Option Response → Exchange
  answered : Response → DownloadConfigSpecResponse → Exchange

module _ (r : Runtime) (s : Store) where
  -- `fetchConfigSpecsFromServer`
  unfoldable pub server_markers : Exchange → List Marker
  unfolding keyed with_step with_action process_markers process_config_specs
  server_markers exchange =
      let request = with_step network_request (keyed download_config_specs) in
      with_action start request ∷ (elim exchange [
        | unanswered res ↦
            with_response_if_any res (with_success false (with_action end request)) ∷ []
        | answered res specs ↦
            with_response res (with_success true (with_action end request))
            ∷ process_markers (keyed download_config_specs)
                (process_config_specs r s (decoded specs)).1
      ])

  -- `fetchConfigSpecsFromAdapter`; `none` is a panic of `dataAdapter.Get`.
  unfoldable pub adapter_markers : Option String → List Marker
  unfolding keyed with_step with_action process_markers process_config_specs
  adapter_markers got =
      let request = with_step fetch (keyed data_store_config_specs) in
      with_action start request ∷ (elim got [
        | none ↦ []
        | some text ↦
            with_success true (with_action end request)
            ∷ process_markers (keyed data_store_config_specs)
                (process_config_specs r s (raw text)).1
      ])

  -- The bootstrap of `newStoreInternal`
  unfoldable pub bootstrap_markers : String → List Marker
  unfolding keyed process_markers process_config_specs
  bootstrap_markers text = process_markers (keyed bootstrap) (process_config_specs r s (raw text)).1

-- The end of the request for one list: no response, or a response and what is read of it.
pub data Transfer : Type 0 where
  lost : Option Response → Transfer
  arrived : Response → Download → Transfer

-- Whether the goroutine of a list gets to the lines.
abbrev pub is_applied : Download → Bool
is_applied failed = false
is_applied (body len content) = if leb len 0 then false else not (is_malformed content)

-- The goroutine of one list.
unfoldable pub list_markers : String → Transfer → List Marker
unfolding keyed with_step with_action
list_markers url transfer =
    let request = with_step network_request (keyed get_id_list) in
    let processing = with_step process (keyed get_id_list) in
    with_url url (with_action start request) ∷ (elim transfer [
      | lost res ↦
          with_response_if_any res (with_success false (with_url url (with_action end request)))
          ∷ []
      | arrived res download ↦
          with_response res (with_success true (with_url url (with_action end request)))
          ∷ with_url url (with_action start processing)
          ∷ with_success (is_applied download) (with_url url (with_action end processing))
          ∷ []
    ])

-- The markers of all goroutines, one goroutine after another.
abbrev pub all_list_markers : List (String × Transfer) → List Marker
all_list_markers [] = []
all_list_markers ((url, transfer) ∷ transfers) =
    list_markers url transfer ++ all_list_markers transfers

-- `syncIDLists`, in a run that does not crash: the request's failure, or its response, the number
-- of lists that the server names, and the goroutines that were started.
pub data ListExchange : Type 0 where
  unanswered_lists : Option Response → ListExchange
  answered_lists : Response → ℕ → List (String × Transfer) → ListExchange

unfoldable pub id_lists_markers : ListExchange → List Marker
unfolding keyed with_step with_action list_markers
id_lists_markers exchange =
    let request = with_step network_request (keyed get_id_list_sources) in
    let processing = with_step process (keyed get_id_list_sources) in
    with_action start request ∷ (elim exchange [
      | unanswered_lists res ↦
          with_response_if_any res (with_success false (with_action end request)) ∷ []
      | answered_lists res count transfers ↦
          with_response res (with_success true (with_action end request))
          ∷ with_id_list_count count (with_action start processing)
          ∷ (all_list_markers transfers
              ++ (with_id_list_count count (with_success true (with_action end processing)) ∷ []))
    ])

-- The calls that are captured with markers: `captureCheckGate`, `captureGetConfig` and
-- `captureGetLayer`.
pub data MarkedCall : Type 0 where
  marked_gate marked_config marked_layer : MarkedCall

abbrev pub key_of_call : MarkedCall → DiagnosticsKey
key_of_call marked_gate = check_gate_api
key_of_call marked_config = get_config_api
key_of_call marked_layer = get_layer_api

-- The markers of such a call, by whether its task panics.
unfoldable pub call_markers : MarkedCall → Bool → List Marker
unfolding keyed with_action
call_markers call panicked =
    with_action start (keyed (key_of_call call))
    ∷ with_success (not panicked) (with_action end (keyed (key_of_call call)))
    ∷ []

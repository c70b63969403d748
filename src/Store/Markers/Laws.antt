-- ===== src/Store/Markers/Laws.antt =====
-- What the markers of a fetch, a sync and a call have in common.
use statsig_go_sdk.Prelude.{String, refl, Bool, true, none, some, List, [], ◌∷◌, ◌++◌, arith}
use statsig_go_sdk.Runtime.{Runtime}
use statsig_go_sdk.Diagnostics.{Marker}
use statsig_go_sdk.Diagnostics.Markers.{
  get_id_list_sources, keyed, with_step, with_action, log_process, network_request, process, start,
  end, with_success, with_id_list_count,
}
use statsig_go_sdk.Store.State.{Store}
use statsig_go_sdk.Store.Markers.{
  process_markers, Exchange, unanswered, answered, server_markers, adapter_markers,
  bootstrap_markers, Transfer, lost, arrived, list_markers, all_list_markers, ListExchange,
  unanswered_lists, answered_lists, id_lists_markers, MarkedCall, marked_gate, marked_config,
  marked_layer, call_markers, with_response,
}
use statsig_go_sdk.Store.Markers.Pairs.{
  IsPaired, IsSpoken, IsPaired-append, IsSpoken-append, IsPaired-between,
}

-- Paired, and spoken.
abbrev pub IsWhole : List Marker → Type 0
IsWhole ms = IsPaired ms × IsSpoken ms

server_markers-IsWhole :
    (r : Runtime) (s : Store) (exchange : Exchange) → IsWhole (server_markers r s exchange)
unfolding server_markers process_markers keyed with_step with_action log_process
server_markers-IsWhole r s (unanswered none) = (λ key step url. ground arith, (refl, (refl, tt)))
server_markers-IsWhole r s (unanswered (some res)) =
    (λ key step url. ground arith, (refl, (refl, tt)))
server_markers-IsWhole r s (answered res specs) =
    (λ key step url. ground arith, (refl, (refl, (refl, (refl, tt)))))

adapter_markers-IsWhole :
    (r : Runtime) (s : Store) (text : String) → IsWhole (adapter_markers r s (some text))
unfolding adapter_markers process_markers keyed with_step with_action log_process
adapter_markers-IsWhole r s text =
    (λ key step url. ground arith, (refl, (refl, (refl, (refl, tt)))))

bootstrap_markers-IsWhole :
    (r : Runtime) (s : Store) (text : String) → IsWhole (bootstrap_markers r s text)
unfolding bootstrap_markers process_markers keyed with_step with_action log_process
bootstrap_markers-IsWhole r s text = (λ key step url. ground arith, (refl, (refl, tt)))

call_markers-IsWhole : (call : MarkedCall) (panicked : Bool) → IsWhole (call_markers call panicked)
unfolding call_markers keyed with_action log_process
call_markers-IsWhole marked_gate panicked = (λ key step url. ground arith, (refl, (refl, tt)))
call_markers-IsWhole marked_config panicked = (λ key step url. ground arith, (refl, (refl, tt)))
call_markers-IsWhole marked_layer panicked = (λ key step url. ground arith, (refl, (refl, tt)))

list_markers-IsWhole : (url : String) (transfer : Transfer) → IsWhole (list_markers url transfer)
unfolding list_markers keyed with_step with_action log_process
list_markers-IsWhole url (lost none) = (λ key step file. ground arith, (refl, (refl, tt)))
list_markers-IsWhole url (lost (some res)) = (λ key step file. ground arith, (refl, (refl, tt)))
list_markers-IsWhole url (arrived res download) =
    (λ key step file. ground arith, (refl, (refl, (refl, (refl, tt)))))

all_list_markers-IsWhole :
    (transfers : List (String × Transfer)) → IsWhole (all_list_markers transfers)
all_list_markers-IsWhole [] = (λ key step url. refl, tt)
all_list_markers-IsWhole ((url, transfer) ∷ transfers) =
    let (paired, spoken) = list_markers-IsWhole url transfer in
    let (paired', spoken') = all_list_markers-IsWhole transfers in
    (
      IsPaired-append (list_markers url transfer) (all_list_markers transfers) paired paired',
      IsSpoken-append (list_markers url transfer) (all_list_markers transfers) spoken spoken',
    )

id_lists_markers-IsWhole : (exchange : ListExchange) → IsWhole (id_lists_markers exchange)
unfolding id_lists_markers keyed with_step with_action log_process
id_lists_markers-IsWhole (unanswered_lists none) =
    (λ key step url. ground arith, (refl, (refl, tt)))
id_lists_markers-IsWhole (unanswered_lists (some res)) =
    (λ key step url. ground arith, (refl, (refl, tt)))
id_lists_markers-IsWhole (answered_lists res count transfers) =
    let request = with_step network_request (keyed get_id_list_sources) in
    let processing = with_step process (keyed get_id_list_sources) in
    let first = with_action start request in
    let second = with_response res (with_success true (with_action end request)) in
    let third = with_id_list_count count (with_action start processing) in
    let last = with_id_list_count count (with_success true (with_action end processing)) in
    let (paired, spoken) = all_list_markers-IsWhole transfers in
    (
      IsPaired-append (first ∷ (second ∷ [])) (third ∷ (all_list_markers transfers ++ (last ∷ [])))
          (λ key step url. ground arith)
          (IsPaired-between third last (all_list_markers transfers)
            (λ key step url. (refl, refl, refl)) paired),
      (
        refl,
        (refl, (refl, IsSpoken-append (all_list_markers transfers) (last ∷ []) spoken (refl, tt))),
      ),
    )

-- Whatever a request ends with, and whatever is downloaded or panics, a fetch of specs, a bootstrap,
-- a sync of the ID lists and a captured call leave as many ends as starts of each key, step and
-- file, unless the adapter panics; and no marker of theirs dereferences a nil field when its step is
-- written, also if the adapter panics.
pub markers-IsWhole :
    (r : Runtime) (s : Store)
    → ((exchange : Exchange) → IsWhole (server_markers r s exchange))
      × ((text : String) → IsWhole (adapter_markers r s (some text)))
      × IsSpoken (adapter_markers r s none)
      × ((text : String) → IsWhole (bootstrap_markers r s text))
      × ((exchange : ListExchange) → IsWhole (id_lists_markers exchange))
      × ((call : MarkedCall) (panicked : Bool) → IsWhole (call_markers call panicked))
unfolding adapter_markers keyed with_step with_action log_process
markers-IsWhole r s = (
  server_markers-IsWhole r s,
  adapter_markers-IsWhole r s,
  (refl, tt),
  bootstrap_markers-IsWhole r s,
  id_lists_markers-IsWhole,
  call_markers-IsWhole,
)

-- ===== src/Store/Sync/Refinement.antt =====
-- What a store promises: it is the last answer with updates that it was given. The abstract state
-- is that answer, and whether polling has stopped.
use statsig_go_sdk.Prelude.{
  ◌+◌, ◌*◌, ltb, String, ◌≡◌, refl, sym, subst, Bool, true, false, Option, none, some, List, [],
  ◌==◌, Bool-cases, inl, inr, if◌then◌else◌,
}
use statsig_go_sdk.Prelude.Int.{ℤ, pos, eq_ℤ}
use statsig_go_sdk.Dict.{lookup-nil}
use statsig_go_sdk.Runtime.{Runtime}
use statsig_go_sdk.Spec.{DownloadConfigSpecResponse}
use statsig_go_sdk.Store.State.{
  Store, empty_store, get_gate, get_dynamic_config, get_layer_config, get_experiment_layer,
  EvaluationReason, data_adapter, bootstrap,
}
use statsig_go_sdk.Store.Specs.{
  ConfigSpecs, raw, decoded, set_config_specs, process_config_specs, set_unmarshalled,
}
use statsig_go_sdk.Store.Specs.Laws.{
  last_named, last_layer, set_config_specs-known, set_config_specs-no_updates,
}
use statsig_go_sdk.Store.Sync.{
  Setup, Answer, failed, received, Effect, sync_outdated_max, handle_sync_error, with_reason,
  accepted, fetch_config_specs_from_server, fetch_config_specs_from_adapter, load_locally,
  load_config_specs, fetch_if_unsynced,
}

-- The last answer with updates, if there was one.
abbrev pub Current : Type 0
Current = Option DownloadConfigSpecResponse

abbrev pub takes : Current → Option DownloadConfigSpecResponse → Current
takes current none = current
takes current (some specs) = if specs.has_updates then some specs else current

abbrev pub time_of : Current → ℤ
time_of none = pos 0
time_of (some specs) = specs.time

abbrev pub in_answer : {A : Type 0} → (DownloadConfigSpecResponse → Option A) → Current → Option A
in_answer f none = none
in_answer f (some specs) = f specs

-- What a caller sees of the store is what the answer says.
abbrev pub Reflects : Current → Store → Type 0
Reflects current s =
    (s.last_sync_time ≡ time_of current)
    × ((name : String)
        → (get_gate s name ≡ in_answer (λ specs. last_named name specs.feature_gates) current)
          × (get_dynamic_config s name
              ≡ in_answer (λ specs. last_named name specs.dynamic_configs) current)
          × (get_layer_config s name
              ≡ in_answer (λ specs. last_named name specs.layer_configs) current)
          × (get_experiment_layer s name
              ≡ in_answer (λ specs. last_layer name specs.layers) current))

chosen-Reflects :
    (updates : Bool) (current : Current) (specs : DownloadConfigSpecResponse) (s : Store)
    → (updates ≡ true → Reflects (some specs) s)
    → (updates ≡ false → Reflects current s)
    → Reflects (if updates then some specs else current) s
chosen-Reflects true current specs s h g = h refl
chosen-Reflects false current specs s h g = g refl

set_config_specs-Reflects :
    (current : Current) (s : Store) (specs : DownloadConfigSpecResponse)
    → Reflects current s
    → Reflects (takes current (some specs)) (set_config_specs s specs).0
set_config_specs-Reflects current s specs h =
    chosen-Reflects specs.has_updates current specs (set_config_specs s specs).0
      (λ updates. let (_, time, known) = set_config_specs-known s specs updates in (time, known))
      (λ same. subst (λ m. Reflects current m.0) (sym (set_config_specs-no_updates s specs same)) h)

if-Reflects :
    (b : Bool) (c d : Current) (s t : Store)
    → Reflects c s
    → Reflects d t
    → Reflects (if b then c else d) (if b then s else t)
if-Reflects true c d s t h g = h
if-Reflects false c d s t h g = g

pub if-Reflects_effects :
    (b : Bool) (c d : Current) (m n : Store × List Effect)
    → Reflects c m.0
    → Reflects d n.0
    → Reflects (if b then c else d) (if b then m else n).0
if-Reflects_effects true c d m n h g = h
if-Reflects_effects false c d m n h g = g

module _ (r : Runtime) (setup : Setup) where
  -- The answer in what `processConfigSpecs` is given.
  abbrev pub given : ConfigSpecs → Option DownloadConfigSpecResponse
  given (raw text) = r.unmarshal_specs text
  given (decoded specs) = some specs

  unmarshalled-Reflects :
      (current : Current) (s : Store) (o : Option DownloadConfigSpecResponse)
      → Reflects current s
      → Reflects (takes current o) (set_unmarshalled r s o).0
  unmarshalled-Reflects current s none h = h
  unmarshalled-Reflects current s (some specs) h = set_config_specs-Reflects current s specs h

  process_config_specs-Reflects :
      (current : Current) (s : Store) (specs : ConfigSpecs)
      → Reflects current s
      → Reflects (takes current (given specs)) (process_config_specs r s specs).0
  unfolding process_config_specs
  process_config_specs-Reflects current s (raw text) h =
      unmarshalled-Reflects current s (r.unmarshal_specs text) h
  process_config_specs-Reflects current s (decoded specs) h =
      set_config_specs-Reflects current s specs h

  with_reason-Reflects :
      (reason : EvaluationReason) (current : Current) (out : Store × Bool)
      → Reflects current out.0
      → Reflects current (with_reason reason out)
  with_reason-Reflects reason current (s, true) h = h
  with_reason-Reflects reason current (s, false) h = h

  pub accepted-Reflects :
      (current : Current) (specs : DownloadConfigSpecResponse) (out : Store × Bool)
      → Reflects current out.0
      → Reflects current (accepted r setup specs out).0
  accepted-Reflects current specs (s, true) h = h
  accepted-Reflects current specs (s, false) h = h

  abbrev pub from_server : Answer → Option DownloadConfigSpecResponse
  from_server failed = none
  from_server (received specs) = some specs

  abbrev pub from_adapter : Option String → Option DownloadConfigSpecResponse
  from_adapter none = none
  from_adapter (some text) = r.unmarshal_specs text

  pub server-Reflects :
      (current : Current) (s : Store) (is_cold_start : Bool) (answer : Answer)
      → Reflects current s
      → Reflects
          (takes current (from_server answer))
          (fetch_config_specs_from_server r setup s is_cold_start answer).0
  unfolding fetch_config_specs_from_server handle_sync_error
  server-Reflects current s true failed h = h
  server-Reflects current s false failed h =
      elim (Bool-cases
        (ltb sync_outdated_max ((s.sync_failure_count + 1) * setup.config_sync_interval))) [
          | inl late ↦ rw late h
          | inr soon ↦ rw soon h
        ]
  server-Reflects current s is_cold_start (received specs) h =
      accepted-Reflects (takes current (some specs)) specs
        (process_config_specs r s (decoded specs))
        (process_config_specs-Reflects current s (decoded specs) h)

  pub adapter-Reflects :
      (current : Current) (s : Store) (got : Option String)
      → Reflects current s
      → Reflects (takes current (from_adapter got)) (fetch_config_specs_from_adapter r setup s got)
  unfolding fetch_config_specs_from_adapter
  adapter-Reflects current s none h = h
  adapter-Reflects current s (some text) h =
      with_reason-Reflects data_adapter (takes current (r.unmarshal_specs text))
        (process_config_specs r s (raw text)) (process_config_specs-Reflects current s (raw text) h)

  -- The creation of a store, on the answers.
  abbrev pub local_current : Option String → Current
  local_current got =
      if setup.has_adapter
      then takes none (from_adapter got)
      else if setup.bootstrap_values == ""
      then none
      else takes none (given (raw setup.bootstrap_values))

  abbrev pub created_current : Option String → Answer → Current
  created_current got answer =
      if eq_ℤ (time_of (local_current got)) (pos 0)
      then takes (local_current got) (from_server answer)
      else local_current got

  pub empty-Reflects : Reflects none empty_store
  empty-Reflects =
      (refl, λ name. (lookup-nil name, lookup-nil name, lookup-nil name, lookup-nil name))

  local-Reflects :
      (got : Option String) → Reflects (local_current got) (load_locally r setup empty_store got)
  unfolding load_locally
  local-Reflects got =
      if-Reflects setup.has_adapter (takes none (from_adapter got)) _
        (fetch_config_specs_from_adapter r setup empty_store got) _
        (adapter-Reflects none empty_store got empty-Reflects)
        (if-Reflects (setup.bootstrap_values == "") none
          (takes none (given (raw setup.bootstrap_values))) empty_store
          (with_reason bootstrap (process_config_specs r empty_store (raw setup.bootstrap_values)))
          empty-Reflects
          (with_reason-Reflects bootstrap (takes none (given (raw setup.bootstrap_values)))
            (process_config_specs r empty_store (raw setup.bootstrap_values))
            (process_config_specs-Reflects none empty_store (raw setup.bootstrap_values)
              empty-Reflects)))

  unsynced-Reflects :
      (current : Current) (s : Store) (answer : Answer)
      → Reflects current s
      → Reflects
          (if eq_ℤ (time_of current) (pos 0) then takes current (from_server answer) else current)
          (fetch_if_unsynced r setup s answer).0
  unsynced-Reflects current s answer (time, known) =
      subst
        (λ t.
          Reflects (if eq_ℤ t (pos 0) then takes current (from_server answer) else current)
            (fetch_if_unsynced r setup s answer).0)
        time
        (if-Reflects_effects (eq_ℤ s.last_sync_time (pos 0)) (takes current (from_server answer))
          current (fetch_config_specs_from_server r setup s true answer) (s, [])
          (server-Reflects current s true answer (time, known)) (time, known))

  pub load_config_specs-Reflects :
      (got : Option String) (answer : Answer)
      → Reflects (created_current got answer) (load_config_specs r setup got answer).0
  unfolding load_config_specs
  load_config_specs-Reflects got answer =
      unsynced-Reflects (local_current got) (load_locally r setup empty_store got) answer
        (local-Reflects got)

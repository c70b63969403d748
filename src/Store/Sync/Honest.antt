-- ===== src/Store/Sync/Honest.antt =====
-- While a store has no specs, its reason says so.
use statsig_go_sdk.Prelude.{
  String, ◌≡◌, ◌≢◌, refl, Bool, true, false, ◌&&◌, Option, none, some, List, [], ◌==◌, arith,
  if◌then◌else◌,
}
use statsig_go_sdk.Prelude.Int.{pos, eq_ℤ}
use statsig_go_sdk.Runtime.{Runtime}
use statsig_go_sdk.Store.State.{
  EvaluationReason, bootstrap, data_adapter, uninitialized, Store, empty_store,
}
use statsig_go_sdk.Store.Specs.{ConfigSpecs, raw, decoded, process_config_specs}
use statsig_go_sdk.Store.Sync.{
  Setup, Answer, failed, received, handle_sync_error, with_reason, fetch_config_specs_from_server,
  fetch_config_specs_from_adapter, load_locally, load_config_specs, poll_for_ruleset_changes,
  Effect,
}

-- While the reason is "Uninitialized", no specs have been accepted.
pub record HonestReason (s : Store) : Type 0 where
  pub no_gates : s.init_reason ≡ uninitialized → s.feature_gates ≡ []
  pub no_configs : s.init_reason ≡ uninitialized → s.dynamic_configs ≡ []
  pub no_layers : s.init_reason ≡ uninitialized → s.layer_configs ≡ []
  pub no_time : s.init_reason ≡ uninitialized → s.last_sync_time ≡ pos 0

pub empty_store-Honest : HonestReason empty_store
empty_store-Honest = record {
  no_gates = λ _. refl;
  no_configs = λ _. refl;
  no_layers = λ _. refl;
  no_time = λ _. refl;
}

Honest-if_store :
    (b : Bool) (s t : Store) → HonestReason s → HonestReason t → HonestReason (if b then s else t)
Honest-if_store true s t v w = v
Honest-if_store false s t v w = w

Honest-if :
    (b : Bool) (x y : Store × List Effect)
    → HonestReason x.0
    → HonestReason y.0
    → HonestReason (if b then x else y).0
Honest-if true x y v w = v
Honest-if false x y v w = w

module _ (r : Runtime) (setup : Setup) where
  pub with_reason-Honest :
      (reason : EvaluationReason) (s : Store) (specs : ConfigSpecs)
      → reason ≢ uninitialized
      → HonestReason s
      → HonestReason (with_reason reason (process_config_specs r s specs))
  unfolding process_config_specs
  with_reason-Honest reason s (raw text) h v = ground arith
  with_reason-Honest reason s (decoded specs) h v = ground arith

  pub server-Honest :
      (s : Store) (cold : Bool) (answer : Answer)
      → HonestReason s
      → HonestReason (fetch_config_specs_from_server r setup s cold answer).0
  unfolding fetch_config_specs_from_server handle_sync_error process_config_specs
  server-Honest s cold failed v = ground arith
  server-Honest s cold (received specs) v = ground arith

  pub adapter-Honest :
      (s : Store) (got : Option String)
      → HonestReason s
      → HonestReason (fetch_config_specs_from_adapter r setup s got)
  unfolding fetch_config_specs_from_adapter
  adapter-Honest s none v = v
  adapter-Honest s (some text) v = with_reason-Honest data_adapter s (raw text) (λ e. cc) v

  -- The specs and the ID lists are kept apart.
  pub poll-id_lists :
      (s : Store) (should_be_used : Bool) (got : Option String) (answer : Answer)
      → (poll_for_ruleset_changes r setup s should_be_used got answer).0.id_lists ≡ s.id_lists
  unfolding poll_for_ruleset_changes fetch_config_specs_from_adapter fetch_config_specs_from_server
      handle_sync_error process_config_specs
  poll-id_lists s b none failed = ground arith
  poll-id_lists s b none (received specs) = ground arith
  poll-id_lists s b (some text) failed = ground arith
  poll-id_lists s b (some text) (received specs) = ground arith

  pub poll-Honest :
      (s : Store) (should_be_used : Bool) (got : Option String) (answer : Answer)
      → HonestReason s
      → HonestReason (poll_for_ruleset_changes r setup s should_be_used got answer).0
  unfolding poll_for_ruleset_changes
  poll-Honest s b got answer v = Honest-if s.shutdown _ _ v (
      Honest-if (setup.has_adapter && b) _ _ (adapter-Honest s got v)
        (server-Honest s false answer v))

  pub load_locally-Honest :
      (got : Option String) → HonestReason (load_locally r setup empty_store got)
  unfolding load_locally
  load_locally-Honest got =
      Honest-if_store setup.has_adapter _ _ (adapter-Honest empty_store got empty_store-Honest) (
        Honest-if_store (setup.bootstrap_values == "") _ _ empty_store-Honest (
          with_reason-Honest bootstrap empty_store (raw setup.bootstrap_values) (λ e. cc)
            empty_store-Honest))

  pub load_config_specs-Honest :
      (got : Option String) (answer : Answer)
      → HonestReason (load_config_specs r setup got answer).0
  unfolding load_config_specs
  load_config_specs-Honest got answer = synced (
      Honest-if (eq_ℤ (load_locally r setup empty_store got).last_sync_time (pos 0)) _ _
        (server-Honest (load_locally r setup empty_store got) true answer (load_locally-Honest got))
        (load_locally-Honest got))
    where
      synced :
          {s : Store}
          → HonestReason s
          → HonestReason (record s { initial_sync_time = s.last_sync_time })
      synced v = record {
        no_gates = v.no_gates;
        no_configs = v.no_configs;
        no_layers = v.no_layers;
        no_time = v.no_time;
      }

  pub load_config_specs-id_lists :
      (got : Option String) (answer : Answer)
      → (load_config_specs r setup got answer).0.id_lists ≡ []
  unfolding load_config_specs load_locally fetch_config_specs_from_adapter
      fetch_config_specs_from_server handle_sync_error process_config_specs
  load_config_specs-id_lists none failed = ground arith
  load_config_specs-id_lists none (received specs) = ground arith
  load_config_specs-id_lists (some text) failed = ground arith
  load_config_specs-id_lists (some text) (received specs) = ground arith

-- ===== src/Store/Sync/Reach.antt =====
-- The stores that the syncs and polls of a program reach.
use mathlib.Core.Option.{some-injective}
use statsig_go_sdk.Prelude.{
  subst, ℕ, String, ◌≡◌, refl, sym, ap, ◌∙◌, Bool, true, false, Option, none, some, arith,
  if◌then◌else◌,
}
use statsig_go_sdk.Dict.{Dict, lookup}
use statsig_go_sdk.Runtime.{Runtime}
use statsig_go_sdk.Store.State.{Store, empty_store}
use statsig_go_sdk.Store.IdLists.{ServerList, Download, sync_id_lists}
use statsig_go_sdk.Store.IdLists.Valid.{IsValid, sync_id_lists-IsValid}
use statsig_go_sdk.Store.Sync.Frame.{SameSpecs, Keeps, sync_id_lists-Keeps}
use statsig_go_sdk.Store.Sync.{
  Setup, Answer, load_config_specs, new_store_internal, poll_for_ruleset_changes,
  poll_for_id_list_changes, initialized, stop_polling,
}
use statsig_go_sdk.Store.Sync.Honest.{
  HonestReason, poll-id_lists, poll-Honest, load_config_specs-Honest, load_config_specs-id_lists,
}

module _ (r : Runtime) (setup : Setup) where
  -- A step of a running program: a round of a poll, with any answers, or the shutdown.
  pub data Step : Store → Store → Type 0 where
    poll_specs :
        (s : Store) (should_be_used : Bool) (got : Option String) (answer : Answer)
        → Step s (poll_for_ruleset_changes r setup s should_be_used got answer).0
    poll_lists :
        (s : Store) {s' : Store} (remote : String → ℕ → Download)
        (servers : Option (Dict ServerList))
        → poll_for_id_list_changes remote s servers ≡ some s'
        → Step s s'
    stop : (s : Store) → Step s (stop_polling s)

  -- The stores of a program: a created store, and what the steps make of it.
  pub data Reach : Store → Type 0 where
    created :
        {s : Store} (got : Option String) (answer : Answer) (remote : String → ℕ → Download)
        (servers : Option (Dict ServerList))
        → (new_store_internal r setup got answer remote servers).0 ≡ some s
        → Reach s
    step : {s t : Store} → Reach s → Step s t → Reach t

-- Both invariants of a store.
pub record IsSound (s : Store) : Type 0 where
  pub honest : HonestReason s
  pub valid : IsValid s

pub IsValid-of_lists : (s t : Store) → t.id_lists ≡ s.id_lists → IsValid s → IsValid t
IsValid-of_lists s t e v = record { has_ids = λ k l f. v.has_ids k l (ap (lookup k) (sym e) ∙ f) }

Honest-of_same : (s t : Store) → SameSpecs s t → HonestReason s → HonestReason t
Honest-of_same s t e v = record {
  no_gates = λ u. ground (arith, gates, reason, v.no_gates);
  no_configs = λ u. ground (arith, configs, reason, v.no_configs);
  no_layers = λ u. ground (arith, layers, reason, v.no_layers);
  no_time = λ u. ground (arith, time, reason, v.no_time);
}
  where
    reason : s.init_reason ≡ t.init_reason
    reason = ap (λ (x : Store). x.init_reason) e

    gates : s.feature_gates ≡ t.feature_gates
    gates = ap (λ (x : Store). x.feature_gates) e

    configs : s.dynamic_configs ≡ t.dynamic_configs
    configs = ap (λ (x : Store). x.dynamic_configs) e

    layers : s.layer_configs ≡ t.layer_configs
    layers = ap (λ (x : Store). x.layer_configs) e

    time : s.last_sync_time ≡ t.last_sync_time
    time = ap (λ (x : Store). x.last_sync_time) e

module _ (r : Runtime) (setup : Setup) where
  lists-IsSound :
      (s t : Store) (remote : String → ℕ → Download) (servers : Option (Dict ServerList))
      → IsSound s
      → sync_id_lists remote s servers ≡ some t
      → IsSound t
  lists-IsSound s t remote servers v ran =
      let (t', ran', valid, _) = sync_id_lists-IsValid remote s servers v.valid in
      let same : Keeps s (some t) = subst (Keeps s) ran (sync_id_lists-Keeps remote s servers) in
      record {
        honest = Honest-of_same s t same v.honest;
        valid = subst IsValid (some-injective t' t (sym ran' ∙ ran)) valid;
      }

  polled-IsSound :
      (down : Bool) (s t : Store) (remote : String → ℕ → Download)
      (servers : Option (Dict ServerList))
      → IsSound s
      → (if down then some s else sync_id_lists remote s servers) ≡ some t
      → IsSound t
  polled-IsSound true s t remote servers v e = subst IsSound (some-injective s t e) v
  polled-IsSound false s t remote servers v e = lists-IsSound s t remote servers v e

  created-IsSound :
      (s : Store) (m : Option Store)
      → ((t : Store) → m ≡ some t → IsSound t)
      → initialized r setup m ≡ some s
      → IsSound s
  created-IsSound s none h e = cc
  created-IsSound s (some t) h e = subst IsSound (some-injective _ s e) (record {
    honest = record {
      no_gates = (h t refl).honest.no_gates;
      no_configs = (h t refl).honest.no_configs;
      no_layers = (h t refl).honest.no_layers;
      no_time = (h t refl).honest.no_time;
    };
    valid = record { has_ids = (h t refl).valid.has_ids };
  })

  Step-IsSound : {s t : Store} → Step r setup s t → IsSound s → IsSound t
  unfolding poll_for_id_list_changes stop_polling
  Step-IsSound (poll_specs s b got answer) v = record {
    honest = poll-Honest r setup s b got answer v.honest;
    valid = IsValid-of_lists s _ (poll-id_lists r setup s b got answer) v.valid;
  }
  Step-IsSound (poll_lists s remote servers ran) v =
      polled-IsSound s.shutdown s _ remote servers v ran
  Step-IsSound (stop s) v = record {
    honest = record {
      no_gates = v.honest.no_gates;
      no_configs = v.honest.no_configs;
      no_layers = v.honest.no_layers;
      no_time = v.honest.no_time;
    };
    valid = IsValid-of_lists s (record s { shutdown = true }) refl v.valid;
  }

  pub loaded-IsSound :
      (got : Option String) (answer : Answer) → IsSound (load_config_specs r setup got answer).0
  unfolding lookup
  loaded-IsSound got answer = record {
    honest = load_config_specs-Honest r setup got answer;
    valid =
        IsValid-of_lists empty_store _ (load_config_specs-id_lists r setup got answer)
          (record { has_ids = λ name list e. cc });
  }

  -- In every store that a program reaches, from its creation through any rounds of polling with any
  -- answers, and the shutdown: while the reason is "Uninitialized" there are no gates, configs or
  -- layers and the time of the last sync is 0; and every ID list that has a file has a set of IDs.
  pub Reach-IsSound : {s : Store} → Reach r setup s → IsSound s
  unfolding new_store_internal
  Reach-IsSound (created {s = s} got answer remote servers ran) =
      created-IsSound s (sync_id_lists remote (load_config_specs r setup got answer).0 servers)
        (λ t e.
          lists-IsSound (load_config_specs r setup got answer).0 t remote servers
            (loaded-IsSound got answer) e)
        ran
  Reach-IsSound (step reached st) = Step-IsSound st (Reach-IsSound reached)

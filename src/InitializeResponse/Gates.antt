-- ===== src/InitializeResponse/Gates.antt =====
-- Which specs are in the response, and with what.
use statsig_go_sdk.Prelude.{String, ◌≡◌, ◌⊎◌, Bool, true, Option, none, some, [], ◌∷◌, or_default}
use statsig_go_sdk.Dict.{Dict, Entry, lookup}
use statsig_go_sdk.Runtime.{Runtime}
use statsig_go_sdk.Types.{User}
use statsig_go_sdk.Spec.{ConfigSpec}
use statsig_go_sdk.Store.State.{get_app_id_for_sdk_key}
use statsig_go_sdk.Evaluator.Result.{Outcome, ok}
use statsig_go_sdk.Evaluator.Condition.{Evaluator}
use statsig_go_sdk.InitializeResponse.Types.{InitializeResponse}
use statsig_go_sdk.InitializeResponse.{
  hashed, gate_to_response, config_to_response, layer_to_response, is_sent_gate, is_sent_config,
}

-- A map has an entry.
abbrev pub Has : {V : Type 0} → Entry V → Dict V → Type 0
Has entry [] = ⊥
Has entry (e ∷ rest) = (e ≡ entry) ⊎ Has entry rest

module _ (r : Runtime) (e : Evaluator) (user : User) {A : Type 0} (is_sent : ConfigSpec → Bool)
    (to_response : String → ConfigSpec → Outcome A) where
  -- A response comes from a spec that is sent, under the hash of the spec's name.
  pub record Source (hash : String) (res : A) (specs : Dict ConfigSpec) : Type 0 where
    pub name : String
    pub spec : ConfigSpec
    pub known : Has (name, spec) specs
    pub hash_of : hashed r name ≡ hash
    pub sent : is_sent spec ≡ true
    pub answer : to_response name spec ≡ ok res

  -- What is found under a hash, if anything is.
  abbrev pub IsSourced : String → Option A → Dict ConfigSpec → Type 0
  IsSourced hash none specs = Unit
  IsSourced hash (some res) specs = Source hash res specs

module _ (r : Runtime) (e : Evaluator) (user : User) (client_key : String) where
  abbrev app_id : String
  app_id = or_default (get_app_id_for_sdk_key e.store client_key) ""

  -- Whatever a response has under any hash comes from a spec of the store.
  abbrev pub AllSourced : InitializeResponse → Type 0
  AllSourced out =
      ((hash : String)
        → IsSourced r e user (is_sent_gate r e user app_id) (gate_to_response r e user) hash
            (lookup hash out.feature_gates) e.store.feature_gates)
      × ((hash : String)
          → IsSourced r e user (is_sent_config r e user app_id) (config_to_response r e user) hash
              (lookup hash out.dynamic_configs) e.store.dynamic_configs)
      × ((hash : String)
          → IsSourced r e user (is_sent_config r e user app_id) (layer_to_response r e user) hash
              (lookup hash out.layer_configs) e.store.layer_configs)

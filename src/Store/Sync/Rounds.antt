-- ===== src/Store/Sync/Rounds.antt =====
-- A store through the rounds of its polls, against the abstract state.
use statsig_go_sdk.Prelude.{
  ℕ, String, ◌≡◌, refl, sym, ap, subst, ◌∙◌, Bool, true, false, ◌&&◌, Option, none, some, List, [],
  ◌∷◌, arith, if◌then◌else◌,
}
use statsig_go_sdk.Dict.{Dict}
use statsig_go_sdk.Runtime.{Runtime}
use statsig_go_sdk.Store.State.{Store, empty_store}
use statsig_go_sdk.Store.Specs.{process_config_specs}
use statsig_go_sdk.Store.IdLists.{ServerList, Download, sync_id_lists, ◌>>=◌}
use statsig_go_sdk.Store.IdLists.Valid.{IsValid, sync_id_lists-IsValid}
use statsig_go_sdk.Store.Sync.{
  Setup, Answer, failed, received, handle_sync_error, fetch_config_specs_from_server,
  fetch_config_specs_from_adapter, load_locally, load_config_specs, new_store_internal,
  poll_for_ruleset_changes, poll_for_id_list_changes, initialized, stop_polling,
}
use statsig_go_sdk.Store.Sync.Frame.{SameSpecs, Keeps, sync_id_lists-Keeps}
use statsig_go_sdk.Store.Sync.Honest.{poll-id_lists}
use statsig_go_sdk.Store.Sync.Reach.{IsValid-of_lists, loaded-IsSound}
use statsig_go_sdk.Store.Sync.Refinement.{
  Current, takes, Reflects, from_adapter, from_server, created_current, if-Reflects_effects,
  adapter-Reflects, server-Reflects, load_config_specs-Reflects,
}

-- A round of one of the polls, with what is answered, or the end of polling.
pub data Round : Type 0 where
  specs_round : (should_be_used : Bool) → Option String → Answer → Round
  lists_round : (String → ℕ → Download) → Option (Dict ServerList) → Round
  stop_round : Round

-- The abstract state of a store.
pub record Model : Type 0 where
  pub current : Current
  pub stopped : Bool

-- The specs of a store are not its ID lists.
same_specs :
    (current : Current) (s t : Store) → SameSpecs s t → Reflects current s → Reflects current t
same_specs current s t same h = subst (λ x. Reflects current x) same h

module _ (r : Runtime) (setup : Setup) where
  unfoldable pub run_round : Store → Round → Option Store
  unfolding poll_for_ruleset_changes poll_for_id_list_changes stop_polling
  run_round s (specs_round used got answer) =
      some (poll_for_ruleset_changes r setup s used got answer).0
  run_round s (lists_round remote servers) = poll_for_id_list_changes remote s servers
  run_round s stop_round = some (stop_polling s)

  abbrev pub model_round : Model → Round → Model
  model_round m (specs_round used got answer) = record m {
    current =
        if m.stopped
        then m.current
        else if setup.has_adapter && used
        then takes m.current (from_adapter r setup got)
        else takes m.current (from_server r setup answer);
  }
  model_round m (lists_round remote servers) = m
  model_round m stop_round = record m { stopped = true }

  abbrev pub run_rounds : Store → List Round → Option Store
  run_rounds s [] = some s
  run_rounds s (round ∷ rounds) = run_round s round >>= λ s'. run_rounds s' rounds

  abbrev pub model_rounds : Model → List Round → Model
  model_rounds m [] = m
  model_rounds m (round ∷ rounds) = model_rounds (model_round m round) rounds

  -- The store is as the abstract state says, and can be synced.
  abbrev pub Matches : Model → Store → Type 0
  Matches m s = Reflects m.current s × (s.shutdown ≡ m.stopped) × IsValid s

  poll-shutdown :
      (s : Store) (should_be_used : Bool) (got : Option String) (answer : Answer)
      → (poll_for_ruleset_changes r setup s should_be_used got answer).0.shutdown ≡ s.shutdown
  unfolding poll_for_ruleset_changes fetch_config_specs_from_adapter fetch_config_specs_from_server
      handle_sync_error process_config_specs
  poll-shutdown s b none failed = ground arith
  poll-shutdown s b none (received specs) = ground arith
  poll-shutdown s b (some text) failed = ground arith
  poll-shutdown s b (some text) (received specs) = ground arith

  poll-Reflects :
      (m : Model) (s : Store) (used : Bool) (got : Option String) (answer : Answer)
      → Reflects m.current s
      → s.shutdown ≡ m.stopped
      → Reflects
          (model_round m (specs_round used got answer)).current
          (poll_for_ruleset_changes r setup s used got answer).0
  unfolding poll_for_ruleset_changes
  poll-Reflects m s used got answer h down =
      subst
        (λ b.
          Reflects
            (if b
              then m.current
              else if setup.has_adapter && used
              then takes m.current (from_adapter r setup got)
              else takes m.current (from_server r setup answer))
            (poll_for_ruleset_changes r setup s used got answer).0)
        down
        (if-Reflects_effects s.shutdown m.current _ (s, []) _ h
          (if-Reflects_effects (setup.has_adapter && used)
            (takes m.current (from_adapter r setup got))
            (takes m.current (from_server r setup answer))
            (fetch_config_specs_from_adapter r setup s got, [])
            (fetch_config_specs_from_server r setup s false answer)
            (adapter-Reflects r setup m.current s got h)
            (server-Reflects r setup m.current s false answer h)))

  lists-Matches :
      (m : Model) (s : Store) (down : Bool) (remote : String → ℕ → Download)
      (servers : Option (Dict ServerList))
      → Matches m s
      → (s' : Store) × ((if down then some s else sync_id_lists remote s servers) ≡ some s')
        × Matches m s'
  lists-Matches m s true remote servers h = (s, refl, h)
  lists-Matches m s false remote servers (h, down, v) =
      let (s', ran, v', _) = sync_id_lists-IsValid remote s servers v in
      let same : SameSpecs s s' = subst (Keeps s) ran (sync_id_lists-Keeps remote s servers) in
      (
        s',
        ran,
        (same_specs m.current s s' same h, sym (ap (λ (x : Store). x.shutdown) same) ∙ down, v'),
      )

  round-Matches :
      (m : Model) (s : Store) (round : Round)
      → Matches m s
      → (s' : Store) × (run_round s round ≡ some s') × Matches (model_round m round) s'
  unfolding run_round poll_for_id_list_changes stop_polling
  round-Matches m s (specs_round used got answer) (h, down, v) = (
    (poll_for_ruleset_changes r setup s used got answer).0,
    refl,
    (
      poll-Reflects m s used got answer h down,
      poll-shutdown s used got answer ∙ down,
      IsValid-of_lists s _ (poll-id_lists r setup s used got answer) v,
    ),
  )
  round-Matches m s (lists_round remote servers) h = lists-Matches m s s.shutdown remote servers h
  round-Matches m s stop_round (h, down, v) = (
    record s { shutdown = true },
    refl,
    (h, refl, IsValid-of_lists s (record s { shutdown = true }) refl v),
  )

  rounds-Matches :
      (rounds : List Round) (m : Model) (s : Store)
      → Matches m s
      → (s' : Store) × (run_rounds s rounds ≡ some s') × Matches (model_rounds m rounds) s'
  rounds-Matches [] m s h = (s, refl, h)
  rounds-Matches (round ∷ rounds) m s h =
      let (s1, one, h1) = round-Matches m s round h in
      let (s', rest, h') = rounds-Matches rounds (model_round m round) s1 h1 in
      (s', rw (one, rest) refl, h')

  -- A store that is created polls.
  load_locally-shutdown :
      (got : Option String) → (load_locally r setup empty_store got).shutdown ≡ false
  unfolding load_locally fetch_config_specs_from_adapter process_config_specs
  load_locally-shutdown none = ground arith
  load_locally-shutdown (some text) = ground arith

  fetch-shutdown :
      (s : Store) (cold : Bool) (answer : Answer)
      → (fetch_config_specs_from_server r setup s cold answer).0.shutdown ≡ s.shutdown
  unfolding fetch_config_specs_from_server handle_sync_error process_config_specs
  fetch-shutdown s cold failed = ground arith
  fetch-shutdown s cold (received specs) = ground arith

  load_config_specs-shutdown :
      (got : Option String) (answer : Answer)
      → (load_config_specs r setup got answer).0.shutdown ≡ false
  unfolding load_config_specs
  load_config_specs-shutdown got answer = ground (
    arith,
    fetch-shutdown (load_locally r setup empty_store got) true answer,
    load_locally-shutdown got,
  )

  abbrev pub created_model : Option String → Answer → Model
  created_model got answer = record {
    current = created_current r setup got answer;
    stopped = false;
  }

  new_store-Matches :
      (got : Option String) (answer : Answer) (remote : String → ℕ → Download)
      (servers : Option (Dict ServerList))
      → (s : Store) × ((new_store_internal r setup got answer remote servers).0 ≡ some s)
        × Matches (created_model got answer) s
  unfolding new_store_internal
  new_store-Matches got answer remote servers =
      let loaded = (load_config_specs r setup got answer).0 in
      let (s, ran, (h, down, v)) =
        lists-Matches (created_model got answer) loaded false remote servers (
          load_config_specs-Reflects r setup got answer,
          load_config_specs-shutdown got answer,
          (loaded-IsSound r setup got answer).valid,
        ) in
      (
        record s { initialized_id_lists = true },
        ap (initialized r setup) ran,
        (h, down, IsValid-of_lists s (record s { initialized_id_lists = true }) refl v),
      )

-- A store is the last answer with updates that it was given. Whatever the adapter, the bootstrap
-- values and the server say when a store is created and in any rounds of its polls, and whatever ID
-- lists are downloaded, the store is created and every round ends; each gate, config, layer and
-- experiment is then known exactly as the last answer with updates has it, until polling stops.
pub run_rounds-Reflects :
    (r : Runtime) (setup : Setup) (got : Option String) (answer : Answer)
    (remote : String → ℕ → Download) (servers : Option (Dict ServerList)) (rounds : List Round)
    → (s s' : Store) × ((new_store_internal r setup got answer remote servers).0 ≡ some s)
      × (run_rounds r setup s rounds ≡ some s')
      × Reflects (model_rounds r setup (created_model r setup got answer) rounds).current s'
run_rounds-Reflects r setup got answer remote servers rounds =
    let (s, made, h) = new_store-Matches r setup got answer remote servers in
    let (s', ran, (k, _, _)) =
      rounds-Matches r setup rounds (created_model r setup got answer) s h in
    (s, s', made, ran, k)

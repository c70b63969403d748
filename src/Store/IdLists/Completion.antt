-- ===== src/Store/IdLists/Completion.antt =====
-- store.go: the end of a run of `syncIDLists`, which `wg.Wait` waits for.
use statsig_go_sdk.Prelude.{
  ℕ, suc, ◌+◌, ◌*◌, ◌≤◌, ◌<◌, String, ◌≡◌, refl, sym, subst, ◌∙◌, ◌⊎◌, inl, inr, true, Option, none,
  some, [], ◌∷◌, arith, eq_refl, is_some, Bool-cases, if◌then◌else◌,
}
use statsig_go_sdk.Dict.{
  Dict, NodupKeys, size, size-nil, size-cons, size-insert, size-erase_found, lookup, lookup-nil,
  lookup-cons, lookup-erase,
}
use statsig_go_sdk.Store.State.{IdList, Store}
use statsig_go_sdk.Store.IdLists.{
  ServerList, Download, set_id_list, local_list, is_invalid, is_newer, reset_list,
}
use statsig_go_sdk.Store.IdLists.Valid.{
  HasIds, IsValid, same_file, known-IsValid, set_id_list-IsValid, download_list-Syncs,
}
use statsig_go_sdk.Store.IdLists.Schedule.{
  grown, start_list, Syncing, run_job, Step, start, finish, Steps, here, later, IsDone, begin_sync,
}
use statsig_go_sdk.Store.IdLists.Apart.{Apart, begin_sync-Apart, Step-Apart, lookup-run_job}

-- A job has a set of IDs to fill.
abbrev pub HasSupply : Option IdList → Type 0
HasSupply job = (list : IdList) → job ≡ some list → is_some list.ids ≡ true

grown-HasSupply :
    (server : ServerList) (list : IdList) → is_some list.ids ≡ true → HasSupply (grown server list)
grown-HasSupply server list h other e = ground arith

decided-IsValid :
    (known : Store) (name : String) (server : ServerList) (list : IdList)
    → IsValid known
    → HasIds list
    → (r : Store × Option IdList)
    → r ≡ (
        if is_invalid server list
        then (known, none)
        else if is_newer server list
        then (
          set_id_list known name (reset_list server list),
          grown server (reset_list server list),
        )
        else (known, grown server list))
    → IsValid r.0 × HasSupply r.1
decided-IsValid known name server list v h r e = elim (Bool-cases (is_invalid server list)) [
  | inl invalid ↦ rw (e, invalid) (v, λ other none. cc)
  | inr valid ↦ elim (Bool-cases (is_newer server list)) [
    | inl newer ↦
        rw (e, valid, newer)
          (
            set_id_list-IsValid known name (reset_list server list) v (λ _. refl),
            grown-HasSupply server (reset_list server list) refl,
          )
    | inr old ↦
        rw (e, valid, old) (v, grown-HasSupply server list (h (same_file server list valid old)))
  ]
]

start_list-IsValid :
    (s : Store) (name : String) (server : ServerList)
    → IsValid s
    → IsValid (start_list s name server).0 × HasSupply (start_list s name server).1
unfolding start_list
start_list-IsValid s name server v =
    let (known, h) = known-IsValid s name v in
    decided-IsValid _ name server (local_list s name) known h (start_list s name server) refl

-- A run in which no download can crash.
record Ready (state : Syncing) : Type 0 where
  apart : Apart state
  valid : IsValid state.store
  supplied : (name : String) → HasSupply (lookup name state.running)

same_store : {s t : Store} → some s ≡ some t → s ≡ t
same_store h = cc

first_found :
    (n : String) (list : IdList) (running : Dict IdList)
    → lookup n ((n, list) ∷ running) ≡ some list
first_found n list running = rw (lookup-cons n (n, list) running, eq_refl n) refl

size-run_job :
    (name : String) (job : Option IdList) (running : Dict IdList)
    → size (run_job name job running) ≤ suc (size running)
size-run_job name none running = ground arith
size-run_job name (some list) running = size-insert name list running

module _ (remote : String → ℕ → Download) where
  Step-Ready : {x y : Syncing} → Step remote x y → Ready x → Ready y
  Step-Ready (start s n server todo running reports) r =
      let (v, h) = start_list-IsValid s n server r.valid in
      record {
        apart = Step-Apart remote (start s n server todo running reports) r.apart;
        valid = v;
        supplied = λ name list found. ground (
          arith,
          r.supplied name list,
          lookup-run_job n name (start_list s n server).1 running,
          h list,
        );
      }
  Step-Ready (finish state n {list = list} found ran) r =
      let (t, ran', v) =
        download_list-Syncs state.store n list (remote list.url list.size) r.valid
          (r.supplied n list found) in
      record {
        apart = Step-Apart remote (finish state n found ran) r.apart;
        valid = subst IsValid (same_store (sym ran' ∙ ran)) v;
        supplied = λ name other there.
            ground (arith, r.supplied name other, lookup-erase n name state.running);
      }

  -- What is left to do: a start and an end for each list, an end for each download.
  work : Syncing → ℕ
  work state = 2 * size state.todo + size state.running

  Step-work : {x y : Syncing} → Step remote x y → work y < work x
  unfolding work
  Step-work (start s n server todo running reports) =
      ground (arith, size-run_job n (start_list s n server).1 running, size-cons (n, server) todo)
  Step-work (finish state n {list = list} found ran) =
      ground (arith, size-erase_found n list state.running found)

  Steps-work :
      {n : ℕ} {x y : Syncing} → Steps remote n x y → Ready x → Ready y × (work y + n ≤ work x)
  Steps-work here r = (r, ground arith)
  Steps-work (later steps step) r =
      let (r', less) = Steps-work steps r in
      (Step-Ready step r', ground (arith, less, Step-work step))

  Ready-Step :
      (s : Store) (todo : Dict ServerList) (running : Dict IdList) (reports : ℕ)
      → Ready (record { store = s; todo = todo; running = running; reports = reports })
      → IsDone (record { store = s; todo = todo; running = running; reports = reports })
        ⊎ ((y : Syncing) × Step remote
              (record { store = s; todo = todo; running = running; reports = reports })
              y)
  Ready-Step s [] [] reports r = inl (refl, refl)
  Ready-Step s ((n, server) ∷ todo) running reports r =
      inr (_, start s n server todo running reports)
  Ready-Step s [] ((n, list) ∷ running) reports r =
      let found = first_found n list running in
      let (t, ran, v) =
        download_list-Syncs s n list (remote list.url list.size) r.valid
          (r.supplied n list found) in
      inr (
        _,
        finish (record { store = s; todo = []; running = (n, list) ∷ running; reports = reports }) n
            found ran,
      )

-- From a store in which every list that has a file has a set of IDs, a run of the downloads of a
-- sync gets stuck nowhere: it is through, or the loop or a download can go on, whatever has been
-- downloaded, and so no download crashes on a nil set. It is through after at most two steps for
-- each list that the server names.
pub Steps-IsDone :
    (remote : String → ℕ → Download) (s : Store) (servers : Dict ServerList) {n : ℕ}
    {state : Syncing}
    → IsValid s
    → NodupKeys servers
    → Steps remote n (begin_sync s servers) state
    → (n ≤ 2 * size servers) × (IsDone state ⊎ ((next : Syncing) × Step remote state next))
unfolding work
Steps-IsDone remote s servers {state = state} v u steps =
    let (r, less) = Steps-work remote steps (record {
      apart = begin_sync-Apart s servers u;
      valid = v;
      supplied = λ name list found. ground (arith, lookup-nil {V = IdList} name);
    }) in
    (
      ground (arith, less, size-nil IdList),
      Ready-Step remote state.store state.todo state.running state.reports r,
    )

-- ===== src/Store/IdLists/Interleaving.antt =====
-- store.go: the order in which the downloads of `syncIDLists` end.
use statsig_go_sdk.Prelude.{
  ℕ, String, ◌≡◌, refl, sym, ap, subst, ◌∙◌, inl, inr, true, Option, none, some, [], ◌∷◌, ◌==◌,
  arith, eq_iff, eq_refl, Bool-cases, Option-cases,
}
use statsig_go_sdk.Dict.{
  Dict, NodupKeys, lookup, erase, lookup-nil, lookup-cons, lookup-insert, lookup-erase,
}
use statsig_go_sdk.Store.State.{IdList, Store, get_id_list}
use statsig_go_sdk.Store.IdLists.{
  ServerList, Download, sync_list, sync_lists, sync_id_lists, only_named, ◌>>=◌,
}
use statsig_go_sdk.Store.IdLists.Schedule.{
  start_list, Syncing, run_job, Step, start, finish, Steps, here, later, IsDone, begin_sync,
  end_sync,
}
use statsig_go_sdk.Store.IdLists.Valid.{lookup-only_named}
use statsig_go_sdk.Store.IdLists.Entries.{
  Only, job_entry, finish_entry, start_entry, sync_entry, download_list-Only,
  start_list-start_entry, sync_list-Only,
}
use statsig_go_sdk.Store.IdLists.Apart.{
  Apart, begin_sync-Apart, lookup-run_job, idle_now, passed_by, Step-Apart,
}

same_value : {x y : Option IdList} → some x ≡ some y → x ≡ y
same_value h = cc

no_value : {s : Store} → none ≡ some s → ⊥
no_value h = cc

same_name : (n name : String) → (n == name) ≡ true → n ≡ name
same_name n name h = ground (arith, eq_iff n name)

module _ (remote : String → ℕ → Download) where
  -- What the entry of a name is to become: by the loop, by its download, or no more.
  abbrev pub pending :
      String → Option ServerList → Option IdList → Option IdList → Option (Option IdList)
  pending name (some server) job old = sync_entry remote name server old
  pending name none job old = job_entry remote job old

  abbrev pub settled : String → Syncing → Option (Option IdList)
  settled name state =
      pending name (lookup name state.todo) (lookup name state.running)
        (get_id_list state.store name)

  idle_job :
      (n : String) (job : Option IdList) (running : Dict IdList)
      → lookup n running ≡ none
      → lookup n (run_job n job running) ≡ job
  idle_job n none running idle = idle
  idle_job n (some list) running idle = rw (lookup-insert n n list running, eq_refl n) refl

  started-settled :
      (n : String) (server : ServerList) (job old entry : Option IdList)
      → some (start_entry n server old).0 ≡ some entry
      → job ≡ (start_entry n server old).1
      → pending n (some server) none old ≡ pending n none job entry
  started-settled n server job old entry stored started = rw (started, sym (same_value stored)) refl

  start-settled :
      (s s' : Store) (n : String) (server : ServerList) (todo : Dict ServerList)
      (running : Dict IdList) (job : Option IdList)
      → lookup n todo ≡ none
      → lookup n running ≡ none
      → some (start_entry n server (get_id_list s n)).0 ≡ some (get_id_list s' n)
      → job ≡ (start_entry n server (get_id_list s n)).1
      → pending n (lookup n ((n, server) ∷ todo)) (lookup n running) (get_id_list s n)
        ≡ pending n (lookup n todo) (lookup n (run_job n job running)) (get_id_list s' n)
  start-settled s s' n server todo running job fresh idle stored started =
      rw (lookup-cons n (n, server) todo, eq_refl n, fresh, idle_job n job running idle)
        (started-settled n server job (get_id_list s n) (get_id_list s' n) stored started)

  finish-settled :
      (s s' : Store) (n : String) (todo : Dict ServerList) (running : Dict IdList) (list : IdList)
      → lookup n todo ≡ none
      → lookup n running ≡ some list
      → finish_entry list (remote list.url list.size) (get_id_list s n) ≡ some (get_id_list s' n)
      → pending n (lookup n todo) (lookup n running) (get_id_list s n)
        ≡ pending n (lookup n todo) (lookup n (erase n running)) (get_id_list s' n)
  finish-settled s s' n todo running list passed found done =
      rw (passed, found, lookup-erase n n running, eq_refl n, done) refl

  finished :
      (name : String) (s : Store) (m : Option Store) {s' : Store} (after : Option (Option IdList))
      → m ≡ some s'
      → Only name m s after
      → Only name (some s') s after
  finished name s m after e h = subst (λ m'. Only name m' s after) e h

  Step-settled :
      {x y : Syncing} (name : String) → Step remote x y → Apart x → settled name x ≡ settled name y
  Step-settled {x = x} {y = y} name (start s n server todo running reports) a =
      let ((stored, frame), started) = start_list-start_entry s n server in
      elim (Bool-cases (n == name)) [
        | inl same ↦
            subst (λ k. settled k x ≡ settled k y) (same_name n name same)
              (start-settled s y.store n server todo running _ a.distinct.0 (idle_now a) stored
                started)
        | inr other ↦
            rw
              (
                lookup-cons name (n, server) todo,
                lookup-run_job n name (start_list s n server).1 running,
                other,
                frame name other,
              )
              refl
      ]
  Step-settled {x = x} {y = y} name (finish state n {list = list} found ran) a =
      let (stored, frame) =
        finished n state.store _ _ ran
          (download_list-Only state.store n list (remote list.url list.size)) in
      elim (Bool-cases (n == name)) [
        | inl same ↦
            subst (λ k. settled k x ≡ settled k y) (same_name n name same)
              (finish-settled state.store y.store n state.todo state.running list
                (passed_by state n a found) found stored)
        | inr other ↦ rw (lookup-erase n name state.running, other, frame name other) refl
      ]

  Steps-settled :
      {n : ℕ} {x y : Syncing} (name : String)
      → Steps remote n x y
      → Apart x
      → Apart y × (settled name x ≡ settled name y)
  Steps-settled name here a = (a, refl)
  Steps-settled name (later steps step) a =
      let (b, same) = Steps-settled name steps a in
      (Step-Apart remote step b, same ∙ Step-settled name step b)

  done-settled :
      (name : String) (state : Syncing)
      → IsDone state
      → settled name state ≡ some (get_id_list state.store name)
  done-settled name state (loop, downloads) =
      rw (loop, downloads, lookup-nil {V = ServerList} name, lookup-nil {V = IdList} name) refl

  -- The rounds of the loop in sequence, each with its download, settle the entries the same way.
  round-settled :
      (s s' : Store) (n : String) (server : ServerList) (todo : Dict ServerList) (name : String)
      → lookup n todo ≡ none
      → Only n (some s') s (sync_entry remote n server (get_id_list s n))
      → settled name (begin_sync s ((n, server) ∷ todo)) ≡ settled name (begin_sync s' todo)
  round-settled s s' n server todo name fresh (stored, frame) = elim (Bool-cases (n == name)) [
    | inl same ↦
        subst (λ k. settled k (begin_sync s ((n, server) ∷ todo)) ≡ settled k (begin_sync s' todo))
          (same_name n name same)
          (rw (lookup-cons n (n, server) todo, eq_refl n, fresh, lookup-nil {V = IdList} n) stored)
    | inr other ↦ rw (lookup-cons name (n, server) todo, other, frame name other) refl
  ]

  sync_lists-settled :
      (servers : Dict ServerList) (s t : Store) (name : String)
      → NodupKeys servers
      → sync_lists remote s servers ≡ some t
      → settled name (begin_sync s servers) ≡ some (get_id_list t name)
  unfolding sync_lists
  sync_lists-settled [] s t name u ran =
      rw (lookup-nil {V = ServerList} name, lookup-nil {V = IdList} name)
        (ap (λ m. elim m [ some s' ↦ some (get_id_list s' name) | none ↦ none ]) ran)
  sync_lists-settled ((n, server) ∷ servers) s t name (fresh, u) ran =
      elim (Option-cases (sync_list remote s n server)) [
        | inl crash ↦
            absurd (
              no_value (subst (λ m. (m >>= λ s'. sync_lists remote s' servers) ≡ some t) crash ran))
        | inr (s', one) ↦
            round-settled s s' n server servers name fresh
              (finished n s _ _ one (sync_list-Only remote s n server))
            ∙ sync_lists-settled servers s' t name u
                (subst (λ m. (m >>= λ s'. sync_lists remote s' servers) ≡ some t) one ran)
      ]

abbrev kept_lists : Dict ServerList → Store → Store
kept_lists servers s = record s { id_lists = only_named servers s.id_lists }

sync_lists-kept_lists :
    (servers : Dict ServerList) (m : Option Store) (t' t : Store) (name : String)
    → m ≡ some t'
    → (m >>= λ s'. some (kept_lists servers s')) ≡ some t
    → lookup name (only_named servers t'.id_lists) ≡ get_id_list t name
sync_lists-kept_lists servers m t' t name all kept = same_value (
    ap (λ m. elim m [ some s' ↦ some (get_id_list s' name) | none ↦ none ])
      (subst (λ m'. (m' >>= λ s'. some (kept_lists servers s')) ≡ some t) all kept))

-- However the downloads of a sync end, in whatever order and between whatever rounds of the loop,
-- a run in which the loop is through and every download has ended leaves under every name the list
-- that the downloads leave one after another, each in the round of its list.
pub Steps-sync_id_lists :
    (remote : String → ℕ → Download) (s t : Store) (servers : Dict ServerList) {n : ℕ}
    {state : Syncing}
    → NodupKeys servers
    → sync_id_lists remote s (some servers) ≡ some t
    → Steps remote n (begin_sync s servers) state
    → IsDone state
    → (name : String) → get_id_list (end_sync servers state) name ≡ get_id_list t name
unfolding sync_id_lists end_sync
Steps-sync_id_lists remote s t servers {state = state} u ran steps done name =
    elim (Option-cases (sync_lists remote s servers)) [
      | inl crash ↦
          absurd
            (no_value (subst (λ m. (m >>= λ s'. some (kept_lists servers s')) ≡ some t) crash ran))
      | inr (t', all) ↦
          let agree = same_value (
            sym (done-settled remote name state done)
            ∙ sym ((Steps-settled remote name steps (begin_sync-Apart s servers u)).1)
            ∙ sync_lists-settled remote servers s t' name u all) in
          rw
            (
              lookup-only_named servers name state.store.id_lists,
              agree,
              sym (lookup-only_named servers name t'.id_lists),
            )
            (sync_lists-kept_lists servers (sync_lists remote s servers) t' t name all ran)
    ]

-- ===== src/Store/IdLists/Apart.antt =====
-- store.go: each list of a sync is in the loop, or downloads, or is through.
use statsig_go_sdk.Prelude.{
  ℕ, String, ◌≡◌, refl, inl, inr, Option, none, some, ◌∷◌, ◌==◌, arith, eq_iff, eq_refl,
  Option-cases, if◌then◌else◌,
}
use statsig_go_sdk.Dict.{
  Dict, NodupKeys, lookup, lookup-nil, lookup-cons, lookup-insert, lookup-erase,
}
use statsig_go_sdk.Store.State.{IdList, Store}
use statsig_go_sdk.Store.IdLists.{ServerList, Download}
use statsig_go_sdk.Store.IdLists.Schedule.{
  start_list, Syncing, run_job, Step, start, finish, begin_sync,
}

-- No list is named twice, and the downloads that run are of lists that the loop has passed.
pub record Apart (state : Syncing) : Type 0 where
  pub distinct : NodupKeys state.todo
  pub passed :
      (name : String) (server : ServerList)
      → lookup name state.todo ≡ some server
      → lookup name state.running ≡ none

pub begin_sync-Apart :
    (s : Store) (servers : Dict ServerList) → NodupKeys servers → Apart (begin_sync s servers)
begin_sync-Apart s servers u = record { distinct = u; passed = λ name server h. lookup-nil name }

pub lookup-run_job :
    (name other : String) (job : Option IdList) (running : Dict IdList)
    → lookup other (run_job name job running) ≡ (
        if name == other
        then elim job [ none ↦ lookup other running | some l ↦ some l ]
        else lookup other running)
lookup-run_job name other none running = ground arith
lookup-run_job name other (some list) running = lookup-insert name other list running

pub idle_now :
    {s : Store} {n : String} {server : ServerList} {todo : Dict ServerList} {running : Dict IdList}
    {reports : ℕ}
    → Apart (record { store = s; todo = (n, server) ∷ todo; running = running; reports = reports })
    → lookup n running ≡ none
idle_now {n = n} {server = server} {todo = todo} a =
    a.passed n server (rw (lookup-cons n (n, server) todo, eq_refl n) refl)

pub passed_by :
    (state : Syncing) (n : String) {list : IdList}
    → Apart state
    → lookup n state.running ≡ some list
    → lookup n state.todo ≡ none
passed_by state n a found = elim (Option-cases (lookup n state.todo)) [
  | inl gone ↦ gone
  | inr (server, there) ↦ absurd (ground (arith, a.passed n server there))
]

module _ (remote : String → ℕ → Download) where
  pub Step-Apart : {x y : Syncing} → Step remote x y → Apart x → Apart y
  Step-Apart (start s n server todo running reports) a = record {
    distinct = a.distinct.1;
    passed = λ name other h. ground (
      arith,
      a.distinct.0,
      a.passed name other,
      lookup-run_job n name (start_list s n server).1 running,
      lookup-cons name (n, server) todo,
      eq_iff n name,
    );
  }
  Step-Apart (finish state n {list = list} found ran) a = record {
    distinct = a.distinct;
    passed =
        λ name other h. ground (arith, a.passed name other h, lookup-erase n name state.running);
  }

-- ===== src/Store/IdLists/Schedule.antt =====
-- store.go: the goroutines of `syncIDLists`. The loop over the server's lists starts a download for
-- each list that has grown and goes on; the downloads end in any order, between any rounds of the
-- loop. A download touches only the entry of its own list, so that its end is one step.
use statsig_go_sdk.Prelude.{
  ℕ, ◌+◌, String, ◌≡◌, Option, none, some, [], ◌∷◌, leb, is_some, if◌then◌else◌,
}
use statsig_go_sdk.Prelude.Int.{pos, leb_ℤ}
use statsig_go_sdk.Dict.{Dict, lookup, insert, erase}
use statsig_go_sdk.Store.State.{IdList, Store, get_id_list}
use statsig_go_sdk.Store.IdLists.{
  ServerList, Download, failed, body, set_id_list, local_list, is_invalid, is_newer, reset_list,
  download_list, only_named,
}

-- The list whose download is started, if the server's is bigger.
abbrev pub grown : ServerList → IdList → Option IdList
grown server list = if leb_ℤ server.size (pos list.size) then none else some list

-- One round of the loop, up to the start of the goroutine.
unfoldable pub start_list : Store → String → ServerList → Store × Option IdList
start_list s name server =
    let local = local_list s name in
    let known = if is_some (get_id_list s name) then s else set_id_list s name local in
    if is_invalid server local
    then (known, none)
    else if is_newer server local
    then (set_id_list known name (reset_list server local), grown server (reset_list server local))
    else (known, grown server local)

-- How often a download calls `errorBoundary.logException`: a list that is malformed is dropped
-- without a report.
unfoldable pub download_reports : Download → ℕ
download_reports failed = 1
download_reports (body len content) = if leb len 0 then 1 else 0

-- A sync that is under way: the store, the lists that the loop has not reached, the downloads that
-- run, and the reports that were made.
pub record Syncing : Type 0 where
  pub store : Store
  pub todo : Dict ServerList
  pub running : Dict IdList
  pub reports : ℕ

abbrev pub run_job : String → Option IdList → Dict IdList → Dict IdList
run_job name none running = running
run_job name (some list) running = insert name list running

module _ (remote : String → ℕ → Download) where
  pub data Step : Syncing → Syncing → Type 0 where
    start :
        (s : Store) (name : String) (server : ServerList) (todo : Dict ServerList)
        (running : Dict IdList) (reports : ℕ)
        → Step
            (record {
              store = s;
              todo = (name, server) ∷ todo;
              running = running;
              reports = reports;
            })
            (record {
              store = (start_list s name server).0;
              todo = todo;
              running = run_job name (start_list s name server).1 running;
              reports = reports;
            })
    finish :
        (state : Syncing) (name : String) {list : IdList} {s' : Store}
        → lookup name state.running ≡ some list
        → download_list state.store name list (remote list.url list.size) ≡ some s'
        → Step state (record state {
          store = s';
          running = erase name state.running;
          reports = state.reports + download_reports (remote list.url list.size);
        })

  pub data Steps : ℕ → Syncing → Syncing → Type 0 where
    here : {state : Syncing} → Steps 0 state state
    later : {n : ℕ} {x y z : Syncing} → Steps n x y → Step y z → Steps (ℕ.suc n) x z

-- The loop is through and all downloads have ended, which `wg.Wait` waits for.
abbrev pub IsDone : Syncing → Type 0
IsDone state = (state.todo ≡ []) × (state.running ≡ [])

abbrev pub begin_sync : Store → Dict ServerList → Syncing
begin_sync s servers = record { store = s; todo = servers; running = []; reports = 0 }

-- After the wait, the lists that the server no longer names are deleted.
unfoldable pub end_sync : Dict ServerList → Syncing → Store
end_sync servers state = record state.store { id_lists = only_named servers state.store.id_lists }

-- ===== src/Tests/Downloads.antt =====
-- Two lists whose downloads end in the order opposite to that of their starts.
use statsig_go_sdk.Prelude.{
  Option, ◌+◌, ◌*◌, ◌≤◌, String, ◌≡◌, refl, ◌⊎◌, some, [], ◌∷◌, or_default,
}
use statsig_go_sdk.Dict.{Dict, NodupKeys, size, lookup, insert, erase}
use statsig_go_sdk.Text.{split}
use statsig_go_sdk.Text.Space.{replace_crlf, trim_space}
use statsig_go_sdk.Store.State.{IdList, Store, empty_store, get_id_list}
use statsig_go_sdk.Store.IdLists.{ServerList, placeholder, sync_id_lists, download_list}
use statsig_go_sdk.Store.IdLists.Lines.{apply_content, apply_changes, content_lines, change_of}
use statsig_go_sdk.Store.IdLists.Schedule.{
  start_list, run_job, download_reports, Syncing, Step, start, finish, Steps, here, later, IsDone,
  begin_sync, end_sync,
}
use statsig_go_sdk.Store.IdLists.Interleaving.{Steps-sync_id_lists}
use statsig_go_sdk.Store.IdLists.Completion.{Steps-IsDone}
use statsig_go_sdk.Tests.Syncs.{staff_server, served, empty_store-IsValid}

abbrev beta_server : ServerList
beta_server = record staff_server { url = "https://idlist/beta"; file_id = "f2" }

abbrev two_lists : Dict ServerList
two_lists = ("staff", staff_server) ∷ ("beta", beta_server) ∷ []

two_lists-NodupKeys : NodupKeys two_lists
unfolding lookup
two_lists-NodupKeys = (refl, (refl, tt))

abbrev started_one : Syncing
started_one = record {
  store = (start_list empty_store "staff" staff_server).0;
  todo = ("beta", beta_server) ∷ [];
  running = run_job "staff" (start_list empty_store "staff" staff_server).1 [];
  reports = 0;
}

abbrev started_two : Syncing
started_two = record {
  store = (start_list started_one.store "beta" beta_server).0;
  todo = [];
  running = run_job "beta" (start_list started_one.store "beta" beta_server).1 started_one.running;
  reports = 0;
}

abbrev job : Option IdList → IdList
job list = or_default list (placeholder "")

abbrev after_download : Syncing → String → Syncing
after_download state name =
    let list = job (lookup name state.running) in
    record state {
      store =
          or_default (download_list state.store name list (served list.url list.size)) state.store;
      running = erase name state.running;
      reports = state.reports + download_reports (served list.url list.size);
    }

abbrev ended_one : Syncing
ended_one = after_download started_two "beta"

abbrev ended_two : Syncing
ended_two = after_download ended_one "staff"

both_ended : Steps served 4 (begin_sync empty_store two_lists) ended_two
unfolding start_list lookup insert erase download_list apply_content split replace_crlf trim_space
    apply_changes content_lines change_of download_reports
both_ended =
    later
      (later
        (later
          (later here (start empty_store "staff" staff_server (("beta", beta_server) ∷ []) [] 0))
          (start started_one.store "beta" beta_server [] started_one.running 0))
        (finish started_two "beta" refl refl))
      (finish ended_one "staff" refl refl)

ended_two-IsDone : IsDone ended_two
unfolding start_list lookup insert erase
ended_two-IsDone = (refl, refl)

abbrev in_sequence : Store
in_sequence = or_default (sync_id_lists served empty_store (some two_lists)) empty_store

ran_in_sequence : sync_id_lists served empty_store (some two_lists) ≡ some in_sequence
unfolding sync_id_lists lookup apply_content split replace_crlf trim_space apply_changes
    content_lines change_of insert
ran_in_sequence = refl

Steps-sync_id_lists_example :
    get_id_list (end_sync two_lists ended_two) "staff" ≡ get_id_list in_sequence "staff"
Steps-sync_id_lists_example =
    Steps-sync_id_lists served empty_store in_sequence two_lists two_lists-NodupKeys ran_in_sequence
      both_ended ended_two-IsDone "staff"

Steps-IsDone_example :
    (4 ≤ 2 * size two_lists) × (IsDone ended_two ⊎ ((next : Syncing) × Step served ended_two next))
Steps-IsDone_example =
    Steps-IsDone served empty_store two_lists empty_store-IsValid two_lists-NodupKeys both_ended

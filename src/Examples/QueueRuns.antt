-- ===== src/Examples/QueueRuns.antt =====
-- internal/queue on concrete inputs.
use lunefetch.Base.{
  ℕ, suc, ◌≡◌, refl, List, [], ◌∷◌, Option, none, some, true, false, ◌⊎◌, length, contains, All,
}
use lunefetch.Base.Int64.{pos}
use lunefetch.Storage.Record.{Status, DownloadRecord}
use lunefetch.Storage.Sql.{Conn}
use lunefetch.Storage.Queue.{is_queued}
use lunefetch.Queue.{
  Manager, new_manager, has_slot, drain_loop, drain_queue, drain, Call, sets_max, tries_start, ends,
  schedules,
}
use lunefetch.Queue.Drain.{drain_queue_ends}
use lunefetch.Queue.Work.{IsSettled, drain_queue_works}
use lunefetch.Queue.Conserve.{IsWorking}
use lunefetch.Queue.Steps.{run, run_fresh-IsWorking}

abbrev row : ℕ → Status → Option ℕ → DownloadRecord
row id s p = record {
  id = id;
  url = "http://a/x";
  filename = "x";
  save_dir = "";
  category = "";
  speed_limit = pos 0;
  total_size = pos 9;
  downloaded_size = pos 0;
  status = s;
  supports_ranges = true;
  num_chunks = 1;
  etag = none;
  last_modified = none;
  queue_position = p;
  scheduled_at = none;
  created_at = id;
  updated_at = id;
  deleted_at = none;
}

-- Two downloads wait, and one is pending.
abbrev tables : Conn
tables = record {
  db = record {
    downloads =
        row 1 Status.queued (some 1)
        ∷ row 2 Status.queued (some 2)
        ∷ row 3 Status.pending none
        ∷ [];
    chunks = [];
    next_download_id = 4;
    next_chunk_id = 1;
  };
  faults = [];
}

abbrev calls : List (ℕ × Call)
calls = (2, tries_start 3) ∷ (3, ends 1) ∷ (4, sets_max (pos 2)) ∷ (5, schedules 1) ∷ []

run_fresh-IsWorking_example : IsWorking (run calls (drain 1 (new_manager tables (pos 1))))
run_fresh-IsWorking_example = run_fresh-IsWorking calls 1 tables (pos 1) refl

-- Download 7 runs and one more slot is free.
abbrev one_runs : Manager
one_runs = record { state = tables; max_concurrent = pos 2; active = 7 ∷ []; started = [] }

drain_queue_ends_example :
    (drain_loop 3 (suc (length one_runs.state.db.downloads)) [] one_runs).1 ≡ true
drain_queue_ends_example = drain_queue_ends 3 one_runs

drain_queue_works_example :
    let n = drain_queue 3 one_runs in
    ((has_slot n ≡ false) ⊎ All (λ r. is_queued r ≡ false) n.state.db.downloads) × IsSettled n
unfolding contains
drain_queue_works_example =
    drain_queue_works 3 one_runs
      (record { fine = refl; clear = ((λ _. refl), ((λ _. refl), ((λ _. refl), tt))) })

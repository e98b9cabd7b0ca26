-- ===== src/Examples/StorageRuns.antt =====
-- internal/storage on concrete inputs.
use lunefetch.Base.{
  ℕ, ◌≡◌, refl, List, [], ◌∷◌, Option, none, some, Bool, true, false, filter_by, arith,
}
use lunefetch.Base.Int64.{pos, negsuc}
use lunefetch.Storage.Record.{Status, DownloadRecord, Db}
use lunefetch.Storage.Sql.{quiet, Conn, ok, first, select, order_by, insert_by}
use lunefetch.Storage.Chunks.{sum_chunks}
use lunefetch.Storage.Queue.Waiting.{waiting}
use lunefetch.Storage.Queue.Fifo.{
  QueueCall, enqueues, marks, serves, run_fifo, run_calls, run_calls-run_fifo,
}
use lunefetch.Storage.Invariant.Operations.{IsValid}
use lunefetch.Storage.Invariant.Writes.{
  Write, creates_with_chunks, enqueues, moves, updates_chunk_progress, updates_status,
}

-- Two downloads of one chunk, both queued; the second moves up; a chunk makes progress.
abbrev calls : List (ℕ × Write)
calls =
    (1, creates_with_chunks "http://a/x" "x" "" "" (pos 9) true (pos 0 ∷ []) (pos 8 ∷ []) "" "")
    ∷ (2, creates_with_chunks "http://a/y" "y" "" "" (pos 5) true (pos 0 ∷ []) (pos 4 ∷ []) "" "")
    ∷ (3, enqueues 1)
    ∷ (4, enqueues 2)
    ∷ (5, moves 2 (negsuc 0))
    ∷ (6, updates_chunk_progress 1 0 (pos 4) Status.downloading)
    ∷ (7, updates_status 1 Status.paused)
    ∷ []

-- The seventh statement fails.
abbrev some_faults : List Bool
some_faults = false ∷ false ∷ false ∷ false ∷ false ∷ false ∷ true ∷ []

abbrev row : ℕ → Option ℕ → DownloadRecord
row id p = record {
  id = id;
  url = "http://a/x";
  filename = "x";
  save_dir = "";
  category = "";
  speed_limit = pos 0;
  total_size = pos 9;
  downloaded_size = pos 0;
  status = Status.queued;
  supports_ranges = true;
  num_chunks = 1;
  etag = none;
  last_modified = none;
  queue_position = p;
  scheduled_at = none;
  created_at = id;
  updated_at = id;
  deleted_at = none;
}

abbrev three_rows : Conn
three_rows = record {
  db = record {
    downloads = row 1 none ∷ row 2 (some 2) ∷ row 3 (some 1) ∷ [];
    chunks = [];
    next_download_id = 4;
    next_chunk_id = 1;
  };
  faults = [];
}

abbrev two_waiting : Db
two_waiting = record {
  downloads = row 1 (some 2) ∷ row 3 (some 1) ∷ [];
  chunks = [];
  next_download_id = 4;
  next_chunk_id = 1;
}

-- No row shares a key or a position, and nothing is downloaded.
two_waiting-IsValid : IsValid two_waiting
unfolding sum_chunks
two_waiting-IsValid = record {
  slots = record {
    apart = ((((λ e. absurd (omega (arith, e))), refl), tt), (tt, tt));
    below = (omega arith, (omega arith, tt));
  };
  summed = (refl, (refl, tt));
  owned = tt;
}

-- The first one starts and waits again.
abbrev queue_calls : List (ℕ × QueueCall)
queue_calls =
    (1, serves) ∷ (2, marks 3) ∷ (3, serves) ∷ (4, enqueues 3) ∷ (5, enqueues 9) ∷ (6, serves) ∷ []

run_calls-run_fifo_example :
    ((run_calls queue_calls (quiet two_waiting)).0 ≡ ok (some 3) ∷ ok (some 1) ∷ ok (some 1) ∷ [])
    × (waiting (run_calls queue_calls (quiet two_waiting)).1.db ≡ 1 ∷ 3 ∷ [])
unfolding run_fifo filter_by first select order_by insert_by
run_calls-run_fifo_example =
    run_calls-run_fifo queue_calls two_waiting two_waiting-IsValid ((λ q. refl), ((λ q. refl), tt))

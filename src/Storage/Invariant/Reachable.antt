-- ===== src/Storage/Invariant/Reachable.antt =====
-- The tables after any series of calls of `StateManager` since the schema was made.
use lunefetch.Base.{ℕ, List, [], ◌∷◌}
use lunefetch.Storage.Record.{Db}
use lunefetch.Storage.Sql.{Conn}
use lunefetch.Storage.Invariant.Writes.{Write, apply}

abbrev pub empty_tables : Db
empty_tables = record { downloads = []; chunks = []; next_download_id = 1; next_chunk_id = 1 }

-- The calls one after the other, each with the time of the clock.
unfoldable pub apply_all : List (ℕ × Write) → Conn → Conn
unfolding apply
apply_all [] c = c
apply_all ((now, w) ∷ ws) c = apply_all ws (apply now w c)

-- ===== src/Lib.antt =====
-- Lunefetch, an HTTP download manager: what its own logic computes, and what holds of it.
--
-- The parts and how they interact. `internal/core` downloads one file: it asks for its size, splits it
-- into byte ranges, gets the ranges in parallel into a part file and reports progress.
-- `internal/storage` keeps the downloads and their chunks in two SQLite tables. `internal/queue`
-- decides which downloads run, by the tables, and calls back to start one. The user interface and the
-- local API (for the browser extension) call these three.
--
-- The modules. `Base` has the names and lemmas that all share: tests on numbers, lists, and int64
-- (`Base.Int64`), where a sum wraps as in Go.
--
--   Core.Chunks      internal/core/downloader.go: Chunk, CalculateChunks
--   Core.Progress    internal/core/downloader.go: NewDownloader, reconcileDiskProgress, verifyOnDisk,
--                    syncFile, flushProgress and the end of Start
--   Core.Transfer, Core.Worker, Core.ContentRange, Core.Backoff
--                    internal/core/downloader.go: downloadChunk, downloadChunkWithRetry,
--                    parseContentRange, backoffFor, SetRetryBackoff
--   Core.UnknownSize internal/core/downloader.go: startUnknownSize
--   Core.Files       internal/core/downloader.go: MoveFile, ReplaceFile, UniqueDownloadPath,
--                    VerifyDownload
--   Core.Address     internal/core/downloader.go: addressPolicy, dialContext, validateHTTPURL
--   Core.Names, Core.Paths
--                    internal/core/downloader.go: ValidateFilename, SafeDownloadPath, SafeSaveDir
--   Core.Info        internal/core/downloader.go: GetFileInfo, extractFilename
--   Core.Throttle    internal/core/throttle.go
--   Storage.Record   internal/storage/state.go: the rows of both tables
--   Storage.Sql      the statements and transactions that state.go uses of database/sql
--   Storage.Chunks, Storage.Downloads, Storage.Queue, Storage.History
--                    internal/storage/state.go: each method of StateManager, under its name
--   Storage.Queue.Fifo
--                    the same queue as a list of keys
--   Queue            internal/queue/manager.go: each method of Manager, under its name
--   Config           internal/config/config.go: Default, ChunksForSize, Validate, Save
--   Bridge           internal/api/server.go: the handlers of /download and /ping; and
--                    cmd/native-host/main.go: handleRequest, sendToApp, resultForStatus, and
--                    readMessage and writeMessage (Bridge.Framing)
--   View             internal/ui/store: the store behind the table of downloads; and
--                    internal/ui/components/table_multi_select.go (View.Selection)
--   Page             internal/ui/pages/downloads.go: the life of a download between the queue, its
--                    goroutine and its file; what follows Start (Page.Finish), the commands
--                    (Page.Actions), and the events in any order (Page.Life)
--   Filecat          internal/filecat/category.go
--   Intake           internal/ui/layout/desktop.go: HandleAdd, RecoverDownloads
--   Examples         runs of all of it on concrete inputs
--
-- The state. A `Conn` of Storage.Sql is the two tables, with the next key of each, and the list of the
-- faults to come: which of the next statements the driver will refuse. An operation is a function from a
-- `Conn` to a result and a `Conn`, and a do block chains statements as the Go code does. A transaction
-- that fails, at a statement of it or at its commit, has its tables rolled back. UPDATE, SELECT, ORDER
-- BY, DELETE with its cascade, the unique index and the trigger on chunk progress are written out as
-- functions on lists of rows; rows that an ORDER BY does not tell apart keep the order of the table.
-- CURRENT_TIMESTAMP is an argument `now`. A status is one of the texts that the code stores. A queue
-- position is a natural number or NULL: the code stores no other. SQL's SUM is exact. No other process
-- writes to the tables between the statements of one call (the code opens one connection and runs
-- once for each user). An index past the end of a slice, where Go panics, is an error of the model.
--
-- A `Manager` holds a `Conn`, the limit, the running downloads and the log of starts: `go startFn(id)`
-- adds to the log. Each call of Manager holds its mutex, so a call is one step. The loop of drainQueue
-- runs on fuel, one round more than there are rows, since a round goes on only with a row that no earlier
-- round saw.
--
-- A worker of Core.Worker has the entry of its chunk, the file (the byte at each offset) and the
-- progress that it emitted. What the server, the disk, the limiters and the context do is data: an
-- `Attempt` has the response and a `Round` for each pass of the read loop, with the bytes that Read has
-- ready, its error, whether the limiters let them pass, and how many bytes a failing WriteAt still
-- writes. The loop runs on the list of its rounds, and is `unfinished` when the list ends first. The
-- attempts run on the number that the configuration gives. Of the entry's fields the error and the speed
-- are left out, which no decision reads, and of the request its headers.
--
-- In Core.Progress the size that Stat reports, whether Sync succeeds, and whether the context was
-- cancelled are arguments.
--
-- Config.save gives each state of the disk on the way, for any failing system call; url.Parse is an
-- argument of Validate, and the text that YAML makes of the settings one of Save. Bridge takes the HTTP
-- connection, the JSON decoder and the functions of net/url and path/filepath as arguments: a `World` is
-- what the host meets and a `Reading` what the API calls.
--
-- Core.Files has what is at the source and at the destination of a move, and which system calls fail.
-- In Core.Address an address is its bits and its zone, and the classes of net/netip are written out; the
-- resolver and the dialer are arguments.
--
-- A `Page` has the queue with its tables, the entries of dp.active, the prompts, the goroutines of
-- StartDownload with their contexts, the calls `go startFn(id)` that did not run yet, and the files. An
-- event is a handler, or a part of a goroutine: the start of StartDownload, the return of Start with its
-- result, and what follows; they come in any order, and a goroutine's parts as the code has them apart
-- by its mutex. The entry that a goroutine compares is known by a key. `Page.World` has the working
-- directory, a path as a text, the names that UniqueDownloadPath tries, and filepath.Base. That a dialog
-- is closed by its buttons is not used: any number of answers may come. The settings of the downloader
-- other than its size, chunks, retries and own limiter are left out.
--
-- In Core.Names, Core.Paths, Core.Info and Filecat a text is the list of its code points, and an
-- absolute path that is clean the list of its components, on Unix; Clean, Abs, Join and Rel of
-- path/filepath are written out. Arguments are the working directory, the case of letters beyond ASCII,
-- and of the answer to a HEAD request what `net/http`, `mime` and `net/url` make of it (`Head`). Intake
-- has the request, what GetFileInfo answers, fmt.Sprintf of a numbered name (`Context`), and the queue
-- with its tables; its loop for a free name runs on fuel, one try more than there are rows, since a row
-- takes one name at most. An error of FindByURL or FilenameExists is taken for no row, as in the code.
--
-- In View the functions of `strings` and the quotient of two sizes as floats are a `Library`.
--
-- Not modelled: the rest of the user interface (widgets, the window with its loops, theme, history,
-- notifications), the process start, file locks and sockets, directory names, and the browser extension
-- with its scripts. They call the operating system, the Fyne toolkit or the browser.
pub mod Base
pub mod Core
pub mod Storage
pub mod Queue
pub mod Bridge
pub mod Config
pub mod Examples
pub mod Filecat
pub mod Intake
pub mod Page
pub mod View

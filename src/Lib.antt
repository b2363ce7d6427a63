-- ===== src/Lib.antt =====
-- The personal MCP gateway: a server that gives an assistant tools over a private Obsidian vault and a
-- YNAB budget, with the controller that releases it on one machine.
--
-- The parts that are modelled, each in a tree of modules of its name:
--
-- Release: internal/releaseactivation. `Types` has the data of types.go with the source's fields,
--   `Text` the tests on hashes, commits, paths and launchd labels, `Validate` is `ValidateSnapshot` and
--   `Decide` is `Decide` with all that it calls, both of model.go. A Go string is the list of its bytes;
--   `State`, `Event` and `ErrorCode` have a constructor for each constant and `other` for every other
--   string; an `int` is an integer. Values are not shared in the model, so a clone is the value.
--   `Release.Decide.Moves` says without the code which move each event makes in each state, and what
--   must have been observed for it.
--   `Manager` is `run` of manager.go, which `Resume`, `Accept` and `Rollback` call, with all that it calls.
--   `Effects` has the machine: the operations of `Runtime` and the files of the store, each of which may
--   do and fail as it likes; `Slot` the checks of `Load`, `Rewrite` and `Clear` of store.go, whose write is
--   done, fails before its rename or fails after it; `Observe` and `Finish` the parts of manager.go.
--   `Protocol` has the steps that a request may take, each with what the slot must hold then, and for each
--   write the observation that it rests on. A crash
--   between two of them leaves what the steps before it have made. `Admin` has `Status`, `WithClear` and
--   `Probe`.
-- Ynab: internal/tools/ynab. `Circuit` is the outage circuit of quota.go, `Quota` its reservations in
--   the three tables of the provider state. An `int64` is its bit pattern, so its arithmetic wraps; a
--   time is its `UnixNano` value. Which statement of a transaction fails is an argument, and a
--   transaction that does not commit changes nothing. The text of a time (RFC 3339) is a parameter.
--   Transactions are serial, as the database makes them (`_txlock=immediate`), so callers interleave
--   call by call: `Ynab.Circuit.World` has the steps of any number of them.
--   `Dispatch` is `dispatch` of reliability.go over a `Provider`, which has all that it calls: the context,
--   the slots, the allowance, the clock, the client and the sleep. Its loop is a recursion on the attempts
--   that are left, of which there are two; what follows the loop in the source is the result `panicked`.
-- Fsx: internal/fsx. `Protocol` is mutation_protocol.go, the conversation of the gateway with the helper
--   process that writes to the vault: `Types` and `Fields` have the records and the tests on their
--   fields, `Side` what a side sends and accepts in a phase, `Wire` the frames and the operations on the
--   two streams. A reader is the list of the bytes to come, a writer takes bytes up to its room and then
--   fails. The JSON text of a record is a codec, which is only taken to read back the records of valid
--   UTF-8 texts that it writes, since Go's JSON replaces bytes that are not UTF-8.
--   `Together` says when the two sides are in step, `Conversation` has the steps of one side, `Passed` the
--   records that have passed it.
--   `Normalize` is `NormalizePath` of fsx.go with what it uses of Go's `strings` and `path`. A trimming
--   takes as many looks as the string has bytes, which is enough, since each look that finds white space
--   drops a byte at least.
-- Obsidian: internal/tools/obsidian. `Coverage` is coverage.go, what a page says of how far it got.
--   `Coordinate` is path_coordinate.go, with paths as `Fsx.Normalize` returns and joins them. `Fit` is
--   `FitLSOutput` of response_fit.go with both its loops: the encoder is a parameter that gives the lengths
--   of its JSON, and each look at the context, which `Look` names, finds what it likes. `Fit.Reference`
--   says which page is wanted without the sums of the code. `Cursor` is cursor.go: `Cursor` encodes and
--   `Cursor.Read` decodes and validates, over JSON and a sealer as parameters; `Base64` is base64 of Go's
--   encoding/base64. An operation returns an `Outcome`, and a digest is the list of its bytes.
--   `Grep` is the search of grep.go and grep_concurrent.go. `Grep.Scan` is the loop of `scan` over the lines
--   that the reader gives, with the matcher as a parameter; `Grep.Matches` says what it finds, `Grep.Paged`
--   how a page goes on where the last one ended. `Grep.Run` is `emit`, by which a match joins the page, and
--   `Grep.Reduce` what `reduceOldest` does with each event of a job, `Grep.Drain` the loop
--   over the jobs that are left. `Grep.Walk` is the walk over the vault up to the file at which a search
--   begins, with the checks of the cursor that it resumes.
--   `Grep.Pool` has the window of files that are scanned at once, as steps of the walk (`schedule`), of the
--   workers (`worker`, `send`) and of the reducer (`reduceOldest`) on one state, in any order; a context
--   that ends is a search that takes no more steps. The reducer stops at an event that is an error or that
--   stops the page, where `page_stops` is a parameter, and a file that cannot be scanned ends the walk.
--   `Markdown` is the table of lines of markdown.go with its lookups; `sort.Search` is taken as documented,
--   the smallest index that passes the test.
--
-- `Base` holds what they share: Boolean tests, lists, integers, byte strings, 64-bit words.
--
-- Bounds: clocks and the delays that the provider asks for are below 2 ^ 62 nanoseconds (the year 2116),
-- and the theorems on interleavings take fewer than 2 ^ 61 steps, so that no counter wraps there.
--
-- Not modelled: file system, launchd and SQLite I/O, JSON, regular expressions, Markdown parsing, the MCP
-- SDK and the wiring over it, the reader of lines, and the smoke and proof commands.
pub mod Base
pub mod Release
pub mod Ynab
pub mod Fsx
pub mod Obsidian

-- ===== src/Obsidian/Grep/Reduce.antt =====
-- internal/tools/obsidian/grep_concurrent.go: what `reduceOldest` does with the events of a job, in the order
-- in which it receives them.
use personal_mcp_gateway.Base.{
  ℕ, suc, ◌+◌, ◌-◌, Bytes, Bool, true, false, not, ◌&&◌, ◌||◌, Option, none, some, List, [], ◌∷◌,
  ltb, if◌then◌else◌,
}
use personal_mcp_gateway.Obsidian.Coverage.{byte_limit}
use personal_mcp_gateway.Obsidian.Outcome.{Failure, Outcome, ok, fail}
use personal_mcp_gateway.Obsidian.Fit.{Position}
use personal_mcp_gateway.Obsidian.Grep.{
  GrepCheckpointCoords, GrepError, GrepScanEvent, candidate_event, full_event, partial_event,
  unfit_event, error_event,
}
use personal_mcp_gateway.Obsidian.Grep.Run.{
  GrepPartialCursor, GrepCursorState, GrepSettings, GrepRun, partial_state, full_boundary_state,
  stop_for_unfit_grep_candidate, emit,
}

-- The order of two strings and of two positions.
pub data Order : Type 0 where
  less same more : Order

unfoldable pub compare_bytes : Bytes → Bytes → Order
compare_bytes [] [] = same
compare_bytes [] (y ∷ t) = less
compare_bytes (x ∷ s) [] = more
compare_bytes (x ∷ s) (y ∷ t) =
    let rest = compare_bytes s t in if ltb x y then less else if ltb y x then more else rest

abbrev then_by : Order → Order → Order
then_by same o = o
then_by less o = less
then_by more o = more

unfoldable pub compare_grep_position : Position → Position → Order
compare_grep_position left right =
    then_by (compare_bytes left.nfc right.nfc) (compare_bytes left.stored right.stored)

abbrev pub has_some {ℓ} : {A : Type ℓ} → Option A → Bool
has_some none = false
has_some (some a) = true

abbrev pub later_in_file : Option GrepPartialCursor → ℕ → Bool
later_in_file none offset = false
later_in_file (some p) offset = ltb p.at.resume_offset offset

abbrev pub advances_by : Order → Bool → Bool
advances_by more at_same = true
advances_by less at_same = false
advances_by same at_same = at_same

abbrev pub checkpoint_advances_from :
    Option GrepCursorState → GrepRun → Position → GrepCheckpointCoords → Bool
checkpoint_advances_from none run position at = has_some run.last_full || ltb 0 at.resume_offset
checkpoint_advances_from (some r) run position at =
    advances_by (compare_grep_position position r.boundary)
      (later_in_file r.partial at.resume_offset)

abbrev pub checkpoint_advances : GrepSettings → GrepRun → Position → GrepCheckpointCoords → Bool
checkpoint_advances c run position at = checkpoint_advances_from c.resume run position at

abbrev pub full_boundary_advances_from : Option GrepCursorState → Position → Bool
full_boundary_advances_from none position = true
full_boundary_advances_from (some r) position =
    advances_by (compare_grep_position position r.boundary) (has_some r.partial)

abbrev pub full_boundary_advances : GrepSettings → Position → Bool
full_boundary_advances c position = full_boundary_advances_from c.resume position

-- What the reducer knows of a job. An error job has no file.
pub record ReducedJob : Type 0 where
  pub position : Position
  pub fingerprint : Bytes
  pub has_file : Bool

pub record JobProgress : Type 0 where
  pub accepted_bytes : ℕ
  pub started : Bool

pub data GrepFailure : Type 0 where
  source_changed limit_exceeded : GrepFailure
  failed_with : Failure → GrepFailure
  scan_failed : GrepError → GrepFailure

-- The job goes on, is done, or ends the search.
pub data Reduced : Type 0 where
  goes_on : JobProgress → GrepRun → Reduced
  done : GrepRun → Reduced
  failed : GrepFailure → GrepRun → Reduced

abbrev pub job_failure : Option Failure → GrepError → GrepFailure
job_failure none e = scan_failed e
job_failure (some f) e = failed_with f

abbrev pub event_bytes : GrepScanEvent → ℕ
event_bytes (candidate_event n _) = n
event_bytes (full_event n) = n
event_bytes (partial_event n _ _) = n
event_bytes (unfit_event n) = n
event_bytes (error_event n _) = n

abbrev pub count_file : ReducedJob → JobProgress → GrepRun → GrepRun
count_file job progress run =
    if not progress.started && job.has_file
    then record run { work = record (run.work) { files_scanned = suc run.work.files_scanned } }
    else run

abbrev pub count_bytes : ℕ → GrepRun → GrepRun
count_bytes delta run = record run {
  page_bytes = run.page_bytes + delta;
  work = record (run.work) { bytes_scanned = run.page_bytes + delta };
}

abbrev pub stop_by_bytes : GrepRun → GrepCursorState → Reduced
stop_by_bytes run state =
    done (record run { stop = some (record { reason = byte_limit; state = state }) })

abbrev pub at_full_boundary : GrepSettings → GrepRun → Option Position → Reduced
at_full_boundary c run none = failed limit_exceeded run
at_full_boundary c run (some position) =
    if full_boundary_advances c position
    then stop_by_bytes run (full_boundary_state c run position)
    else failed limit_exceeded run

abbrev pub at_checkpoint : GrepSettings → GrepRun → ReducedJob → GrepCheckpointCoords → Reduced
at_checkpoint c run job at =
    if checkpoint_advances c run job.position at
    then stop_by_bytes run (partial_state c run job.position job.fingerprint at)
    else failed limit_exceeded run

abbrev pub after_emit : JobProgress → GrepRun → Outcome (Bool × GrepRun) → Reduced
after_emit progress run (fail e) = failed (failed_with e) run
after_emit progress run (ok (true, r)) = done r
after_emit progress run (ok (false, r)) = goes_on progress r

abbrev pub after_unfit : GrepRun → Outcome (Bool × GrepRun) → Reduced
after_unfit run (fail e) = failed (failed_with e) run
after_unfit run (ok (_, r)) = done r

-- The switch on the kind of an event.
abbrev pub reduce_kind :
    GrepSettings
    → (ℕ → Option Failure)
    → ReducedJob
    → JobProgress
    → GrepRun
    → GrepScanEvent
    → Reduced
reduce_kind c looks job progress run (candidate_event _ candidate) = after_emit progress run (
    emit c looks run candidate
      (partial_state c run job.position job.fingerprint candidate.emission))
reduce_kind c looks job progress run (full_event _) = done (record run {
  prefix = c.extend_prefix run.prefix job.position job.fingerprint;
  last_full = some job.position;
})
reduce_kind c looks job progress run (partial_event _ at advanced) =
    if advanced then at_checkpoint c run job at else at_full_boundary c run run.last_full
reduce_kind c looks job progress run (unfit_event _) =
    after_unfit run (stop_for_unfit_grep_candidate run)
reduce_kind c looks job progress run (error_event _ e) =
    failed (job_failure (c.context_failure e) e) run

abbrev pub reduce_counted :
    GrepSettings
    → (ℕ → Option Failure)
    → ReducedJob
    → JobProgress
    → GrepRun
    → GrepScanEvent
    → Reduced
reduce_counted c looks job progress run event =
    if ltb (event_bytes event) progress.accepted_bytes
    then failed source_changed run
    else reduce_kind c looks job (record { accepted_bytes = event_bytes event; started = true })
        (count_bytes (event_bytes event - progress.accepted_bytes) run) event

unfoldable pub reduce_event :
    GrepSettings
    → (ℕ → Option Failure)
    → ReducedJob
    → JobProgress
    → GrepRun
    → GrepScanEvent
    → Reduced
reduce_event c looks job progress run event =
    reduce_counted c looks job progress (count_file job progress run) event

-- A channel that closes before the last event of its job: the context may have ended.
abbrev pub closed_early : Option Failure → GrepRun → Reduced
closed_early none run = failed source_changed run
closed_early (some e) run = failed (failed_with e) run

-- The loop of `reduceOldest`; `looks` are the looks at the context, three for each event.
abbrev pub and_on : Reduced → (JobProgress → GrepRun → Reduced) → Reduced
and_on (goes_on progress run) next = next progress run
and_on (done run) next = done run
and_on (failed e run) next = failed e run

unfoldable pub reduce_oldest :
    GrepSettings
    → (ℕ → ℕ → Option Failure)
    → Option Failure
    → ReducedJob
    → JobProgress
    → GrepRun
    → List GrepScanEvent
    → Reduced
reduce_oldest c looks ended job progress run [] = closed_early ended run
reduce_oldest c looks ended job progress run (event ∷ events) =
    and_on (reduce_event c (looks 0) job progress run event)
      (λ p r. reduce_oldest c (λ n. looks (suc n)) ended job p r events)

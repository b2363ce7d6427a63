-- ===== src/Obsidian/Grep/Pool.antt =====
-- internal/tools/obsidian/grep_concurrent.go: the files of a search that are scanned at the same time. A
-- channel of events holds one event. The order in which the goroutines run is the order of the steps.
pub mod Window
pub mod Scheduling
pub mod Counted
pub mod Order
pub mod Work
pub mod Goes
use personal_mcp_gateway.Base.{
  ℕ, zero, suc, ◌+◌, ◌-◌, ◌<◌, Bytes, Bool, true, false, not, ◌&&◌, ◌||◌, Option, none, some, List,
  [], ◌∷◌, ◌++◌, All, length, ltb, leb, ◌==◌, if◌then◌else◌, ◌≡◌,
}
use personal_mcp_gateway.Obsidian.Coverage.{file_limit, byte_limit}
use personal_mcp_gateway.Obsidian.Grep.{
  GrepError, GrepScanEvent, candidate_event, full_event, partial_event, unfit_event, error_event,
}

abbrev pub grep_worker_ceiling : ℕ
grep_worker_ceiling = 16

-- A file that the walk visits: the bytes from where its scan begins, whether a cursor has left it half read, the
-- error where it cannot be opened or is shorter than where its scan begins, and the events that its scan sends.
pub record VisitedFile : Type 0 where
  pub size : ℕ
  pub is_partial : Bool
  pub failure : Option GrepError
  pub events : List GrepScanEvent

-- A job in the window: whether a worker has it, the event in its channel and those that are still to come.
pub record GrepScanJob : Type 0 where
  pub allowance : ℕ
  pub taken : Bool
  pub channel : Option GrepScanEvent
  pub to_send : List GrepScanEvent

-- `received` are the events that the reducer has taken, `walk_over` says that a file has failed so that the walk
-- has ended with it, and `halted` that the reducer has stopped the page or returned an error.
pub record GrepConcurrentState : Type 0 where
  pub pending : List GrepScanJob
  pub reserved_files : ℕ
  pub reserved_bytes : ℕ
  pub received : List GrepScanEvent
  pub walk_over : Bool
  pub halted : Bool

-- The limits of the query, and whether the reducer stops the page or returns an error at the last of the events
-- that it has received, which `reduce_event` says.
pub record GrepBudget : Type 0 where
  pub max_files : ℕ
  pub max_bytes : ℕ
  pub page_stops : List GrepScanEvent → Bool

-- The walk has ended; the window is full, so that the oldest job must be reduced first; a limit is reached; or a
-- job is added.
pub data Scheduled : Type 0 where
  walk_ended window_full : Scheduled
  limited : Bytes → Scheduled
  scheduled : GrepConcurrentState → Scheduled

abbrev pub allowance_of : GrepBudget → GrepConcurrentState → VisitedFile → ℕ
allowance_of b s f =
    let remaining = b.max_bytes - s.reserved_bytes in
    if ltb f.size remaining then f.size else remaining

abbrev pub add_job : GrepConcurrentState → VisitedFile → ℕ → GrepConcurrentState
add_job s f allowance = record s {
  pending =
      s.pending
      ++ record { allowance = allowance; taken = false; channel = none; to_send = f.events } ∷ [];
  reserved_files = suc s.reserved_files;
  reserved_bytes = s.reserved_bytes + allowance;
}

-- `errorJob`, which no worker scans: its one event is sent.
abbrev pub error_job : GrepError → GrepScanJob
error_job e = record { allowance = 0; taken = true; channel = some (error_event 0 e); to_send = [] }

abbrev pub add_error_job : GrepConcurrentState → GrepError → GrepConcurrentState
add_error_job s e = record s { pending = s.pending ++ error_job e ∷ []; walk_over = true }

abbrev pub schedule_file :
    GrepBudget → GrepConcurrentState → VisitedFile → Option GrepError → Scheduled
schedule_file b s f (some e) = scheduled (add_error_job s e)
schedule_file b s f none =
    if allowance_of b s f == 0 && not f.is_partial
    then limited byte_limit
    else scheduled (add_job s f (allowance_of b s f))

abbrev pub schedule_by :
    GrepBudget → GrepConcurrentState → VisitedFile → Option GrepError → Scheduled
schedule_by b s f failure =
    if s.halted || s.walk_over
    then walk_ended
    else if length s.pending == grep_worker_ceiling
    then window_full
    else if leb b.max_files s.reserved_files
    then limited file_limit
    else if leb b.max_bytes s.reserved_bytes
    then limited byte_limit
    else schedule_file b s f failure

unfoldable pub schedule : GrepBudget → GrepConcurrentState → VisitedFile → Scheduled
schedule b s f = schedule_by b s f f.failure

-- A worker takes the first job that none has, as the channel of jobs hands them on.
abbrev pub take_or_pass :
    GrepScanJob → List GrepScanJob → Bool → Option (List GrepScanJob) → Option (List GrepScanJob)
take_or_pass j l false later = some (record j { taken = true } ∷ l)
take_or_pass j l true none = none
take_or_pass j l true (some r) = some (j ∷ r)

unfoldable pub take_job : List GrepScanJob → Option (List GrepScanJob)
take_job [] = none
take_job (j ∷ l) = take_or_pass j l j.taken (take_job l)

-- `send` of the worker of one job, which waits while the channel holds an event.
abbrev pub send_next :
    GrepScanJob → Bool → Option GrepScanEvent → List GrepScanEvent → Option GrepScanJob
send_next j true none (e ∷ l) = some (record j { channel = some e; to_send = l })
send_next j _ _ _ = none

unfoldable pub send : GrepScanJob → Option GrepScanJob
send j = send_next j j.taken j.channel j.to_send

-- The events after which `reduceOldest` is done with a job.
abbrev pub is_terminal : GrepScanEvent → Bool
is_terminal (candidate_event _ _) = false
is_terminal _ = true

-- The events at which `reduceOldest` always stops the page or returns an error.
abbrev pub ends_search : GrepScanEvent → Bool
ends_search (candidate_event _ _) = false
ends_search (full_event _) = false
ends_search _ = true

abbrev pub stops_at : GrepBudget → List GrepScanEvent → GrepScanEvent → Bool
stops_at b received e = ends_search e || b.page_stops (received ++ e ∷ [])

abbrev pub receive_from :
    GrepBudget
    → GrepConcurrentState
    → GrepScanJob
    → List GrepScanJob
    → Option GrepScanEvent
    → Option GrepConcurrentState
receive_from b s j l none = none
receive_from b s j l (some e) = some (record s {
  pending = if is_terminal e || stops_at b s.received e then l else record j { channel = none } ∷ l;
  received = s.received ++ e ∷ [];
  halted = stops_at b s.received e;
})

abbrev pub receive_oldest :
    GrepBudget → GrepConcurrentState → List GrepScanJob → Option GrepConcurrentState
receive_oldest b s [] = none
receive_oldest b s (j ∷ l) = receive_from b s j l j.channel

-- The reducer takes an event of the oldest job, and is done with the job after its last one. It takes none after
-- it has stopped the page or returned an error.
unfoldable pub receive : GrepBudget → GrepConcurrentState → Option GrepConcurrentState
receive b s = if s.halted then none else receive_oldest b s s.pending

-- The search with the files that are still to be visited.
pub record Search : Type 0 where
  pub state : GrepConcurrentState
  pub unvisited : List VisitedFile

-- One step of one of the goroutines.
pub data Step (b : GrepBudget) : Search → Search → Type 0 where
  visits :
      {s t : GrepConcurrentState} {f : VisitedFile} {l : List VisitedFile}
      → schedule b s f ≡ scheduled t
      → Step b (record { state = s; unvisited = f ∷ l }) (record { state = t; unvisited = l })
  takes :
      {s : GrepConcurrentState} {jobs : List GrepScanJob} {l : List VisitedFile}
      → take_job s.pending ≡ some jobs
      → Step b
          (record { state = s; unvisited = l })
          (record { state = record s { pending = jobs }; unvisited = l })
  sends :
      {s : GrepConcurrentState} {l : List VisitedFile} (before after : List GrepScanJob)
      (j k : GrepScanJob)
      → s.pending ≡ before ++ j ∷ after
      → send j ≡ some k
      → Step b
          (record { state = s; unvisited = l })
          (record { state = record s { pending = before ++ k ∷ after }; unvisited = l })
  receives :
      {s t : GrepConcurrentState} {l : List VisitedFile}
      → receive b s ≡ some t
      → Step b (record { state = s; unvisited = l }) (record { state = t; unvisited = l })

-- Any number of steps of the goroutines, in any order.
pub data Steps (b : GrepBudget) : Search → Search → Type 0 where
  none_yet : {x : Search} → Steps b x x
  and_then : {x y z : Search} → Steps b x y → Step b y z → Steps b x z

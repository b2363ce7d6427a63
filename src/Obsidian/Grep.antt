-- ===== src/Obsidian/Grep.antt =====
-- internal/tools/obsidian/grep.go and grep_concurrent.go: the lines, candidates and events of a search.
pub mod Scan
pub mod Pending
pub mod Matches
pub mod Resume
pub mod Context
pub mod Paged
pub mod Run
pub mod Fitting
pub mod Page
pub mod Reduce
pub mod Reduced
pub mod Advances
pub mod Drain
pub mod Walk
pub mod Pool
pub mod Ends
use personal_mcp_gateway.Base.{
  ℕ, suc, ◌+◌, Bytes, Bool, true, false, ◌||◌, Option, none, some, List, [], ◌∷◌, ◌++◌, length,
  drop, last_of, ◌==◌, if◌then◌else◌,
}

-- A line as the reader gives it. `is_large` says that `large` has its bytes, and not `text`.
pub record GrepLine : Type 0 where
  pub number : ℕ
  pub start : ℕ
  pub stop : ℕ
  pub text : Bytes
  pub is_large : Bool

pub record GrepContextLine : Type 0 where
  pub line : ℕ
  pub text : Bytes
  pub text_truncated : Bool
  pub text_start_column : ℕ
  pub text_end_column : ℕ
  pub line_bytes : ℕ

pub record GrepMatchEvidence : Type 0 where
  pub column : ℕ
  pub occurrences : ℕ
  pub text : Bytes
  pub text_truncated : Bool
  pub text_start_column : ℕ
  pub text_end_column : ℕ
  pub line_bytes : ℕ

pub record GrepMatch : Type 0 where
  pub path : Bytes
  pub line : ℕ
  pub evidence : GrepMatchEvidence
  pub before : List GrepContextLine
  pub after : List GrepContextLine
  pub fingerprint : Bytes

pub record GrepCheckpointCoords : Type 0 where
  pub resume_offset : ℕ
  pub resume_line : ℕ
  pub context_offset : ℕ
  pub context_line : ℕ

pub record GrepScannedCandidate : Type 0 where
  pub match : GrepMatch
  pub occurrences_ready : Bool
  pub remaining : ℕ
  pub emission : GrepCheckpointCoords
  pub retry : GrepCheckpointCoords

pub data GrepError : Type 0 where
  stale input_too_large not_utf8 : GrepError
  read_failed : Bytes → GrepError

-- Each event with the bytes that the job has consumed so far.
pub data GrepScanEvent : Type 0 where
  candidate_event : ℕ → GrepScannedCandidate → GrepScanEvent
  full_event : ℕ → GrepScanEvent
  partial_event : ℕ → GrepCheckpointCoords → Bool → GrepScanEvent
  unfit_event : ℕ → GrepScanEvent
  error_event : ℕ → GrepError → GrepScanEvent

-- The query of a run with its matcher: what `matchEvidence` finds in a line, none if it does not match, and
-- what `grepContextEvidence` shows of it, and `utf8.Valid`.
pub record GrepQuery : Type 0 where
  pub regex : Bool
  pub context_lines : ℕ
  pub match_evidence : GrepLine → Option GrepMatchEvidence
  pub context_evidence : GrepLine → GrepContextLine
  pub valid_utf8 : Bytes → Bool

abbrev pub append_grep_ring : List GrepLine → GrepLine → ℕ → List GrepLine
append_grep_ring ring line capacity =
    if capacity == 0
    then []
    else if length ring == capacity
    then drop 1 ring ++ line ∷ []
    else ring ++ line ∷ []

abbrev pub grep_ring_has_large_line : List GrepLine → Bool
grep_ring_has_large_line [] = false
grep_ring_has_large_line (l ∷ r) = l.is_large || grep_ring_has_large_line r

abbrev pub start_of : GrepLine → List GrepLine → ℕ × ℕ
start_of current [] = (current.start, current.number)
start_of current (l ∷ r) = (l.start, l.number)

-- `before` and the current line are at least one, so the last of them begin with a line.
abbrev pub grep_resume_context : List GrepLine → GrepLine → ℕ → ℕ × ℕ
grep_resume_context before current context_lines =
    if context_lines == 0
    then (current.stop, suc current.number)
    else start_of current (last_of context_lines (before ++ current ∷ []))

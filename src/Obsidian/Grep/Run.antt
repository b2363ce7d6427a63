-- ===== src/Obsidian/Grep/Run.antt =====
-- internal/tools/obsidian/grep.go: the state of a search and how a candidate joins its page. What the code
-- calls for a cursor, for the size of an output, for a digest and for a count of occurrences is a parameter.
use personal_mcp_gateway.Base.{
  ℕ, Bytes, Bool, true, false, not, Option, none, some, List, [], ◌∷◌, ◌++◌, length, is_empty, leb,
  if◌then◌else◌,
}
use personal_mcp_gateway.Obsidian.Coverage.{
  CoverageWork, Coverage, new_cursor_coverage_with_scope, result_limit, response_limit,
}
use personal_mcp_gateway.Obsidian.Outcome.{
  Failure, invalid_coverage, response_too_large, Outcome, ok, fail, ◌>>=◌, or_fail, unless_failed,
}
use personal_mcp_gateway.Obsidian.Fit.{Position}
use personal_mcp_gateway.Obsidian.Grep.{
  GrepMatch, GrepCheckpointCoords, GrepScannedCandidate, GrepError,
}

pub record GrepPartialCursor : Type 0 where
  pub fingerprint : Bytes
  pub at : GrepCheckpointCoords

pub record GrepCursorState : Type 0 where
  pub boundary : Position
  pub prefix : Bytes
  pub partial : Option GrepPartialCursor

pub record GrepStop : Type 0 where
  pub reason : Bytes
  pub state : GrepCursorState

-- What stays the same in a run: the limits and the cursor it resumes, with the functions that it calls.
-- `context_failure` is what `grepContextError` makes of an error that is a canceled or expired context.
pub record GrepSettings : Type 0 where
  pub limit : ℕ
  pub resume : Option GrepCursorState
  pub encode_state : GrepCursorState → Outcome Bytes
  pub output_fits : List GrepMatch → Coverage → Bool
  pub count_occurrences : Bytes → ℕ
  pub extend_prefix : Bytes → Position → Bytes → Bytes
  pub encode_digest : Bytes → Bytes
  pub context_failure : GrepError → Option Failure

pub record GrepRun : Type 0 where
  pub work : CoverageWork
  pub matches : List GrepMatch
  pub emission_states : List GrepCursorState
  pub prefix : Bytes
  pub last_full : Option Position
  pub stop : Option GrepStop
  pub page_bytes : ℕ

-- `partialCheckpoint` and its `state`
abbrev pub partial_state :
    GrepSettings → GrepRun → Position → Bytes → GrepCheckpointCoords → GrepCursorState
partial_state c run position fingerprint at = record {
  boundary = position;
  prefix = c.encode_digest run.prefix;
  partial = some (record { fingerprint = c.encode_digest fingerprint; at = at });
}

abbrev pub full_boundary_state : GrepSettings → GrepRun → Position → GrepCursorState
full_boundary_state c run position = record {
  boundary = position;
  prefix = c.encode_digest run.prefix;
  partial = none;
}

-- The last of the emission states, if there is one.
abbrev pub last_state : List GrepCursorState → Option GrepCursorState
last_state [] = none
last_state (s ∷ []) = some s
last_state (_ ∷ s ∷ l) = last_state (s ∷ l)

abbrev pub stop_at_last : GrepRun → Option GrepCursorState → Outcome (Bool × GrepRun)
stop_at_last run none = fail response_too_large
stop_at_last run (some state) =
    ok (true, record run { stop = some (record { reason = response_limit; state = state }) })

-- The emission states are as many as the matches, so the last of them is there if there is a match.
unfoldable pub stop_for_unfit_grep_candidate : GrepRun → Outcome (Bool × GrepRun)
stop_for_unfit_grep_candidate run =
    if is_empty run.matches
    then fail response_too_large
    else stop_at_last run (last_state run.emission_states)

abbrev pub with_occurrences : GrepSettings → GrepScannedCandidate → GrepMatch
with_occurrences c candidate =
    if candidate.occurrences_ready then candidate.match else record (candidate.match) {
      evidence = record (candidate.match.evidence) {
        occurrences = c.count_occurrences candidate.match.evidence.text;
      };
    }

-- A match joins the page, which is full at the limit.
abbrev pub join_page : GrepSettings → GrepRun → GrepMatch → GrepCursorState → Bool × GrepRun
join_page c run match state =
    let joined : GrepRun = record run {
      matches = run.matches ++ match ∷ [];
      emission_states = run.emission_states ++ state ∷ [];
    } in
    if leb c.limit (length joined.matches)
    then (true, record joined { stop = some (record { reason = result_limit; state = state }) })
    else (false, joined)

abbrev pub emit_fitting :
    GrepSettings
    → (ℕ → Option Failure)
    → GrepRun
    → GrepScannedCandidate
    → GrepCursorState
    → Coverage
    → Outcome (Bool × GrepRun)
emit_fitting c looks run candidate state coverage = do
  _ ← unless_failed (looks 1)
  let match = with_occurrences c candidate
  _ ← unless_failed (looks 2)
  if not (c.output_fits (run.matches ++ match ∷ []) coverage)
      then stop_for_unfit_grep_candidate run
      else ok (join_page c run match state)

-- `looks` is what the three looks at the context find. The Boolean says whether the page is to stop.
unfoldable pub emit :
    GrepSettings
    → (ℕ → Option Failure)
    → GrepRun
    → GrepScannedCandidate
    → GrepCursorState
    → Outcome (Bool × GrepRun)
emit c looks run candidate state = do
  _ ← unless_failed (looks 0)
  let prospective = run.matches ++ candidate.match ∷ []
  let reason = if leb c.limit (length prospective) then result_limit else response_limit
  cursor ← c.encode_state state
  coverage ← or_fail invalid_coverage (new_cursor_coverage_with_scope run.work reason cursor false)
  if not (c.output_fits prospective coverage)
      then stop_for_unfit_grep_candidate run
      else emit_fitting c looks run candidate state coverage

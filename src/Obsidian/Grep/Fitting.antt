-- ===== src/Obsidian/Grep/Fitting.antt =====
-- internal/tools/obsidian/grep.go: when a page is open, when it has stopped and why, and what `emit` makes of it.
use personal_mcp_gateway.Base.{
  Bytes, if◌then◌else◌, ◌<◌, ◌≤◌, Bool, true, false, none, some, List, [], ◌∷◌, ◌++◌, length, leb,
  ◌≡◌, ◌⊎◌,
}
use personal_mcp_gateway.Obsidian.Outcome.{Outcome, ok, fail}
use personal_mcp_gateway.Obsidian.Coverage.{
  Coverage, new_cursor_coverage_with_scope, result_limit, response_limit,
}
use personal_mcp_gateway.Obsidian.Grep.{GrepMatch, GrepScannedCandidate}
use personal_mcp_gateway.Obsidian.Grep.Run.{
  GrepCursorState, GrepStop, GrepSettings, GrepRun, last_state, with_occurrences,
}

-- The matches of a page are none or fit in an output.
abbrev pub HasFit : GrepSettings → List GrepMatch → Type 0
HasFit c matches =
    (matches ≡ []) ⊎ ((coverage : Coverage) × (c.output_fits matches coverage ≡ true))

-- One match more does not fit, or, where `told` says so, the scan has said that its candidate does not.
abbrev pub HasNoRoom : GrepSettings → Bool → List GrepMatch → Type 0
HasNoRoom c told matches =
    ((m : GrepMatch) × (coverage : Coverage) × (c.output_fits (matches ++ m ∷ []) coverage ≡ false))
    ⊎ (told ≡ true)

-- A page that is not full and has no stop: each match has the state of its cursor.
pub record IsOpen (c : GrepSettings) (run : GrepRun) : Type 0 where
  pub aligned : length run.emission_states ≡ length run.matches
  pub room : length run.matches < c.limit
  pub going : run.stop ≡ none
  pub fits : HasFit c run.matches

-- Why a page has stopped: it has as many matches as the limit, or some and no room for one more.
abbrev pub IsDue : GrepSettings → Bool → GrepRun → Bytes → Type 0
IsDue c told run reason =
    (reason ≡ result_limit) × (length run.matches ≡ c.limit)
    ⊎ (reason ≡ response_limit) × (0 < length run.matches) × HasNoRoom c told run.matches

-- A page that has stopped: its cursor is that of its last match.
pub record IsClosed (c : GrepSettings) (told : Bool) (run : GrepRun) : Type 0 where
  pub aligned : length run.emission_states ≡ length run.matches
  pub within : length run.matches ≤ c.limit
  pub fits : HasFit c run.matches
  pub stop : GrepStop
  pub stop_is : run.stop ≡ some stop
  pub last_is : last_state run.emission_states ≡ some stop.state
  pub due : IsDue c told run stop.reason

abbrev pub IsPage : GrepSettings → Bool → GrepRun → Type 0
IsPage c false run = IsOpen c run
IsPage c true run = IsClosed c false run

abbrev pub with_match : GrepRun → GrepScannedCandidate → List GrepMatch
with_match run candidate = run.matches ++ candidate.match ∷ []

abbrev pub with_counted : GrepSettings → GrepRun → GrepScannedCandidate → List GrepMatch
with_counted c run candidate = run.matches ++ with_occurrences c candidate ∷ []

-- The coverage of the page that ends with the candidate.
pub record IsCoverage (c : GrepSettings) (run : GrepRun) (candidate : GrepScannedCandidate)
    (state : GrepCursorState) (coverage : Coverage) : Type 0 where
  pub cursor : Bytes
  pub encoded : c.encode_state state ≡ ok cursor
  pub coverage_is :
      new_cursor_coverage_with_scope run.work
        (if leb c.limit (length (with_match run candidate)) then result_limit else response_limit)
        cursor
        false
      ≡ some coverage

-- The match fits in that page with and without its count of occurrences, and joins it, and the page stops only
-- at the limit; or it does not fit, and the page stops as it was.
abbrev pub Joins :
    GrepSettings → GrepRun → GrepScannedCandidate → Coverage → Bool → GrepRun → Type 0
Joins c run candidate coverage b r =
    (c.output_fits (with_match run candidate) coverage ≡ true)
      × (c.output_fits (with_counted c run candidate) coverage ≡ true)
      × (r.matches ≡ with_counted c run candidate)
      × (b ≡ true → length r.matches ≡ c.limit)
    ⊎ ((c.output_fits (with_match run candidate) coverage ≡ false)
        ⊎ (c.output_fits (with_counted c run candidate) coverage ≡ false))
      × (r.matches ≡ run.matches)
      × (b ≡ true)

-- Where no error is returned.
abbrev pub IsEmitted :
    GrepSettings
    → GrepRun
    → GrepScannedCandidate
    → GrepCursorState
    → Outcome (Bool × GrepRun)
    → Type 0
IsEmitted c run candidate state (fail e) = Unit
IsEmitted c run candidate state (ok (b, r)) =
    IsPage c b r
    × ((coverage : Coverage) × IsCoverage c run candidate state coverage
        × Joins c run candidate coverage b r)

-- A candidate without room closes the page as it was, unless an error is returned.
abbrev pub IsStopped : GrepSettings → Bool → GrepRun → Outcome (Bool × GrepRun) → Type 0
IsStopped c told run (fail e) = Unit
IsStopped c told run (ok (b, r)) = IsClosed c told r × (r.matches ≡ run.matches) × (b ≡ true)

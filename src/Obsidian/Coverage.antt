-- ===== src/Obsidian/Coverage.antt =====
-- internal/tools/obsidian: the coverage of a page, of contracts.go and coverage.go. A Go string is the
-- list of its bytes, and an error is `none`.
pub mod Honest
use personal_mcp_gateway.Base.{
  ℕ, Bytes, bytes_eq, codes, Bool, true, false, ◌||◌, not, [], is_empty, Option, none, some,
  if◌then◌else◌,
}

abbrev pub stable : Bytes
stable = codes "stable"

abbrev pub best_effort : Bytes
best_effort = codes "best_effort"

abbrev pub stop_scope : Bytes
stop_scope = codes "scope"

abbrev pub continuation_complete : Bytes
continuation_complete = codes "complete"

abbrev pub continuation_cursor : Bytes
continuation_cursor = codes "cursor"

abbrev pub continuation_restart : Bytes
continuation_restart = codes "restart"

abbrev pub result_limit : Bytes
result_limit = codes "result_limit"

abbrev pub response_limit : Bytes
response_limit = codes "response_limit"

abbrev pub file_limit : Bytes
file_limit = codes "file_limit"

abbrev pub byte_limit : Bytes
byte_limit = codes "byte_limit"

abbrev pub stop_timeout : Bytes
stop_timeout = codes "timeout"

abbrev pub stop_canceled : Bytes
stop_canceled = codes "canceled"

abbrev pub stop_source_change : Bytes
stop_source_change = codes "source_change"

abbrev pub stop_error : Bytes
stop_error = codes "error"

pub record CoverageWork : Type 0 where
  pub files_scanned : ℕ
  pub bytes_scanned : ℕ
  pub source_entries_validated : ℕ

pub record Coverage : Type 0 where
  pub result_complete : Bool
  pub scope_complete : Bool
  pub consistency : Bytes
  pub files_scanned : ℕ
  pub bytes_scanned : ℕ
  pub source_entries_validated : ℕ
  pub stopped_by : Bytes
  pub continuation : Bytes
  pub next_cursor : Bytes

abbrev pub new_complete_coverage : CoverageWork → Coverage
new_complete_coverage work = record {
  result_complete = true;
  scope_complete = true;
  consistency = stable;
  files_scanned = work.files_scanned;
  bytes_scanned = work.bytes_scanned;
  source_entries_validated = work.source_entries_validated;
  stopped_by = stop_scope;
  continuation = continuation_complete;
  next_cursor = [];
}

unfoldable pub valid_cursor_stop : Bytes → Bool
valid_cursor_stop stopped_by =
    bytes_eq stopped_by result_limit
    || bytes_eq stopped_by response_limit
    || bytes_eq stopped_by file_limit
    || bytes_eq stopped_by byte_limit

abbrev pub new_cursor_coverage_with_scope : CoverageWork → Bytes → Bytes → Bool → Option Coverage
new_cursor_coverage_with_scope work stopped_by cursor scope_complete =
    if is_empty cursor || not (valid_cursor_stop stopped_by)
    then none
    else some (record {
      result_complete = false;
      scope_complete = scope_complete;
      consistency = stable;
      files_scanned = work.files_scanned;
      bytes_scanned = work.bytes_scanned;
      source_entries_validated = work.source_entries_validated;
      stopped_by = stopped_by;
      continuation = continuation_cursor;
      next_cursor = cursor;
    })

abbrev pub new_cursor_coverage : CoverageWork → Bytes → Bytes → Option Coverage
new_cursor_coverage work stopped_by cursor =
    new_cursor_coverage_with_scope work stopped_by cursor true

-- The cases of the switch in `NewRestartCoverage`.
unfoldable pub valid_restart_stop : Bytes → Bool
valid_restart_stop stopped_by =
    bytes_eq stopped_by stop_timeout
    || bytes_eq stopped_by stop_canceled
    || bytes_eq stopped_by stop_source_change
    || bytes_eq stopped_by stop_error

abbrev pub new_restart_coverage : CoverageWork → Bytes → Option Coverage
new_restart_coverage work stopped_by =
    if valid_restart_stop stopped_by
    then some (record {
      result_complete = false;
      scope_complete = false;
      consistency = best_effort;
      files_scanned = work.files_scanned;
      bytes_scanned = work.bytes_scanned;
      source_entries_validated = work.source_entries_validated;
      stopped_by = stopped_by;
      continuation = continuation_restart;
      next_cursor = [];
    })
    else none

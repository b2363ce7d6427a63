-- ===== src/Obsidian/Fit.antt =====
-- internal/tools/obsidian/response_fit.go: as many entries of a directory as a response has room for. The
-- JSON encoder and the cursors are parameters. An `Entry` stands for LSEntry, which only the encoder reads.
pub mod Reference
pub mod Largest
pub mod Cancel
use personal_mcp_gateway.Base.{
  ℕ, zero, suc, ◌+◌, ◌-◌, ◌*◌, Bytes, Bool, true, false, not, ◌&&◌, ◌||◌, Option, none, some, List,
  [], ◌∷◌, map, length, is_empty, ltb, leb, ◌==◌, if◌then◌else◌,
}
use personal_mcp_gateway.Obsidian.Coverage.{
  CoverageWork, Coverage, new_complete_coverage, new_cursor_coverage, result_limit, response_limit,
}
use personal_mcp_gateway.Obsidian.Outcome.{
  Failure, invalid_coverage, response_too_large, encoding, Outcome, ok, fail, ◌>>=◌, or_fail,
  unless_failed,
}

abbrev pub max_sdk_result_bytes : ℕ
max_sdk_result_bytes = 64 * 1024

abbrev pub sdk_result_reserve : ℕ
sdk_result_reserve = 8 * 1024

abbrev pub max_structured_result_bytes : ℕ
max_structured_result_bytes = max_sdk_result_bytes - sdk_result_reserve

-- fsx.Position
pub record Position : Type 0 where
  pub nfc : Bytes
  pub stored : Bytes

pub record LsEntry : Type 0 where
  pub name : Bytes
  pub path : Bytes
  pub kind : Bytes
  pub size : ℕ
  pub modified : Bytes

pub record LsFitCandidate : Type 0 where
  pub entry : LsEntry
  pub position : Position

pub record LsFitRequest : Type 0 where
  pub path : Bytes
  pub candidates : List LsFitCandidate
  pub has_more : Bool
  pub work : CoverageWork

-- LSOutput of tools.go, without the error that a failure fills.
pub record LsOutput : Type 0 where
  pub is_ok : Bool
  pub path : Bytes
  pub entries : List LsEntry
  pub truncated : Bool
  pub coverage : Coverage

-- The lengths of what `json.Marshal` makes of an output, an entry and a complete result, none if it fails.
pub record Encoder : Type 0 where
  pub structured_output_bytes : LsOutput → Option ℕ
  pub entry_bytes : LsEntry → Option ℕ
  pub complete_sdk_result_bytes : LsOutput → Option ℕ

-- The places where `FitLSOutput` looks at its context.
pub data Look : Type 0 where
  at_start at_end : Look
  at_size at_prefix after_cursor : ℕ → Look

-- What each look finds, as `fitContextError` reports it.
abbrev pub Looks : Type 0
Looks = Look → Option Failure

abbrev pub fits : Option ℕ → ℕ → Outcome Bool
fits none bound = fail encoding
fits (some size) bound = ok (leb size bound)

abbrev pub structured_output_fits : Encoder → LsOutput → Outcome Bool
structured_output_fits enc out = fits (enc.structured_output_bytes out) max_structured_result_bytes

abbrev pub complete_sdk_result_fits : Encoder → LsOutput → Outcome Bool
complete_sdk_result_fits enc out = fits (enc.complete_sdk_result_bytes out) max_sdk_result_bytes

abbrev pub require : Bool → Outcome (Unit {0})
require true = ok tt
require false = fail response_too_large

abbrev pub output : Bytes → List LsEntry → Coverage → LsOutput
output path entries coverage = record {
  is_ok = true;
  path = path;
  entries = entries;
  truncated = not coverage.result_complete;
  coverage = coverage;
}

unfoldable pub entries_prefix : List LsFitCandidate → ℕ → List LsEntry
entries_prefix [] count = []
entries_prefix (c ∷ l) zero = []
entries_prefix (c ∷ l) (suc count) = c.entry ∷ entries_prefix l count

-- The first loop: each candidate with the bytes of its entry.
unfoldable pub entry_sizes : Encoder → Looks → ℕ → List LsFitCandidate → Outcome (List ℕ)
entry_sizes enc looks i [] = ok []
entry_sizes enc looks i (c ∷ l) = do
  _ ← unless_failed (looks (at_size i))
  size ← or_fail encoding (enc.entry_bytes c.entry)
  sizes ← entry_sizes enc looks (suc i) l
  ok (size ∷ sizes)

-- The coverage of a page that ends at candidate `i`; `last` says that no candidate follows it.
unfoldable pub page_coverage :
    Looks
    → Option (Position → Outcome Bytes)
    → LsFitRequest
    → ℕ
    → LsFitCandidate
    → Bool
    → Outcome Coverage
page_coverage looks cursor_for request i c last =
    if last && not request.has_more
    then ok (new_complete_coverage request.work)
    else of_cursor cursor_for
  where
    of_cursor : Option (Position → Outcome Bytes) → Outcome Coverage
    of_cursor none = fail response_too_large
    of_cursor (some cursor_of) = do
      cursor ← cursor_of c.position
      _ ← unless_failed (looks (after_cursor i))
      let stopped_by = if last && request.has_more then result_limit else response_limit
      or_fail invalid_coverage (new_cursor_coverage request.work stopped_by cursor)

-- `bestCount` and `bestCoverage`
pub record Best : Type 0 where
  pub count : ℕ
  pub coverage : Coverage

-- The second loop, from candidate `i`. `before` are the bytes of the entries before it.
unfoldable pub best_prefix :
    Encoder
    → Looks
    → Option (Position → Outcome Bytes)
    → LsFitRequest
    → ℕ
    → ℕ
    → Best
    → List LsFitCandidate
    → List ℕ
    → Outcome Best
best_prefix enc looks cursor_for request i before best (c ∷ l) (size ∷ sizes) = do
  _ ← unless_failed (looks (at_prefix i))
  coverage ← page_coverage looks cursor_for request i c (is_empty l)
  one ← or_fail encoding (enc.structured_output_bytes (output request.path (c.entry ∷ []) coverage))
  let next =
      if ltb max_structured_result_bytes (one + before + i)
      then best
      else record { count = suc i; coverage = coverage }
  best_prefix enc looks cursor_for request (suc i) (before + size) next l sizes
best_prefix enc looks cursor_for request i before best _ _ = ok best

-- The zero value of a coverage, which `bestCoverage` begins with.
abbrev pub no_coverage : Coverage
no_coverage = record {
  result_complete = false;
  scope_complete = false;
  consistency = [];
  files_scanned = 0;
  bytes_scanned = 0;
  source_entries_validated = 0;
  stopped_by = [];
  continuation = [];
  next_cursor = [];
}

abbrev pub fit_none : Encoder → LsFitRequest → Outcome LsOutput
fit_none enc request = do
  _ ← require (not request.has_more)
  let out = output request.path [] (new_complete_coverage request.work)
  fit ← structured_output_fits enc out
  _ ← require fit
  ok out

abbrev pub finish : Encoder → Looks → LsFitRequest → Best → Outcome LsOutput
finish enc looks request best = do
  _ ← require (not (best.count == 0))
  _ ← unless_failed (looks at_end)
  let out = output request.path (entries_prefix request.candidates best.count) best.coverage
  fit ← structured_output_fits enc out
  _ ← require fit
  complete_fit ← complete_sdk_result_fits enc out
  _ ← require complete_fit
  ok out

abbrev pub fit_some :
    Encoder → Looks → Option (Position → Outcome Bytes) → LsFitRequest → Outcome LsOutput
fit_some enc looks cursor_for request = do
  sizes ← entry_sizes enc looks 0 request.candidates
  let none_yet : Best = record { count = 0; coverage = no_coverage }
  best ← best_prefix enc looks cursor_for request 0 0 none_yet request.candidates sizes
  finish enc looks request best

unfoldable pub fit_ls_output :
    Encoder → Looks → Option (Position → Outcome Bytes) → LsFitRequest → Outcome LsOutput
fit_ls_output enc looks cursor_for request = do
  _ ← unless_failed (looks at_start)
  if is_empty request.candidates
      then fit_none enc request
      else fit_some enc looks cursor_for request

-- ===== src/Obsidian/Fit/Reference.antt =====
-- What `FitLSOutput` of internal/tools/obsidian/response_fit.go should return, said without its sums: of
-- all pages that begin with the first entry, encoded whole, the longest that has room.
use personal_mcp_gateway.Base.{
  ℕ, ◌+◌, Bytes, Bool, true, false, not, ◌&&◌, Option, none, some, List, [], ◌∷◌, ◌++◌, length,
  is_empty, leb, if◌then◌else◌, ◌≡◌,
}
use personal_mcp_gateway.Obsidian.Coverage.{
  stable, continuation_cursor, CoverageWork, Coverage, new_complete_coverage, result_limit,
  response_limit,
}
use personal_mcp_gateway.Obsidian.Outcome.{response_too_large, Outcome, ok, fail}
use personal_mcp_gateway.Obsidian.Fit.{
  max_sdk_result_bytes, max_structured_result_bytes, Position, LsEntry, LsFitCandidate,
  LsFitRequest, LsOutput, Encoder, output,
}

-- The bytes of entries without what separates them.
abbrev pub total : (LsEntry → ℕ) → List LsEntry → ℕ
total size [] = 0
total size (e ∷ l) = size e + total size l

-- An encoder of JSON that does not fail: the items of an array are written one by one, with a comma between
-- two of them.
pub record IsJson (enc : Encoder) : Type 0 where
  pub entry_size : LsEntry → ℕ
  pub page_size : LsOutput → ℕ
  pub result_size : LsOutput → ℕ
  pub entry_bytes : (e : LsEntry) → enc.entry_bytes e ≡ some (entry_size e)
  pub page_bytes : (p : LsOutput) → enc.structured_output_bytes p ≡ some (page_size p)
  pub result_bytes : (p : LsOutput) → enc.complete_sdk_result_bytes p ≡ some (result_size p)
  pub array :
      (path : Bytes) (c : Coverage) (l : List LsEntry) (e : LsEntry)
      → page_size (output path (l ++ e ∷ []) c)
        ≡ page_size (output path (e ∷ []) c) + total entry_size l + length l

-- A page that goes on after its last entry.
abbrev pub continued : CoverageWork → Bytes → Bytes → Coverage
continued work stopped_by cursor = record {
  result_complete = false;
  scope_complete = true;
  consistency = stable;
  files_scanned = work.files_scanned;
  bytes_scanned = work.bytes_scanned;
  source_entries_validated = work.source_entries_validated;
  stopped_by = stopped_by;
  continuation = continuation_cursor;
  next_cursor = cursor;
}

-- A page that holds all there is is complete, and any other has the cursor of its last entry.
abbrev pub boundary : (Position → Bytes) → LsFitRequest → LsFitCandidate → Bool → Coverage
boundary cursor request c true =
    if request.has_more
    then continued request.work result_limit (cursor c.position)
    else new_complete_coverage request.work
boundary cursor request c false = continued request.work response_limit (cursor c.position)

-- The pages of the entries before and one candidate more, two more and so on.
abbrev pub pages :
    (Position → Bytes) → LsFitRequest → List LsEntry → List LsFitCandidate → List LsOutput
pages cursor request before [] = []
pages cursor request before (c ∷ l) =
    output request.path (before ++ c.entry ∷ []) (boundary cursor request c (is_empty l))
    ∷ pages cursor request (before ++ c.entry ∷ []) l

abbrev pub or_else : Option LsOutput → Option LsOutput → Option LsOutput
or_else none p = p
or_else (some q) p = some q

abbrev pub last_fitting : (LsOutput → ℕ) → List LsOutput → Option LsOutput
last_fitting size [] = none
last_fitting size (p ∷ l) =
    or_else (last_fitting size l)
      (if leb (size p) max_structured_result_bytes then some p else none)

-- A page that fits its budget is returned if it fits the complete result too.
abbrev pub answer : (LsOutput → ℕ) → Option LsOutput → Outcome LsOutput
answer size none = fail response_too_large
answer size (some p) = if leb (size p) max_sdk_result_bytes then ok p else fail response_too_large

-- The page of a directory that has nothing more.
abbrev pub empty_page : (LsOutput → ℕ) → LsFitRequest → Outcome LsOutput
empty_page size request =
    let p = output request.path [] (new_complete_coverage request.work) in
    if not request.has_more && leb (size p) max_structured_result_bytes
    then ok p
    else fail response_too_large

abbrev pub largest_page :
    (enc : Encoder) → IsJson enc → (Position → Bytes) → LsFitRequest → Outcome LsOutput
largest_page enc json cursor request =
    if is_empty request.candidates
    then empty_page json.page_size request
    else answer json.result_size
        (last_fitting json.page_size (pages cursor request [] request.candidates))

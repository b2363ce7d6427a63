-- ===== src/Obsidian/Tests.antt =====
-- Runs of the parts of internal/tools/obsidian, and the properties at them.
use personal_mcp_gateway.Base.{
  ℕ, ◌+◌, Bytes, bytes_eq, codes, split, true, false, none, some, List, [], ◌∷◌, ◌++◌, All, length,
  is_empty, ◌==◌, ◌≡◌, ◌≢◌, ◌⊎◌, ◌↔◌, refl, arith, length-append,
}
use personal_mcp_gateway.Fsx.Normalize.{
  drop, join, rooted_join, path_join, path_clean, clean_elements, dot,
}
use personal_mcp_gateway.Fsx.Normalize.Contained.{IsName}
use personal_mcp_gateway.Obsidian.Coverage.{
  CoverageWork, Coverage, new_complete_coverage, new_restart_coverage,
  new_cursor_coverage_with_scope, valid_cursor_stop, result_limit,
}
use personal_mcp_gateway.Obsidian.Coverage.Honest.{IsHonest, new_coverage-IsHonest}
use personal_mcp_gateway.Obsidian.Coordinate.{
  normalized_path_coordinate, common_count, drop_elements, project, project_child,
}
use personal_mcp_gateway.Obsidian.Coordinate.Back.{path_join-project}
use personal_mcp_gateway.Obsidian.Outcome.{timeout, Outcome, ok, fail}
use personal_mcp_gateway.Obsidian.Fit.{
  Position, LsEntry, LsFitCandidate, LsFitRequest, LsOutput, Encoder, at_end, Looks, entries_prefix,
  entry_sizes, page_coverage, best_prefix, fit_ls_output,
}
use personal_mcp_gateway.Obsidian.Fit.Reference.{total, IsJson, largest_page}
use personal_mcp_gateway.Obsidian.Fit.Largest.{fit_ls_output_is_largest}
use personal_mcp_gateway.Obsidian.Fit.Cancel.{Agrees, fit_ls_output-Agrees}

-- To unfold `pages` is to unfold the program.
runs : Unit {0}
unfolding valid_cursor_stop entries_prefix entry_sizes page_coverage best_prefix fit_ls_output
    normalized_path_coordinate common_count drop_elements project project_child bytes_eq split join
    path_join path_clean clean_elements drop
runs = tt

abbrev some_work : CoverageWork
some_work = record { files_scanned = 3; bytes_scanned = 0; source_entries_validated = 1 }

new_coverage-IsHonest_example :
    IsHonest (new_complete_coverage some_work)
    × ((c : Coverage) → new_restart_coverage some_work result_limit ≡ some c → IsHonest c)
    × ((c : Coverage)
        → new_cursor_coverage_with_scope some_work result_limit (codes "next") false ≡ some c
        → IsHonest c)
    × ((new_cursor_coverage_with_scope some_work result_limit (codes "next") false ≡ none)
        ↔ ((is_empty (codes "next") ≡ true) ⊎ (valid_cursor_stop result_limit ≡ false)))
new_coverage-IsHonest_example = new_coverage-IsHonest some_work result_limit (codes "next") false

abbrev finance : List Bytes
finance = codes "f" ∷ codes "y" ∷ []

abbrev budget : List Bytes
budget = codes "h" ∷ codes "b" ∷ []

projected :
    (project (normalized_path_coordinate (codes "f/y")) (codes "h/b") ≡ codes "../../h/b")
    × (project (normalized_path_coordinate (codes "f/y")) (codes "f/y/t") ≡ codes "t")
    × (project (normalized_path_coordinate (codes "f/y")) (codes "f/y") ≡ dot)
    × (project (normalized_path_coordinate dot) (codes "h/b") ≡ codes "h/b")
    × (project_child dot (codes "b") ≡ codes "b")
unfolding runs
projected = (refl, refl, refl, refl, refl)

one_letter : (c : ℕ) → c ≢ b'/' → (c == b'.') ≡ false → IsName (c ∷ [])
one_letter c inner visible = record { nonempty = refl; visible = visible; inner = (inner, tt) }

finance-IsName : All IsName finance
finance-IsName = (
  one_letter b'f' (λ e. omega (arith, e)) refl,
  (one_letter b'y' (λ e. omega (arith, e)) refl, tt),
)

budget-IsName : All IsName budget
budget-IsName = (
  one_letter b'h' (λ e. omega (arith, e)) refl,
  (one_letter b'b' (λ e. omega (arith, e)) refl, tt),
)

path_join-project_example :
    path_join
      (rooted_join false finance)
      (project (normalized_path_coordinate (rooted_join false finance)) (rooted_join false budget))
    ≡ rooted_join false budget
path_join-project_example = path_join-project finance budget finance-IsName budget-IsName

-- An encoder whose text is as long as the sizes of the entries, with a comma or a bracket after each.
abbrev encoder : Encoder
encoder = record {
  structured_output_bytes = λ p. some (total (λ e. e.size) p.entries + length p.entries);
  entry_bytes = λ e. some e.size;
  complete_sdk_result_bytes = λ p. some (total (λ e. e.size) p.entries + length p.entries + 9);
}

total-last :
    (l : List LsEntry) (e : LsEntry)
    → total (λ e. e.size) (l ++ e ∷ []) ≡ total (λ e. e.size) l + e.size
total-last [] e = omega arith
total-last (x ∷ l) e = omega (arith, total-last l e)

encoder-IsJson : IsJson encoder
encoder-IsJson = record {
  entry_size = λ e. e.size;
  page_size = λ p. total (λ e. e.size) p.entries + length p.entries;
  result_size = λ p. total (λ e. e.size) p.entries + length p.entries + 9;
  entry_bytes = λ e. refl;
  page_bytes = λ p. refl;
  result_bytes = λ p. refl;
  array = λ path c l e. omega (arith, total-last l e, length-append l (e ∷ []));
}

abbrev candidate : ℕ → LsFitCandidate
candidate size = record {
  entry = record {
    name = codes "n";
    path = codes "n";
    kind = codes "file";
    size = size;
    modified = [];
  };
  position = record { nfc = codes "n"; stored = codes "n" };
}

-- The third entry has no room any more.
abbrev three : LsFitRequest
three = record {
  path = codes "d";
  candidates = candidate 30000 ∷ candidate 20000 ∷ candidate 9000 ∷ [];
  has_more = false;
  work = some_work;
}

abbrev next_of : Position → Bytes
next_of p = 1 ∷ p.stored

abbrev page_length : Outcome LsOutput → ℕ
page_length (ok p) = length p.entries
page_length (fail e) = 0

two_fit : page_length (fit_ls_output encoder (λ _. none) (some (λ p. ok (next_of p))) three) ≡ 2
unfolding runs
two_fit = refl

fit_ls_output_is_largest_example :
    fit_ls_output encoder (λ _. none) (some (λ p. ok (next_of p))) three
    ≡ largest_page encoder encoder-IsJson next_of three
fit_ls_output_is_largest_example =
    fit_ls_output_is_largest encoder encoder-IsJson (λ _. none) (λ k. refl) next_of (λ p. refl)
      three

abbrev late : Looks
late at_end = some timeout
late _ = none

fit_ls_output-Agrees_example :
    Agrees late
      (fit_ls_output encoder late (some (λ p. ok (next_of p))) three)
      (fit_ls_output encoder (λ _. none) (some (λ p. ok (next_of p))) three)
fit_ls_output-Agrees_example = fit_ls_output-Agrees late encoder (some (λ p. ok (next_of p))) three

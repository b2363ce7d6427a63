-- ===== src/Obsidian/WalkTests.antt =====
-- A walk of a search of internal/tools/obsidian that resumes a cursor, and the property at it.
use personal_mcp_gateway.Base.{
  Bytes, bytes_eq, codes, true, false, Option, none, some, List, [], ◌∷◌, length, ◌≡◌, refl,
}
use personal_mcp_gateway.Obsidian.Base64.{decode_digits, without_newlines, decode}
use personal_mcp_gateway.Obsidian.Outcome.{ok}
use personal_mcp_gateway.Obsidian.Fit.{Position}
use personal_mcp_gateway.Obsidian.Cursor.{check, decode_digest, zeros}
use personal_mcp_gateway.Obsidian.Grep.Run.{GrepCursorState, GrepSettings}
use personal_mcp_gateway.Obsidian.Grep.Reduce.{compare_bytes, compare_grep_position}
use personal_mcp_gateway.Obsidian.Grep.Walk.{
  opened, WalkFile, GrepWalk, is_markdown_path, Walked, begins, walk_files,
}
use personal_mcp_gateway.Obsidian.Grep.Walk.Unchanged.{IsWalked}
use personal_mcp_gateway.Obsidian.Grep.Walk.Vouched.{walk_files-IsWalked}

-- To unfold `walks` is to unfold the program.
walks : Unit {0}
unfolding decode_digits without_newlines decode check decode_digest bytes_eq compare_bytes
    compare_grep_position is_markdown_path walk_files
walks = tt

abbrev at_name : Bytes → Position
at_name name = record { nfc = name; stored = name }

abbrev left_at : GrepCursorState
left_at = record {
  boundary = at_name (codes "n.md");
  prefix = codes "AAAAAAAAAAAAAAAAAAAAAAAAAAAAAAAAAAAAAAAAAAA";
  partial = none;
}

-- Here a digest is the last fingerprint.
abbrev walking : GrepSettings
walking = record {
  limit = 2;
  resume = some left_at;
  encode_state = λ state. ok (codes "next");
  output_fits = λ matches coverage. true;
  count_occurrences = length;
  extend_prefix = λ prefix position fingerprint. fingerprint;
  encode_digest = λ digest. digest;
  context_failure = λ e. none;
}

abbrev at_first : GrepWalk
at_first = record {
  run = record {
    work = record { files_scanned = 0; bytes_scanned = 0; source_entries_validated = 0 };
    matches = [];
    emission_states = [];
    prefix = [];
    last_full = none;
    stop = none;
    page_bytes = 0;
  };
  boundary_seen = false;
}

abbrev a_file : Bytes → Bytes → WalkFile
a_file name fingerprint = record {
  rel = name;
  position = at_name name;
  ended = none;
  source = opened fingerprint;
}

abbrev notes : Bytes → List WalkFile
notes fingerprint =
    a_file (codes "a.MD") (codes "1")
    ∷ a_file (codes "b.png") (codes "2")
    ∷ a_file (codes "n.md") fingerprint
    ∷ a_file (codes "z.md") (codes "3")
    ∷ []

abbrev begins_at : Walked → Option Bytes
begins_at (begins _ _ f _) = some f.rel
begins_at _ = none

resumes_after : begins_at (walk_files walking at_first (notes (zeros 32))) ≡ some (codes "z.md")
unfolding walks
resumes_after = refl

-- A note that has changed since makes the cursor stale.
changed_note : begins_at (walk_files walking at_first (notes (codes "4"))) ≡ none
unfolding walks
changed_note = refl

walk_files-IsWalked_example :
    IsWalked walking left_at [] (notes (zeros 32)) (walk_files walking at_first (notes (zeros 32)))
walk_files-IsWalked_example =
    walk_files-IsWalked walking left_at at_first (notes (zeros 32)) refl refl

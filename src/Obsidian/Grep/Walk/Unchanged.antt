-- ===== src/Obsidian/Grep/Walk/Unchanged.antt =====
-- internal/tools/obsidian/grep_concurrent.go: what it is for the notes before a cursor to be unchanged, said
-- without the walk.
use personal_mcp_gateway.Base.{
  Bytes, false, Option, none, some, List, [], ◌∷◌, ◌++◌, All, ◌≡◌, ◌⊎◌, if◌then◌else◌,
}
use personal_mcp_gateway.Obsidian.Grep.Run.{GrepPartialCursor, GrepCursorState, GrepSettings}
use personal_mcp_gateway.Obsidian.Grep.Reduce.{less, same, compare_grep_position}
use personal_mcp_gateway.Obsidian.Grep.Walk.{
  OpenedFile, opened, not_opened, WalkFile, is_markdown_path, expected_prefix, Walked, at_end,
  begins, stopped,
}

-- The digest of the notes up to a file, each with its position and fingerprint; other files do not count.
abbrev pub digest_of : GrepSettings → Bytes → WalkFile → OpenedFile → Bytes
digest_of c prefix f (opened fingerprint) = c.extend_prefix prefix f.position fingerprint
digest_of c prefix f (not_opened e) = prefix

abbrev pub with_file : GrepSettings → Bytes → WalkFile → Bytes
with_file c prefix f = if is_markdown_path f.rel then digest_of c prefix f f.source else prefix

abbrev pub chain : GrepSettings → Bytes → List WalkFile → Bytes
chain c prefix [] = prefix
chain c prefix (f ∷ files) = chain c (with_file c prefix f) files

-- A file before the boundary, or not a note.
abbrev pub IsBefore : GrepCursorState → WalkFile → Type 0
IsBefore r f =
    (is_markdown_path f.rel ≡ false) ⊎ (compare_grep_position f.position r.boundary ≡ less)

abbrev pub HasPrint : GrepSettings → OpenedFile → Bytes → Type 0
HasPrint c (opened fingerprint) expected = c.encode_digest fingerprint ≡ expected
HasPrint c (not_opened e) expected = ⊥

-- The digest of the cursor is that of the notes that it has left behind, and a note that it has left half
-- read is the one that it has read.
abbrev pub IsUnchanged :
    GrepSettings
    → GrepCursorState
    → Bytes
    → List WalkFile
    → WalkFile
    → Option GrepPartialCursor
    → Type 0
IsUnchanged c r prefix before boundary none =
    chain c prefix (before ++ boundary ∷ []) ≡ expected_prefix r
IsUnchanged c r prefix before boundary (some partial) =
    (chain c prefix before ≡ expected_prefix r) × HasPrint c boundary.source partial.fingerprint

pub record IsVouched (c : GrepSettings) (r : GrepCursorState) (prefix : Bytes)
    (files : List WalkFile) : Type 0 where
  pub before : List WalkFile
  pub boundary : WalkFile
  pub after : List WalkFile
  pub parts : files ≡ before ++ boundary ∷ after
  pub all_before : All (IsBefore r) before
  pub is_boundary : compare_grep_position boundary.position r.boundary ≡ same
  pub unchanged : IsUnchanged c r prefix before boundary r.partial

abbrev pub IsWalked : GrepSettings → GrepCursorState → Bytes → List WalkFile → Walked → Type 0
IsWalked c r prefix files (begins _ _ _ _) = IsVouched c r prefix files
IsWalked c r prefix files (at_end w) = (w.boundary_seen ≡ false) ⊎ IsVouched c r prefix files
IsWalked c r prefix files (stopped _ _) = Unit

-- ===== src/Obsidian/Grep/Walk.antt =====
-- internal/tools/obsidian/grep_concurrent.go: how `visit` goes over the files of the vault until the file at
-- which a search begins, or goes on from its cursor. `Grep.Pool` has the call of `schedule` that it makes then.
pub mod Unchanged
pub mod Vouched
use personal_mcp_gateway.Base.{
  ℕ, suc, ◌+◌, Bytes, codes, Bool, true, false, not, ◌&&◌, ◌||◌, Option, none, some, List, [], ◌∷◌,
  map, ltb, leb, bytes_eq, ◌==◌, if◌then◌else◌,
}
use personal_mcp_gateway.Obsidian.Coverage.{CoverageWork}
use personal_mcp_gateway.Obsidian.Outcome.{Failure, Outcome, ok, fail}
use personal_mcp_gateway.Obsidian.Fit.{Position}
use personal_mcp_gateway.Obsidian.Cursor.{decode_digest}
use personal_mcp_gateway.Obsidian.Grep.{GrepError}
use personal_mcp_gateway.Obsidian.Grep.Run.{
  GrepPartialCursor, GrepCursorState, GrepSettings, GrepRun,
}
use personal_mcp_gateway.Obsidian.Grep.Reduce.{Order, less, same, more, compare_grep_position}

-- A file that can be opened and revalidated has a fingerprint.
pub data OpenedFile : Type 0 where
  opened : Bytes → OpenedFile
  not_opened : GrepError → OpenedFile

-- `ended` is what a look at the context finds when the walk comes to the file.
pub record WalkFile : Type 0 where
  pub rel : Bytes
  pub position : Position
  pub ended : Option Failure
  pub source : OpenedFile

pub record GrepWalk : Type 0 where
  pub run : GrepRun
  pub boundary_seen : Bool

pub data WalkError : Type 0 where
  cursor_is_stale : WalkError
  context_ended : Failure → WalkError
  open_failed : GrepError → WalkError

-- The walk goes on, calls `schedule` with the file, or ends with an error.
pub data Visited : Type 0 where
  goes_past : GrepWalk → Visited
  schedules : Option GrepPartialCursor → GrepWalk → Visited
  stops : WalkError → GrepWalk → Visited

-- `path.Ext`: from the last dot on, if there is no slash after it.
abbrev pub ext_from : Bytes → Bytes → Bytes
ext_from found [] = found
ext_from found (c ∷ rest) =
    ext_from (if c == b'/' then [] else if c == b'.' then c ∷ rest else found) rest

-- `strings.EqualFold` with a text of ASCII letters that fold to no other letter.
abbrev pub fold_byte : ℕ → ℕ
fold_byte c = if leb 65 c && leb c 90 then c + 32 else c

unfoldable pub is_markdown_path : Bytes → Bool
is_markdown_path value = bytes_eq (map fold_byte (ext_from [] value)) (codes ".md")

-- A digest that cannot be decoded is nil.
abbrev pub or_nil : Outcome Bytes → Bytes
or_nil (ok digest) = digest
or_nil (fail e) = []

abbrev pub expected_prefix : GrepCursorState → Bytes
expected_prefix r = or_nil (decode_digest r.prefix)

abbrev pub is_more : Order → Bool
is_more more = true
is_more same = false
is_more less = false

abbrev pub is_less : Order → Bool
is_less less = true
is_less same = false
is_less more = false

abbrev pub validated : GrepWalk → GrepWalk
validated w = record w {
  run = record (w.run) {
    work = record (w.run.work) {
      source_entries_validated = suc w.run.work.source_entries_validated;
    };
  };
}

abbrev pub extended : GrepSettings → GrepWalk → WalkFile → Bytes → GrepWalk
extended c w f fingerprint = record w {
  run = record (w.run) { prefix = c.extend_prefix w.run.prefix f.position fingerprint };
}

abbrev pub seen : GrepWalk → GrepWalk
seen w = record w { boundary_seen = true }

abbrev pub last_full_at : GrepWalk → Position → GrepWalk
last_full_at w position = record w { run = record (w.run) { last_full = some position } }

abbrev pub full_boundary : GrepCursorState → GrepWalk → WalkFile → Visited
full_boundary r w f =
    if not (bytes_eq w.run.prefix (expected_prefix r))
    then stops cursor_is_stale w
    else goes_past (last_full_at w f.position)

-- At the file that the cursor names.
abbrev pub at_boundary :
    GrepSettings
    → GrepCursorState
    → GrepWalk
    → WalkFile
    → Bytes
    → Option GrepPartialCursor
    → Visited
at_boundary c r w f fingerprint none = full_boundary r (extended c w f fingerprint) f
at_boundary c r w f fingerprint (some partial) =
    if not (bytes_eq w.run.prefix (expected_prefix r))
      || not (bytes_eq (c.encode_digest fingerprint) partial.fingerprint)
    then stops cursor_is_stale w
    else schedules (some partial) w

abbrev pub visit_source :
    GrepSettings → GrepCursorState → GrepWalk → WalkFile → OpenedFile → Visited
visit_source c r w f (not_opened e) = stops (open_failed e) w
visit_source c r w f (opened fingerprint) =
    if is_less (compare_grep_position f.position r.boundary)
    then goes_past (extended c (validated w) f fingerprint)
    else at_boundary c r (seen (validated w)) f fingerprint r.partial

abbrev pub visit_resume : GrepSettings → GrepCursorState → GrepWalk → WalkFile → Visited
visit_resume c r w f =
    if is_more (compare_grep_position f.position r.boundary)
    then stops cursor_is_stale w
    else visit_source c r w f f.source

abbrev pub visit_with : GrepSettings → Option GrepCursorState → GrepWalk → WalkFile → Visited
visit_with c none w f = schedules none w
visit_with c (some r) w f = if not w.boundary_seen then visit_resume c r w f else schedules none w

abbrev pub visit_live : GrepSettings → GrepWalk → WalkFile → Option Failure → Visited
visit_live c w f none = visit_with c c.resume w f
visit_live c w f (some e) = stops (context_ended e) w

abbrev pub visit : GrepSettings → GrepWalk → WalkFile → Visited
visit c w f = if not (is_markdown_path f.rel) then goes_past w else visit_live c w f f.ended

-- The walk up to the first file that is scheduled, with the files that follow it.
pub data Walked : Type 0 where
  at_end : GrepWalk → Walked
  begins : Option GrepPartialCursor → GrepWalk → WalkFile → List WalkFile → Walked
  stopped : WalkError → GrepWalk → Walked

abbrev pub and_walk : Visited → WalkFile → List WalkFile → (GrepWalk → Walked) → Walked
and_walk (goes_past w) f rest next = next w
and_walk (schedules partial w) f rest next = begins partial w f rest
and_walk (stops e w) f rest next = stopped e w

unfoldable pub walk_files : GrepSettings → GrepWalk → List WalkFile → Walked
walk_files c w [] = at_end w
walk_files c w (f ∷ files) = and_walk (visit c w f) f files (λ next. walk_files c next files)

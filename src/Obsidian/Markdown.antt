-- ===== src/Obsidian/Markdown.antt =====
-- internal/tools/obsidian/markdown.go: a Markdown source with the table of its physical lines. What
-- `utf8.Valid` says of a source is a parameter; the lazy parse of its structure is not modelled.
pub mod Tiles
pub mod Counted
pub mod Loads
pub mod Lookup
use personal_mcp_gateway.Base.{
  ℕ, zero, suc, ◌+◌, ◌-◌, ◌*◌, Bytes, Bool, true, false, not, ◌&&◌, ◌||◌, Option, none, some, List,
  [], ◌∷◌, length, drop, is_empty, ltb, leb, ◌==◌, ℤ, pos, negsuc, le_int, pred_int, if◌then◌else◌,
}
use personal_mcp_gateway.Fsx.Normalize.{starts_with}

abbrev pub max_markdown_source_bytes : ℕ
max_markdown_source_bytes = 8 * 1024 * 1024

abbrev pub max_markdown_source_lines : ℕ
max_markdown_source_lines = 50000

pub record PhysicalLine : Type 0 where
  pub start : ℕ
  pub content_end : ℕ
  pub stop : ℕ

pub record MarkdownSource : Type 0 where
  pub source : Bytes
  pub lines : List PhysicalLine

pub data MarkdownError : Type 0 where
  markdown_input_too_large markdown_invalid_utf8 : MarkdownError

pub data Loaded : Type 0 where
  loaded : MarkdownSource → Loaded
  refused : MarkdownError → Loaded

abbrev pub line_feed : ℕ
line_feed = 10

abbrev pub carriage_return : ℕ
carriage_return = 13

-- `bytes.Count` of a single byte
unfoldable pub count_byte : ℕ → Bytes → ℕ
count_byte c [] = 0
count_byte c (b ∷ rest) = let more = count_byte c rest in if b == c then suc more else more

-- `source[n] == c` at an index in range
abbrev pub byte_is : Bytes → ℕ → ℕ → Bool
byte_is source n c = starts_with c (drop n source)

abbrev pub line_count : Bytes → ℕ
line_count source =
    if ltb 0 (length source) && not (byte_is source (length source - 1) line_feed)
    then suc (count_byte line_feed source)
    else count_byte line_feed source

abbrev pub content_end_at : Bytes → ℕ → ℕ → ℕ
content_end_at source start i =
    if ltb start i && byte_is source (i - 1) carriage_return then i - 1 else i

abbrev pub last_line : Bytes → ℕ → List PhysicalLine
last_line source start =
    if ltb start (length source)
    then record { start = start; content_end = length source; stop = length source } ∷ []
    else []

-- The loop over the bytes from index `i` on.
unfoldable pub index_lines_from : Bytes → ℕ → ℕ → Bytes → List PhysicalLine
index_lines_from source start i [] = last_line source start
index_lines_from source start i (b ∷ rest) =
    let more = index_lines_from source (if b == line_feed then suc i else start) (suc i) rest in
    if b == line_feed
    then record { start = start; content_end = content_end_at source start i; stop = suc i } ∷ more
    else more

abbrev pub index_physical_lines : Bytes → ℕ → Option (List PhysicalLine)
index_physical_lines source maximum =
    if ltb maximum (line_count source) then none else some (index_lines_from source 0 0 source)

abbrev pub checked_source : (Bytes → Bool) → Bytes → Option (List PhysicalLine) → Loaded
checked_source valid_utf8 source none = refused markdown_input_too_large
checked_source valid_utf8 source (some lines) =
    if not (valid_utf8 source)
    then refused markdown_invalid_utf8
    else loaded (record { source = source; lines = lines })

unfoldable pub new_markdown_source : (Bytes → Bool) → Bytes → Loaded
new_markdown_source valid_utf8 source =
    if ltb max_markdown_source_bytes (length source)
    then refused markdown_input_too_large
    else checked_source valid_utf8 source (index_physical_lines source max_markdown_source_lines)

abbrev pub nth : ℕ → List PhysicalLine → Option PhysicalLine
nth n [] = none
nth zero (line ∷ lines) = some line
nth (suc n) (line ∷ lines) = nth n lines

-- The lines are numbered from 1.
abbrev pub line : MarkdownSource → ℤ → Option PhysicalLine
line s (negsuc _) = none
line s (pos number) =
    if ltb number 1 || ltb (length s.lines) number then none else nth (number - 1) s.lines

-- `sort.Search`: the smallest index of a line that ends after the offset, or the number of lines.
abbrev pub first_after : ℕ → List PhysicalLine → ℕ
first_after offset [] = 0
first_after offset (line ∷ lines) =
    let more = first_after offset lines in if ltb offset line.stop then 0 else suc more

abbrev pub or_last : ℕ → ℕ → ℕ
or_last i count = if i == count then count - 1 else i

abbrev pub line_index_in : MarkdownSource → ℤ → ℕ
line_index_in s (negsuc _) = 0
line_index_in s (pos offset) =
    if leb (length s.source) offset
    then length s.lines - 1
    else or_last (first_after offset s.lines) (length s.lines)

-- none for -1
abbrev pub line_index_at : MarkdownSource → ℤ → Option ℕ
line_index_at s offset = if is_empty s.lines then none else some (line_index_in s offset)

-- The numbers of the first and the last line of a selection; no line gives none for `lineIndexAt`.
abbrev pub selection_in : MarkdownSource → ℤ → ℤ → ℕ × ℕ
selection_in s start end =
    if le_int end start
    then (suc (line_index_in s start), suc (line_index_in s start))
    else (suc (line_index_in s start), suc (line_index_in s (pred_int end)))

abbrev pub selection_lines : MarkdownSource → ℤ → ℤ → ℕ × ℕ
selection_lines s start end = if is_empty s.lines then (1, 0) else selection_in s start end

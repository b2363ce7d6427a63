-- ===== src/Obsidian/MarkdownTests.antt =====
-- A small Markdown source of internal/tools/obsidian/markdown.go, and the properties at it.
use personal_mcp_gateway.Base.{
  codes, Bytes, true, false, none, some, [], ◌∷◌, ◌++◌, pos, negsuc, ◌≡◌, refl, arith,
}
use personal_mcp_gateway.Obsidian.Markdown.{
  MarkdownSource, count_byte, index_lines_from, new_markdown_source, loaded, refused,
  markdown_invalid_utf8, line, line_index_at, selection_lines,
}
use personal_mcp_gateway.Obsidian.Markdown.Loads.{IsAnswered, new_markdown_source-IsAnswered}
use personal_mcp_gateway.Obsidian.Markdown.Lookup.{IsSelection, selection_lines-IsSelection}

-- To unfold `reads` is to unfold the program.
reads : Unit {0}
unfolding count_byte index_lines_from new_markdown_source
reads = tt

-- A line that ends in CRLF, an empty one and one without a terminator.
abbrev three_lines : Bytes
three_lines = codes "ab" ++ 13 ∷ 10 ∷ 10 ∷ codes "c"

abbrev three : MarkdownSource
three = record {
  source = three_lines;
  lines =
      record { start = 0; content_end = 2; stop = 4 }
      ∷ record { start = 4; content_end = 4; stop = 5 }
      ∷ record { start = 5; content_end = 6; stop = 6 }
      ∷ [];
}

three_is : new_markdown_source (λ s. true) three_lines ≡ loaded three
unfolding reads
three_is = refl

not_text : new_markdown_source (λ s. false) three_lines ≡ refused markdown_invalid_utf8
unfolding reads
not_text = refl

-- Offsets before the source and after it have its first and its last line.
before_source : line_index_at three (negsuc 3) ≡ some 0
before_source = refl

after_source : line_index_at three (pos 9) ≡ some 2
after_source = refl

no_such_line : line three (pos 4) ≡ none
no_such_line = refl

new_markdown_source-IsAnswered_example :
    IsAnswered (λ s. true) three_lines (new_markdown_source (λ s. true) three_lines)
new_markdown_source-IsAnswered_example = new_markdown_source-IsAnswered (λ s. true) three_lines

selection_lines-IsSelection_example : IsSelection three 1 4 (selection_lines three (pos 1) (pos 5))
selection_lines-IsSelection_example =
    selection_lines-IsSelection (λ s. true) three_lines three 1 4 three_is (omega arith)
      (omega arith)

-- ===== src/Obsidian/Markdown/Loads.antt =====
-- What `NewMarkdownSource` of internal/tools/obsidian/markdown.go accepts and what it makes of it.
use personal_mcp_gateway.Base.{
  ◌<◌, ◌≤◌, Bytes, Bool, true, false, not, List, [], length, ltb, ◌≡◌, ◌⊎◌, inl, inr, refl, arith,
  if_lem,
}
use personal_mcp_gateway.Obsidian.Markdown.{
  PhysicalLine, MarkdownSource, markdown_input_too_large, markdown_invalid_utf8, Loaded, loaded,
  refused, index_lines_from, line_count, index_physical_lines, checked_source, new_markdown_source,
  max_markdown_source_bytes, max_markdown_source_lines,
}
use personal_mcp_gateway.Obsidian.Markdown.Tiles.{Tiles, index_lines_from-Tiles}
use personal_mcp_gateway.Obsidian.Markdown.Counted.{line_count-index_lines_from}

-- A source whose lines cut it up.
pub record IsCutUp (valid_utf8 : Bytes → Bool) (source : Bytes) (m : MarkdownSource) : Type 0 where
  pub same : m.source ≡ source
  pub is_text : valid_utf8 source ≡ true
  pub bytes : length source ≤ max_markdown_source_bytes
  pub count : length m.lines ≤ max_markdown_source_lines
  pub tiles : Tiles m.source 0 m.lines

-- A source is too large for its bytes, or for the lines that would cut it up.
abbrev pub IsTooLarge : Bytes → Type 0
IsTooLarge source =
    (max_markdown_source_bytes < length source)
    ⊎ ((lines : List PhysicalLine) × Tiles source 0 lines
        × (max_markdown_source_lines < length lines))

abbrev pub IsAnswered : (Bytes → Bool) → Bytes → Loaded → Type 0
IsAnswered valid_utf8 source (loaded m) = IsCutUp valid_utf8 source m
IsAnswered valid_utf8 source (refused markdown_input_too_large) = IsTooLarge source
IsAnswered valid_utf8 source (refused markdown_invalid_utf8) = valid_utf8 source ≡ false

index-Tiles : (source : Bytes) → Tiles source 0 (index_lines_from source 0 0 source)
index-Tiles source = index_lines_from-Tiles [] [] source source 0 0 refl refl tt refl

module _ (valid_utf8 : Bytes → Bool) (source : Bytes) where
  checked_source-IsAnswered :
      length source ≤ max_markdown_source_bytes
      → IsAnswered valid_utf8 source
          (checked_source valid_utf8 source (index_physical_lines source max_markdown_source_lines))
  checked_source-IsAnswered fits =
      let counted = line_count-index_lines_from source in
      if_lem (λ o. IsAnswered valid_utf8 source (checked_source valid_utf8 source o))
        (ltb max_markdown_source_lines (line_count source))
        (λ y. inr (_, index-Tiles source, ground (arith, y, counted)))
        (λ few.
          if_lem (IsAnswered valid_utf8 source) (not (valid_utf8 source)) (λ y. ground (arith, y))
            (λ n. record {
              same = refl;
              is_text = ground (arith, n);
              bytes = fits;
              count = ground (arith, few, counted);
              tiles = index-Tiles source;
            }))

  -- Whatever `utf8.Valid` says: a source that `NewMarkdownSource` accepts is valid, is within the limits of
  -- bytes and lines, and is cut up by its lines, one after the other without a gap from the first byte to the
  -- last: the content of each has no LF, and it ends in LF or CRLF, or without a terminator at the end of the
  -- source, and then it is not empty. A source that is refused as too large has too many bytes, or too many
  -- such lines, and one refused as invalid is not valid.
  pub new_markdown_source-IsAnswered :
      IsAnswered valid_utf8 source (new_markdown_source valid_utf8 source)
  unfolding new_markdown_source
  new_markdown_source-IsAnswered =
      if_lem (IsAnswered valid_utf8 source) (ltb max_markdown_source_bytes (length source))
        (λ y. inl (ground (arith, y))) (λ n. checked_source-IsAnswered (ground (arith, n)))

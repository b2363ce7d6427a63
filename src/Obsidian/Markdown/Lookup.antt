-- ===== src/Obsidian/Markdown/Lookup.antt =====
-- How `lineIndexAt` of internal/tools/obsidian/markdown.go finds the line of an offset.
use personal_mcp_gateway.Base.{
  ℕ, suc, ◌<◌, ◌≤◌, Bytes, Bool, false, ◌||◌, some, List, [], ◌∷◌, subst, length, is_empty, ltb,
  leb, ◌==◌, pos, ◌≡◌, refl, sym, ap, ◌∙◌, arith, if_lem,
}
use personal_mcp_gateway.Obsidian.Markdown.{
  PhysicalLine, MarkdownSource, loaded, new_markdown_source, nth, line, first_after, line_index_in,
  selection_in, selection_lines,
}
use personal_mcp_gateway.Obsidian.Markdown.Tiles.{Tiles}
use personal_mcp_gateway.Obsidian.Markdown.Loads.{IsAnswered, new_markdown_source-IsAnswered}

-- Index `i` is that of a line with the offset in it.
record IsFound (offset : ℕ) (lines : List PhysicalLine) (i : ℕ) : Type 0 where
  found : PhysicalLine
  in_range : i < length lines
  found_is : nth i lines ≡ some found
  from_start : found.start ≤ offset
  before_stop : offset < found.stop

first_after-IsFound :
    (source : Bytes) (offset from : ℕ) (lines : List PhysicalLine)
    → Tiles source from lines
    → from ≤ offset
    → offset < length source
    → IsFound offset lines (first_after offset lines)
first_after-IsFound source offset from [] tiles low high = absurd (omega (arith, tiles, low, high))
first_after-IsFound source offset from (l ∷ lines) tiles low high =
    if_lem (IsFound offset (l ∷ lines)) (ltb offset l.stop)
      (λ y. record {
        found = l;
        in_range = omega arith;
        found_is = refl;
        from_start = omega (arith, tiles.0.starts, low);
        before_stop = ground (arith, y);
      })
      (λ n.
        let more =
          first_after-IsFound source offset l.stop lines tiles.1 (ground (arith, n)) high in
        record {
          found = more.found;
          in_range = omega (arith, more.in_range);
          found_is = more.found_is;
          from_start = more.from_start;
          before_stop = more.before_stop;
        })

line_index_in-IsFound :
    (m : MarkdownSource) (offset : ℕ)
    → Tiles m.source 0 m.lines
    → offset < length m.source
    → IsFound offset m.lines (line_index_in m (pos offset))
line_index_in-IsFound m offset tiles high =
    let first = first_after-IsFound m.source offset 0 m.lines tiles (omega arith) high in
    if_lem (IsFound offset m.lines) (leb (length m.source) offset)
      (λ y. absurd (ground (arith, y, high)))
      (λ n.
        if_lem (IsFound offset m.lines) (first_after offset m.lines == length m.lines)
          (λ y. absurd (ground (arith, y, first.in_range))) (λ k. first))

line-nth :
    (m : MarkdownSource) (i : ℕ) (l : PhysicalLine)
    → i < length m.lines
    → nth i m.lines ≡ some l
    → line m (pos (suc i)) ≡ some l
line-nth m i l low e =
    if_lem (λ o. o ≡ some l) (ltb (suc i) 1 || ltb (length m.lines) (suc i))
      (λ y. absurd (ground (arith, y, low))) (λ n. ap (λ k. nth k m.lines) (omega arith) ∙ e)

some_line : (lines : List PhysicalLine) (i : ℕ) → i < length lines → is_empty lines ≡ false
some_line [] i h = absurd (omega (arith, h))
some_line (l ∷ lines) i h = refl

first_after_mono :
    (a b : ℕ) (lines : List PhysicalLine) → a ≤ b → first_after a lines ≤ first_after b lines
first_after_mono a b [] h = omega arith
first_after_mono a b (l ∷ lines) h =
    let more = first_after_mono a b lines h in
    if_lem (λ n. n ≤ first_after b (l ∷ lines)) (ltb a l.stop) (λ y. omega arith)
      (λ n.
        if_lem (λ k. suc (first_after a lines) ≤ k) (ltb b l.stop)
          (λ y. absurd (ground (arith, h, n, y))) (λ k. omega (arith, more)))

-- The line of that index has the offset in it.
abbrev pub Holds : MarkdownSource → ℕ → ℕ → Type 0
Holds m i offset =
    (l : PhysicalLine) × (line m (pos (suc i)) ≡ some l) × (l.start ≤ offset) × (offset < l.stop)

-- The numbers of a first and a last line, which have the first and the last offset of a selection in them.
abbrev pub IsSelection : MarkdownSource → ℕ → ℕ → ℕ × ℕ → Type 0
IsSelection m start last numbers =
    (i : ℕ) × (j : ℕ) × (numbers ≡ (suc i, suc j)) × (i ≤ j) × Holds m i start × Holds m j last

module _ (m : MarkdownSource) (tiles : Tiles m.source 0 m.lines) where
  index-is_first :
      (offset : ℕ)
      → offset < length m.source
      → line_index_in m (pos offset) ≡ first_after offset m.lines
  index-is_first offset high =
      let first = first_after-IsFound m.source offset 0 m.lines tiles (omega arith) high in
      if_lem (λ k. k ≡ first_after offset m.lines) (leb (length m.source) offset)
        (λ y. absurd (ground (arith, y, high)))
        (λ n.
          if_lem (λ k. k ≡ first_after offset m.lines)
            (first_after offset m.lines == length m.lines)
            (λ y. absurd (ground (arith, y, first.in_range))) (λ k. refl))

  index-Holds :
      (offset : ℕ) → offset < length m.source → Holds m (line_index_in m (pos offset)) offset
  index-Holds offset high =
      let found = line_index_in-IsFound m offset tiles high in
      (
        found.found,
        line-nth m _ found.found found.in_range found.found_is,
        found.from_start,
        found.before_stop,
      )

  selection_in-IsSelection :
      (start last : ℕ)
      → start ≤ last
      → last < length m.source
      → IsSelection m start last (selection_in m (pos start) (pos (suc last)))
  selection_in-IsSelection start last low high =
      if_lem (IsSelection m start last) (leb (suc last) start)
        (λ y. absurd (ground (arith, y, low)))
        (λ n. (
          _,
          _,
          refl,
          omega (
            arith,
            first_after_mono start last m.lines low,
            index-is_first start (omega (arith, low, high)),
            index-is_first last high,
          ),
          index-Holds start (omega (arith, low, high)),
          index-Holds last high,
        ))

-- In a source that `NewMarkdownSource` accepts, `selectionLines` of a selection that is not empty gives two
-- numbers in order, and `Line` of these gives the line that has the first byte of the selection in it and the
-- line that has its last byte.
pub selection_lines-IsSelection :
    (valid_utf8 : Bytes → Bool) (source : Bytes) (m : MarkdownSource) (start last : ℕ)
    → new_markdown_source valid_utf8 source ≡ loaded m
    → start ≤ last
    → last < length source
    → IsSelection m start last (selection_lines m (pos start) (pos (suc last)))
selection_lines-IsSelection valid_utf8 source m start last e low high =
    let cut =
      subst (IsAnswered valid_utf8 source) e (new_markdown_source-IsAnswered valid_utf8 source) in
    let inside = subst (λ s. last < length s) (sym cut.same) high in
    let found = line_index_in-IsFound m last cut.tiles inside in
    if_lem (IsSelection m start last) (is_empty m.lines)
      (λ y. absurd (ground (arith, y, some_line m.lines _ found.in_range)))
      (λ n. selection_in-IsSelection m cut.tiles start last low inside)

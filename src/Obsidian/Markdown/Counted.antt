-- ===== src/Obsidian/Markdown/Counted.antt =====
-- The count of lines that `indexPhysicalLines` of internal/tools/obsidian/markdown.go makes before its loop.
use personal_mcp_gateway.Base.{
  ℕ, suc, ◌+◌, ◌-◌, ◌≤◌, Bytes, Bool, true, false, not, ◌&&◌, List, [], ◌∷◌, lt→ltb, length,
  append-nil, ltb, ◌==◌, ◌≡◌, refl, sym, ap, ◌∙◌, arith, if◌then◌else◌, if_lem,
}
use personal_mcp_gateway.Obsidian.Markdown.{
  PhysicalLine, line_feed, byte_is, last_line, index_lines_from, line_count, count_byte,
}
use personal_mcp_gateway.Obsidian.Markdown.Tiles.{ends_in, last_is}

-- Whether bytes are left after the last LF.
abbrev unfinished : ℕ → ℕ → Bytes → Bool
unfinished start i [] = ltb start i
unfinished start i (b ∷ rest) = unfinished (if b == line_feed then suc i else start) (suc i) rest

abbrev plus_one : Bool → ℕ → ℕ
plus_one true n = suc n
plus_one false n = n

plus_one-suc : (t : Bool) (n : ℕ) → suc (plus_one t n) ≡ plus_one t (suc n)
plus_one-suc true n = refl
plus_one-suc false n = refl

plus_one-if : (t : Bool) (n : ℕ) → (if t then suc n else n) ≡ plus_one t n
plus_one-if true n = refl
plus_one-if false n = refl

one_longer :
    (t u : Bool) (line : PhysicalLine) (more : List PhysicalLine) (n : ℕ)
    → length more ≡ plus_one u n
    → length (if t then line ∷ more else more) ≡ plus_one u (if t then suc n else n)
one_longer true u line more n e = ap (λ k. suc k) e ∙ plus_one-suc u n
one_longer false u line more n e = e

last_line-length :
    (source : Bytes) (start i : ℕ)
    → i ≡ length source
    → length (last_line source start) ≡ plus_one (ltb start i) 0
last_line-length source start i e =
    if_lem (λ l. length l ≡ plus_one (ltb start i) 0) (ltb start (length source))
      (λ y. ap (λ t. plus_one t 0) (sym y ∙ ap (ltb start) (sym e)))
      (λ n. ap (λ t. plus_one t 0) (sym n ∙ ap (ltb start) (sym e)))

index_lines_from-length :
    (source : Bytes) (start i : ℕ) (rest : Bytes)
    → i + length rest ≡ length source
    → length (index_lines_from source start i rest)
      ≡ plus_one (unfinished start i rest) (count_byte line_feed rest)
unfolding index_lines_from count_byte
index_lines_from-length source start i [] e = last_line-length source start i (omega (arith, e))
index_lines_from-length source start i (b ∷ rest) e = one_longer (b == line_feed) _ _ _ _ (
    index_lines_from-length source (if b == line_feed then suc i else start) (suc i) rest
      (omega (arith, e)))

unfinished-ends_in :
    (start i b : ℕ) (rest : Bytes)
    → start ≤ i
    → unfinished start i (b ∷ rest) ≡ not (ends_in line_feed (b ∷ rest))
unfinished-ends_in start i b [] h = ground (arith, h)
unfinished-ends_in start i b (c ∷ rest) h =
    unfinished-ends_in (if b == line_feed then suc i else start) (suc i) c rest
      (if_lem (λ s. s ≤ suc i) (b == line_feed) (λ y. omega arith) (λ n. omega (arith, h)))

last_byte :
    (b : ℕ) (rest : Bytes)
    → byte_is (b ∷ rest) (length (b ∷ rest) - 1) line_feed ≡ ends_in line_feed (b ∷ rest)
last_byte b rest =
    ap (λ n. byte_is (b ∷ rest) n line_feed) (omega arith)
    ∙ ap (λ l. byte_is (b ∷ l) (length rest) line_feed) (sym (append-nil rest))
    ∙ last_is line_feed b rest []

-- The table has exactly the lines that were counted.
pub line_count-index_lines_from :
    (source : Bytes) → length (index_lines_from source 0 0 source) ≡ line_count source
line_count-index_lines_from [] = index_lines_from-length [] 0 0 [] refl
line_count-index_lines_from (b ∷ rest) =
    index_lines_from-length (b ∷ rest) 0 0 (b ∷ rest) (omega arith)
    ∙ ap (λ t. plus_one t (count_byte line_feed (b ∷ rest)))
        (unfinished-ends_in 0 0 b rest (omega arith) ∙ ap not (sym (last_byte b rest)))
    ∙ ap
        (λ t.
          plus_one (t && not (byte_is (b ∷ rest) (length (b ∷ rest) - 1) line_feed))
            (count_byte line_feed (b ∷ rest)))
        (sym (lt→ltb 0 (length (b ∷ rest)) (omega arith)))
    ∙ sym (
        plus_one-if
          (ltb 0 (length (b ∷ rest)) && not (byte_is (b ∷ rest) (length (b ∷ rest) - 1) line_feed))
          (count_byte line_feed (b ∷ rest)))

-- ===== src/Obsidian/Markdown/Tiles.antt =====
-- The lines that `indexPhysicalLines` of internal/tools/obsidian/markdown.go finds.
use personal_mcp_gateway.Base.{
  ℕ, zero, suc, ◌+◌, ◌-◌, ◌<◌, ◌≤◌, Bytes, Bool, true, false, ◌&&◌, List, [], ◌∷◌, ◌++◌, All,
  length, length-append, append_assoc, append-nil, drop, ltb, ◌==◌, ==_iff, ◌≡◌, ◌≢◌, ◌⊎◌, inl, inr,
  refl, sym, ap, ap₂, subst, lt→ltb, ◌∙◌, arith, if◌then◌else◌, if_lem,
}
use personal_mcp_gateway.Fsx.Normalize.{starts_with}
use personal_mcp_gateway.Obsidian.Markdown.{
  PhysicalLine, line_feed, carriage_return, byte_is, content_end_at, last_line, index_lines_from,
}

abbrev pub ends_in : ℕ → Bytes → Bool
ends_in c [] = false
ends_in c (x ∷ []) = x == c
ends_in c (x ∷ y ∷ l) = ends_in c (y ∷ l)

-- A line ends in LF or in CRLF, or without a terminator at the end of the source, and then it is not empty.
abbrev pub IsTerminated : Bytes → Bytes → Bytes → Type 0
IsTerminated content terminator after =
    (terminator ≡ line_feed ∷ []) × (ends_in carriage_return content ≡ false)
    ⊎ (terminator ≡ carriage_return ∷ line_feed ∷ [])
    ⊎ (terminator ≡ []) × (after ≡ []) × (0 < length content)

-- The bytes that a line stands for: its content, which has no LF, and its terminator.
pub record IsLine (source : Bytes) (from : ℕ) (line : PhysicalLine) : Type 0 where
  pub before : Bytes
  pub content : Bytes
  pub terminator : Bytes
  pub after : Bytes
  pub parts : source ≡ before ++ content ++ terminator ++ after
  pub starts : line.start ≡ from
  pub before_is : length before ≡ from
  pub content_is : line.content_end ≡ from + length content
  pub stop_is : line.stop ≡ line.content_end + length terminator
  pub no_feed : All (λ c. c ≢ line_feed) content
  pub ends : IsTerminated content terminator after

-- The lines stand one after the other from an offset to the end of the source.
abbrev pub Tiles : Bytes → ℕ → List PhysicalLine → Type 0
Tiles source from [] = from ≡ length source
Tiles source from (line ∷ lines) = IsLine source from line × Tiles source line.stop lines

by_test {κ} :
    (P : List PhysicalLine → Type κ) (t : Bool) (f : ℕ → List PhysicalLine) (line : PhysicalLine)
    (a b : ℕ)
    → (t ≡ true → P (line ∷ f a))
    → (t ≡ false → P (f b))
    → P (let more = f (if t then a else b) in if t then line ∷ more else more)
by_test P true f line a b h k = h refl
by_test P false f line a b h k = k refl

drop_into : (l r : Bytes) (k n : ℕ) → k ≡ length l + n → drop k (l ++ r) ≡ drop n r
drop_into [] r k n e = ap (λ m. drop m r) (omega (arith, e))
drop_into (x ∷ l) r zero n e = absurd (omega (arith, e))
drop_into (x ∷ l) r (suc k) n e = drop_into l r k n (omega (arith, e))

pub last_is :
    (c x : ℕ) (l r : Bytes) → starts_with c (drop (length l) (x ∷ l ++ r)) ≡ ends_in c (x ∷ l)
last_is c x [] r = refl
last_is c x (y ∷ l) r = last_is c y l r

not_below : (a b : ℕ) → b ≤ a → ltb a b ≡ false
not_below a b h = ground (arith, h)

-- The test of the byte before index `i`.
byte_before :
    (c : ℕ) (before cur rest : Bytes) (start i : ℕ)
    → start ≡ length before
    → i ≡ start + length cur
    → (ltb start i && byte_is (before ++ (cur ++ rest)) (i - 1) c) ≡ ends_in c cur
byte_before c before [] rest start i s e =
    ap (λ t. t && byte_is (before ++ rest) (i - 1) c) (not_below start i (omega (arith, e)))
byte_before c before (x ∷ l) rest start i s e =
    let here = drop_into before ((x ∷ l) ++ rest) (i - 1) (length l) (omega (arith, s, e)) in
    ap₂ (λ t u. t && u) (lt→ltb start i (omega (arith, e))) (ap (starts_with c) here)
    ∙ last_is c x l rest

ends_in-split : (c : ℕ) (l : Bytes) → ends_in c l ≡ true → (init : Bytes) × (l ≡ init ++ c ∷ [])
ends_in-split c [] e = ground (arith, e)
ends_in-split c (x ∷ []) e = ([], ap (λ y. y ∷ []) ((==_iff x c).0 e))
ends_in-split c (x ∷ y ∷ l) e =
    let more = ends_in-split c (y ∷ l) e in (x ∷ more.0, ap (λ m. x ∷ m) more.1)

regroup : (c d : ℕ) (l m r : Bytes) → l ++ (m ++ c ∷ []) ++ d ∷ r ≡ l ++ m ++ c ∷ d ∷ [] ++ r
regroup c d [] [] r = refl
regroup c d [] (x ∷ m) r = ap (λ t. x ∷ t) (regroup c d [] m r)
regroup c d (x ∷ l) m r = ap (λ t. x ∷ t) (regroup c d l m r)

one_more : (b : ℕ) (l m r : Bytes) → l ++ m ++ b ∷ r ≡ l ++ (m ++ b ∷ []) ++ r
one_more b [] [] r = refl
one_more b [] (x ∷ m) r = ap (λ t. x ∷ t) (one_more b [] m r)
one_more b (x ∷ l) m r = ap (λ t. x ∷ t) (one_more b l m r)

after_feed : (l r : Bytes) → l ++ line_feed ∷ r ≡ l ++ line_feed ∷ [] ++ [] ++ r
after_feed [] r = refl
after_feed (x ∷ l) r = ap (λ t. x ∷ t) (after_feed l r)

feeds : (b : ℕ) → (b == line_feed) ≡ false → b ≡ line_feed → ⊥
feeds b n e = ground (arith, n, e)

All-init : (P : ℕ → Type 0) (l r : Bytes) → All P (l ++ r) → All P l
All-init P [] r h = tt
All-init P (x ∷ l) r h = (h.0, All-init P l r h.1)

All-append : (P : ℕ → Type 0) (l r : Bytes) → All P l → All P r → All P (l ++ r)
All-append P [] r h k = k
All-append P (x ∷ l) r h k = (h.0, All-append P l r h.1 k)

module _ (before cur rest source : Bytes) (start i : ℕ) (at_start : start ≡ length before)
    (at_i : i ≡ start + length cur) (no_feed : All (λ c. c ≢ line_feed) cur) where
  last_line-Tiles : source ≡ before ++ cur ++ [] → Tiles source start (last_line source start)
  last_line-Tiles whole =
      let sized = ap length whole ∙ length-append (before ++ cur) [] in
      let more = length-append before cur in
      if_lem (Tiles source start) (ltb start (length source))
        (λ y. (
          record {
            before = before;
            content = cur;
            terminator = [];
            after = [];
            parts = whole ∙ sym (append-nil _);
            starts = refl;
            before_is = sym at_start;
            content_is = omega (arith, sized, more, at_start);
            stop_is = omega arith;
            no_feed = no_feed;
            ends = inr (inr (refl, refl, ground (arith, y, sized, more, at_start)));
          },
          refl,
        ))
        (λ n. ground (arith, n, sized, more, at_start))

  feed-IsLine :
      source ≡ before ++ cur ++ line_feed ∷ rest
      → IsLine source start
          (record { start = start; content_end = content_end_at source start i; stop = suc i })
  feed-IsLine whole =
      let prior = byte_before carriage_return before cur (line_feed ∷ rest) start i at_start at_i in
      let tested =
        ap (λ s. ltb start i && byte_is s (i - 1) carriage_return)
          (whole ∙ append_assoc before cur (line_feed ∷ rest))
        ∙ prior in
      if_lem (λ e. IsLine source start (record { start = start; content_end = e; stop = suc i }))
        (ltb start i && byte_is source (i - 1) carriage_return)
        (λ y.
          let parted = ends_in-split carriage_return cur (sym tested ∙ y) in
          let init = parted.0 in
          let shorter = ap length parted.1 ∙ length-append init (carriage_return ∷ []) in
          record {
            before = before;
            content = init;
            terminator = carriage_return ∷ line_feed ∷ [];
            after = rest;
            parts =
                whole
                ∙ ap (λ c. before ++ c ++ line_feed ∷ rest) parted.1
                ∙ regroup carriage_return line_feed before init rest;
            starts = refl;
            before_is = sym at_start;
            content_is = omega (arith, shorter, at_i);
            stop_is = omega (arith, shorter, at_i);
            no_feed =
                All-init (λ c. c ≢ line_feed) init (carriage_return ∷ [])
                  (subst (All (λ c. c ≢ line_feed)) parted.1 no_feed);
            ends = inr (inl refl);
          })
        (λ n. record {
          before = before;
          content = cur;
          terminator = line_feed ∷ [];
          after = rest;
          parts = whole ∙ sym (append_assoc (before ++ cur) (line_feed ∷ []) rest);
          starts = refl;
          before_is = sym at_start;
          content_is = at_i;
          stop_is = omega arith;
          no_feed = no_feed;
          ends = inl (refl, sym tested ∙ n);
        })

pub index_lines_from-Tiles :
    (before cur rest source : Bytes) (start i : ℕ)
    → start ≡ length before
    → i ≡ start + length cur
    → All (λ c. c ≢ line_feed) cur
    → source ≡ before ++ cur ++ rest
    → Tiles source start (index_lines_from source start i rest)
unfolding index_lines_from
index_lines_from-Tiles before cur [] source start i at_start at_i no_feed whole =
    last_line-Tiles before cur [] source start i at_start at_i no_feed whole
index_lines_from-Tiles before cur (b ∷ rest) source start i at_start at_i no_feed whole =
    by_test (Tiles source start) (b == line_feed) (λ s. index_lines_from source s (suc i) rest) _
      (suc i) start
      (λ y.
        let fed = whole ∙ ap (λ c. before ++ cur ++ c ∷ rest) ((==_iff b line_feed).0 y) in
        let sized = length-append (before ++ cur) (line_feed ∷ []) in
        let both = length-append before cur in
        (
          feed-IsLine before cur rest source start i at_start at_i no_feed fed,
          index_lines_from-Tiles (before ++ cur ++ line_feed ∷ []) [] rest source (suc i) (suc i)
              (omega (arith, sized, both, at_start, at_i)) (omega arith) tt
              (fed ∙ after_feed (before ++ cur) rest),
        ))
      (λ n.
        index_lines_from-Tiles before (cur ++ b ∷ []) rest source start (suc i) at_start
          (omega (arith, at_i, length-append cur (b ∷ [])))
          (All-append (λ c. c ≢ line_feed) cur (b ∷ []) no_feed ((λ e. feeds b n e), tt))
          (whole ∙ one_more b before cur rest))

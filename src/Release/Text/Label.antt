-- ===== src/Release/Text/Label.antt =====
-- `ValidLaunchAgentLabel` of internal/releaseactivation/path_validation.go: a label that passes is one
-- safe component of a file name.
use personal_mcp_gateway.Base.{
  cons_head, split, ℕ, ◌≤◌, ◌<◌, Bytes, true, false, List, [], ◌∷◌, All, all, length, ◌==◌, ==_iff,
  ◌≡◌, ◌≢◌, ◌⊎◌, inl, inr, arith, Bool-cases, and_parts,
}
use personal_mcp_gateway.Release.Text.{
  ascii_alpha_numeric, last_of, inner_ok, segment_ok, valid_launch_agent_label,
}

-- A byte that a label may hold.
abbrev pub IsAlnum : ℕ → Type 0
IsAlnum c = ((b'a' ≤ c) × (c ≤ b'z')) ⊎ (((b'A' ≤ c) × (c ≤ b'Z')) ⊎ ((b'0' ≤ c) × (c ≤ b'9')))

abbrev pub IsLabelByte : ℕ → Type 0
IsLabelByte c = IsAlnum c ⊎ ((c ≡ b'-') ⊎ ((c ≡ b'_') ⊎ (c ≡ b'.')))

ascii_alpha_numeric-IsAlnum : (c : ℕ) → ascii_alpha_numeric c ≡ true → IsAlnum c
unfolding ascii_alpha_numeric
ascii_alpha_numeric-IsAlnum c h = ground arith

-- Every byte of a segment that passes.
tail-IsLabelByte :
    (c : ℕ) (r : Bytes)
    → ascii_alpha_numeric (last_of c r) ≡ true
    → inner_ok r ≡ true
    → All IsLabelByte r
tail-IsLabelByte c [] l h = tt
tail-IsLabelByte c (x ∷ []) l h = (inl (ascii_alpha_numeric-IsAlnum x l), tt)
tail-IsLabelByte c (x ∷ y ∷ r) l h =
    (ground (arith, ascii_alpha_numeric-IsAlnum x), tail-IsLabelByte x (y ∷ r) l (ground arith))

segment-IsLabelByte : (s : Bytes) → segment_ok s ≡ true → All IsLabelByte s
unfolding segment_ok
segment-IsLabelByte [] h = cc
segment-IsLabelByte (c ∷ r) h = (
  ground (arith, ascii_alpha_numeric-IsAlnum c),
  tail-IsLabelByte c r (ground arith) (ground arith),
)

segments-IsLabelByte : (l : List Bytes) → all segment_ok l ≡ true → All (All IsLabelByte) l
segments-IsLabelByte [] h = tt
segments-IsLabelByte (s ∷ l) h =
    let both = and_parts (segment_ok s) (all segment_ok l) h in
    (segment-IsLabelByte s both.0, segments-IsLabelByte l both.1)

cons_head_parts :
    (x : ℕ) (l : List Bytes)
    → All (All IsLabelByte) (cons_head x l)
    → IsLabelByte x × All (All IsLabelByte) l
cons_head_parts x [] h = (h.0.0, tt)
cons_head_parts x (s ∷ l) h = (h.0.0, (h.0.1, h.1))

join-IsLabelByte : (s : Bytes) → All (All IsLabelByte) (split b'.' s) → All IsLabelByte s
unfolding split
join-IsLabelByte [] h = tt
join-IsLabelByte (x ∷ r) h = elim (Bool-cases (x == b'.')) [
  | inl dot ↦
      let h' : All (All IsLabelByte) ([] ∷ split b'.' r) = rw dot at h in
      (inr (inr (inr ((==_iff x b'.').0 dot))), join-IsLabelByte r h'.1)
  | inr other ↦
      let parts = cons_head_parts x (split b'.' r) (rw other at h) in
      (parts.0, join-IsLabelByte r parts.1)
]

split_first : (sep : ℕ) (r : Bytes) → all segment_ok (split sep (sep ∷ r)) ≡ false
unfolding split segment_ok
split_first sep r = ground arith

-- A label that passes has between 1 and 255 bytes, each a letter, a digit, a dash, an underscore or a
-- dot, so that it holds no path separator, and it does not begin with a dot.
pub valid_launch_agent_label-IsSafe :
    (s : Bytes)
    → valid_launch_agent_label s ≡ true
    → (0 < length s) × (length s ≤ 255) × All IsLabelByte s × ((r : Bytes) → s ≢ b'.' ∷ r)
unfolding valid_launch_agent_label
valid_launch_agent_label-IsSafe s h =
    let segments : all segment_ok (split b'.' s) ≡ true = ground arith in
    (
      ground arith,
      ground arith,
      join-IsLabelByte s (segments-IsLabelByte (split b'.' s) segments),
      λ r e. cc (rw e at segments, split_first b'.' r),
    )

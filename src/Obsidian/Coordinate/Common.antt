-- ===== src/Obsidian/Coordinate/Common.antt =====
-- Elements of paths that internal/tools/obsidian/path_coordinate.go shares and cleans.
use personal_mcp_gateway.Base.{
  ℕ, ◌+◌, ap₂, length, All-reverse, reverse, append-nil, sym, Bytes, bytes_eq, bytes_eq_iff, split,
  cons_head, false, List, [], ◌∷◌, ◌++◌, All, is_empty, ◌≡◌, inl, inr, refl, ap, ◌∙◌, arith,
  Bool-cases,
}
use mathlib.Core.List.{
  reverse_aux, reverse_aux-eq, reverse_aux-append, reverse_aux-reverse_aux-nil, reverse-reverse,
}
use personal_mcp_gateway.Fsx.Normalize.{dot, dot_dot, clean_step, clean_elements}
use personal_mcp_gateway.Fsx.Normalize.Contained.{IsName}
use personal_mcp_gateway.Obsidian.Coordinate.{common_count, drop_elements, ups}

split-ne-nil : (s : Bytes) → is_empty (split b'/' s) ≡ false
unfolding split
split-ne-nil [] = refl
split-ne-nil (c ∷ s) = ground (arith, split-ne-nil s)

cons_head-append :
    (c : ℕ) (l r : List Bytes) → is_empty l ≡ false → cons_head c (l ++ r) ≡ cons_head c l ++ r
cons_head-append c [] r h = cc
cons_head-append c (x ∷ l) r h = refl

-- A slash splits what is before it from what is after it.
pub split-append : (s t : Bytes) → split b'/' (s ++ b'/' ∷ t) ≡ split b'/' s ++ split b'/' t
unfolding split
split-append [] t = refl
split-append (c ∷ s) t =
    ground
      (arith, split-append s t, cons_head-append c (split b'/' s) (split b'/' t) (split-ne-nil s))

pub name_step : (x : Bytes) (kept : List Bytes) → IsName x → clean_step false x kept ≡ x ∷ kept
name_step [] kept h = cc (h.nonempty)
name_step (c ∷ x) kept h =
    ground (arith, bytes_eq_iff (c ∷ x) dot, bytes_eq_iff (c ∷ x) dot_dot, h.visible)

-- Names are kept.
pub clean_elements-names :
    (l r kept : List Bytes)
    → All IsName l
    → clean_elements false (l ++ r) kept ≡ clean_elements false r (reverse_aux l kept)
unfolding clean_elements
clean_elements-names [] r kept h = refl
clean_elements-names (x ∷ l) r kept h =
    ap (λ k. clean_elements false (l ++ r) k) (name_step x kept h.0)
    ∙ clean_elements-names l r (x ∷ kept) h.1

-- Names that follow the elements kept.
pub clean_elements-kept :
    (p l : List Bytes) → All IsName l → clean_elements false l (reverse p) ≡ p ++ l
unfolding clean_elements
clean_elements-kept p l h =
    ap (λ k. clean_elements false k (reverse p)) (sym (append-nil l))
    ∙ clean_elements-names l [] (reverse p) h
    ∙ reverse_aux-reverse_aux-nil l (reverse p)
    ∙ reverse_aux-eq (reverse p) l
    ∙ ap (λ k. k ++ l) (reverse-reverse p)

up_step : (x : Bytes) (kept : List Bytes) → IsName x → clean_step false dot_dot (x ∷ kept) ≡ kept
unfolding bytes_eq
up_step [] kept h = cc
up_step (c ∷ x) kept h = ground (arith, h.visible)

-- As many times up as there are names.
clean_elements-ups :
    (d r kept : List Bytes)
    → All IsName d
    → clean_elements false (ups d ++ r) (d ++ kept) ≡ clean_elements false r kept
unfolding clean_elements
clean_elements-ups [] r kept h = refl
clean_elements-ups (x ∷ d) r kept h =
    ap (λ k. clean_elements false (ups d ++ r) k) (up_step x (d ++ kept) h.0)
    ∙ clean_elements-ups d r kept h.1

ups-length : (d e : List Bytes) → length d ≡ length e → ups d ≡ ups e
ups-length [] [] h = refl
ups-length [] (y ∷ e) h = absurd (omega arith)
ups-length (x ∷ d) [] h = absurd (omega arith)
ups-length (x ∷ d) (y ∷ e) h = ap (λ l. dot_dot ∷ l) (ups-length d e (omega (arith, h)))

length-reverse_aux : (l r : List Bytes) → length (reverse_aux l r) ≡ length l + length r
length-reverse_aux [] r = omega arith
length-reverse_aux (x ∷ l) r = omega (arith, length-reverse_aux l (x ∷ r))

pub clean_elements-up :
    (p d l : List Bytes)
    → All IsName d
    → All IsName l
    → clean_elements false (ups d ++ l) (reverse (p ++ d)) ≡ p ++ l
clean_elements-up p d l h k =
    ap (λ e. clean_elements false (ups d ++ l) e)
      (reverse_aux-append p d [] ∙ reverse_aux-eq d (reverse p))
    ∙ ap (λ e. clean_elements false (e ++ l) (reverse d ++ reverse p))
        (ups-length d (reverse d) (omega (arith, length-reverse_aux d [])))
    ∙ clean_elements-ups (reverse d) l (reverse p) (All-reverse IsName d h)
    ∙ clean_elements-kept p l k

-- What two lists share at their front.
pub common_front :
    (a b : List Bytes)
    → (p : List Bytes) × (a ≡ p ++ drop_elements (common_count a b) a)
      × (b ≡ p ++ drop_elements (common_count a b) b)
unfolding common_count drop_elements
common_front [] b = ([], refl, refl)
common_front (x ∷ a) [] = ([], refl, refl)
common_front (x ∷ a) (y ∷ b) = elim (Bool-cases (bytes_eq x y)) [
  | inl e ↦
      let (p, left, right) = common_front a b in
      rw e (x ∷ p, ap (λ l. x ∷ l) left, ap₂ ◌∷◌ (sym ((bytes_eq_iff x y).0 e)) right)
  | inr n ↦ rw n ([], refl, refl)
]

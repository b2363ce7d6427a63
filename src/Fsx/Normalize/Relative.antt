-- ===== src/Fsx/Normalize/Relative.antt =====
-- When a path that `NormalizePath` of internal/fsx/fsx.go returns is relative.
use mathlib.Core.List.{reverse-append, reverse-reverse}
use personal_mcp_gateway.Base.{
  ℕ, zero, suc, Bytes, bytes_eq, true, false, not, ◌&&◌, ◌||◌, List, [], ◌∷◌, ◌++◌, reverse, map,
  All, length, is_empty, ◌≡◌, inl, inr, refl, sym, ap, ◌∙◌, append_assoc, arith, if_lem, Bool-cases,
}
use personal_mcp_gateway.Fsx.Normalize.{
  normal, leading_space, trailing_space, drop, trimmed, trim_by, trim_space, slashed, dot, join,
  rooted_join, starts_with, path_clean, path_join, slash_clean, is_abs_tool_path, combined, or_dot,
  checked, normalize_path,
}
use personal_mcp_gateway.Fsx.Normalize.Elements.{IsElement, path_clean_parts}
use personal_mcp_gateway.Fsx.Normalize.Contained.{checked_parts}

drop_suffix : (n : ℕ) (s : Bytes) → (p : Bytes) × (s ≡ p ++ drop n s)
unfolding drop
drop_suffix zero s = ([], refl)
drop_suffix (suc n) [] = ([], refl)
drop_suffix (suc n) (c ∷ r) = let (p, e) = drop_suffix n r in (c ∷ p, ap (λ t. c ∷ t) e)

abbrev IsSuffix : Bytes → Bytes → Type 0
IsSuffix t s = (p : Bytes) × (s ≡ p ++ t)

IsSuffix-trimmed :
    (s : Bytes) (again : ℕ → Bytes) (k : ℕ)
    → ((n : ℕ) → IsSuffix (again n) (drop n s))
    → IsSuffix (trimmed s again k) s
IsSuffix-trimmed s again zero h = ([], refl)
IsSuffix-trimmed s again (suc k) h =
    let (p, e) = drop_suffix (suc k) s in
    let (q, f) = h (suc k) in
    (p ++ q, e ∙ ap (λ t. p ++ t) f ∙ sym (append_assoc p q (again (suc k))))

IsSuffix-trim_by : (space : Bytes → ℕ) (n : ℕ) (s : Bytes) → IsSuffix (trim_by space n s) s
unfolding trim_by
IsSuffix-trim_by space zero s = ([], refl)
IsSuffix-trim_by space (suc n) s =
    IsSuffix-trimmed s (λ k. trim_by space n (drop k s)) (space s)
      (λ k. IsSuffix-trim_by space n (drop k s))

trim_by-none : (n : ℕ) (s : Bytes) → leading_space s ≡ 0 → trim_by leading_space n s ≡ s
unfolding trim_by
trim_by-none zero s h = refl
trim_by-none (suc n) s h = ap (trimmed s (λ k. trim_by leading_space n (drop k s))) h

starts_with-append : (c : ℕ) (s t : Bytes) → starts_with c s ≡ true → starts_with c (s ++ t) ≡ true
starts_with-append c [] t h = cc
starts_with-append c (x ∷ s) t h = h

-- Where nothing is trimmed in front, the first byte stays.
starts_with-trim_space :
    (c : ℕ) (s : Bytes)
    → leading_space s ≡ 0
    → starts_with c (trim_space s) ≡ true
    → starts_with c s ≡ true
unfolding trim_space
starts_with-trim_space c s none h =
    let front = trim_by-none (length s) s none in
    let (p, e) = IsSuffix-trim_by trailing_space (length s) (reverse s) in
    let v = trim_by trailing_space (length s) (reverse s) in
    let whole : s ≡ reverse v ++ reverse p =
      sym (reverse-reverse s) ∙ ap reverse e ∙ reverse-append p v in
    let h' : starts_with c (reverse v) ≡ true = rw front at h in
    rw whole (starts_with-append c (reverse v) (reverse p) h')

join_relative : (l : List Bytes) → All IsElement l → starts_with b'/' (rooted_join false l) ≡ false
unfolding join
join_relative [] h = refl
join_relative (x ∷ l) h = go x l h.0
  where
    go : (x : Bytes) (l : List Bytes) → IsElement x → starts_with b'/' (join (x ∷ l)) ≡ false
    go [] l e = cc e.nonempty
    go (c ∷ x) [] e = ground (arith, e.inner)
    go (c ∷ x) (y ∷ l) e = ground (arith, e.inner)

abbrev IsRelative : Bytes → Type 0
IsRelative s = starts_with b'/' s ≡ false

path_clean-IsRelative : (s : Bytes) → IsRelative s → IsRelative (path_clean s)
path_clean-IsRelative s h =
    let (l, joined, elements) = path_clean_parts s in rw (joined, h) (join_relative l elements)

slash_clean-IsRelative :
    (s : Bytes)
    → leading_space (map slashed s) ≡ 0
    → is_abs_tool_path s ≡ false
    → IsRelative (slash_clean s)
unfolding slash_clean is_abs_tool_path
slash_clean-IsRelative s none h =
    if_lem IsRelative (is_empty (trim_space (map slashed s))) (λ y. refl)
      (λ n.
        path_clean-IsRelative (trim_space (map slashed s))
          (elim (Bool-cases (starts_with b'/' (trim_space (map slashed s)))) [
            | inl y ↦ cc (starts_with-trim_space b'/' (map slashed s) none y, first s h)
            | inr n ↦ n
          ]))
  where
    first :
        (s : Bytes) → starts_with b'/' s || starts_with 92 s ≡ false → IsRelative (map slashed s)
    first [] h = refl
    first (c ∷ s) h = ground arith

append-IsRelative : (s t : Bytes) → is_empty s ≡ false → IsRelative s → IsRelative (s ++ t)
append-IsRelative [] t n h = cc n
append-IsRelative (c ∷ s) t n h = h

path_join-IsRelative : (a b : Bytes) → IsRelative a → IsRelative b → IsRelative (path_join a b)
unfolding path_join
path_join-IsRelative a b h k =
    if_lem IsRelative (is_empty a)
      (λ y. if_lem IsRelative (is_empty b) (λ z. refl) (λ z. path_clean-IsRelative b k))
      (λ n.
        if_lem IsRelative (is_empty b) (λ z. path_clean-IsRelative a h)
          (λ z. path_clean-IsRelative (a ++ b'/' ∷ b) (append-IsRelative a (b'/' ∷ b) n h)))

combined-IsRelative : (a b : Bytes) → IsRelative a → IsRelative b → IsRelative (combined a b)
combined-IsRelative a b h k =
    if_lem IsRelative (not (bytes_eq a dot) && not (bytes_eq b dot))
      (λ y. path_join-IsRelative a b h k)
      (λ n. if_lem IsRelative (bytes_eq b dot) (λ z. h) (λ z. k))

-- A path that is returned does not begin with a slash, so it is relative to the vault, as long as
-- neither the base nor the input begins with white space.
pub normalize_path_is_relative :
    (base input r : Bytes)
    → leading_space (map slashed base) ≡ 0
    → leading_space (map slashed input) ≡ 0
    → normalize_path base input ≡ normal r
    → starts_with b'/' r ≡ false
normalize_path_is_relative base input r b i h =
    let parts = normalize_parts base input r h in
    let base' : IsRelative (or_dot (slash_clean base)) =
      if_lem IsRelative (is_empty (slash_clean base)) (λ y. refl)
        (λ n. slash_clean-IsRelative base b parts.0) in
    let clean = path_clean-IsRelative (combined (or_dot (slash_clean base)) (slash_clean input)) (
      combined-IsRelative (or_dot (slash_clean base)) (slash_clean input) base'
        (slash_clean-IsRelative input i parts.1)) in
    elim (checked_parts (path_clean (combined (or_dot (slash_clean base)) (slash_clean input))) r
      parts.2) [ inl is ↦ rw is refl | inr (is, short, few, pass) ↦ rw is clean ]
  where
    normalize_parts :
        (base input r : Bytes)
        → normalize_path base input ≡ normal r
        → (is_abs_tool_path base ≡ false)
          × (is_abs_tool_path input ≡ false)
          × (checked (path_clean (combined (or_dot (slash_clean base)) (slash_clean input)))
              ≡ normal r)
    normalize_parts base input r h = unfold normalize_path in ground arith

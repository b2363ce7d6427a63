-- ===== src/Fsx/Normalize/Elements.antt =====
-- The elements of a path that internal/fsx/fsx.go has cleaned, and what they are joined from.
use personal_mcp_gateway.Base.{
  if_lem, All-reverse, ℕ, Bytes, bytes_eq, split, cons_head, Bool, true, false, ◌||◌, List, [], ◌∷◌,
  ◌++◌, All, is_empty, ◌==◌, ==_iff, ◌≡◌, ◌≢◌, inl, inr, refl, ap, ◌∙◌, arith, Bool-cases,
}
use personal_mcp_gateway.Fsx.Normalize.{
  dot, dot_dot, go_up, clean_step, clean_elements, join, rooted_join, starts_with, path_clean,
}

-- A byte that separates no elements.
abbrev pub IsInner : ℕ → Type 0
IsInner c = c ≢ b'/'

-- An element that `path.Clean` keeps.
pub record IsElement (x : Bytes) : Type 0 where
  pub nonempty : is_empty x ≡ false
  pub no_dot : bytes_eq x dot ≡ false
  pub inner : All IsInner x

cons_head-IsInner :
    (c : ℕ) (l : List Bytes) → IsInner c → All (All IsInner) l → All (All IsInner) (cons_head c l)
cons_head-IsInner c [] p h = ((p, tt), tt)
cons_head-IsInner c (x ∷ l) p h = ((p, h.0), h.1)

pub split-IsInner : (s : Bytes) → All (All IsInner) (split b'/' s)
unfolding split
split-IsInner [] = (tt, tt)
split-IsInner (c ∷ r) = elim (Bool-cases (c == b'/')) [
  | inl y ↦ rw y (tt, split-IsInner r)
  | inr n ↦
      rw n (cons_head-IsInner c (split b'/' r) (λ e. cc ((==_iff c b'/').1 e, n)) (split-IsInner r))
]

pub dot_dot-IsElement : IsElement dot_dot
unfolding bytes_eq
dot_dot-IsElement = record {
  nonempty = refl;
  no_dot = refl;
  inner = ((λ e. omega (arith, e)), ((λ e. omega (arith, e)), tt));
}

go_up-IsElement :
    (rooted : Bool) (kept : List Bytes) → All IsElement kept → All IsElement (go_up rooted kept)
go_up-IsElement true [] h = tt
go_up-IsElement false [] h = (dot_dot-IsElement, tt)
go_up-IsElement true (x ∷ kept) h =
    if_lem (All IsElement) (bytes_eq x dot_dot) (λ y. (dot_dot-IsElement, h)) (λ n. h.1)
go_up-IsElement false (x ∷ kept) h =
    if_lem (All IsElement) (bytes_eq x dot_dot) (λ y. (dot_dot-IsElement, h)) (λ n. h.1)

clean_step-IsElement :
    (rooted : Bool) (x : Bytes) (kept : List Bytes)
    → All IsInner x
    → All IsElement kept
    → All IsElement (clean_step rooted x kept)
clean_step-IsElement rooted x kept p h =
    if_lem (All IsElement) (is_empty x || bytes_eq x dot) (λ y. h)
      (λ n.
        if_lem (All IsElement) (bytes_eq x dot_dot) (λ y. go_up-IsElement rooted kept h)
          (λ m. (record { nonempty = ground arith; no_dot = ground arith; inner = p }, h)))

pub clean_elements-IsElement :
    (rooted : Bool) (l kept : List Bytes)
    → All (All IsInner) l
    → All IsElement kept
    → All IsElement (clean_elements rooted l kept)
unfolding clean_elements
clean_elements-IsElement rooted [] kept p h = All-reverse IsElement kept h
clean_elements-IsElement rooted (x ∷ l) kept p h =
    clean_elements-IsElement rooted l (clean_step rooted x kept) p.1
      (clean_step-IsElement rooted x kept p.0 h)

-- What `path.Clean` returns, as the elements that it joins.
pub path_clean_parts :
    (s : Bytes)
    → (l : List Bytes) × (path_clean s ≡ rooted_join (starts_with b'/' s) l) × All IsElement l
unfolding path_clean
path_clean_parts s = (
  clean_elements (starts_with b'/' s) (split b'/' s) [],
  refl,
  clean_elements-IsElement (starts_with b'/' s) (split b'/' s) [] (split-IsInner s) tt,
)

split_one : (x : Bytes) → All IsInner x → split b'/' x ≡ x ∷ []
unfolding split
split_one [] h = refl
split_one (c ∷ x) h = ground (arith, split_one x h.1, h.0)

split_first : (x t : Bytes) → All IsInner x → split b'/' (x ++ b'/' ∷ t) ≡ x ∷ split b'/' t
unfolding split
split_first [] t h = refl
split_first (c ∷ x) t h = ground (arith, split_first x t h.1, h.0)

-- Joined elements are split where they were joined.
pub split-join :
    (x : Bytes) (l : List Bytes) → All IsElement (x ∷ l) → split b'/' (join (x ∷ l)) ≡ x ∷ l
unfolding join
split-join x [] h = split_one x h.0.inner
split-join x (y ∷ l) h =
    split_first x (join (y ∷ l)) h.0.inner ∙ ap (λ r. x ∷ r) (split-join y l h.1)

pub split-rooted : (t : Bytes) → split b'/' (b'/' ∷ t) ≡ [] ∷ split b'/' t
unfolding split
split-rooted t = refl

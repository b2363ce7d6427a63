-- ===== src/Obsidian/Coordinate/Along.antt =====
-- Joining a base and a path, for internal/tools/obsidian/path_coordinate.go.
use personal_mcp_gateway.Base.{
  ℕ, Bytes, bytes_eq, bytes_eq_iff, split, false, List, [], ◌∷◌, ◌++◌, reverse, All, is_empty, ◌≡◌,
  inl, inr, refl, ap, ◌∙◌, arith, Bool-cases,
}
use personal_mcp_gateway.Fsx.Normalize.{
  dot, clean_elements, join, rooted_join, starts_with, path_clean, path_join,
}
use personal_mcp_gateway.Fsx.Normalize.Elements.{IsElement, dot_dot-IsElement, split-join}
use personal_mcp_gateway.Fsx.Normalize.Contained.{IsName}
use personal_mcp_gateway.Obsidian.Coordinate.{ups}
use personal_mcp_gateway.Obsidian.Coordinate.Common.{split-append, clean_elements-names}

name-IsElement : (x : Bytes) → IsName x → IsElement x
name-IsElement x h = record {
  nonempty = h.nonempty;
  no_dot = elim (Bool-cases (bytes_eq x dot)) [
    | inl y ↦ cc (ap (starts_with b'.') ((bytes_eq_iff x dot).0 y), h.visible)
    | inr n ↦ n
  ];
  inner = h.inner;
}

pub names-IsElement : (l : List Bytes) → All IsName l → All IsElement l
names-IsElement [] h = tt
names-IsElement (x ∷ l) h = (name-IsElement x h.0, names-IsElement l h.1)

pub All-append : (l r : List Bytes) → All IsElement l → All IsElement r → All IsElement (l ++ r)
All-append [] r h k = k
All-append (x ∷ l) r h k = (h.0, All-append l r h.1 k)

pub ups-IsElement : (l : List Bytes) → All IsElement (ups l)
ups-IsElement [] = tt
ups-IsElement (x ∷ l) = (dot_dot-IsElement, ups-IsElement l)

pub All-parts : (l r : List Bytes) → All IsName (l ++ r) → All IsName l × All IsName r
All-parts [] r h = (tt, h)
All-parts (x ∷ l) r h = let rest = All-parts l r h.1 in ((h.0, rest.0), rest.1)

-- A joined name begins as its first name does.
pub join_head :
    (c : ℕ) (x : Bytes) (l : List Bytes)
    → is_empty x ≡ false
    → starts_with c (join (x ∷ l)) ≡ starts_with c x
unfolding join
join_head c [] l h = cc
join_head c (y ∷ x) [] h = refl
join_head c (y ∷ x) (z ∷ l) h = refl

pub starts_with-prefix :
    (c : ℕ) (s t : Bytes) → is_empty s ≡ false → starts_with c (s ++ t) ≡ starts_with c s
starts_with-prefix c [] t h = cc
starts_with-prefix c (x ∷ s) t h = refl

pub join_full : (x : Bytes) (l : List Bytes) → is_empty x ≡ false → is_empty (join (x ∷ l)) ≡ false
unfolding join
join_full [] l h = cc
join_full (y ∷ x) [] h = refl
join_full (y ∷ x) (z ∷ l) h = refl

pub no_slash : (x : Bytes) → IsName x → starts_with b'/' x ≡ false
no_slash [] h = refl
no_slash (c ∷ x) h = ground (arith, h.inner.0)

pub clean_relative :
    (s : Bytes)
    → starts_with b'/' s ≡ false
    → path_clean s ≡ rooted_join false (clean_elements false (split b'/' s) [])
unfolding path_clean
clean_relative s h = ap (λ r. rooted_join r (clean_elements r (split b'/' s) [])) h

join_both :
    (a b : Bytes)
    → is_empty a ≡ false
    → is_empty b ≡ false
    → path_join a b ≡ path_clean (a ++ b'/' ∷ b)
unfolding path_join
join_both a b h k = ground (arith, h, k)

dot_first :
    (t : Bytes)
    → rooted_join false (clean_elements false (split b'/' (dot ++ b'/' ∷ t)) [])
      ≡ rooted_join false (clean_elements false (split b'/' t) [])
unfolding split clean_elements bytes_eq
dot_first t = refl

-- The way from a base along the elements of a path.
pub path_join-names :
    (b : List Bytes) (t : Bytes)
    → All IsName b
    → is_empty t ≡ false
    → path_join (rooted_join false b) t
      ≡ rooted_join false (clean_elements false (split b'/' t) (reverse b))
path_join-names [] t h full =
    join_both dot t refl full ∙ clean_relative (dot ++ b'/' ∷ t) refl ∙ dot_first t
path_join-names (x ∷ b) t h full =
    let base = join (x ∷ b) in
    let begun = join_full x b h.0.nonempty in
    join_both base t begun full
    ∙ clean_relative (base ++ b'/' ∷ t) (
        starts_with-prefix b'/' base (b'/' ∷ t) begun
        ∙ join_head b'/' x b h.0.nonempty
        ∙ no_slash x h.0)
    ∙ ap (λ l. rooted_join false (clean_elements false l []))
        (split-append base t
          ∙ ap (λ l. l ++ split b'/' t) (split-join x b (names-IsElement (x ∷ b) h)))
    ∙ ap (rooted_join false) (clean_elements-names (x ∷ b) (split b'/' t) [] h)

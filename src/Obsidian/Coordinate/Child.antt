-- ===== src/Obsidian/Coordinate/Child.antt =====
-- Entries of a projected directory, of internal/tools/obsidian/path_coordinate.go.
use mathlib.Core.List.{reverse-reverse, reverse-cons}
use personal_mcp_gateway.Base.{
  Bytes, bytes_eq, bytes_eq_iff, split, false, List, [], ◌∷◌, ◌++◌, reverse, All, ◌≡◌, inl, inr,
  refl, sym, ap, subst, ◌∙◌, arith, Bool-cases, if_lem, All-reverse,
}
use personal_mcp_gateway.Fsx.Normalize.{
  dot, clean_step, clean_elements, join, rooted_join, path_clean, path_join,
}
use personal_mcp_gateway.Fsx.Normalize.Elements.{
  IsElement, split-join, clean_elements-IsElement, split-IsInner,
}
use personal_mcp_gateway.Fsx.Normalize.Contained.{IsName}
use personal_mcp_gateway.Obsidian.Coordinate.{normalized_path_coordinate, project, project_child}
use personal_mcp_gateway.Obsidian.Coordinate.Common.{split-append, name_step, clean_elements-kept}
use personal_mcp_gateway.Obsidian.Coordinate.Along.{
  names-IsElement, path_join-names, join_full, join_head, no_slash, clean_relative,
}
use personal_mcp_gateway.Obsidian.Coordinate.Back.{Leads, path_join-project}

elements-ne-dot :
    (x : Bytes) (l : List Bytes) → All IsElement (x ∷ l) → bytes_eq (join (x ∷ l)) dot ≡ false
unfolding split
elements-ne-dot x l h = elim (Bool-cases (bytes_eq (join (x ∷ l)) dot)) [
  | inl y ↦
      only_dot (sym (split-join x l h) ∙ ap (split b'/') ((bytes_eq_iff (join (x ∷ l)) dot).0 y))
        h.0
  | inr n ↦ n
]
  where
    only_dot : x ∷ l ≡ dot ∷ [] → IsElement x → bytes_eq (join (x ∷ l)) dot ≡ false
    only_dot e k = ground (arith, e, k.no_dot, bytes_eq_iff x dot)

-- Elements are read off the path that joins them.
joined_inj :
    (l r : List Bytes)
    → All IsElement l
    → All IsElement r
    → rooted_join false l ≡ rooted_join false r
    → l ≡ r
joined_inj [] [] h k e = refl
joined_inj [] (y ∷ r) h k e =
    cc ((bytes_eq_iff (join (y ∷ r)) dot).1 (sym e), elements-ne-dot y r k)
joined_inj (x ∷ l) [] h k e = cc ((bytes_eq_iff (join (x ∷ l)) dot).1 e, elements-ne-dot x l h)
joined_inj (x ∷ l) (y ∷ r) h k e = sym (split-join x l h) ∙ ap (split b'/') e ∙ split-join y r k

clean_elements-last :
    (l kept : List Bytes) (x : Bytes)
    → IsName x
    → clean_elements false (l ++ x ∷ []) kept ≡ clean_elements false l kept ++ x ∷ []
unfolding clean_elements
clean_elements-last [] kept x h = ap reverse (name_step x kept h) ∙ reverse-cons x kept
clean_elements-last (y ∷ l) kept x h = clean_elements-last l (clean_step false y kept) x h

name_split : (x : Bytes) → IsName x → split b'/' x ≡ x ∷ []
unfolding join
name_split x h = split-join x [] (names-IsElement (x ∷ []) (h, tt))

join_none :
    (x : Bytes) (b : List Bytes)
    → All IsName (x ∷ b)
    → path_join (join (x ∷ b)) [] ≡ rooted_join false (x ∷ b)
unfolding path_join
join_none x b h =
    let base = join (x ∷ b) in
    let begun = join_full x b h.0.nonempty in
    rw begun (
      clean_relative base (join_head b'/' x b h.0.nonempty ∙ no_slash x h.0)
      ∙ ap (λ l. rooted_join false (clean_elements false l []))
          (split-join x b (names-IsElement (x ∷ b) h))
      ∙ ap (rooted_join false) (clean_elements-kept [] (x ∷ b) h))

-- The way from a base along any path.
path_join-any :
    (b : List Bytes) (u : Bytes)
    → All IsName b
    → path_join (rooted_join false b) u
      ≡ rooted_join false (clean_elements false (split b'/' u) (reverse b))
unfolding path_join path_clean split clean_elements bytes_eq
path_join-any [] [] h = refl
path_join-any (x ∷ b) [] h =
    join_none x b h ∙ ap (rooted_join false) (sym (reverse-reverse (x ∷ b)))
path_join-any b (c ∷ u) h = path_join-names b (c ∷ u) h refl

-- What is kept of a base and a path that leads to these names.
kept_names :
    (b t : List Bytes) (u : Bytes)
    → All IsName b
    → All IsName t
    → Leads b t u
    → clean_elements false (split b'/' u) (reverse b) ≡ t
kept_names b t u hb ht h =
    joined_inj (clean_elements false (split b'/' u) (reverse b)) t
      (clean_elements-IsElement false (split b'/' u) (reverse b) (split-IsInner u)
        (All-reverse IsElement b (names-IsElement b hb)))
      (names-IsElement t ht) (sym (path_join-any b u hb) ∙ h)

-- The empty elements and the dots change nothing.
stay :
    (b : List Bytes)
    → All IsName b
    → clean_elements false (split b'/' dot) (reverse b) ≡ clean_elements false [] (reverse b)
unfolding split clean_elements bytes_eq
stay b h = refl

-- A name after a path.
Leads-child :
    (b t : List Bytes) (u x : Bytes)
    → All IsName b
    → All IsName t
    → IsName x
    → Leads b t u
    → Leads b (t ++ x ∷ []) (project_child u x)
unfolding project_child
Leads-child b t u x hb ht hx h =
    if_lem (Leads b (t ++ x ∷ [])) (bytes_eq u dot) (λ y. alone ((bytes_eq_iff u dot).0 y))
      (λ n.
        path_join-any b (u ++ b'/' ∷ x) hb
        ∙ ap (λ l. rooted_join false (clean_elements false l (reverse b)))
            (split-append u x ∙ ap (λ l. split b'/' u ++ l) (name_split x hx))
        ∙ ap (rooted_join false) (
            clean_elements-last (split b'/' u) (reverse b) x hx
            ∙ ap (λ l. l ++ x ∷ []) (kept_names b t u hb ht h)))
  where
    alone : u ≡ dot → Leads b (t ++ x ∷ []) x
    alone e =
        path_join-any b x hb
        ∙ ap (λ l. rooted_join false (clean_elements false l (reverse b))) (name_split x hx)
        ∙ ap (rooted_join false) (
            clean_elements-last [] (reverse b) x hx
            ∙ ap (λ l. l ++ x ∷ [])
                (sym (stay b hb) ∙ kept_names b t dot hb ht (subst (Leads b t) e h)))

-- An entry of a listed directory: the projected path of the directory with the name of the entry, joined to
-- the base as `NormalizePath` joins it, is the path of that entry in the vault, whatever the base, the
-- directory and the name, each of visible names.
pub path_join-project_child :
    (b t : List Bytes) (x : Bytes)
    → All IsName b
    → All IsName t
    → IsName x
    → path_join (rooted_join false b) (
        project_child
          (project (normalized_path_coordinate (rooted_join false b)) (rooted_join false t))
          x)
      ≡ rooted_join false (t ++ x ∷ [])
path_join-project_child b t x hb ht hx = Leads-child b t _ x hb ht hx (path_join-project b t hb ht)

-- ===== src/Obsidian/Coordinate/Back.antt =====
-- A path that internal/tools/obsidian/path_coordinate.go projects leads back to the path of the vault.
use mathlib.Core.List.{reverse-reverse}
use personal_mcp_gateway.Base.{
  append_assoc, Bytes, bytes_eq, bytes_eq_iff, split, true, false, List, [], ◌∷◌, ◌++◌, reverse,
  All, length, is_empty, ◌==◌, ==_iff, ◌≡◌, inl, inr, refl, sym, ap, ap₂, subst, ◌∙◌, Bool-cases,
  if_lem, if◌then◌else◌, and_parts,
}
use personal_mcp_gateway.Fsx.Normalize.{
  drop, dot, clean_elements, join, rooted_join, starts_with, path_join,
}
use personal_mcp_gateway.Fsx.Normalize.Elements.{IsElement, split-join}
use personal_mcp_gateway.Fsx.Normalize.Contained.{IsName}
use personal_mcp_gateway.Fsx.Protocol.Fields.{has_prefix}
use personal_mcp_gateway.Obsidian.Coordinate.{
  normalized_path_coordinate, common_count, drop_elements, ups, around, project,
}
use personal_mcp_gateway.Obsidian.Coordinate.Common.{
  split-append, clean_elements-kept, clean_elements-up, common_front,
}
use personal_mcp_gateway.Obsidian.Coordinate.Along.{
  names-IsElement, All-append, ups-IsElement, All-parts, join_head, starts_with-prefix, join_full,
  path_join-names,
}

-- What `t` names from the base.
abbrev pub Leads : List Bytes → List Bytes → Bytes → Type 0
Leads b names t = path_join (rooted_join false b) t ≡ rooted_join false names

Leads-dot : (b : List Bytes) → All IsName b → Leads b b dot
unfolding split clean_elements bytes_eq
Leads-dot b h = path_join-names b dot h refl ∙ ap (rooted_join false) (reverse-reverse b)

-- A path of names.
pub Leads-down :
    (b : List Bytes) (t : Bytes)
    → All IsName b
    → All IsName (split b'/' t)
    → Leads b (b ++ split b'/' t) t
unfolding split
Leads-down b [] h k = absurd (cc (k.0.nonempty))
Leads-down b (c ∷ t) h k =
    path_join-names b (c ∷ t) h refl
    ∙ ap (rooted_join false) (clean_elements-kept b (split b'/' (c ∷ t)) k)

join_parts :
    (l : List Bytes)
    → is_empty l ≡ false
    → All IsElement l
    → (is_empty (join l) ≡ false) × (split b'/' (join l) ≡ l)
join_parts [] h k = cc
join_parts (x ∷ l) h k = (join_full x l k.0.nonempty, split-join x l k)

-- A path that goes up from the base and down again.
Leads-around : (b t : List Bytes) → All IsName b → All IsName t → Leads b t (around b t)
Leads-around b t hb ht =
    let d = drop_elements (common_count b t) b in
    let l = drop_elements (common_count b t) t in
    let (p, left, right) = common_front b t in
    let (_, hd) = All-parts p d (subst (All IsName) left hb) in
    let (_, hl) = All-parts p l (subst (All IsName) right ht) in
    if_lem (Leads b t) (is_empty (ups d ++ l))
      (λ y. Leads-dot b hb ∙ ap (rooted_join false) (left ∙ none_left p d l y ∙ sym right))
      (λ n.
        let (full, parts) =
          join_parts (ups d ++ l) n
            (All-append (ups d) l (ups-IsElement d) (names-IsElement l hl)) in
        path_join-names b (join (ups d ++ l)) hb full
        ∙ ap₂ (λ e k. rooted_join false (clean_elements false e (reverse k))) parts left
        ∙ ap (rooted_join false) (clean_elements-up p d l hd hl ∙ sym right))
  where
    none_left : (p d l : List Bytes) → is_empty (ups d ++ l) ≡ true → p ++ d ≡ p ++ l
    none_left p [] [] y = refl
    none_left p [] (x ∷ l) y = cc
    none_left p (x ∷ d) l y = cc

joined-ne-dot : (x : Bytes) (l : List Bytes) → IsName x → bytes_eq (join (x ∷ l)) dot ≡ false
joined-ne-dot x l h = elim (Bool-cases (bytes_eq (join (x ∷ l)) dot)) [
  | inl y ↦ cc (
    ap (starts_with b'.') ((bytes_eq_iff (join (x ∷ l)) dot).0 y),
    join_head b'.' x l h.nonempty,
    h.visible,
  )
  | inr n ↦ n
]

-- The elements of a path of names.
elements_of :
    (l : List Bytes)
    → All IsName l
    → (if bytes_eq (rooted_join false l) dot then [] else split b'/' (rooted_join false l)) ≡ l
unfolding bytes_eq
elements_of [] h = refl
elements_of (x ∷ l) h = rw (joined-ne-dot x l h.0) (split-join x l (names-IsElement (x ∷ l) h))

after_prefix : (s p : Bytes) → has_prefix s p ≡ true → s ≡ p ++ drop (length p) s
unfolding drop
after_prefix s [] h = refl
after_prefix [] (c ∷ p) h = cc
after_prefix (a ∷ s) (c ∷ p) h =
    let both = and_parts (a == c) (has_prefix s p) h in
    ap₂ ◌∷◌ ((==_iff a c).0 both.0) (after_prefix s p both.1)

-- A path under the base.
Leads-under :
    (x : Bytes) (b t : List Bytes) (r : Bytes)
    → All IsName (x ∷ b)
    → All IsName t
    → rooted_join false t ≡ (join (x ∷ b) ++ b'/' ∷ []) ++ r
    → Leads (x ∷ b) t r
Leads-under x b [] r hb ht e =
    let base = join (x ∷ b) in
    absurd (
      cc (
        ap (starts_with b'.') e,
        ap (starts_with b'.') (append_assoc base (b'/' ∷ []) r),
        starts_with-prefix b'.' base (b'/' ∷ r) (join_full x b hb.0.nonempty),
        join_head b'.' x b hb.0.nonempty,
        hb.0.visible,
      ))
Leads-under x b (y ∷ t) r hb ht e =
    let base = join (x ∷ b) in
    let same =
      sym (split-join y t (names-IsElement (y ∷ t) ht))
      ∙ ap (split b'/') (e ∙ append_assoc base (b'/' ∷ []) r)
      ∙ split-append base r
      ∙ ap (λ l. l ++ split b'/' r) (split-join x b (names-IsElement (x ∷ b) hb)) in
    let (_, names) = All-parts (x ∷ b) (split b'/' r) (subst (All IsName) same ht) in
    Leads-down (x ∷ b) r hb names ∙ ap (rooted_join false) (sym same)

Leads-canonical : (t : List Bytes) → All IsName t → Leads [] t (rooted_join false t)
Leads-canonical [] h = Leads-dot [] h
Leads-canonical (y ∷ t) h =
    let parts = split-join y t (names-IsElement (y ∷ t) h) in
    Leads-down [] (join (y ∷ t)) tt (subst (All IsName) (sym parts) h)
    ∙ ap (rooted_join false) parts

-- Whatever the base and the path of the vault, each `.` or visible names joined by slashes: the path that
-- `project` returns, joined to the base as `NormalizePath` joins it, is the path of the vault again.
pub path_join-project :
    (b t : List Bytes)
    → All IsName b
    → All IsName t
    → path_join
        (rooted_join false b)
        (project (normalized_path_coordinate (rooted_join false b)) (rooted_join false t))
      ≡ rooted_join false t
unfolding project normalized_path_coordinate bytes_eq
path_join-project [] t hb ht = Leads-canonical t ht
path_join-project (x ∷ b) t hb ht =
    let base = join (x ∷ b) in
    let canonical = rooted_join false t in
    rw (joined-ne-dot x b hb.0) (
      if_lem (Leads (x ∷ b) t) (bytes_eq canonical base)
        (λ y. Leads-dot (x ∷ b) hb ∙ sym ((bytes_eq_iff canonical base).0 y))
        (λ n.
          if_lem (Leads (x ∷ b) t) (has_prefix canonical (base ++ b'/' ∷ []))
            (λ y. Leads-under x b t _ hb ht (after_prefix canonical (base ++ b'/' ∷ []) y))
            (λ m.
              subst (Leads (x ∷ b) t)
                (sym (ap₂ around (split-join x b (names-IsElement (x ∷ b) hb)) (elements_of t ht)))
                (Leads-around (x ∷ b) t hb ht))))

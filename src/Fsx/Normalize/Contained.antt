-- ===== src/Fsx/Normalize/Contained.antt =====
-- A path that `NormalizePath` of internal/fsx/fsx.go returns leads nowhere out of the vault and to no
-- hidden entry.
use personal_mcp_gateway.Base.{
  ◌≤◌, Bytes, split, Bool, true, false, List, [], ◌∷◌, All, all, length, is_empty, ◌≡◌, ◌⊎◌, inl,
  inr, ap, ◌∙◌, arith, and_parts,
}
use personal_mcp_gateway.Fsx.Normalize.{
  normal, path_max_bytes, path_max_segments, dot, join, rooted_join, starts_with, path_clean,
  slash_clean, segment_passes, combined, or_dot, checked, normalize_path,
}
use personal_mcp_gateway.Fsx.Normalize.Elements.{
  IsInner, IsElement, path_clean_parts, split-join, split-rooted,
}

-- A name of an entry of a directory that is not hidden; so it is neither `.` nor `..`.
pub record IsName (x : Bytes) : Type 0 where
  pub nonempty : is_empty x ≡ false
  pub visible : starts_with b'.' x ≡ false
  pub inner : All IsInner x

-- A path of visible names, after a slash if it is rooted.
pub record IsWithin (r : Bytes) : Type 0 where
  pub rooted : Bool
  pub names : List Bytes
  pub joined : r ≡ rooted_join rooted names
  pub visible : All IsName names
  pub few : length names ≤ path_max_segments
  pub short : length r ≤ path_max_bytes

names_of : (l : List Bytes) → All IsElement l → all segment_passes l ≡ true → All IsName l
names_of [] h p = tt
names_of (x ∷ l) h p =
    let both = and_parts (segment_passes x) (all segment_passes l) p in
    (
      record {
        nonempty = h.0.nonempty;
        visible = ground (arith, h.0.nonempty, h.0.no_dot);
        inner = h.0.inner;
      },
      names_of l h.1 both.1,
    )

-- The segments of a cleaned path are its elements, after an empty one if it is rooted.
within :
    (rooted : Bool) (l : List Bytes)
    → All IsElement l
    → all segment_passes (split b'/' (rooted_join rooted l)) ≡ true
    → length (split b'/' (rooted_join rooted l)) ≤ path_max_segments
    → All IsName l × (length l ≤ path_max_segments)
within rooted [] h p few = (tt, omega arith)
within false (x ∷ l) h p few =
    let same = split-join x l h in (names_of (x ∷ l) h (rw same at p), rw same at few)
within true (x ∷ l) h p few =
    let same = split-rooted (join (x ∷ l)) ∙ ap (λ r. [] ∷ r) (split-join x l h) in
    (names_of (x ∷ l) h (rw same at p), omega (arith, rw same at few))

pub checked_parts :
    (clean r : Bytes)
    → checked clean ≡ normal r
    → (r ≡ dot)
      ⊎ ((r ≡ clean)
          × (length clean ≤ path_max_bytes)
          × (length (split b'/' clean) ≤ path_max_segments)
          × (all segment_passes (split b'/' clean) ≡ true))
unfolding checked
checked_parts clean r h = ground arith

checked-IsWithin : (s r : Bytes) → checked (path_clean s) ≡ normal r → (r ≡ dot) ⊎ IsWithin r
checked-IsWithin s r h = elim (checked_parts (path_clean s) r h) [
  | inl is ↦ inl is
  | inr (is, short, few, pass) ↦
      let (l, joined, elements) = path_clean_parts s in
      let (names, fewer) =
        within (starts_with b'/' s) l elements (rw joined at pass) (rw joined at few) in
      inr (record {
        rooted = starts_with b'/' s;
        names = l;
        joined = is ∙ joined;
        visible = names;
        few = fewer;
        short = rw is short;
      })
]

-- Whatever the base and the input, a path that is returned is `.` or at most 128 names joined by
-- slashes, in at most 4096 bytes, each of them nonempty, without a slash and without a dot in front: no
-- `..` is left and no hidden name. Only a slash may precede them.
pub normalize_path-IsWithin :
    (base input r : Bytes) → normalize_path base input ≡ normal r → (r ≡ dot) ⊎ IsWithin r
unfolding normalize_path
normalize_path-IsWithin base input r h =
    checked-IsWithin (combined (or_dot (slash_clean base)) (slash_clean input)) r (ground arith)

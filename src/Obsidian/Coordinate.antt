-- ===== src/Obsidian/Coordinate.antt =====
-- internal/tools/obsidian/path_coordinate.go: paths of the vault as a request sees them from its base.
pub mod Common
pub mod Along
pub mod Back
pub mod Child
use personal_mcp_gateway.Base.{
  ℕ, zero, suc, Bytes, bytes_eq, split, ◌⊎◌, inl, inr, List, [], ◌∷◌, ◌++◌, length, is_empty,
  if◌then◌else◌,
}
use personal_mcp_gateway.Fsx.Normalize.{
  Normalized, normal, denied, too_large, trim_space, drop, dot, dot_dot, join, normalize_path,
}
use personal_mcp_gateway.Fsx.Protocol.Fields.{has_prefix}

pub record PathCoordinate : Type 0 where
  pub base : Bytes
  pub segments : List Bytes

unfoldable pub normalized_path_coordinate : Bytes → PathCoordinate
normalized_path_coordinate normalized = record {
  base = normalized;
  segments = if bytes_eq normalized dot then [] else split b'/' normalized;
}

abbrev of_normalized : Normalized → Normalized ⊎ PathCoordinate
of_normalized (normal p) = inr (normalized_path_coordinate p)
of_normalized denied = inl denied
of_normalized too_large = inl too_large

-- The left is the error of `NormalizePath`.
unfoldable pub new_path_coordinate : Bytes → Normalized ⊎ PathCoordinate
new_path_coordinate base =
    of_normalized (normalize_path [] (if is_empty (trim_space base) then dot else base))

-- How many elements two lists share at their front, and the list without so many.
unfoldable pub common_count : List Bytes → List Bytes → ℕ
common_count (x ∷ a) (y ∷ b) = let rest = suc (common_count a b) in if bytes_eq x y then rest else 0
common_count _ _ = 0

unfoldable pub drop_elements : ℕ → List Bytes → List Bytes
drop_elements zero l = l
drop_elements (suc n) [] = []
drop_elements (suc n) (x ∷ l) = drop_elements n l

abbrev pub ups : List Bytes → List Bytes
ups [] = []
ups (_ ∷ l) = dot_dot ∷ ups l

-- What `project` returns for a path that is not under the base.
abbrev pub around : List Bytes → List Bytes → Bytes
around segments target =
    let common = common_count segments target in
    let parts = ups (drop_elements common segments) ++ drop_elements common target in
    if is_empty parts then dot else join parts

unfoldable pub project : PathCoordinate → Bytes → Bytes
project c canonical =
    if bytes_eq c.base dot
    then canonical
    else if bytes_eq canonical c.base
    then dot
    else if has_prefix canonical (c.base ++ b'/' ∷ [])
    then drop (length (c.base ++ b'/' ∷ [])) canonical
    else around c.segments (if bytes_eq canonical dot then [] else split b'/' canonical)

unfoldable pub project_child : Bytes → Bytes → Bytes
project_child parent name = if bytes_eq parent dot then name else parent ++ b'/' ∷ name

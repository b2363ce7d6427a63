-- ===== src/Fsx/PathTests.antt =====
-- Paths that `NormalizePath` of internal/fsx/fsx.go takes and refuses.
use personal_mcp_gateway.Base.{bytes_eq, codes, split, false, [], ◌≡◌, ◌⊎◌, refl}
use personal_mcp_gateway.Fsx.Normalize.{
  Normalized, normal, leading_space, trailing_space, drop, trim_by, trim_space, dot, starts_with,
  clean_elements, join, path_clean, path_join, slash_clean, is_abs_tool_path, checked,
  normalize_path,
}
use personal_mcp_gateway.Fsx.Normalize.Contained.{IsWithin, normalize_path-IsWithin}
use personal_mcp_gateway.Fsx.Normalize.Relative.{normalize_path_is_relative}

-- To unfold `paths` is to unfold the program.
paths : Unit {0}
unfolding bytes_eq split leading_space trailing_space drop trim_by trim_space clean_elements join
    path_clean path_join slash_clean is_abs_tool_path checked normalize_path
paths = tt

taken :
    (normalize_path (codes "notes") (codes "a/../b.md") ≡ normal (codes "notes/b.md"))
    × (normalize_path (codes "notes") (codes ".\\b.md ") ≡ normal (codes "notes/b.md"))
    × (normalize_path (codes "notes") (codes "..") ≡ normal dot)
    × (normalize_path [] (codes "a//b/") ≡ normal (codes "a/b"))
unfolding paths
taken = (refl, refl, refl, refl)

refused :
    (normalize_path (codes "notes") (codes "../../x") ≡ Normalized.denied)
    × (normalize_path [] (codes ".git/config") ≡ Normalized.denied)
    × (normalize_path [] (codes "/etc") ≡ Normalized.denied)
    × (normalize_path [] (codes "  ") ≡ Normalized.denied)
unfolding paths
refused = (refl, refl, refl, refl)

-- White space in front hides a slash from the test for an absolute path.
hidden_slash : normalize_path [] (codes " /etc") ≡ normal (codes "/etc")
unfolding paths
hidden_slash = refl

normalize_path-IsWithin_example : (codes "notes/b.md" ≡ dot) ⊎ IsWithin (codes "notes/b.md")
normalize_path-IsWithin_example =
    normalize_path-IsWithin (codes "notes") (codes "a/../b.md") (codes "notes/b.md") taken.0

no_space : (leading_space (codes "notes") ≡ 0) × (leading_space (codes "a/../b.md") ≡ 0)
unfolding paths
no_space = (refl, refl)

normalize_path_is_relative_example : starts_with b'/' (codes "notes/b.md") ≡ false
normalize_path_is_relative_example =
    normalize_path_is_relative (codes "notes") (codes "a/../b.md") (codes "notes/b.md") no_space.0
      no_space.1 taken.0

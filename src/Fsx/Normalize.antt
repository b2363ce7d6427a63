-- ===== src/Fsx/Normalize.antt =====
-- internal/fsx/fsx.go: `NormalizePath`, with what it uses of Go's `strings` and `path`. Paths are bytes.
pub mod Elements
pub mod Contained
pub mod Relative
pub mod Trim
use personal_mcp_gateway.Base.{
  ℕ, zero, suc, Bytes, bytes_eq, codes, split, Bool, true, false, not, ◌&&◌, ◌||◌, List, [], ◌∷◌,
  ◌++◌, map, reverse, all, length, is_empty, leb, ltb, ◌==◌, if◌then◌else◌,
}

abbrev pub path_max_bytes : ℕ
path_max_bytes = 4096

abbrev pub path_max_segments : ℕ
path_max_segments = 128

pub data Normalized : Type 0 where
  normal : Bytes → Normalized
  denied too_large : Normalized

-- The bytes of the white space at the front of a string, 0 where there is none. `unicode.IsSpace` holds
-- of six ASCII bytes, of two characters of two bytes and of the rest of three.
unfoldable pub leading_space : Bytes → ℕ
leading_space [] = 0
leading_space (a ∷ r) = if leb 9 a && leb a 13 || a == 32 then 1 else longer a r
  where
    third : ℕ → ℕ → Bytes → ℕ
    third a b [] = 0
    third a b (c ∷ r) =
        if a == 225 && b == 154 && c == 128
          || a == 226 && b == 128 && (leb 128 c && leb c 138 || c == 168 || c == 169 || c == 175)
          || a == 226 && b == 129 && c == 159
          || a == 227 && b == 128 && c == 128
        then 3
        else 0

    longer : ℕ → Bytes → ℕ
    longer a [] = 0
    longer a (b ∷ r) = if a == 194 && (b == 133 || b == 160) then 2 else third a b r

-- The same at the end of a string, for the reversed string.
unfoldable pub trailing_space : Bytes → ℕ
trailing_space (c ∷ b ∷ a ∷ r) =
    let three = leading_space (a ∷ b ∷ c ∷ []) in
    let two = leading_space (b ∷ c ∷ []) in
    let one = leading_space (c ∷ []) in
    if one == 1 then 1 else if two == 2 then 2 else if three == 3 then 3 else 0
trailing_space (c ∷ b ∷ []) =
    let two = leading_space (b ∷ c ∷ []) in
    let one = leading_space (c ∷ []) in if one == 1 then 1 else if two == 2 then 2 else 0
trailing_space (c ∷ []) = leading_space (c ∷ [])
trailing_space [] = 0

unfoldable pub drop : ℕ → Bytes → Bytes
drop zero s = s
drop (suc n) [] = []
drop (suc n) (c ∷ r) = drop n r

abbrev pub trimmed : Bytes → (ℕ → Bytes) → ℕ → Bytes
trimmed s again zero = s
trimmed s again (suc k) = again (suc k)

-- Drops what `space` finds at the front, as often as the fuel lets it; the length is enough.
unfoldable pub trim_by : (Bytes → ℕ) → ℕ → Bytes → Bytes
trim_by space zero s = s
trim_by space (suc n) s = trimmed s (λ k. trim_by space n (drop k s)) (space s)

-- strings.TrimSpace
unfoldable pub trim_space : Bytes → Bytes
trim_space s =
    let t = trim_by leading_space (length s) s in
    reverse (trim_by trailing_space (length t) (reverse t))

-- strings.ReplaceAll(s, "\\", "/")
abbrev pub slashed : ℕ → ℕ
slashed c = if c == 92 then b'/' else c

abbrev pub starts_with : ℕ → Bytes → Bool
starts_with c [] = false
starts_with c (x ∷ r) = x == c

abbrev pub dot : Bytes
dot = codes "."

abbrev pub dot_dot : Bytes
dot_dot = codes ".."

-- An element `..` of `path.Clean`, on the elements kept so far, the last first.
abbrev pub go_up : Bool → List Bytes → List Bytes
go_up true [] = []
go_up false [] = dot_dot ∷ []
go_up rooted (x ∷ kept) = if bytes_eq x dot_dot then dot_dot ∷ x ∷ kept else kept

abbrev pub clean_step : Bool → Bytes → List Bytes → List Bytes
clean_step rooted x kept =
    if is_empty x || bytes_eq x dot
    then kept
    else if bytes_eq x dot_dot
    then go_up rooted kept
    else x ∷ kept

unfoldable pub clean_elements : Bool → List Bytes → List Bytes → List Bytes
clean_elements rooted [] kept = reverse kept
clean_elements rooted (x ∷ r) kept = clean_elements rooted r (clean_step rooted x kept)

-- strings.Join with a slash
unfoldable pub join : List Bytes → Bytes
join [] = []
join (x ∷ []) = x
join (x ∷ y ∷ r) = x ++ b'/' ∷ join (y ∷ r)

abbrev pub rooted_join : Bool → List Bytes → Bytes
rooted_join true l = b'/' ∷ join l
rooted_join false [] = dot
rooted_join false (x ∷ r) = join (x ∷ r)

-- path.Clean and path.Join
unfoldable pub path_clean : Bytes → Bytes
path_clean s =
    let rooted = starts_with b'/' s in rooted_join rooted (clean_elements rooted (split b'/' s) [])

unfoldable pub path_join : Bytes → Bytes → Bytes
path_join a b =
    if is_empty a
    then if is_empty b then [] else path_clean b
    else if is_empty b
    then path_clean a
    else path_clean (a ++ b'/' ∷ b)

unfoldable pub slash_clean : Bytes → Bytes
slash_clean s = let t = trim_space (map slashed s) in if is_empty t then [] else path_clean t

-- filepath.IsAbs of a Unix host; its volume names are empty.
unfoldable pub is_abs_tool_path : Bytes → Bool
is_abs_tool_path s = starts_with b'/' s || starts_with 92 s

abbrev pub denied_segment : Bytes → Bool
denied_segment segment = starts_with b'.' segment

abbrev pub segment_passes : Bytes → Bool
segment_passes segment = is_empty segment || bytes_eq segment dot || not (denied_segment segment)

abbrev pub combined : Bytes → Bytes → Bytes
combined base input =
    if not (bytes_eq base dot) && not (bytes_eq input dot)
    then path_join base input
    else if bytes_eq input dot
    then base
    else input

-- `strings.HasPrefix(clean, "../") || clean == ".."`
abbrev pub escapes : Bytes → Bool
escapes (a ∷ b ∷ []) = a == b'.' && b == b'.'
escapes (a ∷ b ∷ c ∷ r) = a == b'.' && b == b'.' && c == b'/'
escapes _ = false

unfoldable pub checked : Bytes → Normalized
checked clean =
    if bytes_eq clean (codes "/") || bytes_eq clean dot
    then normal dot
    else if ltb path_max_bytes (length clean)
    then too_large
    else if escapes clean
    then denied
    else if ltb path_max_segments (length (split b'/' clean))
    then too_large
    else if not (all segment_passes (split b'/' clean))
    then denied
    else normal clean

abbrev pub or_dot : Bytes → Bytes
or_dot s = if is_empty s then dot else s

unfoldable pub normalize_path : Bytes → Bytes → Normalized
normalize_path base input =
    if is_empty (trim_space input)
    then denied
    else if ltb path_max_bytes (length base) || ltb path_max_bytes (length input)
    then too_large
    else if is_abs_tool_path base || is_abs_tool_path input
    then denied
    else checked (path_clean (combined (or_dot (slash_clean base)) (slash_clean input)))

-- ===== src/Fsx/Protocol/Leaves.antt =====
-- The names and descriptor roles that internal/fsx/mutation_protocol.go lets through.
use personal_mcp_gateway.Base.{
  same_bool, ℕ, zero, suc, ◌<◌, Bytes, codes, Bool, true, false, not, ◌&&◌, [], ◌∷◌, All, all, ◌==◌,
  ◌≡◌, ◌≢◌, ◌↔◌, refl, arith, and_parts,
}
use personal_mcp_gateway.Fsx.Protocol.Types.{Operation}
use personal_mcp_gateway.Fsx.Protocol.Fields.{
  valid_fd_roles, is_replace, has_prefix, is_separator, valid_stage_leaf, valid_target_leaf,
}

-- Every byte is checked by evaluation.
holds_to : (ℕ → Bool) → ℕ → Bool
holds_to p zero = true
holds_to p (suc n) = holds_to p n && p n

holds_to_lem : (p : ℕ → Bool) (bound r : ℕ) → r < bound → holds_to p bound ≡ true → p r ≡ true
unfolding holds_to
holds_to_lem p (suc bound) r below h = ground (arith, holds_to_lem p bound r)
holds_to_lem p zero r below h = elim below [ ]

-- 7 is control, root and parent; 15 is these and the source.
abbrev pub wanted : Bool → ℕ
wanted true = 15
wanted false = 7

replace_table : holds_to (λ r. same_bool (valid_fd_roles Operation.replace r) (r == 15)) 256 ≡ true
unfolding holds_to valid_fd_roles
replace_table = refl

create_table : holds_to (λ r. same_bool (valid_fd_roles Operation.create r) (r == 7)) 256 ≡ true
unfolding holds_to valid_fd_roles
create_table = refl

same_bool_iff : (a : Bool) (r k : ℕ) → same_bool a (r == k) ≡ true → (a ≡ true) ↔ (r ≡ k)
same_bool_iff a r k h = ground arith

-- The roles of a replacement are exactly the control, root, parent and source descriptors, and those of
-- every other operation exactly the first three.
pub valid_fd_roles_iff :
    (operation : Operation) (roles : ℕ)
    → roles < 256
    → (valid_fd_roles operation roles ≡ true) ↔ (roles ≡ wanted (is_replace operation))
valid_fd_roles_iff Operation.replace roles h = same_bool_iff _ roles 15 (
    holds_to_lem (λ r. same_bool (valid_fd_roles Operation.replace r) (r == 15)) 256 roles h
      replace_table)
valid_fd_roles_iff Operation.create roles h = same_bool_iff _ roles 7 (
    holds_to_lem (λ r. same_bool (valid_fd_roles Operation.create r) (r == 7)) 256 roles h
      create_table)
valid_fd_roles_iff (Operation.other s) roles h =
    unfold valid_fd_roles in
    same_bool_iff _ roles 7 (
      holds_to_lem (λ r. same_bool (valid_fd_roles Operation.create r) (r == 7)) 256 roles h
        create_table)
valid_fd_roles_iff Operation.unset roles h =
    unfold valid_fd_roles in
    same_bool_iff _ roles 7 (
      holds_to_lem (λ r. same_bool (valid_fd_roles Operation.create r) (r == 7)) 256 roles h
        create_table)

-- A byte that separates no path and ends no C string.
abbrev pub IsPlain : ℕ → Type 0
IsPlain c = (c ≢ b'/') × (c ≢ 92) × (c ≢ 0)

all-IsPlain : (l : Bytes) → all (λ c. not (is_separator c)) l ≡ true → All IsPlain l
all-IsPlain [] h = tt
all-IsPlain (c ∷ l) h =
    let both = and_parts (not (is_separator c)) (all (λ c. not (is_separator c)) l) h in
    (ground arith, all-IsPlain l both.1)

-- What begins with a dot is no target, and what does not is no stage.
dot_no_target : (l : Bytes) → valid_target_leaf (b'.' ∷ l) ≡ false
unfolding valid_target_leaf
dot_no_target l = ground arith

no_dot_no_stage : (l : Bytes) → has_prefix l (codes ".") ≡ false → valid_stage_leaf l ≡ false
unfolding valid_stage_leaf
no_dot_no_stage [] h = refl
no_dot_no_stage (c ∷ l) h = ground arith

-- A name for a target is never a name for a stage, holds no separator and no NUL, and does not begin
-- with a dot.
pub valid_target_leaf-IsPlain :
    (leaf : Bytes)
    → valid_target_leaf leaf ≡ true
    → (valid_stage_leaf leaf ≡ false) × All IsPlain leaf × ((r : Bytes) → leaf ≢ b'.' ∷ r)
valid_target_leaf-IsPlain leaf h = (
  no_dot_no_stage leaf (no_dot leaf h),
  all-IsPlain leaf (unfold valid_target_leaf in ground arith),
  λ r e. cc (rw e at h, dot_no_target r),
)
  where
    no_dot : (l : Bytes) → valid_target_leaf l ≡ true → has_prefix l (codes ".") ≡ false
    no_dot l x = unfold valid_target_leaf in ground arith

-- ===== src/Release/Decide/Allowed.antt =====
-- What a decision of internal/releaseactivation/model.go requires, said without its code: which move
-- each event may make in each state, and the facts that must have been observed.
use personal_mcp_gateway.Base.{
  Bytes, bytes_eq_iff, Bool, true, false, none, some, ◌≡◌, ◌↔◌, ◌⊎◌, arith,
}
use personal_mcp_gateway.Release.Types.{Manifest, Observed}
use personal_mcp_gateway.Release.Validate.{validate_snapshot}
use personal_mcp_gateway.Release.Decide.{
  validate_active_observations, validate_runtime, validate_acceptance_readiness, target_allowed,
  recovery_confirmed,
}

-- The controller and the stored artifacts are those of the manifest.
pub record IsAuthentic (m : Manifest) (o : Observed) : Type 0 where
  pub controller : o.controller_sha256 ≡ m.authority_sha256
  pub authority : o.authority_artifact_sha256 ≡ m.authority_sha256
  pub candidate : o.candidate_sha256 ≡ m.candidate_sha256
  pub previous : m.previous_present ≡ true → o.previous_sha256 ≡ m.previous_sha256

-- The supervised runtime is configured as it was when the release was prepared.
pub record SameRuntime (m : Manifest) (o : Observed) : Type 0 where
  pub plist : o.plist_sha256 ≡ m.plist_sha256
  pub wrapper : o.wrapper_sha256 ≡ m.wrapper_sha256
  pub mcp_wrapper : o.mcp_wrapper_sha256 ≡ m.mcp_wrapper_sha256
  pub environment : o.environment_sha256 ≡ m.environment_sha256

pub record Installed (sha : Bytes) (o : Observed) : Type 0 where
  pub present : o.installed_present ≡ true
  pub same : o.installed_sha256 ≡ sha

-- The installed target is the candidate, the previous release or, on a first install, absent.
abbrev pub TargetKnown : Manifest → Observed → Type 0
TargetKnown m o =
    ((o.installed_present ≡ false) × (m.previous_present ≡ false))
    ⊎ (Installed m.candidate_sha256 o
        ⊎ ((m.previous_present ≡ true) × Installed m.previous_sha256 o))

-- The target is still what it was before the release.
abbrev pub IsUntouched : Manifest → Observed → Type 0
IsUntouched m o =
    ((m.previous_present ≡ true) × Installed m.previous_sha256 o)
    ⊎ ((m.previous_present ≡ false) × (o.installed_present ≡ false))

-- The candidate is installed and serves.
pub record IsServing (m : Manifest) (o : Observed) : Type 0 where
  pub runtime : SameRuntime m o
  pub installed : Installed m.candidate_sha256 o
  pub ready : o.runtime_ready ≡ true
  pub loaded : o.supervisor_unloaded ≡ false

-- The previous release is installed and serves after its restart, or nothing is left of a first one.
abbrev pub IsRecovered : Manifest → Observed → Bool → Type 0
IsRecovered m o rollback_ready =
    ((m.previous_present ≡ true)
      × (rollback_ready ≡ true)
      × Installed m.previous_sha256 o
      × (o.runtime_ready ≡ true))
    ⊎ ((m.previous_present ≡ false)
        × (o.installed_present ≡ false)
        × (o.supervisor_unloaded ≡ true))

abbrev pub IsWellFormed : Manifest → Type 0
IsWellFormed m = validate_snapshot (record { manifest = some m }) ≡ none

module _ (m : Manifest) (o : Observed) where
  pub validate_active_observations_iff : (validate_active_observations m o ≡ none) ↔ IsAuthentic m o
  unfolding validate_active_observations
  validate_active_observations_iff = (
    λ h. ground (
      arith,
      bytes_eq_iff o.controller_sha256 m.authority_sha256,
      bytes_eq_iff o.authority_artifact_sha256 m.authority_sha256,
      bytes_eq_iff o.candidate_sha256 m.candidate_sha256,
      bytes_eq_iff o.previous_sha256 m.previous_sha256,
    ),
    λ h. ground (
      arith,
      bytes_eq_iff o.controller_sha256 m.authority_sha256,
      bytes_eq_iff o.authority_artifact_sha256 m.authority_sha256,
      bytes_eq_iff o.candidate_sha256 m.candidate_sha256,
      bytes_eq_iff o.previous_sha256 m.previous_sha256,
    ),
  )

  pub validate_runtime_iff : (validate_runtime m o ≡ none) ↔ SameRuntime m o
  unfolding validate_runtime
  validate_runtime_iff = ground (
    arith,
    bytes_eq_iff o.plist_sha256 m.plist_sha256,
    bytes_eq_iff o.wrapper_sha256 m.wrapper_sha256,
    bytes_eq_iff o.mcp_wrapper_sha256 m.mcp_wrapper_sha256,
    bytes_eq_iff o.environment_sha256 m.environment_sha256,
  )

  pub target_allowed_iff : (target_allowed m o ≡ true) ↔ TargetKnown m o
  unfolding target_allowed
  target_allowed_iff = ground (
    arith,
    bytes_eq_iff o.installed_sha256 m.candidate_sha256,
    bytes_eq_iff o.installed_sha256 m.previous_sha256,
  )

  pub recovery_confirmed_iff : (r : Bool) → (recovery_confirmed m o r ≡ true) ↔ IsRecovered m o r
  unfolding recovery_confirmed
  recovery_confirmed_iff r = ground (arith, bytes_eq_iff o.installed_sha256 m.previous_sha256)

  pub validate_acceptance_readiness_iff : (validate_acceptance_readiness m o ≡ none) ↔ IsServing m o
  unfolding validate_acceptance_readiness
  validate_acceptance_readiness_iff =
      ground (arith, validate_runtime_iff, bytes_eq_iff o.installed_sha256 m.candidate_sha256)

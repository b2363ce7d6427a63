-- ===== src/Release/Manager/Effects.antt =====
-- What internal/releaseactivation/manager.go stands on: its errors, the host operations of `Runtime`
-- (runtime.go) and the effects of the store (store.go) that may fail.
use personal_mcp_gateway.Base.{Bytes, String, Bool, Option, none, some}
use personal_mcp_gateway.Release.Types.{Manifest, Observed, ErrorCode, Error, lifecycle_error}

pub data StoreError : Type 0 where
  busy conflict malformed artifact_mismatch io : StoreError

-- *Error, *runtimeError with its operation, *rollbackRecoveredError with its operation, and the errors
-- of the store.
pub data Failure : Type 0 where
  lifecycle : Error → Failure
  host_effect : String → Failure
  rolled_back : String → Failure
  of_store : StoreError → Failure

pub data Outcome (A : Type 0) : Type 0 where
  ok : A → Outcome A
  fail : Failure → Outcome A

-- How the files of the store take a write: it is done, it fails before the rename that publishes it, or
-- it fails after.
pub data Fault : Type 0 where
  clean : Fault
  before after : StoreError → Fault

-- The operations on the machine. `W` is all that they read and change but the manifest of the store.
pub record Host (W : Type 0) : Type 0 where
  pub observe : Manifest → W → W × Outcome Observed
  pub install_candidate : Manifest → W → W × Outcome Unit
  pub restart : Manifest → W → W × Outcome Unit
  pub wait_ready : Manifest → W → W × Outcome Unit
  pub restore_previous : Manifest → W → W × Outcome Unit
  pub bootout : Manifest → W → W × Outcome Unit
  pub confirm_unloaded : Manifest → W → W × Outcome Bool
  pub remove_target : Manifest → W → W × Outcome Unit
  pub hash_controller : W → W × Outcome Bytes
  pub lock : W → W × Outcome Unit
  pub read_active : W → W × Outcome Unit
  pub cleanup_orphans : W → W × Outcome Unit
  pub write_fault : W → W × Fault

pub record System (W : Type 0) : Type 0 where
  pub host : W
  pub slot : Option Manifest

-- What a method of the manager returns: a manifest or nil, and an error or nil.
pub record Answer : Type 0 where
  pub manifest : Option Manifest
  pub err : Option Failure

abbrev pub refused : Option Manifest → ErrorCode → Answer
refused m code = record { manifest = m; err = some (lifecycle (lifecycle_error code)) }

abbrev pub failed_with : Option Manifest → Failure → Answer
failed_with m e = record { manifest = m; err = some e }

abbrev pub answered : Option Manifest → Answer
answered m = record { manifest = m; err = none }

module _ {W : Type 0} where
  abbrev pub acted : {A : Type 0} → (W → W × Outcome A) → System W → System W × Outcome A
  acted f s = let r = f s.host in (record s { host = r.0 }, r.1)

  -- `x, err := …; if err != nil { … }`
  unfoldable pub on :
      {A : Type 0} {B : Type 0}
      → System W × Outcome A
      → (A → System W → System W × B)
      → (Failure → System W → System W × B)
      → System W × B
  on (s, ok a) k f = k a s
  on (s, fail e) k f = f e s

  abbrev pub failing : {B : Type 0} → Failure → System W → System W × Outcome B
  failing e s = (s, fail e)

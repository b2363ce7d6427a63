-- ===== src/Release/Manager/Admin.antt =====
-- internal/releaseactivation/manager.go: `Status`, `WithClear` and `Probe`, which take the lock of the
-- release but make no transition.
use personal_mcp_gateway.Base.{
  if_lem, ℤ, Bytes, not, Option, none, some, if◌then◌else◌, ◌≡◌, ◌≢◌, refl, sym, ◌∙◌,
}
use personal_mcp_gateway.Release.Types.{Manifest, ErrorCode, lifecycle_error}
use personal_mcp_gateway.Release.Text.{valid_sha256}
use personal_mcp_gateway.Release.Manager.Effects.{
  StoreError, Failure, Outcome, ok, fail, lifecycle, of_store, Host, System, Answer, failed_with,
  answered, acted, on, failing,
}
use personal_mcp_gateway.Release.Manager.Slot.{load}
use personal_mcp_gateway.Release.Manager.Steps.{on_lem}
use personal_mcp_gateway.Release.Manager.{validate_current_authority}
use personal_mcp_gateway.Release.Manager.Discipline.{loaded_slot}

module _ {W : Type 0} (host : Host W) (uid : ℤ) (controller : Bytes) where
  -- An effect on the machine, or nil.
  abbrev pub Effect : Type 0
  Effect = Option (W → W × Outcome Unit)

  abbrev pub conflict : System W → System W × Outcome Unit
  conflict s = (s, fail (lifecycle (lifecycle_error ErrorCode.state_conflict)))

  abbrev pub busy_failure : Failure → System W → System W × Outcome Unit
  busy_failure (of_store StoreError.busy) s = (s, fail (lifecycle (lifecycle_error ErrorCode.busy)))
  busy_failure e s = (s, fail e)

  unfoldable pub acquire : System W → System W × Outcome Unit
  acquire s =
      if not (valid_sha256 controller)
      then (s, fail (lifecycle (lifecycle_error ErrorCode.state_malformed)))
      else on (acted host.lock s) (λ u t. (t, ok tt)) busy_failure

  abbrev pub status_of : Option Manifest → System W → System W × Answer
  status_of none t = (t, answered none)
  status_of (some m) t =
      on (validate_current_authority host uid controller m t) (λ u v. (v, answered (some m)))
        (λ e v. (v, failed_with (some m) e))

  unfoldable pub status : System W → System W × Answer
  status s =
      on (acquire s) (λ u t. on (load host uid t) status_of (λ e v. (v, failed_with none e)))
        (λ e t. (t, failed_with none e))

  abbrev pub run_effect : Effect → Option Manifest → System W → System W × Outcome Unit
  run_effect effect (some m) t = conflict t
  run_effect none none t = conflict t
  run_effect (some effect) none t = on (acted host.cleanup_orphans t) (λ u. acted effect) failing

  unfoldable pub with_clear : Effect → System W → System W × Outcome Unit
  with_clear effect s =
      on (acquire s) (λ u t. on (load host uid t) (run_effect effect) failing) failing

  abbrev pub probe_with : Effect → System W → System W × Outcome Unit
  probe_with none t = conflict t
  probe_with (some effect) t = acted effect t

  unfoldable pub probe : Effect → System W → System W × Outcome Unit
  probe effect s = on (acquire s) (λ u. probe_with effect) failing

  acquire_keeps : (s : System W) → (acquire s).0.slot ≡ s.slot
  unfolding acquire
  acquire_keeps s =
      if_lem (λ (r : System W × Outcome Unit). r.0.slot ≡ s.slot) (not (valid_sha256 controller))
        (λ y. refl)
        (λ n.
          on_lem (λ r. r.0.slot ≡ s.slot) (λ r. r.0.slot ≡ s.slot) (acted host.lock s) refl
            (λ a t y. y) go)
    where
      go : (e : Failure) (t : System W) → t.slot ≡ s.slot → (busy_failure e t).0.slot ≡ s.slot
      go (of_store StoreError.busy) t y = y
      go e t y = y

  -- The slot stays, and what is loaded is its manifest.
  abbrev Loads : Option Manifest → System W × Outcome (Option Manifest) → Type 0
  Loads slot r = (r.0.slot ≡ slot) × ((x : Option Manifest) → r.1 ≡ ok x → x ≡ slot)

  load-Loads :
      (slot : Option Manifest) (t : System W) → t.slot ≡ slot → Loads slot (load host uid t)
  unfolding load
  load-Loads slot t at =
      on_lem (λ r. r.0.slot ≡ slot) (Loads slot) (acted host.read_active t) at
        (λ a u y. (y, λ x h. sym (loaded_slot uid u.slot x h) ∙ y)) (λ e u y. (y, λ x bad. cc))

  -- Two results that are one, of a request that was refused with the slot as it was.
  abbrev pub RefusedAlike : Manifest → System W × Outcome Unit → System W × Outcome Unit → Type 0
  RefusedAlike m r q = (r ≡ q) × (r.0.slot ≡ some m) × (r.1 ≢ ok tt)

  on_alike :
      {A : Type 0} (m : Manifest) (P : System W × Outcome A → Type 0) (r : System W × Outcome A)
      {k l : A → System W → System W × Outcome Unit}
      → P r
      → ((x : System W × Outcome A) → P x → x.0.slot ≡ some m)
      → ((a : A) (t : System W) → P (t, ok a) → RefusedAlike m (k a t) (l a t))
      → RefusedAlike m (on r k failing) (on r l failing)
  unfolding on
  on_alike m P (t, ok a) p slot h = h a t p
  on_alike m P (t, fail e) p slot h = (refl, slot (t, fail e) p, λ bad. cc)

  -- While there is a release, `WithClear` does not run its effect: whatever the two effects, it does the
  -- same for both, leaves the slot as it was and does not succeed.
  pub with_clear_waits :
      (e f : Effect) (m : Manifest) (s : System W)
      → s.slot ≡ some m
      → RefusedAlike m (with_clear e s) (with_clear f s)
  unfolding with_clear
  with_clear_waits e f m s h =
      on_alike m (λ r. r.0.slot ≡ some m) (acquire s) (acquire_keeps s ∙ h) (λ x y. y)
        (λ a t y.
          on_alike m (λ r. Loads (some m) r) (load host uid t) (load-Loads (some m) t y)
            (λ x z. z.0) (λ slot u z. alike slot u z.0 (z.1 slot refl)))
    where
      alike :
          (slot : Option Manifest) (u : System W)
          → u.slot ≡ some m
          → slot ≡ some m
          → RefusedAlike m (run_effect e slot u) (run_effect f slot u)
      alike none u y z = cc z
      alike (some n) u y z = (refl, y, λ bad. cc)

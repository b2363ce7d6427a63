-- ===== src/Release/Manager/Discipline.antt =====
-- The discipline of a request to internal/releaseactivation/manager.go, from its lock to its answer.
use personal_mcp_gateway.Base.{
  if_lem, ℤ, Bytes, Bool, false, not, Option, none, some, bytes_eq, ◌≡◌, inl, inr, refl,
  Option-cases, arith,
}
use personal_mcp_gateway.Release.Types.{Event, Manifest, Error}
use personal_mcp_gateway.Release.Text.{valid_sha256}
use personal_mcp_gateway.Release.Manager.Effects.{
  StoreError, of_store, Failure, Outcome, ok, Host, System, acted,
}
use personal_mcp_gateway.Release.Manager.Slot.{load, loaded, validate_manifest}
use personal_mcp_gateway.Release.Manager.Observe.{decided, command_of, observe}
use personal_mcp_gateway.Release.Manager.{
  acquire_failure, validate_current_authority, run_authentic, run_loaded, run_valid, run,
}
use personal_mcp_gateway.Release.Manager.Protocol.{locked, hashed, tidied, read, step, Trace, stay}
use personal_mcp_gateway.Release.Manager.Steps.{on_lem, At, Observes, observe-At, Right}
use personal_mcp_gateway.Release.Manager.Requests.{carry_out-Right}

-- The manifest that is loaded is that of the slot.
pub loaded_slot : (uid : ℤ) (slot x : Option Manifest) → loaded uid slot ≡ ok x → slot ≡ x
loaded_slot uid none x h = ground arith
loaded_slot uid (some m) x h = elim (Option-cases (validate_manifest m uid)) [
  | inl e ↦ ground arith
  | inr (y, e) ↦ ground arith
]

module _ {W : Type 0} (host : Host W) (uid : ℤ) (controller : Bytes) (event : Event)
    (s : System W) where
  -- The manifest that was loaded is that of the slot.
  abbrev Loaded : System W × Outcome (Option Manifest) → Type 0
  Loaded r = Trace host event s r.0 × ((x : Option Manifest) → r.1 ≡ ok x → r.0.slot ≡ x)

  load-Loaded : (t : System W) → Trace host event s t → Loaded (load host uid t)
  unfolding load
  load-Loaded t p =
      on_lem (λ r. Trace host event s r.0) Loaded (acted host.read_active t) (step p (read t))
        (λ a u y. (y, λ x h. loaded_slot uid u.slot x h)) (λ e u y. (y, λ x bad. cc))

  validate_current_authority-At :
      (m : Manifest) (t : System W)
      → At host event s m t
      → At host event s m (validate_current_authority host uid controller m t).0
  unfolding validate_current_authority
  validate_current_authority-At m t at =
      if_lem (λ (r : System W × Outcome Unit). At host event s m r.0)
        (not (bytes_eq controller m.authority_sha256)) (λ p. at)
        (λ p.
          on_lem (λ r. At host event s m r.0) (λ r. At host event s m r.0)
            (acted host.hash_controller t) (step at.0 (hashed t), at.1)
            (λ sha u y.
              if_lem (λ (r : System W × Outcome Unit). At host event s m r.0)
                (bytes_eq sha controller) (λ q. y) (λ q. y))
            (λ e u y. y))

  run_valid-Right :
      (id : Bytes) (m : Manifest) (refusal : Option Error) (t : System W)
      → At host event s m t
      → Right host event s (run_valid host uid controller event id m refusal t)
  run_valid-Right id m (some e) t at = (at.0, λ bad. cc)
  run_valid-Right id m none t at =
      on_lem (λ r. At host event s m r.0) (Right host event s) (acted host.cleanup_orphans t)
        (step at.0 (tidied t), at.1)
        (λ a u y.
          on_lem (Observes host event s m) (Right host event s) (observe host m u)
            (observe-At host event s m u y)
            (λ o v z.
              carry_out-Right host uid controller event s (command_of (decided m event id o false))
                m id o v z.1 refl z.0)
            (λ e v z. (z.0.0, λ bad. cc)))
        (λ e u y. (y.0, λ bad. cc))

  run_loaded-Right :
      (id : Bytes) (allow : Bool) (slot : Option Manifest) (t : System W)
      → Trace host event s t
      → t.slot ≡ slot
      → Right host event s (run_loaded host uid controller event id allow slot t)
  unfolding run_authentic
  run_loaded-Right id allow none t p h = (p, λ bad. cc)
  run_loaded-Right id allow (some m) t p h =
      on_lem (λ r. At host event s m r.0) (Right host event s)
        (validate_current_authority host uid controller m t)
        (validate_current_authority-At m t (p, h)) (λ a u y. run_valid-Right _ m _ u y)
        (λ e u y. (y.0, λ bad. cc))

  acquire_failure-Right :
      (e : Failure) (t : System W)
      → Trace host event s t
      → Right host event s (acquire_failure host uid controller e t)
  acquire_failure-Right (of_store StoreError.busy) t p = (p, λ bad. cc)
  acquire_failure-Right e t p = (p, λ bad. cc)

  pub run-Right :
      (id : Bytes) (allow_current_id : Bool)
      → Right host event s (run host uid controller event id allow_current_id s)
  unfolding run
  run-Right id allow =
      if_lem (Right host event s) (not (valid_sha256 controller)) (λ p. (stay s, λ bad. cc))
        (λ p.
          on_lem (λ r. Trace host event s r.0) (Right host event s) (acted host.lock s)
            (step (stay s) (locked s))
            (λ a t y.
              on_lem Loaded (Right host event s) (load host uid t) (load-Loaded t y)
                (λ slot u z. run_loaded-Right id allow slot u z.0 (z.1 slot refl))
                (λ e u z. (z.0, λ bad. cc)))
            (λ e t y. acquire_failure-Right e t y))

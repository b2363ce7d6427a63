-- ===== src/Release/Manager/Protocol.antt =====
-- The steps that a request to internal/releaseactivation/manager.go may take: what may be done to the
-- machine and to the slot, and what the slot must hold then.
use personal_mcp_gateway.Base.{ℤ, Bool, true, false, Option, some, ◌≡◌, ◌⊎◌}
use personal_mcp_gateway.Release.Types.{State, Event, Manifest, Observed, Context, CommandKind}
use personal_mcp_gateway.Release.Decide.Moves.{Move}
use personal_mcp_gateway.Release.Manager.Effects.{ok, Host, System, acted}
use personal_mcp_gateway.Release.Manager.Observe.{service_manifests, observe}
use personal_mcp_gateway.Release.Manager.Finish.{restart_services}

-- The requests that may recover the previous release: a rollback, and a resume whose deployment fails.
abbrev pub MayUndo : Event → Type 0
MayUndo event = (event ≡ Event.rollback) ⊎ (event ≡ Event.resume)

abbrev pub MayDeploy : Event → Manifest → Type 0
MayDeploy event m = (event ≡ Event.resume) × (m.state ≡ State.prepared)

abbrev pub MayRecover : Event → Bool → Manifest → Type 0
MayRecover event previous m =
    MayUndo event × (m.state ≡ State.rolling_back) × (m.previous_present ≡ previous)

-- The decisions that a request may make: its own and, for a resume, that the deployment is ready or
-- is rolled back.
abbrev pub MayDecide : Event → Event → Type 0
MayDecide event e =
    (e ≡ event) ⊎ ((event ≡ Event.resume) × ((e ≡ Event.deployment_ready) ⊎ (e ≡ Event.rollback)))

module _ {W : Type 0} (host : Host W) (event : Event) where
  pub data Step : System W → System W → Type 0 where
    looked : (x : Manifest) (s : System W) → Step s (acted (host.observe x) s).0
    locked : (s : System W) → Step s (acted host.lock s).0
    read : (s : System W) → Step s (acted host.read_active s).0
    hashed : (s : System W) → Step s (acted host.hash_controller s).0
    tidied : (s : System W) → Step s (acted host.cleanup_orphans s).0
    tried : (s : System W) → Step s (record s { host = (host.write_fault s.host).0 })
    installed :
        (m : Manifest) (s : System W)
        → s.slot ≡ some m
        → MayDeploy event m
        → Step s (acted (host.install_candidate m) s).0
    restarted :
        (m x : Manifest) (s : System W)
        → s.slot ≡ some m
        → MayDeploy event m ⊎ MayRecover event true m
        → Step s (acted (host.restart x) s).0
    waited :
        (m x : Manifest) (s : System W)
        → s.slot ≡ some m
        → MayDeploy event m ⊎ MayRecover event true m
        → Step s (acted (host.wait_ready x) s).0
    restored :
        (m : Manifest) (s : System W)
        → s.slot ≡ some m
        → MayRecover event true m
        → Step s (acted (host.restore_previous m) s).0
    unloaded :
        (m x : Manifest) (s : System W)
        → s.slot ≡ some m
        → MayRecover event false m
        → Step s (acted (host.bootout x) s).0
    confirmed :
        (m x : Manifest) (s : System W)
        → s.slot ≡ some m
        → MayRecover event false m
        → Step s (acted (host.confirm_unloaded x) s).0
    removed :
        (m : Manifest) (s : System W)
        → s.slot ≡ some m
        → MayRecover event false m
        → Step s (acted (host.remove_target m) s).0

  -- Any number of steps, and writes of the slot. A write needs a decision on what has been observed of the
  -- release in this request, at a state `u` that its steps have led to. A decision that counts the previous
  -- release as recovered needs more: the steps have led to a state `v` from which all its services were
  -- restarted and found ready, and the observation was made right after that.
  pub data Trace : System W → System W → Type 0 where
    stay : (s : System W) → Trace s s
    step : {s t u : System W} → Trace s t → Step t u → Trace s u
    wrote :
        {s t : System W} {c : Context} {e : Event} {k : CommandKind} (m : Manifest)
        (next : Option Manifest) (x : State) (u : System W)
        → Trace s t
        → t.slot ≡ some m
        → Trace s u
        → (observe host (record m { state = x }) u).1 ≡ ok c.observed
        → c.rollback_ready ≡ false
        → MayDecide event e
        → Move c (some m) e k next
        → Trace s (record t { slot = next })
    wrote_recovered :
        {s t : System W} {c : Context} {e : Event} {k : CommandKind} (m : Manifest)
        (next : Option Manifest) (uid : ℤ) (x : State) (u v : System W)
        → Trace s t
        → t.slot ≡ some m
        → Trace s v
        → MayRecover event true m
        → restart_services host uid (service_manifests m) v ≡ (u, ok tt)
        → (observe host (record m { state = x }) u).1 ≡ ok c.observed
        → c.rollback_ready ≡ true
        → MayDecide event e
        → Move c (some m) e k next
        → Trace s (record t { slot = next })

  -- From `s` on, the machine has been observed to be in `o`, for the release of `m` in some state.
  abbrev pub Seen : System W → Manifest → Observed → Type 0
  Seen s m o =
      (x : State) × (u : System W) × Trace s u
      × ((observe host (record m { state = x }) u).1 ≡ ok o)

  -- The services of the previous release have been restarted with success just before that.
  abbrev pub Recovered : System W → Manifest → Observed → Type 0
  Recovered s m o =
      (uid : ℤ) × (x : State) × (u : System W) × (v : System W) × Trace s v
      × MayRecover event true m
      × (restart_services host uid (service_manifests m) v ≡ (u, ok tt))
      × ((observe host (record m { state = x }) u).1 ≡ ok o)

  -- What a decision takes to be the case has been found out.
  abbrev pub HasFacts : System W → Manifest → Context → Type 0
  HasFacts s m c =
      (Seen s m c.observed × (c.rollback_ready ≡ false))
      ⊎ (Recovered s m c.observed × (c.rollback_ready ≡ true))

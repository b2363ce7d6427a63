-- ===== src/Release/Manager/Ends.antt =====
-- The recovery and the acceptance of internal/releaseactivation/manager.go take only steps of the
-- protocol, and their answer without an error is the manifest of the slot.
use personal_mcp_gateway.Base.{
  if_lem, ℤ, Bytes, Bool, true, false, not, ◌||◌, Option, none, some, List, [], ◌∷◌, bytes_eq, ◌≡◌,
  inl, inr, refl, sym, ap, arith, Bool-cases, if◌then◌else◌,
}
use personal_mcp_gateway.Release.Types.{State, Event, Manifest, Observed, Context, CommandKind}
use personal_mcp_gateway.Release.Decide.Moves.{finish, restored, Move, held}
use personal_mcp_gateway.Release.Manager.Effects.{Outcome, ok, Host, System, acted, on, failing}
use personal_mcp_gateway.Release.Manager.Observe.{service_manifests, decided, command_of, observe}
use personal_mcp_gateway.Release.Manager.Finish.{
  restart_services, unload_services, resume_rollback, clear_if, recover as recover_slot,
  finish_with, finish_rollback, accept_with, finish_accept,
}
use personal_mcp_gateway.Release.Manager.Protocol.{
  MayUndo, MayRecover, MayDecide, Seen, HasFacts, restored as restored_previous, unloaded,
  confirmed, removed, step, Trace,
}
use personal_mcp_gateway.Release.Manager.Steps.{
  on_lem, asked, move_of, At, Observes, observe-At, restart_services-At, Justified, Right,
  clear_slot-Right,
}

-- The command that clears the slot hands on nothing.
cleared_none :
    {m : Manifest} {c : Context} {e : Event} {next : Option Manifest}
    → Move c (some m) e CommandKind.clear_transaction next
    → Move c (some m) e CommandKind.clear_transaction none
cleared_none (held m w i a (finish p v)) = held m w i a (finish p v)
cleared_none (held m w i a (restored p r t g)) = held m w i a (restored p r t g)

pub MayUndo-MayDecide : {event : Event} → MayUndo event → MayDecide event Event.rollback
MayUndo-MayDecide (inl e) = inl (sym e)
MayUndo-MayDecide (inr e) = inr (e, inr refl)

module _ {W : Type 0} (host : Host W) (event : Event) (s : System W) where
  abbrev pub HasSeen : Manifest → Observed → Type 0
  HasSeen m o = Seen host event s m o

  -- What one decision with the command `k` lets the slot become.
  pub decided-Justified :
      (m : Manifest) (e : Event) (id : Bytes) (o : Observed) (r : Bool) (k : CommandKind)
      → MayDecide event e
      → HasFacts host event s m (asked m e id o r)
      → command_of (decided m e id o r) ≡ some k
      → Justified host event s m (decided m e id o r).next.manifest
  decided-Justified m e id o r k may facts h = record {
    context = asked m e id o r;
    decides = e;
    command = k;
    facts = facts;
    may = may;
    move = move_of m e id o r k h;
  }

  pub clearing-Justified :
      (m : Manifest) (e : Event) (id : Bytes) (o : Observed) (r : Bool)
      → MayDecide event e
      → HasFacts host event s m (asked m e id o r)
      → command_of (decided m e id o r) ≡ some CommandKind.clear_transaction
      → Justified host event s m none
  clearing-Justified m e id o r may facts h = record {
    context = asked m e id o r;
    decides = e;
    command = CommandKind.clear_transaction;
    facts = facts;
    may = may;
    move = cleared_none (move_of m e id o r CommandKind.clear_transaction h);
  }

  unload_services-At :
      (uid : ℤ) (m : Manifest) (l : List Manifest) (t : System W)
      → MayRecover event false m
      → At host event s m t
      → At host event s m (unload_services host uid l t).0
  unfolding unload_services
  unload_services-At uid m [] t may at = at
  unload_services-At uid m (x ∷ l) t may at =
      on_lem (λ r. At host event s m r.0) (λ r. At host event s m r.0) (acted (host.bootout x) t)
        (step at.0 (unloaded m x t at.1 may), at.1)
        (λ a u at'.
          on_lem (λ r. At host event s m r.0) (λ r. At host event s m r.0)
            (acted (host.confirm_unloaded x) u) (step at'.0 (confirmed m x u at'.1 may), at'.1)
            (λ b v y. elim (Bool-cases b) [
              | inl e ↦ rw e (unload_services-At uid m l v may y)
              | inr n ↦ rw n y
            ])
            (λ e v y. y))
        (λ e v y. y)

  restore-At :
      (b : Bool) (m : Manifest) (t : System W)
      → MayRecover event true m
      → At host event s m t
      → At host event s m (if b then acted (host.restore_previous m) t else (t, ok tt)).0
  restore-At true m t may at = (step at.0 (restored_previous m t at.1 may), at.1)
  restore-At false m t may at = at

  -- The services of the previous release have been restarted with success to come here.
  abbrev Restarted : Manifest → System W → Type 0
  Restarted m u =
      (uid : ℤ) × (v : System W) × Trace host event s v
      × MayRecover event true m
      × (restart_services host uid (service_manifests m) v ≡ (u, ok tt))

  abbrev Resumed : Manifest → System W × Outcome Bool → Type 0
  Resumed m r = At host event s m r.0 × (r.1 ≡ ok true → Restarted m r.0)

  restarts-Resumed :
      (uid : ℤ) (m : Manifest) (t : System W)
      → MayRecover event true m
      → At host event s m t
      → Resumed m
          (on (restart_services host uid (service_manifests m) t) (λ v w. (w, ok true)) failing)
  restarts-Resumed uid m t may at =
      on_lem (λ r. At host event s m r.0 × (restart_services host uid (service_manifests m) t ≡ r))
        (Resumed m) (restart_services host uid (service_manifests m) t)
        (restart_services-At host event s uid m (service_manifests m) t (inr may) at, refl)
        (λ b v z. (z.0, λ h. (uid, t, at.0, may, z.1))) (λ e v z. (z.0, λ bad. cc))

  remove-Resumed :
      (b : Bool) (m : Manifest) (t : System W)
      → MayRecover event false m
      → At host event s m t
      → Resumed m (
          if b
          then on (acted (host.remove_target m) t) (λ v w. (w, ok false)) failing
          else (t, ok false))
  remove-Resumed true m t may at =
      on_lem (λ r. At host event s m r.0) (Resumed m) (acted (host.remove_target m) t)
        (step at.0 (removed m t at.1 may), at.1) (λ a u y. (y, λ bad. ground (arith, bad)))
        (λ e u y. (y, λ bad. cc))
  remove-Resumed false m t may at = (at, λ bad. ground (arith, bad))

  resume_rollback-Resumed :
      (uid : ℤ) (m : Manifest) (o : Observed) (t : System W)
      → MayUndo event
      → m.state ≡ State.rolling_back
      → At host event s m t
      → Resumed m (resume_rollback host uid m o t)
  unfolding resume_rollback
  resume_rollback-Resumed uid m o t may back at =
      if_lem (Resumed m) m.previous_present
        (λ p.
          on_lem (λ r. At host event s m r.0) (Resumed m) _
            (restore-At
              (not o.installed_present || not (bytes_eq o.installed_sha256 m.previous_sha256)) m t
              (may, back, p) at)
            (λ a u y. restarts-Resumed uid m u (may, back, p) y) (λ e u y. (y, λ bad. cc)))
        (λ p.
          on_lem (λ r. At host event s m r.0) (Resumed m)
            (unload_services host uid (service_manifests m) t)
            (unload_services-At uid m (service_manifests m) t (may, back, p) at)
            (λ a u y. remove-Resumed o.installed_present m u (may, back, p) y)
            (λ e u y. (y, λ bad. cc)))

  clear_if-Right :
      (uid : ℤ) (k : Option CommandKind) (m : Manifest) (o : Observed) (r : Bool) (t : System W)
      → MayUndo event
      → HasFacts host event s m (asked m Event.rollback m.id o r)
      → command_of (decided m Event.rollback m.id o r) ≡ k
      → At host event s m t
      → Right host event s (clear_if host uid k m t)
  clear_if-Right uid (some CommandKind.clear_transaction) m o r t may facts h at =
      clear_slot-Right host event s uid m t
        (clearing-Justified m Event.rollback m.id o r (MayUndo-MayDecide may) facts h) at
  clear_if-Right uid none m o r t may facts h at = (at.0, λ bad. cc)
  clear_if-Right uid (some k) m o r t may facts h at = (at.0, λ bad. cc)

  -- What is observed right after the recovery.
  recovery-HasFacts :
      (m : Manifest) (fresh : Observed) (ready : Bool) (u : System W)
      → Trace host event s u
      → (ready ≡ true → Restarted m u)
      → (observe host m u).1 ≡ ok fresh
      → HasFacts host event s m (asked m Event.rollback m.id fresh ready)
  recovery-HasFacts m fresh false u p r saw = inl ((m.state, u, p, saw), refl)
  recovery-HasFacts m fresh true u p r saw =
      let (uid, v, reached, may, restarts) = r refl in
      inr ((uid, m.state, u, v, reached, may, restarts, saw), refl)

  recover-Right :
      (uid : ℤ) (m : Manifest) (o : Observed) (t : System W)
      → MayUndo event
      → m.state ≡ State.rolling_back
      → At host event s m t
      → Right host event s (recover_slot host uid m o t)
  unfolding recover_slot
  recover-Right uid m o t may back at =
      on_lem (Resumed m) (Right host event s) (resume_rollback host uid m o t)
        (resume_rollback-Resumed uid m o t may back at)
        (λ ready u y.
          on_lem (λ r. At host event s m r.0 × ((observe host m u).1 ≡ r.1)) (Right host event s)
            (observe host m u) ((observe-At host event s m u y.0).0, refl)
            (λ fresh v z.
              clear_if-Right uid (command_of (decided m Event.rollback m.id fresh ready)) m fresh
                ready v may (recovery-HasFacts m fresh ready u y.0.0 (λ is. y.1 (ap ok is)) z.1)
                refl z.0)
            (λ e v z. (z.0.0, λ bad. cc)))
        (λ e u y. (y.0.0, λ bad. cc))

  finish_with-Right :
      (uid : ℤ) (k : Option CommandKind) (m : Manifest) (o : Observed) (t : System W)
      → MayUndo event
      → m.state ≡ State.rolling_back
      → HasSeen m o
      → command_of (decided m Event.rollback m.id o false) ≡ k
      → At host event s m t
      → Right host event s (finish_with host uid k m o t)
  finish_with-Right uid (some CommandKind.clear_transaction) m o t may back seen h at =
      clear_if-Right uid (some CommandKind.clear_transaction) m o false t may (inl (seen, refl)) h
        at
  finish_with-Right uid (some CommandKind.resume_rollback) m o t may back seen h at =
      recover-Right uid m o t may back at
  finish_with-Right uid none m o t may back seen h at = (at.0, λ bad. cc)
  finish_with-Right uid (some k) m o t may back seen h at = (at.0, λ bad. cc)

  pub finish_rollback-Right :
      (uid : ℤ) (m : Manifest) (o : Observed) (t : System W)
      → MayUndo event
      → m.state ≡ State.rolling_back
      → HasSeen m o
      → At host event s m t
      → Right host event s (finish_rollback host uid m o t)
  unfolding finish_rollback
  finish_rollback-Right uid m o t may back seen at =
      finish_with-Right uid (command_of (decided m Event.rollback m.id o false)) m o t may back seen
        refl at

  accept_with-Right :
      (uid : ℤ) (k : Option CommandKind) (m : Manifest) (id : Bytes) (o : Observed) (t : System W)
      → event ≡ Event.accept
      → HasSeen m o
      → command_of (decided m Event.accept id o false) ≡ k
      → At host event s m t
      → Right host event s (accept_with host uid k (decided m Event.accept id o false) m t)
  accept_with-Right uid (some CommandKind.clear_transaction) m id o t is seen h at =
      clear_slot-Right host event s uid m t
        (clearing-Justified m Event.accept id o false (inl (sym is)) (inl (seen, refl)) h) at
  accept_with-Right uid none m id o t is seen h at = (at.0, λ bad. cc)
  accept_with-Right uid (some k) m id o t is seen h at = (at.0, λ bad. cc)

  pub finish_accept-Right :
      (uid : ℤ) (m : Manifest) (id : Bytes) (t : System W)
      → event ≡ Event.accept
      → At host event s m t
      → Right host event s (finish_accept host uid m id t)
  unfolding finish_accept
  finish_accept-Right uid m id t is at =
      on_lem (Observes host event s m) (Right host event s) (observe host m t)
        (observe-At host event s m t at)
        (λ fresh u y.
          accept_with-Right uid (command_of (decided m Event.accept id fresh false)) m id fresh u is
            y.1 refl y.0)
        (λ e u y. (y.0.0, λ bad. cc))

-- ===== src/Release/Manager/Promises.antt =====
-- What a request to internal/releaseactivation/manager.go promises, whatever the machine does and
-- whichever of its operations and writes fail.
use personal_mcp_gateway.Base.{
  true, false, is_empty, Bool-cases, ℤ, Bytes, Bool, Option, none, some, ◌≡◌, ◌⊎◌, inl, inr, refl,
  sym, subst,
}
use personal_mcp_gateway.Release.Types.{State, Event, Manifest, Context, CommandKind}
use personal_mcp_gateway.Release.Decide.Keeps.{
  Later, same, Later-trans, StillHolds, Move-StillHolds,
}
use personal_mcp_gateway.Release.Decide.Moves.{Move}
use personal_mcp_gateway.Release.Manager.Effects.{Host, System}
use personal_mcp_gateway.Release.Manager.{run, accept}
use personal_mcp_gateway.Release.Manager.Protocol.{
  MayDeploy, MayRecover, Step, looked, locked, read, hashed, tidied, tried, installed, restarted,
  waited, restored, unloaded, confirmed, removed, wrote, wrote_recovered, Trace, stay, step,
}
use personal_mcp_gateway.Release.Manager.Discipline.{run-Right}

-- From the slot before, what it may hold after: the same release in a later state or nothing, and
-- nothing where it was clear.
abbrev pub Continues : Option Manifest → Option Manifest → Type 0
Continues none next = next ≡ none
Continues (some m) next = (next ≡ none) ⊎ StillHolds m next

Continues-refl : (slot : Option Manifest) → Continues slot slot
Continues-refl none = refl
Continues-refl (some m) = inr (m.state, same m.state, refl)

Continues-join :
    (o m : Manifest) (x : State) (next : Option Manifest)
    → Later o.state x
    → record o { state = x } ≡ m
    → Continues (some m) next
    → Continues (some o) next
Continues-join o m x next later p h = elim (subst (λ z. Continues (some z) next) (sym p) h) [
  | inl gone ↦ inl gone
  | inr (y, after, is) ↦ inr (y, Later-trans later after, is)
]

Continues-move :
    {c : Context} {e : Event} {k : CommandKind} (start slot next : Option Manifest) (m : Manifest)
    → Continues start slot
    → slot ≡ some m
    → Move c (some m) e k next
    → Continues start next
Continues-move none slot next m kept at move = cc
Continues-move (some o) slot next m (inl gone) at move = cc
Continues-move (some o) slot next m (inr (x, later, is)) at move =
    let p : record o { state = x } ≡ m = cc in
    Continues-join o m x next later p (Move-StillHolds move)

module _ {W : Type 0} (host : Host W) (event : Event) where
  Step-Continues :
      (start : Option Manifest) {s t : System W}
      → Continues start s.slot
      → Step host event s t
      → Continues start t.slot
  Step-Continues start k (looked x s) = k
  Step-Continues start k (locked s) = k
  Step-Continues start k (read s) = k
  Step-Continues start k (hashed s) = k
  Step-Continues start k (tidied s) = k
  Step-Continues start k (tried s) = k
  Step-Continues start k (installed m s at may) = k
  Step-Continues start k (restarted m x s at may) = k
  Step-Continues start k (waited m x s at may) = k
  Step-Continues start k (restored m s at may) = k
  Step-Continues start k (unloaded m x s at may) = k
  Step-Continues start k (confirmed m x s at may) = k
  Step-Continues start k (removed m s at may) = k

  Trace-Continues : {s t : System W} → Trace host event s t → Continues s.slot t.slot
  Trace-Continues (stay s) = Continues-refl s.slot
  Trace-Continues {s} (step p q) = Step-Continues s.slot (Trace-Continues p) q
  Trace-Continues {s} (wrote {t = t} m next x u p at seen saw not_ready may move) =
      Continues-move s.slot t.slot next m (Trace-Continues p) at move
  Trace-Continues {s}
        (wrote_recovered {t = t} m next uid x u v p at seen back restarts saw ready may move) =
      Continues-move s.slot t.slot next m (Trace-Continues p) at move

-- `P` is kept by all that only looks at the machine or keeps the books of the store.
pub record IsPassive {W : Type 0} (host : Host W) (P : W → Type 0) : Type 0 where
  pub look : (x : Manifest) (w : W) → P w → P (host.observe x w).0
  pub lock : (w : W) → P w → P (host.lock w).0
  pub read : (w : W) → P w → P (host.read_active w).0
  pub hash : (w : W) → P w → P (host.hash_controller w).0
  pub tidy : (w : W) → P w → P (host.cleanup_orphans w).0
  pub try : (w : W) → P w → P (host.write_fault w).0

module _ {W : Type 0} (host : Host W) (P : W → Type 0) (passive : IsPassive host P) where
  not_deploying : (m : Manifest) {A : Type 0} → MayDeploy Event.accept m → A
  not_deploying m (is, at) = cc is

  not_recovering : (b : Bool) (m : Manifest) {A : Type 0} → MayRecover Event.accept b m → A
  not_recovering b m (inl is, at, has) = cc is
  not_recovering b m (inr is, at, has) = cc is

  not_restarting :
      (m : Manifest) {A : Type 0} → MayDeploy Event.accept m ⊎ MayRecover Event.accept true m → A
  not_restarting m (inl may) = not_deploying m may
  not_restarting m (inr may) = not_recovering true m may

  Step-accept : {s t : System W} → P s.host → Step host Event.accept s t → P t.host
  Step-accept p (looked x s) = passive.look x s.host p
  Step-accept p (locked s) = passive.lock s.host p
  Step-accept p (read s) = passive.read s.host p
  Step-accept p (hashed s) = passive.hash s.host p
  Step-accept p (tidied s) = passive.tidy s.host p
  Step-accept p (tried s) = passive.try s.host p
  Step-accept p (installed m s at may) = not_deploying m may
  Step-accept p (restarted m x s at may) = not_restarting m may
  Step-accept p (waited m x s at may) = not_restarting m may
  Step-accept p (restored m s at may) = not_recovering true m may
  Step-accept p (unloaded m x s at may) = not_recovering false m may
  Step-accept p (confirmed m x s at may) = not_recovering false m may
  Step-accept p (removed m s at may) = not_recovering false m may

  Trace-accept : {s t : System W} → P s.host → Trace host Event.accept s t → P t.host
  Trace-accept p (stay s) = p
  Trace-accept p (step q r) = Step-accept (Trace-accept p q) r
  Trace-accept p (wrote m next x u q at seen saw not_ready may move) = Trace-accept p q
  Trace-accept p (wrote_recovered m next uid x u v q at seen back restarts saw ready may move) =
      Trace-accept p q

module _ {W : Type 0} (host : Host W) (uid : ℤ) (controller : Bytes) where
  -- Whatever the machine does, a request takes only steps of the protocol, each under what the slot
  -- holds at that time: it installs only for a resume of a prepared release; it restores, unloads and
  -- removes only once the slot says that the release is rolling back, and never for an acceptance; it
  -- restarts services only in these two cases; and it writes or clears the slot only by a move that allows it
  -- for what was observed of the release after such steps of this request, which counts the previous release as
  -- recovered only where that observation was made right after all its services were restarted and found ready.
  pub run_keeps_protocol :
      (event : Event) (id : Bytes) (allow_current_id : Bool) (s : System W)
      → Trace host event s (run host uid controller event id allow_current_id s).0
  run_keeps_protocol event id allow s = (run-Right host uid controller event s id allow).0

  -- Where the answer to a request has no error, the slot holds exactly the manifest that is answered,
  -- and is clear where none is.
  pub run_tells_truth :
      (event : Event) (id : Bytes) (allow_current_id : Bool) (s : System W)
      → (run host uid controller event id allow_current_id s).1.err ≡ none
      → (run host uid controller event id allow_current_id s).0.slot
        ≡ (run host uid controller event id allow_current_id s).1.manifest
  run_tells_truth event id allow s = (run-Right host uid controller event s id allow).1

  -- Whatever fails on the way, a request leaves a clear slot clear, and a slot with a release is clear
  -- after it or holds the same release, unchanged but for a later state.
  pub run_keeps_release :
      (event : Event) (id : Bytes) (allow_current_id : Bool) (s : System W)
      → Continues s.slot (run host uid controller event id allow_current_id s).0.slot
  run_keeps_release event id allow s =
      Trace-Continues host event (run_keeps_protocol event id allow s)

  -- An acceptance changes nothing on the machine: whatever holds of it and is kept by observing it and
  -- by the books of the store holds after the acceptance.
  pub accept_changes_nothing :
      (P : W → Type 0) (id : Bytes) (s : System W)
      → IsPassive host P
      → P s.host
      → P (accept host uid controller id s).0.host
  unfolding accept
  accept_changes_nothing P id s passive p = elim (Bool-cases (is_empty id)) [
    | inl e ↦ rw e p
    | inr e ↦ rw e (Trace-accept host P passive p (run_keeps_protocol Event.accept id false s))
  ]

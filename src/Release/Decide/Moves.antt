-- ===== src/Release/Decide/Moves.antt =====
-- The moves of the release slot of internal/releaseactivation/model.go, each with what must hold.
use personal_mcp_gateway.Base.{true, Option, none, some, [], ◌∷◌, ◌≡◌, ◌⊎◌}
use personal_mcp_gateway.Release.Types.{State, Event, Manifest, Context, CommandKind, Decision}
use personal_mcp_gateway.Release.Decide.Allowed.{
  IsAuthentic, SameRuntime, Installed, TargetKnown, IsUntouched, IsServing, IsRecovered,
  IsWellFormed,
}

-- A move of a slot that holds a manifest: from its state by an event, to a command and a new slot.
pub data Active (m : Manifest) (c : Context) : Event → CommandKind → Option Manifest → Type 0 where
  deploy :
      m.state ≡ State.prepared
      → SameRuntime m c.observed
      → TargetKnown m c.observed
      → Active m c Event.resume CommandKind.resume_deployment (some m)
  ready :
      m.state ≡ State.prepared
      → SameRuntime m c.observed
      → Installed m.candidate_sha256 c.observed
      → c.observed.runtime_ready ≡ true
      → Active m c Event.deployment_ready CommandKind.persist_state
          (some (record m { state = State.pending }))
  abandon :
      m.state ≡ State.prepared
      → SameRuntime m c.observed
      → TargetKnown m c.observed
      → Active m c Event.rollback CommandKind.persist_state
          (some (record m { state = State.rolling_back }))
  choose :
      m.state ≡ State.pending
      → IsServing m c.observed
      → Active m c Event.accept CommandKind.persist_state
          (some (record m { state = State.accepting }))
  undo :
      m.state ≡ State.pending
      → SameRuntime m c.observed
      → Installed m.candidate_sha256 c.observed
      → Active m c Event.rollback CommandKind.persist_state
          (some (record m { state = State.rolling_back }))
  finish :
      m.state ≡ State.accepting
      → IsServing m c.observed
      → Active m c Event.accept CommandKind.clear_transaction none
  recover :
      m.state ≡ State.rolling_back
      → SameRuntime m c.observed
      → TargetKnown m c.observed
      → ¬ IsRecovered m c.observed c.rollback_ready
      → Active m c Event.rollback CommandKind.resume_rollback (some m)
  restored :
      m.state ≡ State.rolling_back
      → SameRuntime m c.observed
      → TargetKnown m c.observed
      → IsRecovered m c.observed c.rollback_ready
      → Active m c Event.rollback CommandKind.clear_transaction none

-- A move of the slot, with what every move requires.
pub data Move (c : Context) : Option Manifest → Event → CommandKind → Option Manifest → Type 0 where
  publish :
      (m : Manifest)
      → c.prepared ≡ some m
      → m.state ≡ State.prepared
      → (c.release_id ≡ []) ⊎ (c.release_id ≡ m.id)
      → IsWellFormed m
      → IsAuthentic m c.observed
      → IsUntouched m c.observed
      → SameRuntime m c.observed
      → Move c none Event.prepare CommandKind.publish_prepared (some m)
  held :
      (m : Manifest) {e : Event} {k : CommandKind} {next : Option Manifest}
      → IsWellFormed m
      → c.release_id ≡ m.id
      → IsAuthentic m c.observed
      → Active m c e k next
      → Move c (some m) e k next

-- A decision that carries one command.
abbrev pub Issues : Decision → CommandKind → Option Manifest → Type 0
Issues d k next =
    (d.commands ≡ k ∷ []) × (d.next.manifest ≡ next) × (d.applied ≡ true) × (d.err ≡ none)

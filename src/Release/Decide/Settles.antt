-- ===== src/Release/Decide/Settles.antt =====
-- Every outcome of `Decide` of internal/releaseactivation/model.go: applied or refused, never mixed.
use personal_mcp_gateway.Base.{
  Bool, true, false, Option, none, some, [], ◌≡◌, ◌⊎◌, inl, inr, refl, if◌then◌else◌,
}
use personal_mcp_gateway.Release.Types.{
  State, Event, Manifest, Snapshot, Observed, Context, CommandKind, Error, Decision,
}
use personal_mcp_gateway.Release.Decide.{
  rejected, checked, apply_command, prepare_with, decide_prepare, decide_prepared, decide_pending,
  decide_accepting, decide_rolling_back, decide_active, decide_slot, undecided, decide,
}
use personal_mcp_gateway.Release.Decide.Moves.{Issues}

-- Applied with no error and one command, or refused with an error, no command and the old slot.
abbrev pub IsSettled : Snapshot → Decision → Type 0
IsSettled s d =
    (d.current ≡ s)
    × (((k : CommandKind) × (next : Option Manifest) × Issues d k next)
        ⊎ ((x : Error) × (d.err ≡ some x) × (d.commands ≡ []) × (d.applied ≡ false) × (d.next ≡ s)))

module _ (s : Snapshot) where
  abbrev start : Decision
  start = undecided s

  IsSettled-rejected : (x : Error) → IsSettled s (rejected start x)
  unfolding rejected
  IsSettled-rejected x = (refl, inr (x, refl, refl, refl, refl))

  IsSettled-apply : (next : Snapshot) (k : CommandKind) → IsSettled s (apply_command start next k)
  IsSettled-apply next k = (refl, inl (k, next.manifest, (refl, refl, refl, refl)))

  IsSettled-checked :
      (o : Option Error) (d : Decision) → IsSettled s d → IsSettled s (checked o start d)
  IsSettled-checked none d h = h
  IsSettled-checked (some x) d h = IsSettled-rejected x

  IsSettled-if :
      (b : Bool) (d e : Decision) → IsSettled s d → IsSettled s e → IsSettled s (if b then d else e)
  IsSettled-if true d e hd he = hd
  IsSettled-if false d e hd he = he

  ruleset settled = (IsSettled-rejected, IsSettled-apply, IsSettled-checked, IsSettled-if)

  prepare_settles : (c : Context) → IsSettled s (decide_prepare start c)
  unfolding decide_prepare
  prepare_settles c = go c.prepared
    where
      go : (p : Option Manifest) → IsSettled s (prepare_with start c p)
      go none = search settled
      go (some m) = search settled depth 8

  prepared_settles :
      (e : Event) (m : Manifest) (o : Observed) → IsSettled s (decide_prepared start e m o)
  unfolding decide_prepared
  prepared_settles Event.resume m o = search settled
  prepared_settles Event.deployment_ready m o = search settled
  prepared_settles Event.rollback m o = search settled
  prepared_settles _ m o = search settled

  pending_settles :
      (e : Event) (m : Manifest) (o : Observed) → IsSettled s (decide_pending start e m o)
  unfolding decide_pending
  pending_settles Event.accept m o = search settled
  pending_settles Event.rollback m o = search settled
  pending_settles _ m o = search settled

  accepting_settles : (m : Manifest) (o : Observed) → IsSettled s (decide_accepting start m o)
  unfolding decide_accepting
  accepting_settles m o = search settled

  rolling_back_settles :
      (m : Manifest) (o : Observed) (r : Bool) → IsSettled s (decide_rolling_back start m o r)
  unfolding decide_rolling_back
  rolling_back_settles m o r = search settled depth 8

  active_settles :
      (t : State) (e : Event) (m : Manifest) (c : Context)
      → IsSettled s (decide_active t start e m c)
  unfolding decide_active
  active_settles State.prepared e m c = prepared_settles e m c.observed
  active_settles State.pending e m c = pending_settles e m c.observed
  active_settles State.accepting e m c = accepting_settles m c.observed
  active_settles State.rolling_back e m c = rolling_back_settles m c.observed c.rollback_ready
  active_settles _ e m c = search settled

  slot_settles :
      (e : Event) (c : Context) (p : Option Manifest) → IsSettled s (decide_slot start e c p)
  slot_settles Event.prepare c none = prepare_settles c
  slot_settles _ c none = search settled
  slot_settles Event.prepare c (some m) = search settled
  slot_settles _ c (some m) = search (settled, active_settles) depth 8

-- Whatever the input, `decide` keeps the snapshot as its current one, and either it is applied with
-- no error and exactly one command, or it is refused with an error, no command and the slot as it was.
pub decide_settles : (s : Snapshot) (e : Event) (c : Context) → IsSettled s (decide s e c)
unfolding decide
decide_settles s e c =
    search (IsSettled-rejected s, IsSettled-checked s, IsSettled-if s, slot_settles s)

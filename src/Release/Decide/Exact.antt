-- ===== src/Release/Decide/Exact.antt =====
-- `Decide` of internal/releaseactivation/model.go issues a command exactly for the moves of the slot.
use personal_mcp_gateway.Base.{
  bytes_eq_iff, true, false, Option, none, some, ◌≡◌, ◌↔◌, inl, inr, refl, sym, subst, arith,
  Option-cases,
}
use personal_mcp_gateway.Release.Types.{
  State, Event, Manifest, Snapshot, Context, CommandKind, Decision,
}
use personal_mcp_gateway.Release.Validate.{validate_snapshot}
use personal_mcp_gateway.Release.Decide.{
  undecided, decide_prepare, decide_active, event_allowed, valid_event, decide,
}
use personal_mcp_gateway.Release.Decide.Allowed.{
  IsAuthentic, IsWellFormed, validate_active_observations_iff,
}
use personal_mcp_gateway.Release.Decide.Moves.{
  Active, deploy, ready, abandon, choose, undo, finish, recover, restored, Move, publish, held,
  Issues,
}
use personal_mcp_gateway.Release.Decide.Outcomes.{
  Issues-decide_resume, Issues-decide_ready, Issues-decide_abandon, Issues-decide_choose,
  Issues-decide_undo, Issues-decide_accepting, Issues-decide_rolling_back, Issues-decide_prepare,
}

-- The snapshot of a slot.
abbrev slot : Option Manifest → Snapshot
slot m = record { manifest = m }

prepare_not_allowed : (s : State) → event_allowed s Event.prepare ≡ false
unfolding event_allowed
prepare_not_allowed s = ground arith

valid_of_allowed : (s : State) (e : Event) → event_allowed s e ≡ true → valid_event e ≡ true
unfolding event_allowed valid_event
valid_of_allowed s e h = ground arith

module _ (m : Manifest) (c : Context) (k : CommandKind) (next : Option Manifest) where
  Issues-decide_held :
      (e : Event)
      → Issues (decide (slot (some m)) e c) k next ↔ (
          IsWellFormed m
          × (c.release_id ≡ m.id)
          × IsAuthentic m c.observed
          × (event_allowed m.state e ≡ true)
          × Issues (decide_active m.state (undecided (slot (some m))) e m c) k next)
  unfolding decide
  Issues-decide_held e = ground (
    arith,
    bytes_eq_iff c.release_id m.id,
    validate_active_observations_iff m c.observed,
    prepare_not_allowed m.state,
    valid_of_allowed m.state e,
  )

  abbrev before : Decision
  before = undecided (slot (some m))

  -- What the decision in state `s` issues is a move of the slot.
  Active-of_Issues :
      (s : State) (e : Event)
      → m.state ≡ s
      → event_allowed s e ≡ true
      → Issues (decide_active s before e m c) k next
      → Active m c e k next
  unfolding event_allowed decide_active
  Active-of_Issues State.prepared Event.resume p a h =
      let (r, t, kE, nE) = (Issues-decide_resume m c.observed before refl k next).0 h in
      rw (kE, nE) (deploy p r t)
  Active-of_Issues State.prepared Event.deployment_ready p a h =
      let (r, i, ok, kE, nE) = (Issues-decide_ready m c.observed before refl k next).0 h in
      rw (kE, nE) (ready p r i ok)
  Active-of_Issues State.prepared Event.rollback p a h =
      let (r, t, kE, nE) = (Issues-decide_abandon m c.observed before refl k next).0 h in
      rw (kE, nE) (abandon p r t)
  Active-of_Issues State.pending Event.accept p a h =
      let (v, kE, nE) = (Issues-decide_choose m c.observed before refl k next).0 h in
      rw (kE, nE) (choose p v)
  Active-of_Issues State.pending Event.rollback p a h =
      let (r, i, kE, nE) = (Issues-decide_undo m c.observed before refl k next).0 h in
      rw (kE, nE) (undo p r i)
  Active-of_Issues State.accepting Event.accept p a h =
      let (v, kE, nE) = (Issues-decide_accepting m c.observed before refl k next).0 h in
      rw (kE, nE) (finish p v)
  Active-of_Issues State.rolling_back Event.rollback p a h =
      let (r, t, way) =
        (Issues-decide_rolling_back m c.observed before refl c.rollback_ready k next).0 h in
      elim way [
        | inl (g, kE, nE) ↦ rw (kE, nE) (restored p r t g)
        | inr (g, kE, nE) ↦ rw (kE, nE) (recover p r t g)
      ]
  Active-of_Issues _ _ p a h = cc

-- A move of a held slot is allowed in its state, and the decision issues it.
module _ (m : Manifest) (c : Context) where
  Active-allowed :
      {e : Event} {k : CommandKind} {next : Option Manifest}
      → Active m c e k next
      → event_allowed m.state e ≡ true
  unfolding event_allowed
  Active-allowed (deploy p r t) = rw p
  Active-allowed (ready p r i q) = rw p
  Active-allowed (abandon p r t) = rw p
  Active-allowed (choose p v) = rw p
  Active-allowed (undo p r i) = rw p
  Active-allowed (finish p v) = rw p
  Active-allowed (recover p r t g) = rw p
  Active-allowed (restored p r t g) = rw p

  abbrev Decided : State → Event → CommandKind → Option Manifest → Type 0
  Decided s e k next = Issues (decide_active s (undecided (slot (some m))) e m c) k next

  in_state :
      (s : State) (e : Event) (k : CommandKind) (next : Option Manifest)
      → m.state ≡ s
      → Decided s e k next
      → Decided m.state e k next
  in_state s e k next p h = subst (λ t. Decided t e k next) (sym p) h

  Issues_of_Active :
      {e : Event} {k : CommandKind} {next : Option Manifest}
      → Active m c e k next
      → Decided m.state e k next
  unfolding decide_active
  Issues_of_Active (deploy p r t) =
      in_state _ _ _ _ p ((Issues-decide_resume m c.observed _ refl _ _).1 (r, t, refl, refl))
  Issues_of_Active (ready p r i q) =
      in_state _ _ _ _ p ((Issues-decide_ready m c.observed _ refl _ _).1 (r, i, q, refl, refl))
  Issues_of_Active (abandon p r t) =
      in_state _ _ _ _ p ((Issues-decide_abandon m c.observed _ refl _ _).1 (r, t, refl, refl))
  Issues_of_Active (choose p v) =
      in_state _ _ _ _ p ((Issues-decide_choose m c.observed _ refl _ _).1 (v, refl, refl))
  Issues_of_Active (undo p r i) =
      in_state _ _ _ _ p ((Issues-decide_undo m c.observed _ refl _ _).1 (r, i, refl, refl))
  Issues_of_Active (finish p v) =
      in_state _ _ _ _ p ((Issues-decide_accepting m c.observed _ refl _ _).1 (v, refl, refl))
  Issues_of_Active (recover p r t g) =
      in_state _ _ _ _ p
        ((Issues-decide_rolling_back m c.observed _ refl _ _ _).1 (r, t, inr (g, refl, refl)))
  Issues_of_Active (restored p r t g) =
      in_state _ _ _ _ p
        ((Issues-decide_rolling_back m c.observed _ refl _ _ _).1 (r, t, inl (g, refl, refl)))

Issues-decide_clear :
    (c : Context) (k : CommandKind) (next : Option Manifest)
    → Issues (decide (slot none) Event.prepare c) k next
      ↔ Issues (decide_prepare (undecided (slot none)) c) k next
unfolding decide validate_snapshot valid_event
Issues-decide_clear c k next = (λ h. h, λ h. h)

nothing_prepared :
    (c : Context) (k : CommandKind) (next : Option Manifest)
    → c.prepared ≡ none
    → ¬ Issues (decide_prepare (undecided (slot none)) c) k next
unfolding decide_prepare
nothing_prepared c k next p h = ground arith

Move-of_clear :
    (c : Context) (e : Event) (k : CommandKind) (next : Option Manifest)
    → Issues (decide (slot none) e c) k next
    → Move c none e k next
unfolding decide validate_snapshot valid_event
Move-of_clear c Event.prepare k next h =
    let h' = (Issues-decide_clear c k next).0 h in
    elim (Option-cases c.prepared) [
      | inl p ↦ absurd (nothing_prepared c k next p h')
      | inr (m, p) ↦
          let (s, i, w, a, u, r, kE, nE) =
            (Issues-decide_prepare c (undecided (slot none)) k next m refl p).0 h' in
          rw (kE, nE) (publish m p s i w a u r)
    ]
Move-of_clear c _ k next h = cc

Move-of_decide :
    (before : Option Manifest) (e : Event) (c : Context) (k : CommandKind) (next : Option Manifest)
    → Issues (decide (slot before) e c) k next
    → Move c before e k next
Move-of_decide none e c k next h = Move-of_clear c e k next h
Move-of_decide (some m) e c k next h =
    let (w, i, a, ok, rest) = (Issues-decide_held m c k next e).0 h in
    held m w i a (Active-of_Issues m c k next m.state e refl ok rest)

decide_of_Move :
    (c : Context) {before : Option Manifest} {e : Event} {k : CommandKind} {next : Option Manifest}
    → Move c before e k next
    → Issues (decide (slot before) e c) k next
decide_of_Move c (publish m p s i w a u r) =
    (Issues-decide_clear c _ _).1
      ((Issues-decide_prepare c _ _ _ m refl p).1 (s, i, w, a, u, r, refl, refl))
decide_of_Move c (held m w i a move) =
    (Issues-decide_held m c _ _ _).1 (w, i, a, Active-allowed m c move, Issues_of_Active m c move)

-- For every snapshot, event and context, `decide` issues the command `k` and hands on the manifest
-- `next`, applied and with no error, exactly when that is one of the moves of the slot.
pub decide_exact :
    (s : Snapshot) (e : Event) (c : Context) (k : CommandKind) (next : Option Manifest)
    → Issues (decide s e c) k next ↔ Move c s.manifest e k next
decide_exact s e c k next = (Move-of_decide s.manifest e c k next, decide_of_Move c)

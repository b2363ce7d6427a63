-- ===== src/Release/Decide/Keeps.antt =====
-- What a run of decisions of internal/releaseactivation/model.go keeps: a well-formed slot, one
-- release from its publication to its end, and a direction that is never turned back.
use personal_mcp_gateway.Base.{
  true, false, Option, none, some, List, [], ◌∷◌, ◌≡◌, ◌∙◌, ◌⊎◌, inl, inr, refl, sym, ap, arith,
}
use personal_mcp_gateway.Release.Types.{State, Event, Manifest, Snapshot, Context, CommandKind}
use personal_mcp_gateway.Release.Validate.{
  is_active_state, header_malformed, services_malformed, previous_malformed, manifest_malformed,
  validate_snapshot,
}
use personal_mcp_gateway.Release.Decide.{decide}
use personal_mcp_gateway.Release.Decide.Allowed.{IsServing, IsRecovered, IsWellFormed}
use personal_mcp_gateway.Release.Decide.Moves.{
  Active, deploy, ready, abandon, choose, undo, finish, recover, restored, Move, publish, held,
}
use personal_mcp_gateway.Release.Decide.Exact.{decide_exact}
use personal_mcp_gateway.Release.Decide.Settles.{decide_settles}

header-state :
    (m : Manifest) (s : State)
    → is_active_state s ≡ true
    → header_malformed m ≡ false
    → header_malformed (record m { state = s }) ≡ false
unfolding header_malformed
header-state m s a h = ground arith

-- A well-formed manifest is well-formed in every other active state.
IsWellFormed-state :
    (m : Manifest) (s : State)
    → is_active_state s ≡ true
    → IsWellFormed m
    → IsWellFormed (record m { state = s })
unfolding validate_snapshot manifest_malformed services_malformed previous_malformed
IsWellFormed-state m s a h = ground (arith, header-state m s)

Active-IsWellFormed :
    {m : Manifest} {c : Context} {e : Event} {k : CommandKind} {next : Option Manifest}
    → IsWellFormed m
    → Active m c e k next
    → validate_snapshot (record { manifest = next }) ≡ none
unfolding validate_snapshot is_active_state
Active-IsWellFormed w (deploy p r t) = w
Active-IsWellFormed {m} w (ready p r i q) = IsWellFormed-state m State.pending refl w
Active-IsWellFormed {m} w (abandon p r t) = IsWellFormed-state m State.rolling_back refl w
Active-IsWellFormed {m} w (choose p v) = IsWellFormed-state m State.accepting refl w
Active-IsWellFormed {m} w (undo p r i) = IsWellFormed-state m State.rolling_back refl w
Active-IsWellFormed w (finish p v) = refl
Active-IsWellFormed w (recover p r t g) = w
Active-IsWellFormed w (restored p r t g) = refl

Move-IsWellFormed :
    {c : Context} {before : Option Manifest} {e : Event} {k : CommandKind} {next : Option Manifest}
    → Move c before e k next
    → validate_snapshot (record { manifest = next }) ≡ none
Move-IsWellFormed (publish m p s i w a u r) = w
Move-IsWellFormed (held m w i a move) = Active-IsWellFormed w move

-- Whatever the event and the context, a decision about a well-formed slot hands on a well-formed slot.
pub decide_keeps_valid :
    (s : Snapshot) (e : Event) (c : Context)
    → validate_snapshot s ≡ none
    → validate_snapshot (decide s e c).next ≡ none
decide_keeps_valid s e c w = elim (decide_settles s e c).1 [
  | inl (k, next, issued) ↦
      Move-IsWellFormed
        ((decide_exact s e c k (decide s e c).next.manifest).0 (issued.0, refl, issued.2, issued.3))
  | inr (x, err, none_issued, not_applied, same) ↦ rw same w
]

-- From each state of a release, the states that it may still take.
pub data Later : State → State → Type 0 where
  same : (s : State) → Later s s
  deployed : Later State.prepared State.pending
  chosen : Later State.pending State.accepting
  abandoned : Later State.prepared State.rolling_back
  undone : Later State.pending State.rolling_back
  deployed_chosen : Later State.prepared State.accepting

pub Later-trans : {s t u : State} → Later s t → Later t u → Later s u
Later-trans (same s) q = q
Later-trans p (same t) = p
Later-trans deployed chosen = deployed_chosen
Later-trans deployed undone = abandoned

-- The slot holds the release of `m`, unchanged but for a later state.
abbrev pub StillHolds : Manifest → Option Manifest → Type 0
StillHolds m next = (s : State) × Later m.state s × (next ≡ some (record m { state = s }))

Active-StillHolds :
    {m : Manifest} {c : Context} {e : Event} {k : CommandKind} {next : Option Manifest}
    → Active m c e k next
    → (next ≡ none) ⊎ StillHolds m next
Active-StillHolds {m} (deploy p r t) = inr (m.state, same m.state, refl)
Active-StillHolds (ready p r i q) = inr (State.pending, rw p deployed, refl)
Active-StillHolds (abandon p r t) = inr (State.rolling_back, rw p abandoned, refl)
Active-StillHolds (choose p v) = inr (State.accepting, rw p chosen, refl)
Active-StillHolds (undo p r i) = inr (State.rolling_back, rw p undone, refl)
Active-StillHolds (finish p v) = inl refl
Active-StillHolds {m} (recover p r t g) = inr (m.state, same m.state, refl)
Active-StillHolds (restored p r t g) = inl refl

pub Move-StillHolds :
    {m : Manifest} {c : Context} {e : Event} {k : CommandKind} {next : Option Manifest}
    → Move c (some m) e k next
    → (next ≡ none) ⊎ StillHolds m next
Move-StillHolds (held m w i a move) = Active-StillHolds move

decide-StillHolds :
    (m : Manifest) (e : Event) (c : Context)
    → let next = (decide (record { manifest = some m }) e c).next.manifest in
      (next ≡ none) ⊎ StillHolds m next
decide-StillHolds m e c =
    let s : Snapshot = record { manifest = some m } in
    elim (decide_settles s e c).1 [
      | inl (k, next, issued) ↦ Move-StillHolds (
          (decide_exact s e c k (decide s e c).next.manifest).0
            (issued.0, refl, issued.2, issued.3))
      | inr (x, err, none_issued, not_applied, same_slot) ↦
          inr (m.state, same m.state, ap (λ (t : Snapshot). t.manifest) same_slot)
    ]

-- The decisions about one release, each on the slot that the last one handed on, until it is clear.
pub follow : Option Manifest → List (Event × Context) → Option Manifest
follow none events = none
follow (some m) [] = some m
follow (some m) ((e, c) ∷ r) = follow (decide (record { manifest = some m }) e c).next.manifest r

module _ (m : Manifest) (e : Event) (c : Context) (r : List (Event × Context)) where
  follow_to :
      (next : Option Manifest)
      → (decide (record { manifest = some m }) e c).next.manifest ≡ next
      → follow (some m) ((e, c) ∷ r) ≡ follow next r
  unfolding follow
  follow_to next p = ap (λ x. follow x r) p

follow_clear : (r : List (Event × Context)) → follow none r ≡ none
unfolding follow
follow_clear r = refl

-- However many events follow, in whatever contexts, the slot is clear or still holds the same release
-- with a state that comes later: no identity, artifact or path of it changes, and an accepting release
-- is never rolled back nor a rolling-back one accepted.
pub follow_one_release :
    (m : Manifest) (events : List (Event × Context))
    → (follow (some m) events ≡ none) ⊎ StillHolds m (follow (some m) events)
follow_one_release m [] = inr (m.state, same m.state, unfold follow in refl)
follow_one_release m ((e, c) ∷ r) = elim (decide-StillHolds m e c) [
  | inl gone ↦ inl (follow_to m e c r none gone ∙ follow_clear r)
  | inr (s, later, next) ↦
      let m' : Manifest = record m { state = s } in
      let to = follow_to m e c r (some m') next in
      elim (follow_one_release m' r) [
        | inl gone ↦ inl (to ∙ gone)
        | inr (t, later', end) ↦ inr (t, Later-trans later later', to ∙ end)
      ]
]

-- What must hold where the slot of a release becomes clear.
abbrev pub ClearsSafely : Manifest → Event → Context → Type 0
ClearsSafely m e c =
    ((m.state ≡ State.accepting) × (e ≡ Event.accept) × IsServing m c.observed)
    ⊎ ((m.state ≡ State.rolling_back)
        × (e ≡ Event.rollback)
        × IsRecovered m c.observed c.rollback_ready)

Active-ClearsSafely :
    {m : Manifest} {c : Context} {e : Event} {k : CommandKind} {next : Option Manifest}
    → Active m c e k next
    → next ≡ none
    → ClearsSafely m e c
Active-ClearsSafely (finish p v) n = inl (p, refl, v)
Active-ClearsSafely (restored p r t g) n = inr (p, refl, g)
Active-ClearsSafely (deploy p r t) n = cc
Active-ClearsSafely (ready p r i q) n = cc
Active-ClearsSafely (abandon p r t) n = cc
Active-ClearsSafely (choose p v) n = cc
Active-ClearsSafely (undo p r i) n = cc
Active-ClearsSafely (recover p r t g) n = cc

Move-ClearsSafely :
    {m : Manifest} {c : Context} {e : Event} {k : CommandKind} {next : Option Manifest}
    → Move c (some m) e k next
    → next ≡ none
    → ClearsSafely m e c
Move-ClearsSafely (held m w i a move) n = Active-ClearsSafely move n

-- A decision clears the slot of a release only if the release is accepting and its candidate is
-- installed and serves, or it is rolling back and the previous release is restored and serves after its
-- restart or, on a first install, nothing is installed and the service is unloaded.
pub decide-ClearsSafely :
    (m : Manifest) (e : Event) (c : Context)
    → (decide (record { manifest = some m }) e c).next.manifest ≡ none
    → ClearsSafely m e c
decide-ClearsSafely m e c gone =
    let s : Snapshot = record { manifest = some m } in
    elim (decide_settles s e c).1 [
      | inl (k, next, issued) ↦
          Move-ClearsSafely
            ((decide_exact s e c k (decide s e c).next.manifest).0
              (issued.0, refl, issued.2, issued.3))
            gone
      | inr (x, err, none_issued, not_applied, same_slot) ↦
          let kept = sym (ap (λ (t : Snapshot). t.manifest) same_slot) ∙ gone in cc kept
    ]

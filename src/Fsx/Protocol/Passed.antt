-- ===== src/Fsx/Protocol/Passed.antt =====
-- The records that have passed one side of internal/fsx/mutation_protocol.go in each of its phases, and
-- how one more record changes them.
use personal_mcp_gateway.Base.{
  ℕ, zero, suc, ◌≤◌, Bytes, Bool, true, false, ◌||◌, Option, none, some, List, [], ◌∷◌, length, ◌≡◌,
  ◌≢◌, ◌⊎◌, inl, inr, subst, ◌∙◌, sym, ap, refl, arith,
}
use personal_mcp_gateway.Fsx.Protocol.Types.{Phase, Control, Side, Protocol}
use personal_mcp_gateway.Fsx.Protocol.Side.{sends, receives}

-- The records that have passed, the last one first, when a side is in a phase; `k` of them report that
-- the payload is complete.
abbrev pub reports : ℕ → List Phase
reports zero = Phase.stage_announced ∷ Phase.stage_ack ∷ Phase.stage_created ∷ Phase.request ∷ []
reports (suc k) = Phase.payload_complete ∷ reports k

abbrev pub history : Phase → ℕ → List Phase
history Phase.request k = Phase.request ∷ []
history Phase.stage_created k = Phase.stage_created ∷ Phase.request ∷ []
history Phase.stage_ack k = Phase.stage_ack ∷ Phase.stage_created ∷ Phase.request ∷ []
history Phase.stage_announced k = reports 0
history Phase.payload_complete k = reports k
history Phase.commit k = Phase.commit ∷ reports k
history Phase.terminal k = Phase.terminal ∷ Phase.commit ∷ reports k
history _ k = []

-- The phases after the payload.
abbrev pub past_payload : Phase → Bool
past_payload Phase.payload_complete = true
past_payload Phase.commit = true
past_payload Phase.terminal = true
past_payload _ = false

abbrev pub phases : List Control → List Phase
phases [] = []
phases (c ∷ passed) = c.phase ∷ phases passed

-- The size that the request declared: the first record that passed, so the last of the list.
abbrev pub declared : List Control → Option ℕ
declared [] = none
declared (c ∷ []) = some c.payload_bytes
declared (c ∷ d ∷ passed) = declared (d ∷ passed)

abbrev pub HasMoved : List Control → Option Bytes → Type 0
HasMoved passed none = ⊥
HasMoved passed (some b) = declared passed ≡ some (length b)

-- What a side that is open knows of the size.
abbrev pub Knows : Protocol → List Control → Type 0
Knows p passed =
    (p.phase ≡ Phase.unset) ⊎ (declared passed ≡ some p.payload) × (p.payload ≤ 8_388_608)

pub record IsOrderly (p : Protocol) (passed : List Control) (payload : Option Bytes) : Type 0 where
  pub k : ℕ
  pub shape : phases passed ≡ history p.phase k
  pub moved : past_payload p.phase ≡ true → HasMoved passed payload
  pub size : Knows p passed

-- One more record.
extend :
    (s : Side) (a b : Phase) (k : ℕ)
    → (sends s a b || receives s a b) ≡ true
    → (j : ℕ) × (b ∷ history a k ≡ history b j)
extend Side.parent Phase.unset Phase.request k h = (0, refl)
extend Side.parent Phase.request Phase.stage_created k h = (0, refl)
extend Side.parent Phase.stage_created Phase.stage_ack k h = (0, refl)
extend Side.parent Phase.stage_ack Phase.stage_announced k h = (0, refl)
extend Side.parent Phase.payload_complete Phase.payload_complete k h = (suc k, refl)
extend Side.parent Phase.payload_complete Phase.commit k h = (k, refl)
extend Side.parent Phase.commit Phase.terminal k h = (k, refl)
extend Side.helper Phase.unset Phase.request k h = (0, refl)
extend Side.helper Phase.request Phase.stage_created k h = (0, refl)
extend Side.helper Phase.stage_created Phase.stage_ack k h = (0, refl)
extend Side.helper Phase.stage_ack Phase.stage_announced k h = (0, refl)
extend Side.helper Phase.payload_complete Phase.payload_complete k h = (suc k, refl)
extend Side.helper Phase.payload_complete Phase.commit k h = (k, refl)
extend Side.helper Phase.commit Phase.terminal k h = (k, refl)
extend _ _ _ k h = cc

-- A record lets a side past the payload only from there, and leaves the payload's size alone there.
stays_past :
    (s : Side) (a b : Phase)
    → (sends s a b || receives s a b) ≡ true
    → past_payload b ≡ true
    → (past_payload a ≡ true) × (b ≢ Phase.request)
stays_past s a b h g = ground arith

pub or_left : (a b : Bool) → a ≡ true → (a || b) ≡ true
or_left a b h = ground arith

pub or_right : (a b : Bool) → b ≡ true → (a || b) ≡ true
or_right a b h = ground arith

-- The first record is the request, and no other is.
first_is_request :
    (s : Side) (a b : Phase) (k : ℕ)
    → (sends s a b || receives s a b) ≡ true
    → history a k ≡ []
    → b ≡ Phase.request
first_is_request Side.parent Phase.unset Phase.request k h e = refl
first_is_request Side.helper Phase.unset Phase.request k h e = refl
first_is_request _ Phase.payload_complete _ zero h e = cc
first_is_request _ Phase.payload_complete _ (suc k) h e = cc
first_is_request _ _ _ k h e = cc

request_first :
    (s : Side) (a : Phase)
    → (sends s a Phase.request || receives s a Phase.request) ≡ true
    → a ≡ Phase.unset
request_first s a h = ground arith

later_is_not :
    (s : Side) (a b x : Phase) (k : ℕ) (l : List Phase)
    → (sends s a b || receives s a b) ≡ true
    → x ∷ l ≡ history a k
    → (a ≢ Phase.unset) × (b ≢ Phase.request)
later_is_not s a b x k l h e =
    ((λ u. cc (rw u at e)), λ r. cc (rw (request_first s a (rw r at h)) at e))

-- What both kinds of a record that passes have in common.
pub record IsMove (p q : Protocol) (c : Control) : Type 0 where
  pub way : (sends p.side p.phase c.phase || receives p.side p.phase c.phase) ≡ true
  pub phase : q.phase ≡ c.phase
  pub small : c.phase ≡ Phase.request → q.payload ≤ 8_388_608
  pub first : c.phase ≡ Phase.request → q.payload ≡ c.payload_bytes
  pub same : c.phase ≢ Phase.request → q.payload ≡ p.payload

module _ (p q : Protocol) (c : Control) (m : IsMove p q c) where
  Knows-more :
      (k : ℕ) (passed : List Control)
      → phases passed ≡ history p.phase k
      → Knows p passed
      → Knows q (c ∷ passed)
  Knows-more k [] shape size =
      let is = first_is_request p.side p.phase c.phase k m.way (sym shape) in
      inr (ap some (sym (m.first is)), m.small is)
  Knows-more k (d ∷ passed) shape size =
      let (open_before, not_request) =
        later_is_not p.side p.phase c.phase d.phase k (phases passed) m.way shape in
      elim size [
        | inl unset ↦ absurd (open_before unset)
        | inr (known, small) ↦
            let same = m.same not_request in
            inr (known ∙ ap some (sym same), subst (λ n. n ≤ 8_388_608) (sym same) small)
      ]

  HasMoved-more :
      (k : ℕ) (passed : List Control) (payload : Option Bytes)
      → phases passed ≡ history p.phase k
      → past_payload p.phase ≡ true
      → HasMoved passed payload
      → HasMoved (c ∷ passed) payload
  HasMoved-more k [] payload shape past h = HasMoved-none payload h
    where
      HasMoved-none : (o : Option Bytes) → HasMoved [] o → HasMoved (c ∷ []) o
      HasMoved-none none h = h
      HasMoved-none (some b) h = cc
  HasMoved-more k (d ∷ passed) none shape past h = h
  HasMoved-more k (d ∷ passed) (some b) shape past h = h

  pub moved-IsOrderly :
      (passed : List Control) (payload : Option Bytes)
      → IsOrderly p passed payload
      → IsOrderly q (c ∷ passed) payload
  moved-IsOrderly passed payload h =
      let (j, longer) = extend p.side p.phase c.phase h.k m.way in
      record {
        k = j;
        shape = ap (λ l. c.phase ∷ l) h.shape ∙ (rw m.phase longer);
        moved = λ past.
            let (before, not_request) =
              stays_past p.side p.phase c.phase m.way (rw m.phase at past) in
            HasMoved-more h.k passed payload h.shape before (h.moved before);
        size = Knows-more h.k passed h.shape h.size;
      }

-- ===== src/Fsx/Protocol/Conversation.antt =====
-- The whole conversation of one side of internal/fsx/mutation_protocol.go, with records that are sent,
-- received and refused, in any order that the side lets through.
use personal_mcp_gateway.Base.{
  ℕ, zero, suc, ◌≤◌, Bytes, true, ◌||◌, Option, none, some, List, [], ◌∷◌, length, ◌≡◌, inl, inr,
  ◌∙◌, sym, ap, refl, arith, Option-cases,
}
use personal_mcp_gateway.Fsx.Protocol.Types.{Operation, Phase, Control, Protocol}
use personal_mcp_gateway.Fsx.Protocol.Side.{
  sends, receives, can_send, can_receive, validate_outgoing, validate_incoming, validate_bound,
  advance, new_parent, new_helper,
}
use personal_mcp_gateway.Fsx.Protocol.Wire.{
  Failure, Writer, Codec, read_full, got, failed, send_control, receive_control, send_payload,
  receive_payload,
}
use personal_mcp_gateway.Fsx.Protocol.Delivery.{sent_parts, payload_parts}
use personal_mcp_gateway.Fsx.Protocol.Passed.{
  declared, Knows, IsOrderly, or_left, or_right, IsMove, moved-IsOrderly,
}

-- The side after its operations, the records that have passed it and the payload that it has moved.
pub data Session (codec : Codec) : Protocol → List Control → Option Bytes → Type 0 where
  parent_opened :
      {p : Protocol} (operation : Operation) (roles : ℕ)
      → new_parent operation roles ≡ some p
      → Session codec p [] none
  helper_opened : Session codec new_helper [] none
  sent :
      {p p' : Protocol} {passed : List Control} {payload : Option Bytes}
      → Session codec p passed payload
      → (c : Control) (w w' : Writer) → send_control codec p c w ≡ (p', w', none)
      → Session codec p' (c ∷ passed) payload
  accepted :
      {p p' : Protocol} {passed : List Control} {payload : Option Bytes}
      → Session codec p passed payload
      → (c : Control) (stream rest : Bytes) → receive_control codec p stream ≡ (p', got c rest)
      → Session codec p' (c ∷ passed) payload
  refused :
      {p p' : Protocol} {passed : List Control} {payload : Option Bytes}
      → Session codec p passed payload
      → (stream : Bytes) (e : Failure) → receive_control codec p stream ≡ (p', failed e)
      → Session codec p' passed payload
  payload_sent :
      {p p' : Protocol} {passed : List Control} {payload : Option Bytes}
      → Session codec p passed payload
      → (b : Bytes) (w w' : Writer) → send_payload p b w ≡ (p', w', none)
      → Session codec p' passed (some b)
  payload_received :
      {p p' : Protocol} {passed : List Control} {payload : Option Bytes}
      → Session codec p passed payload
      → (room : ℕ) (stream b rest : Bytes) → receive_payload p room stream ≡ (p', got b rest)
      → Session codec p' passed (some b)

request_small :
    (p : Protocol) (c : Control)
    → validate_bound p c ≡ true
    → c.phase ≡ Phase.request
    → c.payload_bytes ≤ 8_388_608
unfolding validate_bound
request_small p c ok e = ground arith

outgoing-bound :
    (p : Protocol) (c : Control) → validate_outgoing p c ≡ true → validate_bound p c ≡ true
unfolding validate_outgoing
outgoing-bound p c h = ground arith

incoming-bound :
    (p : Protocol) (c : Control)
    → (validate_incoming p c).1 ≡ true
    → validate_bound (validate_incoming p c).0 c ≡ true
unfolding validate_incoming
incoming-bound p c h = ground arith

incoming_keeps :
    (p : Protocol) (c : Control)
    → ((validate_incoming p c).0.phase ≡ p.phase) × ((validate_incoming p c).0.payload ≡ p.payload)
unfolding validate_incoming
incoming_keeps p c = ground arith

advance-IsMove :
    (p q : Protocol) (c : Control)
    → (sends p.side p.phase c.phase || receives p.side p.phase c.phase) ≡ true
    → q.payload ≡ p.payload
    → (c.phase ≡ Phase.request → c.payload_bytes ≤ 8_388_608)
    → IsMove p (advance q c) c
unfolding advance
advance-IsMove p q c way payload small = ground arith

module _ (codec : Codec) where
  sent-IsMove :
      (p p' : Protocol) (c : Control) (w w' : Writer)
      → send_control codec p c w ≡ (p', w', none)
      → IsMove p p' c
  unfolding can_send
  sent-IsMove p p' c w w' h =
      let (may, ok, wrote, moved) = sent_parts codec p p' c w w' h in
      rw moved
        (advance-IsMove p p c (or_left _ _ may) refl (request_small p c (outgoing-bound p c ok)))

  received_parts :
      (p p' : Protocol) (c : Control) (stream rest : Bytes)
      → receive_control codec p stream ≡ (p', got c rest)
      → (can_receive p c.phase ≡ true)
        × ((validate_incoming p c).1 ≡ true)
        × (p' ≡ advance (validate_incoming p c).0 c)
  unfolding receive_control
  received_parts p p' c stream rest h = ground arith

  refused-same :
      (p p' : Protocol) (stream : Bytes) (e : Failure)
      → receive_control codec p stream ≡ (p', failed e)
      → (p'.phase ≡ p.phase) × (p'.payload ≡ p.payload)
  unfolding receive_control validate_incoming
  refused-same p p' stream e h = ground arith

  accepted-IsMove :
      (p p' : Protocol) (c : Control) (stream rest : Bytes)
      → receive_control codec p stream ≡ (p', got c rest)
      → IsMove p p' c
  unfolding can_receive
  accepted-IsMove p p' c stream rest h =
      let (may, ok, moved) = received_parts p p' c stream rest h in
      rw moved (
        advance-IsMove p (validate_incoming p c).0 c (or_right _ _ may) (incoming_keeps p c).1
          (request_small (validate_incoming p c).0 c (incoming-bound p c ok)))

payload_read_parts :
    (p p' : Protocol) (room : ℕ) (stream b rest : Bytes)
    → receive_payload p room stream ≡ (p', got b rest)
    → (p.phase ≡ Phase.stage_announced)
      × (room ≡ p.payload)
      × (read_full room stream ≡ some (b, rest))
      × (p' ≡ record p { phase = Phase.payload_complete })
unfolding receive_payload
payload_read_parts p p' room stream b rest h = ground arith

length-read_full :
    (n : ℕ) (stream b rest : Bytes) → read_full n stream ≡ some (b, rest) → length b ≡ n
unfolding read_full
length-read_full zero stream b rest h = ground arith
length-read_full (suc n) [] b rest h = cc
length-read_full (suc n) (c ∷ stream) b rest h = elim (Option-cases (read_full n stream)) [
  | inl e ↦ ground arith
  | inr ((s, t), e) ↦ ground (arith, length-read_full n stream s t e)
]

payload-IsOrderly :
    (p q : Protocol) (passed : List Control) (payload : Option Bytes) (b : Bytes)
    → p.phase ≡ Phase.stage_announced
    → length b ≡ p.payload
    → q ≡ record p { phase = Phase.payload_complete }
    → IsOrderly p passed payload
    → IsOrderly q passed (some b)
payload-IsOrderly p q passed payload b at size moved h =
    let known = known_of h.size in
    rw moved (record {
      k = 0;
      shape = h.shape ∙ (rw at);
      moved = λ past. known.0 ∙ ap some (sym size);
      size = inr known;
    })
  where
    known_of : Knows p passed → (declared passed ≡ some p.payload) × (p.payload ≤ 8_388_608)
    known_of (inl unset) = cc (at, unset)
    known_of (inr known) = known

opened-IsOrderly :
    (p : Protocol) (operation : Operation) (roles : ℕ)
    → new_parent operation roles ≡ some p
    → IsOrderly p [] none
unfolding new_parent
opened-IsOrderly p operation roles h =
    let at : p.phase ≡ Phase.unset = ground arith in
    record { k = 0; shape = rw at; moved = λ past. cc (rw at at past); size = inl at }

kept-IsOrderly :
    (p q : Protocol) (passed : List Control) (payload : Option Bytes)
    → q.phase ≡ p.phase
    → q.payload ≡ p.payload
    → IsOrderly p passed payload
    → IsOrderly q passed payload
kept-IsOrderly p q passed payload phase size h = record {
  k = h.k;
  shape = rw phase h.shape;
  moved = λ past. h.moved (rw phase at past);
  size = rw phase (rw size h.size);
}

-- After any operations of a side, sent, accepted and refused records alike, the records that have
-- passed are those that its phase stands for, in their one order, with reports of a complete payload
-- between the payload and the commit only; past the payload the side has moved a payload of exactly the
-- size that the record of the request declared, and once the request has passed the side has that size down,
-- which is at most 8 MiB.
pub Session-IsOrderly :
    {codec : Codec} {p : Protocol} {passed : List Control} {payload : Option Bytes}
    → Session codec p passed payload
    → IsOrderly p passed payload
Session-IsOrderly (parent_opened {p} operation roles h) = opened-IsOrderly p operation roles h
Session-IsOrderly helper_opened =
    unfold new_helper in record { k = 0; shape = refl; moved = λ past. cc past; size = inl refl }
Session-IsOrderly {codec} (sent {p} {p'} {passed} {payload} t c w w' h) =
    moved-IsOrderly p p' c (sent-IsMove codec p p' c w w' h) passed payload (Session-IsOrderly t)
Session-IsOrderly {codec} (accepted {p} {p'} {passed} {payload} t c stream rest h) =
    moved-IsOrderly p p' c (accepted-IsMove codec p p' c stream rest h) passed payload
      (Session-IsOrderly t)
Session-IsOrderly {codec} (refused {p} {p'} {passed} {payload} t stream e h) =
    let (phase, size) = refused-same codec p p' stream e h in
    kept-IsOrderly p p' passed payload phase size (Session-IsOrderly t)
Session-IsOrderly (payload_sent {p} {p'} {passed} {payload} t b w w' h) =
    let (side, at, size, wrote, moved) = payload_parts p p' b w w' h in
    payload-IsOrderly p p' passed payload b at size moved (Session-IsOrderly t)
Session-IsOrderly (payload_received {p} {p'} {passed} {payload} t room stream b rest h) =
    let (at, size, read, moved) = payload_read_parts p p' room stream b rest h in
    payload-IsOrderly p p' passed payload b at (length-read_full room stream b rest read ∙ size)
      moved (Session-IsOrderly t)

-- ===== src/Fsx/Protocol/Delivery.antt =====
-- A record or payload of internal/fsx/mutation_protocol.go, from the side that sends it over the stream
-- to the side that receives it.
use personal_mcp_gateway.Base.{
  Bytes, Bool, true, none, some, ◌++◌, length, ◌≡◌, inl, inr, ◌∙◌, arith, Option-cases,
}
use personal_mcp_gateway.Fsx.Protocol.Types.{
  Operation, Phase, Terminal, TerminalCode, Control, Side, Protocol,
}
use personal_mcp_gateway.Fsx.Protocol.Side.{
  can_send, can_receive, validate_outgoing, validate_incoming, advance,
}
use personal_mcp_gateway.Fsx.Protocol.Wire.{
  Writer, Codec, write_all, read_full, put_uint32, write_frame, write_control, got, read_control,
  send_control, receive_control, send_payload, receive_payload,
}
use personal_mcp_gateway.Fsx.Protocol.Wire.Frames.{
  write_all_lem, write_frame_lem, read_control-frame, read_full-append,
}
use personal_mcp_gateway.Fsx.Protocol.Together.{InStep, parent_to_helper, helper_to_parent}

-- The strings of a record are texts. The empty value and the constants of the source are.
abbrev pub IsOperationText : (Bytes → Bool) → Operation → Type 0
IsOperationText valid (Operation.other s) = valid s ≡ true
IsOperationText valid _ = Unit

abbrev pub IsPhaseText : (Bytes → Bool) → Phase → Type 0
IsPhaseText valid (Phase.other s) = valid s ≡ true
IsPhaseText valid _ = Unit

abbrev pub IsTerminalText : (Bytes → Bool) → Terminal → Type 0
IsTerminalText valid (Terminal.other s) = valid s ≡ true
IsTerminalText valid _ = Unit

abbrev pub IsCodeText : (Bytes → Bool) → TerminalCode → Type 0
IsCodeText valid (TerminalCode.other s) = valid s ≡ true
IsCodeText valid _ = Unit

pub record IsText (valid : Bytes → Bool) (c : Control) : Type 0 where
  pub operation : IsOperationText valid c.operation
  pub phase : IsPhaseText valid c.phase
  pub target_leaf : valid c.target_leaf ≡ true
  pub stage_leaf : valid c.stage_leaf ≡ true
  pub commit_token : valid c.commit_token ≡ true
  pub terminal : IsTerminalText valid c.terminal
  pub terminal_code : IsCodeText valid c.terminal_code

-- The strict decoder reads back what json.Marshal wrote of a record whose strings are valid UTF-8. Of other
-- strings json.Marshal writes U+FFFD for the bytes that are not.
pub record IsFaithful (valid_utf8 : Bytes → Bool) (codec : Codec) : Type 0 where
  pub reads_back :
      (c : Control) (e : Bytes)
      → IsText valid_utf8 c
      → codec.encode c ≡ some e
      → codec.decode e ≡ some c

module _ (codec : Codec) where
  pub sent_parts :
      (p p' : Protocol) (c : Control) (w w' : Writer)
      → send_control codec p c w ≡ (p', w', none)
      → (can_send p c.phase ≡ true)
        × (validate_outgoing p c ≡ true)
        × (write_control codec c w ≡ (w', none))
        × (p' ≡ advance p c)
  unfolding send_control
  sent_parts p p' c w w' h = ground arith

  encoded_parts :
      (c : Control) (w w' : Writer)
      → write_control codec c w ≡ (w', none)
      → (e : Bytes) × (codec.encode c ≡ some e) × (write_frame (some e) w ≡ (w', none))
  unfolding write_control
  encoded_parts c w w' h = elim (Option-cases (codec.encode c)) [
    | inl e ↦ cc (rw e at h)
    | inr (t, e) ↦ (t, e, rw e at h)
  ]

  receive-got :
      (h : Protocol) (c : Control) (stream rest : Bytes)
      → read_control codec stream ≡ got c rest
      → can_receive h c.phase ≡ true
      → (validate_incoming h c).1 ≡ true
      → receive_control codec h stream ≡ (advance (validate_incoming h c).0 c, got c rest)
  unfolding receive_control
  receive-got h c stream rest read may ok = ground arith

  -- The bytes `f` on the stream take the receiver to `q` with the record `c`.
  abbrev pub Delivers : Protocol → Control → Bytes → Protocol → Type 0
  Delivers h c f q = (rest : Bytes) → receive_control codec h (f ++ rest) ≡ (q, got c rest)

module _ (valid_utf8 : Bytes → Bool) (codec : Codec) where
  -- The bytes of a record that was sent, and what reading them gives.
  framed :
      IsFaithful valid_utf8 codec
      → (c : Control) (w w' : Writer) → IsText valid_utf8 c
      → write_control codec c w ≡ (w', none)
      → (f : Bytes) × (w'.taken ≡ w.taken ++ f)
        × ((rest : Bytes) → read_control codec (f ++ rest) ≡ got c rest)
  framed faithful c w w' text h =
      let (e, encoded, wrote) = encoded_parts codec c w w' h in
      let (nonempty, fits, taken) = write_frame_lem e w w' wrote in
      (
        put_uint32 (length e) ++ e,
        taken,
        λ rest.
            read_control-frame codec e rest c nonempty fits (faithful.reads_back c e text encoded),
      )

  -- Where two sides are in step, the codec reads back the records of valid texts, and the parent has sent such a
  -- record with no failure, the writer has taken some bytes more, the helper accepts that very record from
  -- them, whatever follows on the stream, and the two sides are in step again.
  pub parent_is_heard :
      IsFaithful valid_utf8 codec
      → (p p' h : Protocol) (c : Control) (w w' : Writer) → InStep p h
      → IsText valid_utf8 c
      → send_control codec p c w ≡ (p', w', none)
      → (f : Bytes) × (q : Protocol) × (w'.taken ≡ w.taken ++ f)
        × Delivers codec h c f q
        × InStep p' q
  parent_is_heard faithful p p' h c w w' together text done =
      let (may, ok, wrote, moved) = sent_parts codec p p' c w w' done in
      let (f, taken, read) = framed faithful c w w' text wrote in
      let (accepts, valid, again) = parent_to_helper p h c together may ok in
      (
        f,
        advance (validate_incoming h c).0 c,
        taken,
        λ rest. receive-got codec h c (f ++ rest) rest (read rest) accepts valid,
        rw moved again,
      )

  -- Where two sides are in step, the codec reads back the records of valid texts, and the helper has sent such a
  -- record with no failure, the writer has taken some bytes more, the parent accepts that very record from
  -- them, whatever follows on the stream, and the two sides are in step again.
  pub helper_is_heard :
      IsFaithful valid_utf8 codec
      → (p h h' : Protocol) (c : Control) (w w' : Writer) → InStep p h
      → IsText valid_utf8 c
      → send_control codec h c w ≡ (h', w', none)
      → (f : Bytes) × (q : Protocol) × (w'.taken ≡ w.taken ++ f)
        × Delivers codec p c f q
        × InStep q h'
  helper_is_heard faithful p h h' c w w' together text done =
      let (may, ok, wrote, moved) = sent_parts codec h h' c w w' done in
      let (f, taken, read) = framed faithful c w w' text wrote in
      let (accepts, valid, again) = helper_to_parent p h c together may ok in
      (
        f,
        advance (validate_incoming p c).0 c,
        taken,
        λ rest. receive-got codec p c (f ++ rest) rest (read rest) accepts valid,
        rw moved again,
      )

pub payload_parts :
    (p p' : Protocol) (b : Bytes) (w w' : Writer)
    → send_payload p b w ≡ (p', w', none)
    → (p.side ≡ Side.parent)
      × (p.phase ≡ Phase.stage_announced)
      × (length b ≡ p.payload)
      × (write_all b w ≡ (w', true))
      × (p' ≡ record p { phase = Phase.payload_complete })
unfolding send_payload
payload_parts p p' b w w' h = ground arith

payload_received :
    (h : Protocol) (b stream rest : Bytes)
    → h.side ≡ Side.helper
    → h.phase ≡ Phase.stage_announced
    → length b ≡ h.payload
    → read_full (length b) stream ≡ some (b, rest)
    → receive_payload h (length b) stream
      ≡ (record h { phase = Phase.payload_complete }, got b rest)
unfolding receive_payload
payload_received h b stream rest side phase size read = ground arith

payload-InStep :
    (p h : Protocol)
    → p.phase ≡ Phase.stage_announced
    → InStep p h
    → (h.phase ≡ Phase.stage_announced)
      × (p.payload ≡ h.payload)
      × InStep
          (record p { phase = Phase.payload_complete })
          (record h { phase = Phase.payload_complete })
payload-InStep p h at s = ground arith

-- Where two sides are in step and the parent has sent its payload with no failure, the writer has taken
-- exactly its bytes more, the helper receives them into a buffer of their length, whatever follows on
-- the stream, and the two sides are in step again.
pub payload_is_heard :
    (p p' h : Protocol) (b : Bytes) (w w' : Writer)
    → InStep p h
    → send_payload p b w ≡ (p', w', none)
    → (q : Protocol) × (w'.taken ≡ w.taken ++ b)
      × ((rest : Bytes) → receive_payload h (length b) (b ++ rest) ≡ (q, got b rest))
      × InStep p' q
payload_is_heard p p' h b w w' together done =
    let (side, phase, size, wrote, moved) = payload_parts p p' b w w' done in
    let (phase', size', again) = payload-InStep p h phase together in
    (
      record h { phase = Phase.payload_complete },
      write_all_lem b w w' wrote,
      λ rest.
          payload_received h b (b ++ rest) rest together.is_helper phase' (size ∙ size')
            (read_full-append b rest),
      rw moved again,
    )

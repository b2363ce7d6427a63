-- ===== src/Fsx/Protocol/Wire.antt =====
-- internal/fsx/mutation_protocol.go: the frames, and the operations of one side on its two streams. A
-- reader is the list of the bytes that are still to come. A writer takes the bytes up to its room and
-- then fails. The JSON text of a record is that of a codec.
pub mod Frames
use personal_mcp_gateway.Base.{
  ℕ, zero, suc, ◌+◌, ◌-◌, ◌*◌, ◌/◌, ◌%◌, Bytes, Bool, true, false, not, ◌&&◌, ◌||◌, Option, none,
  some, [], ◌∷◌, ◌++◌, length, ltb, ◌==◌, if◌then◌else◌,
}
use personal_mcp_gateway.Fsx.Protocol.Types.{Phase, Control, Side, Protocol}
use personal_mcp_gateway.Fsx.Protocol.Fields.{max_control_frame_bytes}
use personal_mcp_gateway.Fsx.Protocol.Side.{
  can_send, can_receive, validate_outgoing, validate_incoming, advance,
}

-- `protocol` is errMutationProtocol; `stream` is an error of a reader or a writer.
pub data Failure : Type 0 where
  protocol stream : Failure

pub record Writer : Type 0 where
  pub taken : Bytes
  pub room : ℕ

-- json.Marshal, and the strict decoder of `readMutationControl`.
pub record Codec : Type 0 where
  pub encode : Control → Option Bytes
  pub decode : Bytes → Option Control

-- writeAll: whatever parts the writer takes, all bytes are taken in order or an error is returned.
abbrev pub write_on : Writer → ℕ → ℕ → Writer
write_on w c room = record { taken = w.taken ++ c ∷ []; room = room }

unfoldable pub write_all : Bytes → Writer → Writer × Bool
write_all [] w = (w, true)
write_all (c ∷ r) w = elim w.room [ zero ↦ (w, false) | suc room ↦ write_all r (write_on w c room) ]

-- io.ReadFull of `n` bytes, and the bytes that are left.
unfoldable pub read_full : ℕ → Bytes → Option (Bytes × Bytes)
read_full zero r = some ([], r)
read_full (suc n) [] = none
read_full (suc n) (c ∷ r) = elim (read_full n r) [ none ↦ none | some (s, t) ↦ some (c ∷ s, t) ]

-- binary.BigEndian.PutUint32 and Uint32
unfoldable pub put_uint32 : ℕ → Bytes
put_uint32 n = n / 16_777_216 % 256 ∷ n / 65_536 % 256 ∷ n / 256 % 256 ∷ n % 256 ∷ []

unfoldable pub uint32 : Bytes → ℕ
uint32 (a ∷ b ∷ c ∷ d ∷ []) = a * 16_777_216 + b * 65_536 + c * 256 + d
uint32 _ = 0

abbrev pub written : Writer × Bool → Writer × Option Failure
written (w, true) = (w, none)
written (w, false) = (w, some stream)

abbrev pub write_encoded : Bytes → Writer × Bool → Writer × Option Failure
write_encoded encoded (w, true) = written (write_all encoded w)
write_encoded encoded (w, false) = (w, some stream)

abbrev pub write_frame : Option Bytes → Writer → Writer × Option Failure
write_frame none w = (w, some protocol)
write_frame (some encoded) w =
    if length encoded == 0 || ltb max_control_frame_bytes (length encoded)
    then (w, some protocol)
    else write_encoded encoded (write_all (put_uint32 (length encoded)) w)

-- A record and the rest of the stream, or why there is none.
pub data Received {ℓ} (A : Type ℓ) : Type ℓ where
  got : A → Bytes → Received A
  failed : Failure → Received A

abbrev pub decoded_rest : Option Control → Bytes → Received Control
decoded_rest none r = failed protocol
decoded_rest (some c) r = got c r

abbrev pub frame_body : Codec → Option (Bytes × Bytes) → Received Control
frame_body codec none = failed stream
frame_body codec (some (encoded, r)) = decoded_rest (codec.decode encoded) r

abbrev pub frame_of_length : Codec → ℕ → Bytes → Received Control
frame_of_length codec n r =
    if n == 0 || ltb max_control_frame_bytes n
    then failed protocol
    else frame_body codec (read_full n r)

abbrev pub frame_head : Codec → Option (Bytes × Bytes) → Received Control
frame_head codec none = failed stream
frame_head codec (some (head, r)) = frame_of_length codec (uint32 head) r

module _ (codec : Codec) where
  unfoldable pub write_control : Control → Writer → Writer × Option Failure
  write_control c w = write_frame (codec.encode c) w

  unfoldable pub read_control : Bytes → Received Control
  read_control r = frame_head codec (read_full 4 r)

  abbrev pub sent :
      Protocol → Control → Writer × Option Failure → Protocol × Writer × Option Failure
  sent p c (w, none) = (advance p c, w, none)
  sent p c (w, some e) = (p, w, some e)

  unfoldable pub send_control : Protocol → Control → Writer → Protocol × Writer × Option Failure
  send_control p c w =
      if not (can_send p c.phase) || not (validate_outgoing p c)
      then (p, w, some protocol)
      else sent p c (write_control c w)

  abbrev pub accepted : Protocol × Bool → Control → Bytes → Protocol × Received Control
  accepted (p, true) c r = (advance p c, got c r)
  accepted (p, false) c r = (p, failed protocol)

  abbrev pub received : Protocol → Received Control → Protocol × Received Control
  received p (failed e) = (p, failed e)
  received p (got c r) =
      if not (can_receive p c.phase)
      then (p, failed protocol)
      else accepted (validate_incoming p c) c r

  unfoldable pub receive_control : Protocol → Bytes → Protocol × Received Control
  receive_control p r = received p (read_control r)

-- `p.side == … && p.phase == mutationPhaseStageAnnounced`, for the side that is asked for.
abbrev pub announced : Phase → Bool
announced Phase.stage_announced = true
announced _ = false

abbrev pub is_parent : Side → Bool
is_parent Side.parent = true
is_parent Side.helper = false

abbrev pub payload_sent : Protocol → Writer × Bool → Protocol × Writer × Option Failure
payload_sent p (w, true) = (record p { phase = Phase.payload_complete }, w, none)
payload_sent p (w, false) = (p, w, some stream)

unfoldable pub send_payload : Protocol → Bytes → Writer → Protocol × Writer × Option Failure
send_payload p payload w =
    if not (is_parent p.side) || not (announced p.phase) || not (length payload == p.payload)
    then (p, w, some protocol)
    else payload_sent p (write_all payload w)

abbrev pub payload_read : Protocol → Option (Bytes × Bytes) → Protocol × Received Bytes
payload_read p none = (p, failed stream)
payload_read p (some (payload, r)) = (record p { phase = Phase.payload_complete }, got payload r)

-- `room` is the length of the buffer that the caller passes.
unfoldable pub receive_payload : Protocol → ℕ → Bytes → Protocol × Received Bytes
receive_payload p room r =
    if is_parent p.side || not (announced p.phase) || not (room == p.payload)
    then (p, failed protocol)
    else payload_read p (read_full room r)

-- ===== src/Fsx/Protocol/Wire/Frames.antt =====
-- The frames of internal/fsx/mutation_protocol.go: what is written is read back, and the rest of the
-- stream is left.
use personal_mcp_gateway.Base.{
  ℕ, zero, suc, ◌+◌, ◌*◌, ◌/◌, ◌%◌, ◌≤◌, ◌<◌, Bytes, Bool, true, false, none, some, [], ◌∷◌, ◌++◌,
  append_assoc, append-nil, length, ◌≡◌, ◌⊎◌, inl, inr, ◌∙◌, sym, ap, refl, arith,
}
use personal_mcp_gateway.Fsx.Protocol.Types.{Control}
use personal_mcp_gateway.Fsx.Protocol.Wire.{
  Writer, Codec, write_all, write_on, read_full, put_uint32, uint32, write_frame, got, read_control,
  write_encoded, written,
}

ℕ-cases : (n : ℕ) → (n ≡ 0) ⊎ ((m : ℕ) × (n ≡ suc m))
ℕ-cases zero = inl refl
ℕ-cases (suc m) = inr (m, refl)

write_all-full : (c : ℕ) (r : Bytes) (w : Writer) → w.room ≡ 0 → write_all (c ∷ r) w ≡ (w, false)
unfolding write_all
write_all-full c r w e = ground arith

write_all-step :
    (c : ℕ) (r : Bytes) (w : Writer) (n : ℕ)
    → w.room ≡ suc n
    → write_all (c ∷ r) w ≡ write_all r (write_on w c n)
unfolding write_all
write_all-step c r w n e = rw (e, write_all)

write_all-nil : (w : Writer) → write_all [] w ≡ (w, true)
unfolding write_all
write_all-nil w = refl

-- A writer that has taken all bytes has taken them in order.
pub write_all_lem :
    (b : Bytes) (w w' : Writer) → write_all b w ≡ (w', true) → w'.taken ≡ w.taken ++ b
write_all_lem [] w w' h =
    ap (λ (x : Writer × Bool). x.0.taken) (sym h ∙ write_all-nil w) ∙ sym (append-nil w.taken)
write_all_lem (c ∷ r) w w' h = elim (ℕ-cases w.room) [
  | inl e ↦ cc (sym (write_all-full c r w e) ∙ h)
  | inr (n, e) ↦
      write_all_lem r (write_on w c n) w' (sym (write_all-step c r w n e) ∙ h)
      ∙ append_assoc w.taken (c ∷ []) r
]

-- What is written is read back.
pub read_full-append : (b r : Bytes) → read_full (length b) (b ++ r) ≡ some (b, r)
unfolding read_full
read_full-append [] r = refl
read_full-append (c ∷ b) r = rw (read_full-append b r)

pub uint32-put_uint32 : (n : ℕ) → n < 4_294_967_296 → uint32 (put_uint32 n) ≡ n
unfolding uint32 put_uint32
uint32-put_uint32 n h = omega arith

-- What `write_frame` has written, when it reports no failure.
pub write_frame_lem :
    (e : Bytes) (w w' : Writer)
    → write_frame (some e) w ≡ (w', none)
    → (0 < length e) × (length e ≤ 4096) × (w'.taken ≡ w.taken ++ (put_uint32 (length e) ++ e))
write_frame_lem e w w' h =
    let fits : (0 < length e) × (length e ≤ 4096) = ground arith in
    (fits.0, fits.1, go (write_all (put_uint32 (length e)) w) refl (ground arith))
  where
    after_head :
        (x : Writer × Bool) (v : Writer)
        → write_all e v ≡ x
        → written x ≡ (w', none)
        → w'.taken ≡ v.taken ++ e
    after_head (u, true) v wrote ok = write_all_lem e v w' (wrote ∙ ap (λ t. (t, true)) (cc ok))
    after_head (u, false) v wrote ok = cc ok

    go :
        (x : Writer × Bool)
        → write_all (put_uint32 (length e)) w ≡ x
        → write_encoded e x ≡ (w', none)
        → w'.taken ≡ w.taken ++ (put_uint32 (length e) ++ e)
    go (v, true) wrote ok =
        after_head (write_all e v) v refl ok
        ∙ ap (λ t. t ++ e) (write_all_lem (put_uint32 (length e)) w v wrote)
        ∙ append_assoc w.taken (put_uint32 (length e)) e
    go (v, false) wrote ok = cc ok

take_head :
    (a b c d : ℕ) (s : Bytes) → read_full 4 (a ∷ b ∷ c ∷ d ∷ s) ≡ some (a ∷ b ∷ c ∷ d ∷ [], s)
unfolding read_full
take_head a b c d s = refl

-- A frame on the stream is read as the record of its text, and what follows it is left.
pub read_control-frame :
    (codec : Codec) (e r : Bytes) (c : Control)
    → 0 < length e
    → length e ≤ 4096
    → codec.decode e ≡ some c
    → read_control codec ((put_uint32 (length e) ++ e) ++ r) ≡ got c r
unfolding read_control put_uint32 uint32
read_control-frame codec e r c nonempty fits decodes =
    rw take_head
      (rw (uint32_bytes (length e) (omega arith)) (rw (read_full-append e r) (ground arith)))
  where
    uint32_bytes :
        (n : ℕ)
        → n < 4_294_967_296
        → (n / 16_777_216 % 256) * 16_777_216
            + (n / 65_536 % 256) * 65_536
            + (n / 256 % 256) * 256
            + n % 256
          ≡ n
    uint32_bytes n h = omega arith

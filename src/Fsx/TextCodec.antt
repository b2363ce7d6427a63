-- ===== src/Fsx/TextCodec.antt =====
-- A codec of the records of internal/fsx/mutation_protocol.go that is not JSON, for the tests: every record with
-- all its fields, a text by its length and its bytes.
use personal_mcp_gateway.Base.{
  ℕ, zero, suc, Bytes, ℤ, pos, negsuc, Option, none, some, [], ◌∷◌, ◌++◌, length, append_assoc, ◌≡◌,
  refl, ap, ◌∙◌, subst, sym, append-nil,
}
use mathlib.Core.Option.{some-injective}
use personal_mcp_gateway.Fsx.Protocol.Types.{
  Operation, Phase, Terminal, TerminalCode, RawStamp, Control,
}
use personal_mcp_gateway.Fsx.Protocol.Wire.{Codec}

abbrev with_rest {ℓ κ} :
    {A : Type ℓ} {B : Type κ} → Option (A × Bytes) → (A → Bytes → Option B) → Option B
with_rest none k = none
with_rest (some (a, r)) k = k a r

-- A value as a text that a reader finds the end of.
pub record Code (A : Type 0) : Type 0 where
  pub put : A → Bytes
  pub get : Bytes → Option (A × Bytes)
  pub back : (a : A) (r : Bytes) → get (put a ++ r) ≡ some (a, r)

abbrev get_one : Bytes → Option (ℕ × Bytes)
get_one [] = none
get_one (n ∷ r) = some (n, r)

abbrev one : Code ℕ
one = record { put = λ n. n ∷ []; get = get_one; back = λ n r. refl }

abbrev consed : ℕ → Option (Bytes × Bytes) → Option (Bytes × Bytes)
consed c none = none
consed c (some (s, r)) = some (c ∷ s, r)

abbrev split_at : ℕ → Bytes → Option (Bytes × Bytes)
split_at zero r = some ([], r)
split_at (suc n) [] = none
split_at (suc n) (c ∷ r) = consed c (split_at n r)

pub split_at-append : (s r : Bytes) → split_at (length s) (s ++ r) ≡ some (s, r)
split_at-append [] r = refl
split_at-append (c ∷ s) r = ap (consed c) (split_at-append s r)

abbrev get_text : Bytes → Option (Bytes × Bytes)
get_text [] = none
get_text (n ∷ r) = split_at n r

abbrev text : Code Bytes
text = record { put = λ s. length s ∷ s; get = get_text; back = split_at-append }

module _ {A B : Type 0} where
  abbrev and_then : Code A → Code B → Code (A × B)
  and_then a b = record {
    put = λ p. a.put p.0 ++ b.put p.1;
    get = λ s. with_rest (a.get s) (λ x r. with_rest (b.get r) (λ y t. some ((x, y), t)));
    back = λ p r.
        ap (λ s. with_rest (a.get s) (λ x r. with_rest (b.get r) (λ y t. some ((x, y), t))))
          (append_assoc (a.put p.0) (b.put p.1) r)
        ∙ ap (λ o. with_rest o (λ x r. with_rest (b.get r) (λ y t. some ((x, y), t))))
            (a.back p.0 (b.put p.1 ++ r))
        ∙ ap (λ o. with_rest o (λ y t. some ((p.0, y), t))) (b.back p.1 r);
  }

  abbrev by : (to : A → B) (from : B → A) → ((a : A) → from (to a) ≡ a) → Code B → Code A
  by to from same b = record {
    put = λ a. b.put (to a);
    get = λ s. with_rest (b.get s) (λ x r. some (from x, r));
    back = λ a r.
        ap (λ o. with_rest o (λ x r. some (from x, r))) (b.back (to a) r)
        ∙ ap (λ x. some (x, r)) (same a);
  }

abbrev tagged : Code (ℕ × Bytes)
tagged = and_then one text

abbrev of_int : ℤ → ℕ × ℕ
of_int (pos n) = (0, n)
of_int (negsuc n) = (1, n)

abbrev to_int : ℕ → ℕ → ℤ
to_int zero n = pos n
to_int _ n = negsuc n

pub int_same : (z : ℤ) → to_int (of_int z).0 (of_int z).1 ≡ z
int_same (pos n) = refl
int_same (negsuc n) = refl

abbrev int : Code ℤ
int = by of_int (λ p. to_int p.0 p.1) int_same (and_then one one)

abbrev of_operation : Operation → ℕ × Bytes
of_operation Operation.create = (0, [])
of_operation Operation.replace = (1, [])
of_operation Operation.unset = (2, [])
of_operation (Operation.other s) = (3, s)

abbrev to_operation : ℕ → Bytes → Operation
to_operation zero s = Operation.create
to_operation (suc zero) s = Operation.replace
to_operation (suc (suc zero)) s = Operation.unset
to_operation _ s = Operation.other s

pub operation_same : (x : Operation) → to_operation (of_operation x).0 (of_operation x).1 ≡ x
operation_same (Operation.other s) = refl
operation_same _ = refl

abbrev of_phase : Phase → ℕ × Bytes
of_phase Phase.request = (0, [])
of_phase Phase.stage_created = (1, [])
of_phase Phase.stage_ack = (2, [])
of_phase Phase.stage_announced = (3, [])
of_phase Phase.payload_complete = (4, [])
of_phase Phase.commit = (5, [])
of_phase Phase.terminal = (6, [])
of_phase Phase.unset = (7, [])
of_phase (Phase.other s) = (8, s)

abbrev to_phase : ℕ → Bytes → Phase
to_phase zero s = Phase.request
to_phase (suc zero) s = Phase.stage_created
to_phase (suc (suc zero)) s = Phase.stage_ack
to_phase (suc (suc (suc zero))) s = Phase.stage_announced
to_phase (suc (suc (suc (suc zero)))) s = Phase.payload_complete
to_phase (suc (suc (suc (suc (suc zero))))) s = Phase.commit
to_phase (suc (suc (suc (suc (suc (suc zero)))))) s = Phase.terminal
to_phase (suc (suc (suc (suc (suc (suc (suc zero))))))) s = Phase.unset
to_phase _ s = Phase.other s

pub phase_same : (x : Phase) → to_phase (of_phase x).0 (of_phase x).1 ≡ x
phase_same (Phase.other s) = refl
phase_same _ = refl

abbrev of_terminal : Terminal → ℕ × Bytes
of_terminal Terminal.committed = (0, [])
of_terminal Terminal.refused = (1, [])
of_terminal Terminal.error = (2, [])
of_terminal Terminal.uncertain = (3, [])
of_terminal Terminal.unset = (4, [])
of_terminal (Terminal.other s) = (5, s)

abbrev to_terminal : ℕ → Bytes → Terminal
to_terminal zero s = Terminal.committed
to_terminal (suc zero) s = Terminal.refused
to_terminal (suc (suc zero)) s = Terminal.error
to_terminal (suc (suc (suc zero))) s = Terminal.uncertain
to_terminal (suc (suc (suc (suc zero)))) s = Terminal.unset
to_terminal _ s = Terminal.other s

pub terminal_same : (x : Terminal) → to_terminal (of_terminal x).0 (of_terminal x).1 ≡ x
terminal_same (Terminal.other s) = refl
terminal_same _ = refl

abbrev of_code : TerminalCode → ℕ × Bytes
of_code TerminalCode.committed = (0, [])
of_code TerminalCode.source_changed = (1, [])
of_code TerminalCode.destination_exists = (2, [])
of_code TerminalCode.unsupported = (3, [])
of_code TerminalCode.canceled = (4, [])
of_code TerminalCode.io = (5, [])
of_code TerminalCode.uncertain = (6, [])
of_code TerminalCode.unset = (7, [])
of_code (TerminalCode.other s) = (8, s)

abbrev to_code : ℕ → Bytes → TerminalCode
to_code zero s = TerminalCode.committed
to_code (suc zero) s = TerminalCode.source_changed
to_code (suc (suc zero)) s = TerminalCode.destination_exists
to_code (suc (suc (suc zero))) s = TerminalCode.unsupported
to_code (suc (suc (suc (suc zero)))) s = TerminalCode.canceled
to_code (suc (suc (suc (suc (suc zero))))) s = TerminalCode.io
to_code (suc (suc (suc (suc (suc (suc zero)))))) s = TerminalCode.uncertain
to_code (suc (suc (suc (suc (suc (suc (suc zero))))))) s = TerminalCode.unset
to_code _ s = TerminalCode.other s

pub code_same : (x : TerminalCode) → to_code (of_code x).0 (of_code x).1 ≡ x
code_same (TerminalCode.other s) = refl
code_same _ = refl

abbrev of_stamp : RawStamp → (ℕ × (ℕ × (ℕ × (ℕ × ℕ)))) × (ℤ × (ℤ × (ℤ × (ℤ × ℤ))))
of_stamp s = (
  (s.device, (s.inode, (s.mode, (s.uid, s.nlink)))),
  (s.size, (s.mtime_sec, (s.mtime_nsec, (s.ctime_sec, s.ctime_nsec)))),
)

abbrev to_stamp : (ℕ × (ℕ × (ℕ × (ℕ × ℕ)))) × (ℤ × (ℤ × (ℤ × (ℤ × ℤ)))) → RawStamp
to_stamp ((device, (inode, (mode, (uid, nlink)))), (size, (m, (mn, (c, cn))))) = record {
  device = device;
  inode = inode;
  mode = mode;
  uid = uid;
  nlink = nlink;
  size = size;
  mtime_sec = m;
  mtime_nsec = mn;
  ctime_sec = c;
  ctime_nsec = cn;
}

abbrev stamp : Code RawStamp
stamp =
    by of_stamp to_stamp (λ s. refl)
      (and_then (and_then one (and_then one (and_then one (and_then one one))))
        (and_then int (and_then int (and_then int (and_then int int)))))

abbrev Fields : Type 0
Fields =
    (ℤ × ((ℕ × Bytes) × ((ℕ × Bytes) × (ℕ × ℕ))))
    × ((Bytes × (Bytes × Bytes))
        × ((RawStamp × (RawStamp × RawStamp)) × ((ℕ × Bytes) × (ℕ × Bytes))))

abbrev of_control : Control → Fields
of_control c = (
  (c.version, (of_operation c.operation, (of_phase c.phase, (c.fd_roles, c.payload_bytes)))),
  (
    (c.target_leaf, (c.stage_leaf, c.commit_token)),
    (
      (c.expected_source, (c.executable_identity, c.stage_identity)),
      (of_terminal c.terminal, of_code c.terminal_code),
    ),
  ),
)

abbrev to_control : Fields → Control
to_control
      (
        (v, ((o, os), ((p, ps), (roles, payload)))),
        ((target, (stage, token)), ((source, (exe, staged)), ((t, ts), (k, ks)))),
      ) =
    record {
      version = v;
      operation = to_operation o os;
      phase = to_phase p ps;
      fd_roles = roles;
      payload_bytes = payload;
      target_leaf = target;
      stage_leaf = stage;
      expected_source = source;
      executable_identity = exe;
      stage_identity = staged;
      commit_token = token;
      terminal = to_terminal t ts;
      terminal_code = to_code k ks;
    }

pub control_same : (c : Control) → to_control (of_control c) ≡ c
control_same c =
    rw (operation_same c.operation) (
      rw (phase_same c.phase) (rw (terminal_same c.terminal) (rw (code_same c.terminal_code) refl)))

abbrev control : Code Control
control = by of_control to_control control_same (
    and_then (and_then int (and_then tagged (and_then tagged (and_then one one)))) (
      and_then (and_then text (and_then text text))
        (and_then (and_then stamp (and_then stamp stamp)) (and_then tagged tagged))))

-- The whole text is read.
abbrev whole : Option (Control × Bytes) → Option Control
whole none = none
whole (some (c, [])) = some c
whole (some (c, x ∷ r)) = none

unfoldable pub text_codec : Codec
text_codec = record { encode = λ c. some (control.put c); decode = λ s. whole (control.get s) }

pub text_codec-reads_back :
    (c : Control) (e : Bytes) → text_codec.encode c ≡ some e → text_codec.decode e ≡ some c
unfolding text_codec
text_codec-reads_back c e h =
    subst (λ s. whole (control.get s) ≡ some c) (some-injective _ _ h)
      (ap (λ s. whole (control.get s)) (sym (append-nil (control.put c)))
        ∙ ap whole (control.back c []))

-- ===== src/Ynab/Circuit.antt =====
-- internal/tools/ynab/quota.go: the circuit of one operation family. Times are `UnixNano` values, and
-- the zero `time.Time` that `admit` returns is `none`.
pub mod World
pub mod Fenced
use personal_mcp_gateway.Base.{
  ℕ, Bytes, Bool, true, false, not, ◌&&◌, ◌||◌, Option, none, some, ◌==◌, if◌then◌else◌,
}
use personal_mcp_gateway.Base.Word.{add64, lt64}

abbrev pub second : ℕ
second = 1_000_000_000

abbrev pub quota_limit : ℕ
quota_limit = 200

abbrev pub quota_window : ℕ
quota_window = 3_600_000_000_000

abbrev pub circuit_threshold : ℕ
circuit_threshold = 3

abbrev pub circuit_cooldown : ℕ
circuit_cooldown = 30_000_000_000

abbrev pub probe_lease : ℕ
probe_lease = 45_000_000_000

pub record AttemptPermit : Type 0 where
  pub token : Bytes
  pub family : Bytes
  pub epoch : ℕ
  pub probe : Bool

pub data AttemptOutcome : Type 0 where
  healthy transient neutral : AttemptOutcome

pub record CircuitState : Type 0 where
  pub failures : ℕ
  pub epoch : ℕ
  pub recovery_floor : ℕ
  pub open_until : ℕ
  pub lease_until : ℕ

-- The new state, whether the attempt is a probe, and when to come back if it is refused.
unfoldable pub admit : CircuitState → ℕ → CircuitState × Bool × Option ℕ
admit s now =
    if lt64 now s.open_until
    then (s, false, some s.open_until)
    else if lt64 now s.lease_until
    then (s, false, some s.lease_until)
    else if not (s.open_until == 0) || not (s.lease_until == 0)
    then (
      record s { epoch = add64 s.epoch 1; open_until = 0; lease_until = add64 now probe_lease },
      true,
      none,
    )
    else (s, false, none)

abbrev pub close_circuit : CircuitState → AttemptPermit → CircuitState
close_circuit s p =
    let t = record s { failures = 0; open_until = 0; lease_until = 0 } in
    if p.probe then record t { recovery_floor = p.epoch } else t

abbrev pub count_failure : CircuitState → AttemptPermit → ℕ → CircuitState
count_failure s p now =
    let t = record s { epoch = add64 s.epoch 1; failures = add64 s.failures 1 } in
    if p.probe || not (lt64 t.failures circuit_threshold)
    then record t { open_until = add64 now circuit_cooldown; lease_until = 0 }
    else t

abbrev pub completed : CircuitState → AttemptPermit → AttemptOutcome → ℕ → CircuitState
completed s p AttemptOutcome.neutral now =
    if p.probe
    then record s {
      epoch = add64 s.epoch 1;
      open_until = add64 now circuit_cooldown;
      lease_until = 0;
    }
    else s
completed s p AttemptOutcome.healthy now = if p.epoch == s.epoch then close_circuit s p else s
completed s p AttemptOutcome.transient now =
    if not p.probe && (not (s.open_until == 0) || not (s.lease_until == 0))
    then s
    else count_failure s p now

unfoldable pub complete : CircuitState → AttemptPermit → AttemptOutcome → ℕ → CircuitState
complete s p outcome now =
    if p.probe && not (p.epoch == s.epoch)
    then s
    else if lt64 p.epoch s.recovery_floor
    then s
    else completed s p outcome now

-- A server-directed delay until `until`, as `record` applies it when it lies after `now`.
unfoldable pub defer_family : CircuitState → ℕ → CircuitState
defer_family s until =
    let t = record s { epoch = add64 s.epoch 1; lease_until = 0 } in
    if lt64 s.open_until until then record t { open_until = until } else t

-- What `record` of quota.go makes of the circuit: the outcome, then a delay that the provider asked for.
unfoldable pub settle : CircuitState → AttemptPermit → AttemptOutcome → ℕ → Option ℕ → CircuitState
settle s p outcome now none = complete s p outcome now
settle s p outcome now (some until) =
    let t = complete s p outcome now in if lt64 now until then defer_family t until else t

-- ===== src/Ynab/Tests.antt =====
-- Callers of internal/tools/ynab/quota.go: three failures open a circuit, a probe closes it.
use personal_mcp_gateway.Base.{
  ℕ, ◌+◌, ◌-◌, ◌≤◌, ◌<◌, Bytes, bytes_eq, codes, true, false, none, some, List, [], ◌∷◌, ◌≡◌, refl,
  arith,
}
use personal_mcp_gateway.Base.Word.{add64, sub64, lt64}
use personal_mcp_gateway.Ynab.Circuit.{
  AttemptPermit, AttemptOutcome, CircuitState, quota_window, probe_lease, admit, complete,
  defer_family, settle,
}
use personal_mcp_gateway.Ynab.Circuit.World.{
  World, initial, admitted, finished, Run, start, next, IsClosed, IsSound,
}
use personal_mcp_gateway.Ynab.Circuit.Fenced.{
  IsLate, only_delayed, Run-IsSound, late_changes_nothing, probe_is_alone,
}
use personal_mcp_gateway.Ynab.Quota.{
  Reservation, Db, Faults, wait_result, state_failure, find_cooldown, expire, count, min_at,
  read_circuit, write_circuit, reserve_admitted, reserve_in, reserve,
}
use personal_mcp_gateway.Ynab.Quota.Window.{
  ReserveOutcome, Trace, reserve_all_or_nothing, allowance_holds,
}

abbrev plain : AttemptPermit
plain = record { token = []; family = []; epoch = 0; probe = false }

-- Four callers are admitted, and one of them fails.
abbrev four : List AttemptPermit
four = plain ∷ plain ∷ plain ∷ plain ∷ []

abbrev healthy_world : World
healthy_world = record initial { permits = four }

admits : Run 4 healthy_world
unfolding admit lt64
admits =
    next
      (next
        (next (next start (admitted _ plain 5 (omega arith) refl refl refl))
          (admitted _ plain 5 (omega arith) refl refl refl))
        (admitted _ plain 5 (omega arith) refl refl refl))
      (admitted _ plain 5 (omega arith) refl refl refl)

-- A provider's delay opens the circuit while three attempts are still out.
abbrev opened_world : World
opened_world = record {
  circuit = settle healthy_world.circuit plain AttemptOutcome.transient 10 (some 1000);
  permits = plain ∷ plain ∷ plain ∷ [];
}

opens : Run 5 opened_world
opens = next admits (
    finished healthy_world [] (plain ∷ plain ∷ plain ∷ []) plain AttemptOutcome.transient 10
      (some 1000) (omega arith) (omega arith) refl)

Run-IsSound_example : IsSound 10 opened_world
Run-IsSound_example = Run-IsSound (omega arith) opens

opened-IsOpen : ¬ IsClosed opened_world.circuit
unfolding settle complete defer_family add64 lt64
opened-IsOpen h = omega arith

plain-IsLate : IsLate opened_world.circuit plain
unfolding settle complete defer_family add64 lt64
plain-IsLate = refl

-- A late failure with a delay that the provider asked for.
late_changes_nothing_example :
    let t = settle opened_world.circuit plain AttemptOutcome.transient 20 (some 90_000_000_000) in
    (t ≡ only_delayed opened_world.circuit 20 (some 90_000_000_000))
    × (¬ IsClosed t)
    × (opened_world.circuit.open_until ≤ t.open_until)
late_changes_nothing_example =
    late_changes_nothing 5 opened_world [] (plain ∷ plain ∷ []) plain AttemptOutcome.transient 20
      (some 90_000_000_000) (omega arith) opens (omega arith) (omega arith) opened-IsOpen refl
      plain-IsLate

-- A circuit that has cooled down.
abbrev cooled : CircuitState
cooled = record { failures = 3; epoch = 7; recovery_floor = 0; open_until = 100; lease_until = 0 }

probed : (admit cooled 200).1 ≡ true
unfolding admit lt64
probed = refl

probe_is_alone_example :
    let t = (admit cooled 200).0 in
    (300 < 200 + probe_lease → admit t 300 ≡ (t, false, some (200 + probe_lease)))
    × (200 + probe_lease ≤ 300 → ((admit t 300).1 ≡ true) × ((admit t 300).2 ≡ none))
probe_is_alone_example = probe_is_alone cooled 200 300 (omega arith) (omega arith) probed

abbrev clock_text : ℕ → Bytes
clock_text t = codes "2026-01-01T00:00:00Z"

abbrev no_faults : Faults
no_faults = record {
  begin = false;
  read_cooldown = false;
  expire = false;
  count = false;
  read_circuit = false;
  write_circuit = false;
  write_reservation = false;
  write_cooldown = false;
  commit = false;
}

abbrev fresh : Db
fresh = record { reservations = []; cooldowns = []; circuits = [] }

abbrev caller : AttemptPermit
caller = record { token = codes "k"; family = codes "GET:plans"; epoch = 0; probe = false }

reserve_all_or_nothing_example :
    let (db', p, r) = reserve clock_text no_faults (some fresh) caller.token caller.family 7 in
    (next : Db) × (db' ≡ some next) × ReserveOutcome fresh caller 7 (next, p, r)
reserve_all_or_nothing_example =
    reserve_all_or_nothing clock_text no_faults fresh caller.token caller.family 7

one_grant :
    (reserve_in clock_text no_faults fresh caller (quota_window + 5)).0.reservations
    ≡ record { token = codes "k"; at = quota_window + 5 } ∷ []
unfolding reserve_admitted expire count find_cooldown read_circuit write_circuit min_at admit lt64
    sub64 add64 bytes_eq wait_result state_failure
one_grant = refl

abbrev traced : Db
traced = (reserve_in clock_text no_faults fresh caller (quota_window + 5)).0

abbrev once : List Reservation
once = record { token = codes "k"; at = quota_window + 5 } ∷ []

once_traced : Trace clock_text traced once (quota_window + 5)
unfolding reserve_admitted expire count find_cooldown read_circuit write_circuit min_at admit lt64
    sub64 add64 bytes_eq wait_result state_failure
once_traced =
    Trace.reserved Trace.start no_faults caller (quota_window + 5) (omega arith) (omega arith)

allowance_holds_example : count (codes "k") (expire (quota_window + 5 - quota_window) once) ≤ 200
allowance_holds_example = allowance_holds clock_text once_traced (codes "k")

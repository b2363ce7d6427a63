-- ===== src/Ynab/Quota.antt =====
-- internal/tools/ynab/quota.go: the shared allowance of requests, in the three tables of its database.
-- Each statement of a transaction may fail, and a transaction that does not commit changes nothing.
pub mod Window
use text.Mathlib.Text.{◌==◌ as str_eq}
use personal_mcp_gateway.Base.{
  ℕ, suc, ◌+◌, Bytes, bytes_eq, codes, String, Bool, true, false, ◌&&◌, ◌||◌, Option, none, some,
  List, [], ◌∷◌, leb, if◌then◌else◌,
}
use personal_mcp_gateway.Base.Word.{add64, sub64, lt64}
use personal_mcp_gateway.Ynab.Circuit.{
  AttemptPermit, AttemptOutcome, CircuitState, quota_limit, quota_window, admit, settle,
}

pub record Reservation : Type 0 where
  pub token : Bytes
  pub at : ℕ

pub record Db : Type 0 where
  pub reservations : List Reservation
  pub cooldowns : List (Bytes × ℕ)
  pub circuits : List (Bytes × Bytes × CircuitState)

-- Which of the calls on the database fails.
pub record Faults : Type 0 where
  pub begin : Bool
  pub read_cooldown : Bool
  pub expire : Bool
  pub count : Bool
  pub read_circuit : Bool
  pub write_circuit : Bool
  pub write_reservation : Bool
  pub write_cooldown : Bool
  pub commit : Bool

-- The fields of `Result` (projection.go) that the allowance and the dispatch set.
pub record Result : Type 0 where
  pub status : String
  pub error : String
  pub error_code : String
  pub recovery : String
  pub retry_at : Bytes
  pub http_status : ℕ
  pub retry_after : Bytes

abbrev pub empty_result : Result
empty_result = record {
  status = "";
  error = "";
  error_code = "";
  recovery = "";
  retry_at = [];
  http_status = 0;
  retry_after = [];
}

unfoldable pub state_failure : Result
state_failure = record {
  status = "not_attempted";
  error = "local provider state unavailable; request not dispatched";
  error_code = "local_state";
  recovery = "contact_operator";
  retry_at = [];
  http_status = 0;
  retry_after = [];
}

-- SELECT until_at FROM cooldowns WHERE token=?; no row leaves 0.
unfoldable pub find_cooldown : Bytes → List (Bytes × ℕ) → ℕ
find_cooldown token [] = 0
find_cooldown token ((t, until) ∷ r) = if bytes_eq t token then until else find_cooldown token r

-- INSERT INTO cooldowns … ON CONFLICT(token) DO UPDATE SET until_at=MAX(until_at,excluded.until_at)
unfoldable pub raise_cooldown : Bytes → ℕ → List (Bytes × ℕ) → List (Bytes × ℕ)
raise_cooldown token until [] = (token, until) ∷ []
raise_cooldown token until ((t, u) ∷ r) =
    if bytes_eq t token
    then (t, (if lt64 u until then until else u)) ∷ r
    else (t, u) ∷ raise_cooldown token until r

-- DELETE FROM reservations WHERE at<=?
unfoldable pub expire : ℕ → List Reservation → List Reservation
expire cutoff [] = []
expire cutoff (row ∷ r) =
    let rest = expire cutoff r in if lt64 cutoff row.at then row ∷ rest else rest

-- SELECT COUNT(*) FROM reservations WHERE token=?
unfoldable pub count : Bytes → List Reservation → ℕ
count token [] = 0
count token (row ∷ r) = (if bytes_eq row.token token then 1 else 0) + count token r

-- SELECT MIN(at) FROM reservations WHERE token=?; the NULL of no row leaves 0.
abbrev pub earlier : ℕ → Option ℕ → Option ℕ
earlier at none = some at
earlier at (some m) = if lt64 at m then some at else some m

unfoldable pub min_at : Bytes → List Reservation → Option ℕ
min_at token [] = none
min_at token (row ∷ r) =
    let rest = min_at token r in if bytes_eq row.token token then earlier row.at rest else rest

abbrev pub is_some : Option ℕ → Bool
is_some none = false
is_some (some t) = true

abbrev pub or_zero : Option ℕ → ℕ
or_zero none = 0
or_zero (some m) = m

abbrev pub zero_circuit : CircuitState
zero_circuit = record {
  failures = 0;
  epoch = 0;
  recovery_floor = 0;
  open_until = 0;
  lease_until = 0;
}

unfoldable pub read_circuit : Bytes → Bytes → List (Bytes × Bytes × CircuitState) → CircuitState
read_circuit token family [] = zero_circuit
read_circuit token family ((t, f, s) ∷ r) =
    if bytes_eq t token && bytes_eq f family then s else read_circuit token family r

unfoldable pub write_circuit :
    Bytes
    → Bytes
    → CircuitState
    → List (Bytes × Bytes × CircuitState)
    → List (Bytes × Bytes × CircuitState)
write_circuit token family s [] = (token, family, s) ∷ []
write_circuit token family s ((t, f, u) ∷ r) =
    if bytes_eq t token && bytes_eq f family
    then (t, f, s) ∷ r
    else (t, f, u) ∷ write_circuit token family s r

-- `rfc3339` is the format of a time in nanoseconds by Go's `time` package.
module _ (rfc3339 : ℕ → Bytes) where
  unfoldable pub wait_result : String → ℕ → Result
  wait_result code until = record {
    status = "not_attempted";
    error =
        if str_eq code "rate_limited"
        then "provider rate limited; shared request allowance is unavailable"
        else "provider outage circuit is cooling down";
    error_code = code;
    recovery = "wait";
    retry_at = rfc3339 until;
    http_status = 0;
    retry_after = [];
  }

  -- The part of `reserve` after `admit`: the circuit and the reservation are written and committed.
  unfoldable pub reserve_admitted :
      Faults
      → Db
      → List Reservation
      → AttemptPermit
      → ℕ
      → CircuitState × Bool × Option ℕ
      → Db × AttemptPermit × Result
  reserve_admitted faults db rows p now (s, probe, some retry_at) =
      (db, record p { probe = probe }, wait_result "upstream_unavailable" retry_at)
  reserve_admitted faults db rows p now (s, probe, none) =
      let p' = record p { probe = probe; epoch = s.epoch } in
      if faults.write_circuit
      then (db, p', state_failure)
      else if faults.write_reservation
      then (db, p', state_failure)
      else if faults.commit
      then (db, p', state_failure)
      else (
        record db {
          reservations = record { token = p.token; at = now } ∷ rows;
          circuits = write_circuit p.token p.family s db.circuits;
        },
        p',
        empty_result,
      )

  abbrev pub denied : Db → AttemptPermit → Result → Db × AttemptPermit × Result
  denied db p r = (db, p, r)

  abbrev pub reserve_in : Faults → Db → AttemptPermit → ℕ → Db × AttemptPermit × Result
  reserve_in faults db p now =
      let until = find_cooldown p.token db.cooldowns in
      let rows = expire (sub64 now quota_window) db.reservations in
      if faults.begin || faults.read_cooldown
      then denied db p state_failure
      else if lt64 now until
      then denied db p (wait_result "rate_limited" until)
      else if faults.expire || faults.count
      then denied db p state_failure
      else if leb quota_limit (count p.token rows)
      then denied db p
          (wait_result "rate_limited" (add64 (or_zero (min_at p.token rows)) quota_window))
      else if faults.read_circuit
      then denied db p state_failure
      else reserve_admitted faults db rows p now
          (admit (read_circuit p.token p.family db.circuits) now)

  -- `none` is the nil store.
  unfoldable pub reserve :
      Faults → Option Db → Bytes → Bytes → ℕ → Option Db × AttemptPermit × Result
  reserve faults none token family now =
      (none, record { token = token; family = family; epoch = 0; probe = false }, state_failure)
  reserve faults (some db) token family now =
      let (db', p, r) =
        reserve_in faults db (record { token = token; family = family; epoch = 0; probe = false })
          now in
      (some db', p, r)

-- `record`: the time until which the family is fenced, if its circuit is open, or the failure of a call.
pub data Recorded : Type 0 where
  failed : Recorded
  until : Option ℕ → Recorded

unfoldable pub record_outcome :
    Faults → Db → AttemptPermit → AttemptOutcome → ℕ → Option ℕ → Option ℕ → Db × Recorded
record_outcome faults db p outcome now family_until token_until =
    let s = settle (read_circuit p.token p.family db.circuits) p outcome now family_until in
    let written = record db { circuits = write_circuit p.token p.family s db.circuits } in
    let db' : Db = elim token_until [
      | none ↦ written
      | some t ↦ record db {
        circuits = write_circuit p.token p.family s db.circuits;
        cooldowns = raise_cooldown p.token t db.cooldowns;
      }
    ] in
    if faults.begin || faults.read_circuit || faults.write_circuit
    then (db, failed)
    else if is_some token_until && faults.write_cooldown
    then (db, failed)
    else if faults.commit
    then (db, failed)
    else (db', until (if lt64 now s.open_until then some s.open_until else none))

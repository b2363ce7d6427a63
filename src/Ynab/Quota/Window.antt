-- ===== src/Ynab/Quota/Window.antt =====
-- The allowance of internal/tools/ynab/quota.go over time: what a reservation changes, and how many
-- are granted in an hour.
use text.Mathlib.Text.{◌==◌ as str_eq}
use personal_mcp_gateway.Base.{
  ℕ, ◌-◌, ◌≤◌, ◌<◌, Bytes, bytes_eq_iff, Bool, false, Option, none, some, List, [], ◌∷◌,
  if◌then◌else◌, ◌≡◌, ◌⊎◌, inl, inr, refl, sym, ap, ◌∙◌, arith,
}
use personal_mcp_gateway.Base.Word.{sub64, lt64, sub64_lem}
use personal_mcp_gateway.Ynab.Circuit.{
  AttemptPermit, AttemptOutcome, CircuitState, quota_window, admit,
}
use personal_mcp_gateway.Ynab.Circuit.World.{last_time}
use personal_mcp_gateway.Ynab.Quota.{
  Reservation, Db, Faults, Result, empty_result, state_failure, expire, count, reserve_admitted,
  wait_result, reserve, reserve_in, record_outcome, read_circuit,
}

-- The rows that are left an hour before `now`.
abbrev pub recent : ℕ → List Reservation → List Reservation
recent now rows = expire (sub64 now quota_window) rows

-- A refusal leaves the database as it was; a grant adds one row for the token to its recent ones, of
-- which there were fewer than 200, and leaves the cooldowns alone.
abbrev pub ReserveOutcome : Db → AttemptPermit → ℕ → Db × AttemptPermit × Result → Type 0
ReserveOutcome db p now (db', p', r) =
    ((db' ≡ db) × (r.status ≡ "not_attempted"))
    ⊎ ((r ≡ empty_result)
        × (db'.reservations ≡ record { token = p.token; at = now } ∷ recent now db.reservations)
        × (db'.cooldowns ≡ db.cooldowns)
        × (count p.token (recent now db.reservations) < 200))

module _ (rfc3339 : ℕ → Bytes) where
  admitted_outcome :
      (faults : Faults) (db : Db) (p : AttemptPermit) (now : ℕ) (a : CircuitState × Bool × Option ℕ)
      → count p.token (recent now db.reservations) < 200
      → ReserveOutcome db p now
          (reserve_admitted rfc3339 faults db (recent now db.reservations) p now a)
  unfolding reserve_admitted wait_result state_failure
  admitted_outcome faults db p now (s, probe, some t) h = inl (refl, refl)
  admitted_outcome faults db p now (s, probe, none) h = ground arith

  reserve_in_outcome :
      (faults : Faults) (db : Db) (p : AttemptPermit) (now : ℕ)
      → ReserveOutcome db p now (reserve_in rfc3339 faults db p now)
  unfolding wait_result state_failure
  reserve_in_outcome faults db p now = ground (
    arith,
    admitted_outcome faults db p now (admit (read_circuit p.token p.family db.circuits) now),
  )

  -- Whatever fails, `reserve` on a store either refuses with "not_attempted" and leaves the database as
  -- it was, or answers with the empty result, adds the one reservation to those of the last hour, of
  -- which the token then had fewer than 200, and leaves the cooldowns alone.
  pub reserve_all_or_nothing :
      (faults : Faults) (db : Db) (token family : Bytes) (now : ℕ)
      → let (db', p, r) = reserve rfc3339 faults (some db) token family now in
        (next : Db) × (db' ≡ some next)
        × ReserveOutcome db
            (record { token = token; family = family; epoch = 0; probe = false })
            now
            (next, p, r)
  unfolding reserve
  reserve_all_or_nothing faults db token family now =
      let p : AttemptPermit = record { token = token; family = family; epoch = 0; probe = false } in
      ((reserve_in rfc3339 faults db p now).0, refl, reserve_in_outcome faults db p now)

-- Counting what is left.
count-expire-le :
    (token : Bytes) (c : ℕ) (rows : List Reservation)
    → count token (expire c rows) ≤ count token rows
unfolding count expire
count-expire-le token c [] = omega arith
count-expire-le token c (row ∷ r) = ground (arith, count-expire-le token c r)

expire-expire :
    (token : Bytes) (c d : ℕ) (rows : List Reservation)
    → d ≤ c
    → c < 9_223_372_036_854_775_808
    → count token (expire c (expire d rows)) ≡ count token (expire c rows)
unfolding count expire lt64
expire-expire token c d [] h k = refl
expire-expire token c d (row ∷ r) h k = ground (arith, expire-expire token c d r)

recent_again :
    (token : Bytes) (c now : ℕ) (rows : List Reservation)
    → quota_window ≤ now
    → now < last_time
    → now - quota_window ≤ c
    → c < last_time
    → count token (expire c (recent now rows)) ≡ count token (expire c rows)
recent_again token c now rows h k low high =
    rw (sub64_lem now quota_window h (omega arith))
      (expire-expire token c (now - quota_window) rows low (omega arith))

-- One more row on both sides.
count-expire-cons :
    (token : Bytes) (c : ℕ) (row : Reservation) (xs ys : List Reservation)
    → count token (expire c xs) ≡ count token (expire c ys)
    → count token (expire c (row ∷ xs)) ≡ count token (expire c (row ∷ ys))
unfolding count expire
count-expire-cons token c row xs ys h = ground arith

-- One more row for a token that had fewer than 200.
count-cons-le :
    (token : Bytes) (row : Reservation) (rows : List Reservation)
    → count row.token rows < 200
    → count token rows ≤ 200
    → count token (row ∷ rows) ≤ 200
unfolding count
count-cons-le token row rows room few = ground (arith, bytes_eq_iff row.token token)

-- The reservations that `reserve` has granted, with the database that it left behind, after calls of
-- `reserve` and `record` whose clocks do not go back.
module _ (rfc3339 : ℕ → Bytes) where
  abbrev pub granted : Db × AttemptPermit × Result → Bool
  granted (db, p, r) = str_eq r.status ""

  pub data Trace : Db → List Reservation → ℕ → Type 0 where
    start : Trace (record { reservations = []; cooldowns = []; circuits = [] }) [] quota_window
    reserved :
        {db : Db} {history : List Reservation} {last : ℕ}
        → Trace db history last
        → (faults : Faults) (p : AttemptPermit) (now : ℕ) → last ≤ now
        → now < last_time
        → Trace
            (reserve_in rfc3339 faults db p now).0
            (if granted (reserve_in rfc3339 faults db p now)
              then record { token = p.token; at = now } ∷ history
              else history)
            now
    recorded :
        {db : Db} {history : List Reservation} {last : ℕ}
        → Trace db history last
        → (faults : Faults) (p : AttemptPermit) (outcome : AttemptOutcome) (now : ℕ)
          (family_until token_until : Option ℕ)
        → Trace (record_outcome faults db p outcome now family_until token_until).0 history last

  -- The rows of the last hour are the grants of the last hour, and no token has more than 200 rows.
  record IsMetered (db : Db) (history : List Reservation) (last : ℕ) : Type 0 where
    since : quota_window ≤ last
    before : last < last_time
    same :
        (token : Bytes) (c : ℕ)
        → last - quota_window ≤ c
        → c < last_time
        → count token (expire c history) ≡ count token (expire c db.reservations)
    few : (token : Bytes) → count token db.reservations ≤ 200

  record-reservations :
      (faults : Faults) (db : Db) (p : AttemptPermit) (outcome : AttemptOutcome) (now : ℕ)
      (family_until token_until : Option ℕ)
      → (record_outcome faults db p outcome now family_until token_until).0.reservations
        ≡ db.reservations
  unfolding record_outcome
  record-reservations faults db p outcome now family_until token_until = ground arith

  granted-IsMetered :
      (db db' : Db) (history : List Reservation) (last now : ℕ) (p : AttemptPermit)
      → last ≤ now
      → now < last_time
      → db'.reservations ≡ record { token = p.token; at = now } ∷ recent now db.reservations
      → count p.token (recent now db.reservations) < 200
      → IsMetered db history last
      → IsMetered db' (record { token = p.token; at = now } ∷ history) now
  granted-IsMetered db db' history last now p later in_time rows room h =
      let row : Reservation = record { token = p.token; at = now } in
      let since : quota_window ≤ now = omega (arith, h.since) in
      record {
        since = since;
        before = in_time;
        same = λ token c low high. rw rows (
            count-expire-cons token c row history (recent now db.reservations) (
              h.same token c (omega arith) high
              ∙ sym (recent_again token c now db.reservations since in_time low high)));
        few = λ token. rw rows (
            count-cons-le token row (recent now db.reservations) room (
              omega (
                arith,
                count-expire-le token (sub64 now quota_window) db.reservations,
                h.few token,
              )));
      }

  refused-IsMetered :
      (db db' : Db) (history : List Reservation) (last now : ℕ)
      → last ≤ now
      → now < last_time
      → db'.reservations ≡ db.reservations
      → IsMetered db history last
      → IsMetered db' history now
  refused-IsMetered db db' history last now later in_time rows h = record {
    since = omega (arith, h.since);
    before = in_time;
    same = λ token c low high. rw rows (h.same token c (omega arith) high);
    few = λ token. rw rows (h.few token);
  }

  reserved-IsMetered :
      (db : Db) (history : List Reservation) (last : ℕ) (faults : Faults) (p : AttemptPermit)
      (now : ℕ)
      → last ≤ now
      → now < last_time
      → IsMetered db history last
      → IsMetered
          (reserve_in rfc3339 faults db p now).0
          (if granted (reserve_in rfc3339 faults db p now)
            then record { token = p.token; at = now } ∷ history
            else history)
          now
  reserved-IsMetered db history last faults p now later in_time h =
      go (reserve_in rfc3339 faults db p now) (reserve_in_outcome rfc3339 faults db p now)
    where
      go :
          (o : Db × AttemptPermit × Result)
          → ReserveOutcome db p now o
          → IsMetered o.0
              (if granted o then record { token = p.token; at = now } ∷ history else history)
              now
      go (db', p', r) (inl (unchanged, refused)) = rw refused (
          refused-IsMetered db db' history last now later in_time
            (ap (λ (d : Db). d.reservations) unchanged) h)
      go (db', p', r) (inr (ok, rows, cooldowns, room)) =
          rw ok (granted-IsMetered db db' history last now p later in_time rows room h)

  Trace-IsMetered :
      {db : Db} {history : List Reservation} {last : ℕ}
      → Trace db history last
      → IsMetered db history last
  Trace-IsMetered start = record {
    since = omega arith;
    before = omega arith;
    same = λ token c low high. refl;
    few = λ token. unfold count in omega arith;
  }
  Trace-IsMetered (reserved {db} {history} {last} t faults p now later in_time) =
      reserved-IsMetered db history last faults p now later in_time (Trace-IsMetered t)
  Trace-IsMetered (recorded {db} {history} {last} t faults p outcome now f u) =
      let h = Trace-IsMetered t in
      refused-IsMetered db _ history last last (omega arith) h.before
        (record-reservations faults db p outcome now f u) h

  -- Whatever is reserved and recorded, by however many callers and with whatever failures of the
  -- database, as long as the clock of `reserve` does not go back: no token is granted more than 200
  -- requests in the hour before the last reservation.
  pub allowance_holds :
      {db : Db} {history : List Reservation} {last : ℕ}
      → Trace db history last
      → (token : Bytes) → count token (expire (last - quota_window) history) ≤ 200
  allowance_holds {db} {history} {last} t token =
      let h = Trace-IsMetered t in
      omega (
        arith,
        h.same token (last - quota_window) (omega arith) (omega (arith, h.before)),
        count-expire-le token (last - quota_window) db.reservations,
        h.few token,
      )

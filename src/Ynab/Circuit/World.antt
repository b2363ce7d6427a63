-- ===== src/Ynab/Circuit/World.antt =====
-- The circuit of internal/tools/ynab/quota.go beside the permits that are out: callers are admitted and
-- report their outcome in any order, each at the time that its own clock shows.
use personal_mcp_gateway.Base.{
  ℕ, suc, ◌+◌, ◌≤◌, ◌<◌, Bool, not, ◌&&◌, Option, none, some, List, [], ◌∷◌, ◌++◌, All, ◌==◌,
  if◌then◌else◌, ◌≡◌, ◌⊎◌, arith,
}
use personal_mcp_gateway.Ynab.Circuit.{AttemptPermit, AttemptOutcome, CircuitState, admit, settle}

pub record World : Type 0 where
  pub circuit : CircuitState
  pub permits : List AttemptPermit

abbrev pub initial : World
initial = record {
  circuit = record { failures = 0; epoch = 0; recovery_floor = 0; open_until = 0; lease_until = 0 };
  permits = [];
}

-- Clocks, and the delays that a provider asks for, stay below 2 ^ 62 nanoseconds, which is in 2116.
abbrev pub last_time : ℕ
last_time = 4_611_686_018_427_387_904

abbrev pub InTime : Option ℕ → Type 0
InTime none = Unit
InTime (some t) = t < last_time

pub data Step : World → World → Type 0 where
  admitted :
      (w : World) (p : AttemptPermit) (now : ℕ)
      → now < last_time
      → (admit w.circuit now).2 ≡ none
      → p.probe ≡ (admit w.circuit now).1
      → p.epoch ≡ (admit w.circuit now).0.epoch
      → Step w (record { circuit = (admit w.circuit now).0; permits = p ∷ w.permits })
  finished :
      (w : World) (before after : List AttemptPermit) (p : AttemptPermit) (outcome : AttemptOutcome)
      (now : ℕ) (until : Option ℕ)
      → now < last_time
      → InTime until
      → w.permits ≡ before ++ p ∷ after
      → Step w
          (record { circuit = settle w.circuit p outcome now until; permits = before ++ after })

-- A number of steps from the initial world.
pub data Run : ℕ → World → Type 0 where
  start : Run 0 initial
  next : {n : ℕ} {w v : World} → Run n w → Step w v → Run (suc n) v

abbrev pub IsClosed : CircuitState → Type 0
IsClosed s = (s.open_until ≡ 0) × (s.lease_until ≡ 0)

-- The permits of the epoch `e` that are probes, and those that are not.
abbrev pub is_probe_of : ℕ → AttemptPermit → Bool
is_probe_of e p = p.probe && p.epoch == e

abbrev pub is_plain_of : ℕ → AttemptPermit → Bool
is_plain_of e p = not p.probe && p.epoch == e

abbrev pub count_of : (AttemptPermit → Bool) → List AttemptPermit → ℕ
count_of f [] = 0
count_of f (p ∷ ps) = (if f p then 1 else 0) + count_of f ps

abbrev pub UpTo : ℕ → AttemptPermit → Type 0
UpTo e p = p.epoch ≤ e

-- What holds of a circuit and its permits, with `n` a bound of its counters.
pub record IsSound (n : ℕ) (w : World) : Type 0 where
  pub epoch_small : w.circuit.epoch ≤ n
  pub failures_small : w.circuit.failures ≤ n
  pub floor_past : w.circuit.recovery_floor ≤ w.circuit.epoch
  pub open_in_time : w.circuit.open_until < 9_223_372_036_854_775_808
  pub lease_in_time : w.circuit.lease_until < 9_223_372_036_854_775_808
  pub one_fence : (w.circuit.open_until ≡ 0) ⊎ (w.circuit.lease_until ≡ 0)
  pub few_failures : IsClosed w.circuit → w.circuit.failures < 3
  pub issued : All (UpTo w.circuit.epoch) w.permits
  pub one_probe : count_of (is_probe_of w.circuit.epoch) w.permits ≤ 1
  pub probe_leased :
      0 < count_of (is_probe_of w.circuit.epoch) w.permits → 0 < w.circuit.lease_until
  pub plain_closed : 0 < count_of (is_plain_of w.circuit.epoch) w.permits → IsClosed w.circuit

-- Counting.
pub count_of-append :
    (f : AttemptPermit → Bool) (xs ys : List AttemptPermit)
    → count_of f (xs ++ ys) ≡ count_of f xs + count_of f ys
count_of-append f [] ys = omega arith
count_of-append f (x ∷ xs) ys = omega (arith, count_of-append f xs ys)

pub UpTo-weaken : (d e : ℕ) (ps : List AttemptPermit) → d ≤ e → All (UpTo d) ps → All (UpTo e) ps
UpTo-weaken d e [] h a = tt
UpTo-weaken d e (p ∷ ps) h a = (omega arith, UpTo-weaken d e ps h a.1)

pub UpTo-without :
    (e : ℕ) (xs ys : List AttemptPermit) (p : AttemptPermit)
    → All (UpTo e) (xs ++ p ∷ ys)
    → (p.epoch ≤ e) × All (UpTo e) (xs ++ ys)
UpTo-without e [] ys p a = a
UpTo-without e (x ∷ xs) ys p a = let rest = UpTo-without e xs ys p a.1 in (rest.0, (a.0, rest.1))

-- No permit is of an epoch that has not begun.
pub no_probe_ahead :
    (d e : ℕ) (ps : List AttemptPermit) → d < e → All (UpTo d) ps → count_of (is_probe_of e) ps ≡ 0
no_probe_ahead d e [] h a = ground arith
no_probe_ahead d e (p ∷ ps) h a = ground (arith, no_probe_ahead d e ps)

pub no_plain_ahead :
    (d e : ℕ) (ps : List AttemptPermit) → d < e → All (UpTo d) ps → count_of (is_plain_of e) ps ≡ 0
no_plain_ahead d e [] h a = ground arith
no_plain_ahead d e (p ∷ ps) h a = ground (arith, no_plain_ahead d e ps)

-- ===== src/Ynab/Circuit/Fenced.antt =====
-- Every reachable circuit of internal/tools/ynab/quota.go is sound.
use personal_mcp_gateway.Base.{
  ℕ, suc, ◌+◌, ◌*◌, ◌≤◌, ◌<◌, true, false, Option, none, some, List, ◌∷◌, ◌++◌, All, if◌then◌else◌,
  ◌≡◌, inl, inr, refl, sym, ap, ◌∙◌, subst, arith, Bool-cases,
}
use personal_mcp_gateway.Base.Word.{add64, lt64, lt64_iff}
use personal_mcp_gateway.Ynab.Circuit.{
  AttemptPermit, AttemptOutcome, CircuitState, probe_lease, admit, complete, defer_family, settle,
}
use personal_mcp_gateway.Ynab.Circuit.World.{
  World, initial, Step, admitted, finished, Run, start, next, IsClosed, IsSound, last_time, InTime,
  count_of, is_probe_of, is_plain_of, count_of-append, UpTo, UpTo-weaken, UpTo-without,
  no_probe_ahead, no_plain_ahead,
}

initial-IsSound : IsSound 0 initial
initial-IsSound = ground arith

admitted-IsSound :
    (n : ℕ) (w : World) (p : AttemptPermit) (now : ℕ)
    → n < last_time
    → now < last_time
    → (admit w.circuit now).2 ≡ none
    → p.probe ≡ (admit w.circuit now).1
    → p.epoch ≡ (admit w.circuit now).0.epoch
    → IsSound n w
    → IsSound (suc n) (record { circuit = (admit w.circuit now).0; permits = p ∷ w.permits })
unfolding admit add64 lt64
admitted-IsSound n w p now small in_time ok probe epoch h = ground (
  arith,
  UpTo-weaken w.circuit.epoch (w.circuit.epoch + 1) w.permits,
  no_probe_ahead w.circuit.epoch (w.circuit.epoch + 1) w.permits,
  no_plain_ahead w.circuit.epoch (w.circuit.epoch + 1) w.permits,
)

-- A permit `p` beside the others of a sound circuit.
record IsBeside (e : ℕ) (held rest : List AttemptPermit) (p : AttemptPermit) : Type 0 where
  past : p.epoch ≤ e
  others : All (UpTo e) rest
  probes :
      (if is_probe_of e p then 1 else 0) + count_of (is_probe_of e) rest
      ≡ count_of (is_probe_of e) held
  plains :
      (if is_plain_of e p then 1 else 0) + count_of (is_plain_of e) rest
      ≡ count_of (is_plain_of e) held

beside :
    (e : ℕ) (held before after : List AttemptPermit) (p : AttemptPermit)
    → held ≡ before ++ p ∷ after
    → All (UpTo e) held
    → IsBeside e held (before ++ after) p
beside e held before after p split all =
    let (past, others) = UpTo-without e before after p (subst (All (UpTo e)) split all) in
    record {
      past = past;
      others = others;
      probes = rw split (
          omega (
            arith,
            count_of-append (is_probe_of e) before (p ∷ after),
            count_of-append (is_probe_of e) before after,
          ));
      plains = rw split (
          omega (
            arith,
            count_of-append (is_plain_of e) before (p ∷ after),
            count_of-append (is_plain_of e) before after,
          ));
    }

module _ (n : ℕ) (w : World) (rest : List AttemptPermit) (p : AttemptPermit) (now : ℕ) where
  completed-IsSound :
      (outcome : AttemptOutcome)
      → n < last_time
      → now < last_time
      → IsBeside w.circuit.epoch w.permits rest p
      → IsSound n w
      → IsSound (suc n) (record { circuit = complete w.circuit p outcome now; permits = rest })
  unfolding complete add64 lt64
  completed-IsSound AttemptOutcome.neutral small in_time b h = ground (
    arith,
    UpTo-weaken w.circuit.epoch (w.circuit.epoch + 1) rest,
    no_probe_ahead w.circuit.epoch (w.circuit.epoch + 1) rest,
    no_plain_ahead w.circuit.epoch (w.circuit.epoch + 1) rest,
  )
  completed-IsSound AttemptOutcome.healthy small in_time b h = ground arith
  completed-IsSound AttemptOutcome.transient small in_time b h = ground (
    arith,
    UpTo-weaken w.circuit.epoch (w.circuit.epoch + 1) rest,
    no_probe_ahead w.circuit.epoch (w.circuit.epoch + 1) rest,
    no_plain_ahead w.circuit.epoch (w.circuit.epoch + 1) rest,
  )

deferred-IsSound :
    (n : ℕ) (w : World) (now until : ℕ)
    → n < last_time
    → now < until
    → until < last_time
    → IsSound n w
    → IsSound (suc n) (record { circuit = defer_family w.circuit until; permits = w.permits })
unfolding defer_family add64 lt64
deferred-IsSound n w now until small later in_time h = ground (
  arith,
  UpTo-weaken w.circuit.epoch (w.circuit.epoch + 1) w.permits,
  no_probe_ahead w.circuit.epoch (w.circuit.epoch + 1) w.permits,
  no_plain_ahead w.circuit.epoch (w.circuit.epoch + 1) w.permits,
)

IsSound-weaken : (n : ℕ) (w : World) → IsSound n w → IsSound (suc n) w
IsSound-weaken n w h = ground arith

settled-IsSound :
    (n : ℕ) (w : World) (rest : List AttemptPermit) (p : AttemptPermit) (outcome : AttemptOutcome)
    (now : ℕ) (until : Option ℕ)
    → suc n < last_time
    → now < last_time
    → InTime until
    → IsBeside w.circuit.epoch w.permits rest p
    → IsSound n w
    → IsSound
        (suc (suc n))
        (record { circuit = settle w.circuit p outcome now until; permits = rest })
unfolding settle
settled-IsSound n w rest p outcome now none small in_time u b h =
    IsSound-weaken (suc n) _ (completed-IsSound n w rest p now outcome (omega arith) in_time b h)
settled-IsSound n w rest p outcome now (some until) small in_time u b h =
    let c = complete w.circuit p outcome now in
    let v : World = record { circuit = c; permits = rest } in
    let done : IsSound (suc n) v =
      completed-IsSound n w rest p now outcome (omega arith) in_time b h in
    elim (Bool-cases (lt64 now until)) [
      | inl later ↦
          rw later
            (deferred-IsSound (suc n) v now until small (later-lt now until in_time u later) u done)
      | inr not_later ↦ rw not_later (IsSound-weaken (suc n) v done)
    ]
  where
    later-lt : (a b : ℕ) → a < last_time → b < last_time → lt64 a b ≡ true → a < b
    later-lt a b ha hb l = (lt64_iff a b (omega arith) (omega arith)).0 l

Step-IsSound :
    {n : ℕ} {w v : World} → suc n < last_time → Step w v → IsSound n w → IsSound (suc (suc n)) v
Step-IsSound {n} small (admitted w p now in_time ok probe epoch) h =
    IsSound-weaken (suc n) _ (admitted-IsSound n w p now (omega arith) in_time ok probe epoch h)
Step-IsSound {n} small (finished w before after p outcome now until in_time u held) h =
    settled-IsSound n w (before ++ after) p outcome now until small in_time u
      (beside w.circuit.epoch w.permits before after p held h.issued) h

-- After `n` admissions and completions, in any order and at any times, as long as `n` is below 2 ^ 61: no
-- permit is of a later epoch than the circuit, at most one of them is a probe of its
-- epoch, and then the circuit is leased, those of its epoch that are no probes are out only while the
-- circuit is closed, a closed circuit has fewer than three failures, and the cooldown and the lease do
-- not run at once.
pub Run-IsSound : {n : ℕ} {w : World} → 2 * n < last_time → Run n w → IsSound (2 * n) w
Run-IsSound small start = initial-IsSound
Run-IsSound small (next {n = n} run step) =
    let h = Run-IsSound {n = n} (omega arith) run in
    let twice : 2 * suc n ≡ suc (suc (2 * n)) = omega arith in
    rw twice (Step-IsSound (omega arith) step h)

-- A permit that is not the probe of the circuit's epoch.
abbrev pub IsLate : CircuitState → AttemptPermit → Type 0
IsLate s p = is_probe_of s.epoch p ≡ false

complete-late :
    (n : ℕ) (w : World) (before after : List AttemptPermit) (p : AttemptPermit)
    (outcome : AttemptOutcome) (now : ℕ)
    → IsSound n w
    → ¬ IsClosed w.circuit
    → w.permits ≡ before ++ p ∷ after
    → IsLate w.circuit p
    → complete w.circuit p outcome now ≡ w.circuit
unfolding complete
complete-late n w before after p outcome now h shut held late =
    unchanged outcome h (beside w.circuit.epoch w.permits before after p held h.issued)
  where
    unchanged :
        (o : AttemptOutcome)
        → IsSound n w
        → IsBeside w.circuit.epoch w.permits (before ++ after) p
        → complete w.circuit p o now ≡ w.circuit
    unchanged AttemptOutcome.healthy h b = ground arith
    unchanged AttemptOutcome.transient h b = ground arith
    unchanged AttemptOutcome.neutral h b = ground arith

-- The circuit with nothing but a delay that the provider asked for and that is not over: it is open until the
-- later of the two times, and a new epoch has begun without a lease.
abbrev pub only_delayed : CircuitState → ℕ → Option ℕ → CircuitState
only_delayed c now none = c
only_delayed c now (some until) =
    if lt64 now until
    then record c {
      epoch = add64 c.epoch 1;
      open_until = if lt64 c.open_until until then until else c.open_until;
      lease_until = 0;
    }
    else c

defer_family-delayed :
    (c : CircuitState) (until : ℕ)
    → defer_family c until ≡ record c {
      epoch = add64 c.epoch 1;
      open_until = if lt64 c.open_until until then until else c.open_until;
      lease_until = 0;
    }
unfolding defer_family
defer_family-delayed c until = elim (Bool-cases (lt64 c.open_until until)) [
  | inl y ↦ rw y refl
  | inr n ↦ rw n refl
]

settle-late :
    (c : CircuitState) (p : AttemptPermit) (outcome : AttemptOutcome) (now : ℕ) (until : Option ℕ)
    → complete c p outcome now ≡ c
    → settle c p outcome now until ≡ only_delayed c now until
unfolding settle
settle-late c p outcome now none same = same
settle-late c p outcome now (some until) same =
    ap (λ t. if lt64 now until then defer_family t until else t) same
    ∙ ap (λ t. if lt64 now until then t else c) (defer_family-delayed c until)

only_delayed-shut :
    (c : CircuitState) (now : ℕ) (until : Option ℕ)
    → now < last_time
    → InTime until
    → c.open_until < 9_223_372_036_854_775_808
    → ¬ IsClosed c
    → (¬ IsClosed (only_delayed c now until))
      × (c.open_until ≤ (only_delayed c now until).open_until)
unfolding lt64
only_delayed-shut c now none in_time u small shut = (shut, omega arith)
only_delayed-shut c now (some until) in_time u small shut = ground arith

-- While a circuit that `n` admissions and completions have led to is not closed, the report of a permit that is
-- out, if it is not the probe of its epoch, has no effect on it, whatever its outcome and the time, but for a
-- delay that the provider asked for and that is not over: a success that was admitted before the outage does
-- not heal it, and a late failure as such does not prolong it. The circuit is not closed after the report, and
-- not open for a shorter time.
pub late_changes_nothing :
    (n : ℕ) (w : World) (before after : List AttemptPermit) (p : AttemptPermit)
    (outcome : AttemptOutcome) (now : ℕ) (until : Option ℕ)
    → 2 * n < last_time
    → Run n w
    → now < last_time
    → InTime until
    → ¬ IsClosed w.circuit
    → w.permits ≡ before ++ p ∷ after
    → IsLate w.circuit p
    → (settle w.circuit p outcome now until ≡ only_delayed w.circuit now until)
      × (¬ IsClosed (settle w.circuit p outcome now until))
      × (w.circuit.open_until ≤ (settle w.circuit p outcome now until).open_until)
late_changes_nothing n w before after p outcome now until small run in_time u shut held late =
    let h = Run-IsSound small run in
    let is =
      settle-late w.circuit p outcome now until
        (complete-late (2 * n) w before after p outcome now h shut held late) in
    let (still, longer) = only_delayed-shut w.circuit now until in_time u h.open_in_time shut in
    (
      is,
      subst (λ c. ¬ IsClosed c) (sym is) still,
      subst (λ (c : CircuitState). w.circuit.open_until ≤ c.open_until) (sym is) longer,
    )

-- Where `admit` makes an attempt the probe, no attempt is admitted before its lease ends, and each is
-- told that end; from then on the next attempt is a probe again, so a probe that never reports back
-- delays recovery by one lease.
pub probe_is_alone :
    (s : CircuitState) (now later : ℕ)
    → now < last_time
    → later < 9_223_372_036_854_775_808
    → (admit s now).1 ≡ true
    → let t = (admit s now).0 in
      (later < now + probe_lease → admit t later ≡ (t, false, some (now + probe_lease)))
      × (now + probe_lease ≤ later → ((admit t later).1 ≡ true) × ((admit t later).2 ≡ none))
unfolding admit add64 lt64
probe_is_alone s now later in_time later_in_time probe = (λ h. ground arith, λ h. ground arith)

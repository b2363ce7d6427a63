-- ===== src/Ynab/Dispatch/Bounded.antt =====
-- How often `dispatch` of internal/tools/ynab/reliability.go sends a request, and that it ends.
use personal_mcp_gateway.Base.{if_lem, ℕ, suc, ◌+◌, ◌≤◌, Bool, true, false, ◌≢◌, arith}
use personal_mcp_gateway.Ynab.Dispatch.Reading.{Provider, Ended, panicked}
use personal_mcp_gateway.Ynab.Dispatch.{attempts, dispatch}
use personal_mcp_gateway.Ynab.Dispatch.Attempts.{IsCalm, attempt_ends}

-- `count` is how often the request has been sent: no call adds to it but the sending, which adds one.
pub record IsMetered {W : Type 0} (p : Provider W) (count : W → ℕ) : Type 0 where
  pub others : (n : ℕ) → IsCalm p (λ w. count w ≤ n)
  pub sent : (w : W) → count (p.send w).0 ≤ suc (count w)

-- One attempt for a write, two for a read.
abbrev pub attempts_of : Bool → ℕ
attempts_of true = 1
attempts_of false = 2

module _ {W : Type 0} (p : Provider W) where
  module _ (count : W → ℕ) (metered : IsMetered p count) where
    last_sends :
        (write : Bool) (k : ℕ) (w : W) → count w ≤ k → count (attempts p write 1 w).0 ≤ suc k
    unfolding attempts
    last_sends write k w h =
        attempt_ends p write (λ v. count v ≤ suc k) (metered.others (suc k))
          (λ r. count r.0 ≤ suc k) (λ v o r x. x) (λ v. count v ≤ k) (metered.others k)
          (λ v o r x. omega (arith, x)) (λ v x. omega (arith, metered.sent v, x)) true true
          (attempts p write 0) w (λ x y. cc y) h

    attempts_send :
        (write : Bool) (k : ℕ) (w : W)
        → count w ≤ k
        → count (attempts p write 2 w).0 ≤ attempts_of write + k
    unfolding attempts
    attempts_send true k w h =
        attempt_ends p true (λ v. count v ≤ suc k) (metered.others (suc k)) (λ r. count r.0 ≤ 1 + k)
          (λ v o r x. omega (arith, x)) (λ v. count v ≤ k) (metered.others k)
          (λ v o r x. omega (arith, x)) (λ v x. omega (arith, metered.sent v, x)) false false
          (attempts p true 1) w (λ x y. cc x) h
    attempts_send false k w h =
        attempt_ends p false (λ v. count v ≤ suc k) (metered.others (suc k))
          (λ r. count r.0 ≤ 2 + k) (λ v o r x. omega (arith, x)) (λ v. count v ≤ k)
          (metered.others k) (λ v o r x. omega (arith, x)) (λ v x. omega (arith, metered.sent v, x))
          false false (attempts p false 1) w
          (λ x y v z. omega (arith, last_sends false (suc k) v z)) h

    -- Whatever the context, the database and the provider do, a call of `dispatch` sends a write to the
    -- provider at most once and a read at most twice.
    pub dispatch_sends :
        (write has_store : Bool) (w : W)
        → count (dispatch p write has_store w).0 ≤ attempts_of write + count w
    unfolding dispatch
    dispatch_sends write has_store w =
        let k = (metered.others (count w)).canceled w (omega arith) in
        if_lem (λ (r : W × Ended). count r.0 ≤ attempts_of write + count w) (p.canceled w).1
          (λ y. omega (arith, k))
          (λ n.
            if_lem (λ (r : W × Ended). count r.0 ≤ attempts_of write + count w) has_store
              (λ y. attempts_send write (count w) (p.canceled w).0 k) (λ m. omega (arith, k)))

  abbrev Anything : W → Type 0
  Anything w = Unit

  any : IsCalm p Anything
  any = record {
    canceled = λ w h. h;
    take_slot = λ w h. h;
    release_slot = λ w h. h;
    clock = λ w h. h;
    reserve = λ t w h. h;
    record_attempt = λ a o t f k w h. h;
    jitter = λ n w h. h;
    out_of_time = λ n w h. h;
    sleep = λ n w h. h;
  }

  abbrev Ends : W × Ended → Type 0
  Ends r = r.1 ≢ panicked

  last-Ends : (write : Bool) (w : W) → Ends (attempts p write 1 w)
  unfolding attempts
  last-Ends write w =
      attempt_ends p write Anything any Ends (λ v o r x. λ e. cc e) Anything any
        (λ v o r x. λ e. cc e) (λ v x. tt) true true (attempts p write 0) w (λ x y. cc y) tt

  attempts-Ends : (write : Bool) (w : W) → Ends (attempts p write 2 w)
  unfolding attempts
  attempts-Ends write w =
      attempt_ends p write Anything any Ends (λ v o r x. λ e. cc e) Anything any
        (λ v o r x. λ e. cc e) (λ v x. tt) false false (attempts p write 1) w
        (λ x y v z. last-Ends write v) tt

  -- Whatever happens on the way, `dispatch` returns a result: the end of its loop is never reached.
  pub dispatch_answers :
      (write has_store : Bool) (w : W) → (dispatch p write has_store w).1 ≢ panicked
  unfolding dispatch
  dispatch_answers write has_store w =
      if_lem Ends (p.canceled w).1 (λ y. λ e. cc e)
        (λ n. if_lem Ends has_store (λ y. attempts-Ends write (p.canceled w).0) (λ m. λ e. cc e))

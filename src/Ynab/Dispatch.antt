-- ===== src/Ynab/Dispatch.antt =====
-- internal/tools/ynab/reliability.go: `dispatch`, the one place where a request goes to the provider. A
-- time is a number of nanoseconds that is far from its bound; the zero time is `none`.
pub mod Reading
pub mod Attempts
pub mod Bounded
use text.Mathlib.Text.{◌==◌ as str_eq}
use personal_mcp_gateway.Base.{
  ℕ, zero, suc, ◌+◌, ◌-◌, Bytes, String, Bool, true, false, not, ◌&&◌, ◌||◌, Option, none, some, [],
  length, leb, ltb, ◌==◌, if◌then◌else◌,
}
use personal_mcp_gateway.Ynab.Circuit.{second, quota_window, AttemptPermit, AttemptOutcome}
use personal_mcp_gateway.Ynab.Quota.{
  Result, empty_result, state_failure, wait_result, Recorded, failed, until,
}
use personal_mcp_gateway.Ynab.Dispatch.Reading.{
  read_attempts, retry_cap, canceled_result, provider_failure, Provider, Ended, answered, panicked,
  Reply, is_empty_result, read_reply,
}

module _ {W : Type 0} (p : Provider W) (write : Bool) where
  abbrev pub canceled_after : Bool → W → W × Ended
  canceled_after dispatched w = (w, answered none (canceled_result dispatched write))

  -- `if ctx.Err() != nil { … }`
  abbrev pub unless_canceled : {A : Type 0} → W → (W → W × A) → (W → W × A) → W × A
  unless_canceled w stopped go = let c = p.canceled w in if c.1 then stopped c.0 else go c.0

  -- finishAttempt
  unfoldable pub finish_attempt :
      AttemptPermit → AttemptOutcome → Option ℕ → Option ℕ → W → W × Recorded
  finish_attempt permit outcome family_until token_until w =
      let c = p.clock w in p.record_attempt permit outcome c.1 family_until token_until c.0

  unfoldable pub pick_delay : Option ℕ → W → W × ℕ
  pick_delay none w = p.jitter retry_cap w
  pick_delay (some h) w =
      let j = p.jitter retry_cap w in
      let a = p.clock j.0 in
      let b = p.clock a.0 in if ltb (a.1 + j.1) h then (b.0, h - b.1) else (a.0, j.1)

  abbrev pub text_of : Option ℕ → Bytes
  text_of none = p.zero_time
  text_of (some t) = p.rfc3339 t

  unfoldable pub pause : Reply → (W → W × Ended) → W → W × Ended
  pause r again w =
      let d = pick_delay r.hint w in
      let late = p.out_of_time d.1 d.0 in
      let slept = p.sleep d.1 late.0 in
      if ltb retry_cap d.1
      then (d.0, answered none (record r.result { recovery = "wait"; retry_at = text_of r.hint }))
      else if late.1
      then (late.0, answered none r.result)
      else if slept.1
      then again slept.0
      else (slept.0, answered none (canceled_result true false))

  -- A read whose attempt failed in a transient way.
  abbrev pub retry : Bool → Reply → (W → W × Ended) → Option ℕ → W → W × Ended
  retry last r again (some t) w =
      (w, answered none (record r.result { recovery = "wait"; retry_at = p.rfc3339 t }))
  retry last r again none w = if last then (w, answered none r.result) else pause r again w

  unfoldable pub after_record : Bool → Reply → (W → W × Ended) → Recorded → W → W × Ended
  after_record last r again failed w = (
    w,
    answered none
        (provider_failure "local_state" "unable to record provider recovery state" 0 write true),
  )
  after_record last r again (until retry_at) w = unless_canceled w (canceled_after true) (λ v.
      if is_empty_result r.result
      then (v, answered r.raw empty_result)
      else if not write && r.transient
      then retry last r again retry_at v
      else (v, answered none r.result))

  abbrev pub outcome_of : Bool → Bool → AttemptOutcome
  outcome_of true t = AttemptOutcome.neutral
  outcome_of false true = AttemptOutcome.transient
  outcome_of false false = AttemptOutcome.healthy

  unfoldable pub after_reply : Bool → AttemptPermit → (W → W × Ended) → W × Reply → W × Ended
  after_reply last permit again (w, r) =
      let c = p.canceled (p.release_slot w) in
      let done =
        finish_attempt permit (outcome_of c.1 r.transient) (if r.transient then r.hint else none)
          r.token_until c.0 in
      after_record last r again done.1 done.0

  unfoldable pub after_reserve :
      Bool → Bool → (W → W × Ended) → W × AttemptPermit × Result → W × Ended
  after_reserve retried last again (w, permit, denial) =
      if not (is_empty_result denial)
      then unless_canceled (p.release_slot w) (canceled_after retried)
          (λ v. (v, answered none (if retried then record denial { status = "error" } else denial)))
      else unless_canceled w
          (λ v.
            canceled_after retried
              (finish_attempt permit AttemptOutcome.neutral none none (p.release_slot v)).0)
          (λ v.
            let sent = p.send v in after_reply last permit again (read_reply p write sent.1 sent.0))

  unfoldable pub attempt : Bool → Bool → (W → W × Ended) → W → W × Ended
  attempt retried last again w = unless_canceled w (canceled_after retried) (λ v.
      let slot = p.take_slot v in
      let now = p.clock slot.0 in
      if slot.1
      then after_reserve retried last again (p.reserve now.1 now.0)
      else canceled_after retried slot.0)

  -- The attempts that are left, of `read_attempts`.
  unfoldable pub attempts : ℕ → W → W × Ended
  attempts zero w = (w, panicked)
  attempts (suc n) w = attempt (not (suc n == read_attempts)) (n == 0) (attempts n) w

  -- Whether the database of the allowance could be opened is the last argument but one.
  unfoldable pub dispatch : Bool → W → W × Ended
  dispatch has_store w =
      unless_canceled w (canceled_after false)
        (λ v. if has_store then attempts read_attempts v else (v, answered none state_failure))

-- ===== src/Ynab/Dispatch/Reading.antt =====
-- internal/tools/ynab/reliability.go: the results of a call, what `dispatch` calls, and how it reads a reply.
use text.Mathlib.Text.{◌==◌ as str_eq}
use personal_mcp_gateway.Base.{
  ℕ, ◌+◌, Bytes, String, Bool, true, false, not, ◌&&◌, ◌||◌, Option, none, some, length, leb, ltb,
  ◌==◌, if◌then◌else◌,
}
use personal_mcp_gateway.Ynab.Circuit.{second, quota_window, AttemptPermit, AttemptOutcome}
use personal_mcp_gateway.Ynab.Quota.{Result, empty_result, wait_result, Recorded}

abbrev pub read_attempts : ℕ
read_attempts = 2

abbrev pub retry_cap : ℕ
retry_cap = second

abbrev pub max_provider_bytes : ℕ
max_provider_bytes = 33_554_432

unfoldable pub transient_status : ℕ → Bool
transient_status s = s == 408 || s == 500 || s == 502 || s == 503 || s == 504

unfoldable pub canceled_result : Bool → Bool → Result
canceled_result dispatched write =
    let r = record empty_result {
      status = "not_attempted";
      error = "call canceled before dispatch";
      error_code = "canceled";
      recovery = "retry_read";
    } in
    let d =
      if dispatched then record r { status = "error"; error = "provider call canceled" } else r in
    if write
    then (if dispatched
        then record d {
          status = "uncertain";
          error_code = "uncertain_write";
          recovery = "inspect_before_retry";
        }
        else record d { recovery = "fix_request" })
    else d

abbrev pub recovery_of : String → String
recovery_of code =
    if str_eq code "authentication" || str_eq code "permission"
    then "fix_credentials"
    else if str_eq code "upstream_unavailable"
    then "retry_read"
    else if str_eq code "invalid_response" || str_eq code "local_state"
    then "contact_operator"
    else "fix_request"

unfoldable pub provider_failure : String → String → ℕ → Bool → Bool → Result
provider_failure code message status write ambiguous =
    let r = record empty_result {
      status = "error";
      error = message;
      error_code = code;
      http_status = status;
      recovery = recovery_of code;
    } in
    if write && ambiguous
    then record r {
      status = "uncertain";
      error_code = "uncertain_write";
      recovery = "inspect_before_retry";
    }
    else r

-- The answer of the provider; a body of `none` does not complete.
pub record Response : Type 0 where
  pub status : ℕ
  pub retry_after : Bytes
  pub body : Option Bytes

-- All that `dispatch` calls: the context, the slots, `reserve` and `record` of the allowance, the clock,
-- the client, the jitter and the sleep, and the texts of times and numbers. `W` is what they change.
pub record Provider (W : Type 0) : Type 0 where
  pub canceled : W → W × Bool
  pub take_slot : W → W × Bool
  pub release_slot : W → W
  pub clock : W → W × ℕ
  pub reserve : ℕ → W → W × AttemptPermit × Result
  pub send : W → W × Option Response
  pub record_attempt : AttemptPermit → AttemptOutcome → ℕ → Option ℕ → Option ℕ → W → W × Recorded
  pub jitter : ℕ → W → W × ℕ
  pub out_of_time : ℕ → W → W × Bool
  pub sleep : ℕ → W → W × Bool
  pub retry_time : Bytes → ℕ → Option ℕ
  pub retry_after : Bytes → Bytes
  pub rfc3339 : ℕ → Bytes
  pub zero_time : Bytes
  pub http_text : ℕ → String

-- What `dispatch` returns; the loop has no other end.
pub data Ended : Type 0 where
  answered : Option Bytes → Result → Ended
  panicked : Ended

-- One reply, as `dispatch` reads it.
pub record Reply : Type 0 where
  pub raw : Option Bytes
  pub result : Result
  pub transient : Bool
  pub hint : Option ℕ
  pub token_until : Option ℕ

abbrev pub reply_of : Option Bytes → Result → Bool → Option ℕ → Option ℕ → Reply
reply_of raw result transient hint token_until = record {
  raw = raw;
  result = result;
  transient = transient;
  hint = hint;
  token_until = token_until;
}

abbrev pub code_of_status : ℕ → String
code_of_status s =
    if s == 401
    then "authentication"
    else if s == 403
    then "permission"
    else if s == 404
    then "not_found"
    else if s == 409
    then "conflict"
    else if leb 500 s || s == 408
    then "upstream_unavailable"
    else "invalid_request"

abbrev pub is_empty_result : Result → Bool
is_empty_result r = str_eq r.status ""

module _ {W : Type 0} (p : Provider W) (write : Bool) where
  -- The time of a reply with status 429: an hour ahead if it gives none, and a second ahead at least.
  abbrev pub limit_time : Option ℕ → W → W × ℕ
  limit_time (some h) w = (w, h)
  limit_time none w = let c = p.clock w in (c.0, c.1 + quota_window)

  unfoldable pub second_ahead : W × ℕ → W × ℕ
  second_ahead (w, h) =
      let a = p.clock w in
      let b = p.clock a.0 in if ltb h (a.1 + second) then (b.0, b.1 + second) else (a.0, h)

  unfoldable pub limited : Response → Option ℕ → W → W × Reply
  limited r hint w =
      let t = second_ahead (limit_time hint w) in
      (
        t.0,
        reply_of none
            (record (wait_result p.rfc3339 "rate_limited" t.1) {
              status = "error";
              http_status = 429;
              retry_after = p.retry_after r.retry_after;
            })
            false (some t.1) (some t.1),
      )

  unfoldable pub body_read : Response → Option ℕ → Option Bytes → W → W × Reply
  body_read r hint none w =
      let c = p.canceled w in
      (
        c.0,
        reply_of none
            (provider_failure "upstream_unavailable" "provider response did not complete" r.status
              write true)
            (not c.1) hint none,
      )
  body_read r hint (some raw) w =
      let result =
        if ltb max_provider_bytes (length raw)
        then provider_failure "response_too_large" "provider response exceeds 32 MiB" r.status write
            true
        else empty_result in
      (w, reply_of (some raw) result false hint none)

  unfoldable pub read_response : Response → W → W × Reply
  read_response r w =
      let c = p.clock w in
      let hint = p.retry_time r.retry_after c.1 in
      if r.status == 429
      then limited r hint c.0
      else if ltb r.status 200 || ltb 299 r.status
      then (
        c.0,
        reply_of none
            (provider_failure (code_of_status r.status) (p.http_text r.status) r.status write
              (leb 500 r.status || r.status == 408))
            (transient_status r.status) hint none,
      )
      else body_read r hint r.body c.0

  unfoldable pub read_reply : Option Response → W → W × Reply
  read_reply none w =
      let c = p.canceled w in
      (
        c.0,
        reply_of none
            (provider_failure "upstream_unavailable" "provider request did not complete" 0 write
              true)
            (not c.1) none none,
      )
  read_reply (some r) w = read_response r w

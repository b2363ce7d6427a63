-- ===== src/Ynab/DispatchTests.antt =====
-- Calls of `dispatch` of internal/tools/ynab/reliability.go on a provider that answers 503 for a while.
use personal_mcp_gateway.Base.{
  ℕ, zero, suc, ◌+◌, ◌≤◌, Bytes, codes, true, false, Option, none, some, [], ◌≡◌, ◌≢◌, refl, arith,
}
use personal_mcp_gateway.Ynab.Circuit.{AttemptPermit}
use personal_mcp_gateway.Ynab.Quota.{empty_result, state_failure, until}
use personal_mcp_gateway.Ynab.Dispatch.Reading.{
  transient_status, canceled_result, provider_failure, Response, Provider, answered, panicked,
  second_ahead, limited, body_read, read_response, read_reply,
}
use personal_mcp_gateway.Ynab.Dispatch.{
  finish_attempt, pick_delay, pause, after_record, after_reply, after_reserve, attempt, attempts,
  dispatch,
}
use personal_mcp_gateway.Ynab.Dispatch.Attempts.{IsCalm}
use personal_mcp_gateway.Ynab.Dispatch.Bounded.{
  IsMetered, attempts_of, dispatch_sends, dispatch_answers,
}

record Upstream : Type 0 where
  sends : ℕ
  -- How many replies will still have status 503.
  down : ℕ

abbrev permit : AttemptPermit
permit = record { token = codes "k"; family = codes "GET:plans"; epoch = 0; probe = false }

abbrev body : Bytes
body = codes "ok"

abbrev reply : Upstream → Upstream × Option Response
reply w = elim w.down [
  | zero ↦ (
    record w { sends = suc w.sends },
    some (record { status = 200; retry_after = []; body = some body }),
  )
  | suc n ↦ (
    record { sends = suc w.sends; down = n },
    some (record { status = 503; retry_after = []; body = some body }),
  )
]

abbrev upstream : Provider Upstream
upstream = record {
  canceled = λ w. (w, false);
  take_slot = λ w. (w, true);
  release_slot = λ w. w;
  clock = λ w. (w, 5);
  reserve = λ t w. (w, permit, empty_result);
  send = reply;
  record_attempt = λ a o t f k w. (w, until none);
  jitter = λ n w. (w, 7);
  out_of_time = λ n w. (w, false);
  sleep = λ n w. (w, true);
  retry_time = λ s t. none;
  retry_after = λ s. [];
  rfc3339 = λ t. [];
  zero_time = [];
  http_text = λ n. "provider returned HTTP 503";
}

-- To unfold `opened` is to unfold the program.
opened : Unit {0}
unfolding transient_status canceled_result provider_failure second_ahead limited body_read
    read_response read_reply finish_attempt pick_delay pause after_record after_reply after_reserve
    attempt attempts dispatch state_failure
opened = tt

abbrev fresh : ℕ → Upstream
fresh n = record { sends = 0; down = n }

-- A read is repeated once, a write is not.
read_repeats :
    dispatch upstream false true (fresh 1)
    ≡ (record { sends = 2; down = 0 }, answered (some body) empty_result)
unfolding opened
read_repeats = refl

write_does_not : (dispatch upstream true true (fresh 1)).0 ≡ record { sends = 1; down = 0 }
unfolding opened
write_does_not = refl

read_gives_up : (dispatch upstream false true (fresh 5)).0 ≡ record { sends = 2; down = 3 }
unfolding opened
read_gives_up = refl

calm : (n : ℕ) → IsCalm upstream (λ w. w.sends ≤ n)
calm n = record {
  canceled = λ w h. h;
  take_slot = λ w h. h;
  release_slot = λ w h. h;
  clock = λ w h. h;
  reserve = λ t w h. h;
  record_attempt = λ a o t f k w h. h;
  jitter = λ m w h. h;
  out_of_time = λ m w h. h;
  sleep = λ m w h. h;
}

sent_once : (w : Upstream) → (reply w).0.sends ≤ suc w.sends
sent_once w = go w.down w.sends
  where
    go : (n m : ℕ) → (reply (record { sends = m; down = n })).0.sends ≤ suc m
    go zero m = omega arith
    go (suc n) m = omega arith

metered : IsMetered upstream (λ w. w.sends)
metered = record { others = calm; sent = sent_once }

dispatch_sends_example : (dispatch upstream true true (fresh 1)).0.sends ≤ attempts_of true + 0
dispatch_sends_example = dispatch_sends upstream (λ w. w.sends) metered true true (fresh 1)

dispatch_answers_example : (dispatch upstream false true (fresh 5)).1 ≢ panicked
dispatch_answers_example = dispatch_answers upstream false true (fresh 5)

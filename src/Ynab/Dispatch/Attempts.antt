-- ===== src/Ynab/Dispatch/Attempts.antt =====
-- What one attempt of `dispatch` of internal/tools/ynab/reliability.go keeps, and how it ends.
use personal_mcp_gateway.Base.{
  if_lem, ℕ, ◌+◌, Bytes, Bool, true, false, not, ◌&&◌, ◌||◌, Option, none, some, ltb, ◌==◌, ◌≡◌,
  arith,
}
use personal_mcp_gateway.Ynab.Circuit.{second, AttemptPermit, AttemptOutcome}
use personal_mcp_gateway.Ynab.Quota.{Result, Recorded, failed, until}
use personal_mcp_gateway.Ynab.Dispatch.Reading.{
  retry_cap, canceled_result, Response, Provider, Ended, answered, Reply, is_empty_result,
  limit_time, second_ahead, limited, body_read, read_response, read_reply,
}
use personal_mcp_gateway.Ynab.Dispatch.{
  finish_attempt, pick_delay, pause, retry, after_record, after_reply, after_reserve, attempt,
}

-- All calls but the sending of the request keep `P`.
pub record IsCalm {W : Type 0} (p : Provider W) (P : W → Type 0) : Type 0 where
  pub canceled : (w : W) → P w → P (p.canceled w).0
  pub take_slot : (w : W) → P w → P (p.take_slot w).0
  pub release_slot : (w : W) → P w → P (p.release_slot w)
  pub clock : (w : W) → P w → P (p.clock w).0
  pub reserve : (t : ℕ) (w : W) → P w → P (p.reserve t w).0
  pub record_attempt :
      (a : AttemptPermit) (o : AttemptOutcome) (t : ℕ) (f k : Option ℕ) (w : W)
      → P w
      → P (p.record_attempt a o t f k w).0
  pub jitter : (n : ℕ) (w : W) → P w → P (p.jitter n w).0
  pub out_of_time : (n : ℕ) (w : W) → P w → P (p.out_of_time n w).0
  pub sleep : (n : ℕ) (w : W) → P w → P (p.sleep n w).0

module _ {W : Type 0} (p : Provider W) (write : Bool) (P : W → Type 0) (calm : IsCalm p P) where
  limit_time_keeps : (hint : Option ℕ) (w : W) → P w → P (limit_time p write hint w).0
  limit_time_keeps none w h = calm.clock w h
  limit_time_keeps (some t) w h = h

  second_ahead_keeps : (r : W × ℕ) → P r.0 → P (second_ahead p write r).0
  unfolding second_ahead
  second_ahead_keeps (w, t) h =
      if_lem (λ (r : W × ℕ). P r.0) (ltb t ((p.clock w).1 + second))
        (λ y. calm.clock _ (calm.clock w h)) (λ n. calm.clock w h)

  body_read_keeps :
      (r : Response) (hint : Option ℕ) (body : Option Bytes) (w : W)
      → P w
      → P (body_read p write r hint body w).0
  unfolding body_read
  body_read_keeps r hint none w h = calm.canceled w h
  body_read_keeps r hint (some raw) w h = h

  read_response_keeps : (r : Response) (w : W) → P w → P (read_response p write r w).0
  unfolding read_response limited
  read_response_keeps r w h =
      if_lem (λ (q : W × Reply). P q.0) (r.status == 429)
        (λ y. second_ahead_keeps _ (limit_time_keeps _ _ (calm.clock w h)))
        (λ n.
          if_lem (λ (q : W × Reply). P q.0) (ltb r.status 200 || ltb 299 r.status)
            (λ y. calm.clock w h) (λ m. body_read_keeps r _ r.body (p.clock w).0 (calm.clock w h)))

  read_reply_keeps : (r : Option Response) (w : W) → P w → P (read_reply p write r w).0
  unfolding read_reply
  read_reply_keeps none w h = calm.canceled w h
  read_reply_keeps (some r) w h = read_response_keeps r w h

  finish_attempt_keeps :
      (a : AttemptPermit) (o : AttemptOutcome) (f k : Option ℕ) (w : W)
      → P w
      → P (finish_attempt p write a o f k w).0
  unfolding finish_attempt
  finish_attempt_keeps a o f k w h = calm.record_attempt a o _ f k _ (calm.clock w h)

  pick_delay_keeps : (hint : Option ℕ) (w : W) → P w → P (pick_delay p write hint w).0
  unfolding pick_delay
  pick_delay_keeps none w h = calm.jitter retry_cap w h
  pick_delay_keeps (some t) w h =
      let j = calm.jitter retry_cap w h in
      if_lem (λ (r : W × ℕ). P r.0)
        (ltb ((p.clock (p.jitter retry_cap w).0).1 + (p.jitter retry_cap w).1) t)
        (λ y. calm.clock _ (calm.clock _ j)) (λ n. calm.clock _ j)

  module _ (Q : W × Ended → Type 0)
      (ends : (w : W) (o : Option Bytes) (r : Result) → P w → Q (w, answered o r)) where
    pause_ends :
        (r : Reply) (again : W → W × Ended) (w : W)
        → ((v : W) → P v → Q (again v))
        → P w
        → Q (pause p write r again w)
    unfolding pause
    pause_ends r again w f h =
        let g = pick_delay p write r.hint w in
        let late = p.out_of_time g.1 g.0 in
        let d = pick_delay_keeps r.hint w h in
        let l = calm.out_of_time g.1 g.0 d in
        let k = calm.sleep g.1 late.0 l in
        if_lem Q (ltb retry_cap g.1) (λ y. ends _ none _ d)
          (λ n.
            if_lem Q late.1 (λ y. ends _ none _ l)
              (λ m.
                if_lem Q (p.sleep g.1 late.0).1 (λ y. f _ k)
                  (λ o. ends (p.sleep g.1 late.0).0 none (canceled_result true false) k)))

    retry_ends :
        (last : Bool) (r : Reply) (again : W → W × Ended) (retry_at : Option ℕ) (w : W)
        → (last ≡ false → (v : W) → P v → Q (again v))
        → P w
        → Q (retry p write last r again retry_at w)
    retry_ends last r again (some t) w f h = ends w none _ h
    retry_ends last r again none w f h =
        if_lem Q last (λ y. ends w none _ h) (λ n. pause_ends r again w (f n) h)

    after_record_ends :
        (last : Bool) (r : Reply) (again : W → W × Ended) (recorded : Recorded) (w : W)
        → (write ≡ false → last ≡ false → (v : W) → P v → Q (again v))
        → P w
        → Q (after_record p write last r again recorded w)
    unfolding after_record
    after_record_ends last r again failed w f h = ends w none _ h
    after_record_ends last r again (until t) w f h =
        let k = calm.canceled w h in
        if_lem Q (p.canceled w).1 (λ y. ends _ none _ k)
          (λ n.
            if_lem Q (is_empty_result r.result) (λ y. ends _ r.raw _ k)
              (λ n.
                if_lem Q (not write && r.transient)
                  (λ y. retry_ends last r again t _ (f (ground arith)) k) (λ m. ends _ none _ k)))

    after_reply_ends :
        (last : Bool) (permit : AttemptPermit) (again : W → W × Ended) (r : W × Reply)
        → (write ≡ false → last ≡ false → (v : W) → P v → Q (again v))
        → P r.0
        → Q (after_reply p write last permit again r)
    unfolding after_reply
    after_reply_ends last permit again (w, r) f h =
        after_record_ends last r again _ _ f (
          finish_attempt_keeps permit _ _ r.token_until _ (calm.canceled _ (calm.release_slot w h)))

    module _ (S : W → Type 0) (still : IsCalm p S)
        (stops : (w : W) (o : Option Bytes) (r : Result) → S w → Q (w, answered o r))
        (sends : (w : W) → S w → P (p.send w).0) where
      after_reserve_ends :
          (retried last : Bool) (again : W → W × Ended) (r : W × AttemptPermit × Result)
          → (write ≡ false → last ≡ false → (v : W) → P v → Q (again v))
          → S r.0
          → Q (after_reserve p write retried last again r)
      unfolding after_reserve finish_attempt
      after_reserve_ends retried last again (w, permit, denial) f h =
          let freed = still.canceled _ (still.release_slot w h) in
          let k = still.canceled w h in
          if_lem Q (not (is_empty_result denial))
            (λ y.
              if_lem Q (p.canceled (p.release_slot w)).1 (λ z. stops _ none _ freed)
                (λ z. stops _ none _ freed))
            (λ n.
              if_lem Q (p.canceled w).1
                (λ z. stops _ none _ (
                  still.record_attempt permit AttemptOutcome.neutral _ none none _
                    (still.clock _ (still.release_slot _ k))))
                (λ z. after_reply_ends last permit again _ f (read_reply_keeps _ _ (sends _ k))))

      pub attempt_ends :
          (retried last : Bool) (again : W → W × Ended) (w : W)
          → (write ≡ false → last ≡ false → (v : W) → P v → Q (again v))
          → S w
          → Q (attempt p write retried last again w)
      unfolding attempt
      attempt_ends retried last again w f h =
          let v = (p.canceled w).0 in
          let slot = p.take_slot v in
          let now = p.clock slot.0 in
          let k = still.canceled w h in
          let l = still.take_slot v k in
          if_lem Q (p.canceled w).1 (λ y. stops _ none _ k)
            (λ n.
              if_lem Q slot.1
                (λ y.
                  after_reserve_ends retried last again (p.reserve now.1 now.0) f
                    (still.reserve now.1 now.0 (still.clock slot.0 l)))
                (λ m. stops _ none _ l))

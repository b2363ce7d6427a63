-- ===== src/Obsidian/Grep/Advances.antt =====
-- internal/tools/obsidian/grep_concurrent.go: what `reduceOldest` leaves of a page, and where it cuts one.
use personal_mcp_gateway.Base.{
  ℕ, suc, Bool, true, false, not, ◌&&◌, ◌||◌, Option, none, some, List, [], ◌∷◌, ltb, ◌≡◌, ◌⊎◌, inl,
  inr, refl, arith, if_lem,
}
use personal_mcp_gateway.Obsidian.Outcome.{Failure, Outcome, ok, fail}
use personal_mcp_gateway.Obsidian.Fit.{Position}
use personal_mcp_gateway.Obsidian.Grep.{
  GrepCheckpointCoords, GrepScannedCandidate, GrepScanEvent, candidate_event, full_event,
  partial_event, unfit_event, error_event,
}
use personal_mcp_gateway.Obsidian.Grep.Run.{
  GrepPartialCursor, GrepCursorState, GrepSettings, GrepRun, partial_state, full_boundary_state,
}
use personal_mcp_gateway.Obsidian.Grep.Fitting.{IsOpen, IsEmitted, IsStopped}
use personal_mcp_gateway.Obsidian.Grep.Page.{emit-IsEmitted, unfit-IsStopped}
use personal_mcp_gateway.Obsidian.Grep.Reduce.{
  Order, less, same, more, has_some, later_in_file, advances_by, checkpoint_advances,
  full_boundary_advances, ReducedJob, JobProgress, Reduced, goes_on, done, failed, count_file,
  checkpoint_advances_from, full_boundary_advances_from, at_full_boundary, at_checkpoint,
  after_emit, after_unfit, reduce_kind, reduce_counted, reduce_event, closed_early, and_on,
  event_bytes, reduce_oldest,
}
use personal_mcp_gateway.Obsidian.Grep.Reduced.{
  IsFurther, IsAfter, is_unfit, has_unfit, IsReduced, IsReduced-told,
}

advances_by-inv :
    (o : Order) (at_same : Bool)
    → advances_by o at_same ≡ true
    → (o ≡ more) ⊎ (o ≡ same) × (at_same ≡ true)
advances_by-inv more b e = inl refl
advances_by-inv same b e = inr (refl, e)
advances_by-inv less b e = ground (arith, e)

IsFurther-full : (old : Option GrepPartialCursor) → has_some old ≡ true → IsFurther old none
IsFurther-full (some old) e = tt
IsFurther-full none e = ground (arith, e)

IsFurther-partial :
    (old : Option GrepPartialCursor) (new : GrepPartialCursor)
    → later_in_file old new.at.resume_offset ≡ true
    → IsFurther old (some new)
IsFurther-partial (some old) new e = ground (arith, e)
IsFurther-partial none new e = ground (arith, e)

module _ (c : GrepSettings) (run : GrepRun) (job : ReducedJob) where
  checkpoint_advances-IsAfter :
      (at : GrepCheckpointCoords) (resume : Option GrepCursorState)
      → checkpoint_advances_from resume run job.position at ≡ true
      → IsAfter resume (partial_state c run job.position job.fingerprint at)
  checkpoint_advances-IsAfter at none e = tt
  checkpoint_advances-IsAfter at (some old) e = elim (advances_by-inv _ _ e) [
    | inl m ↦ inl m
    | inr s ↦ inr (s.0, IsFurther-partial old.partial _ s.1)
  ]

  full_boundary_advances-IsAfter :
      (position : Position) (resume : Option GrepCursorState)
      → full_boundary_advances_from resume position ≡ true
      → IsAfter resume (full_boundary_state c run position)
  full_boundary_advances-IsAfter position none e = tt
  full_boundary_advances-IsAfter position (some old) e = elim (advances_by-inv _ _ e) [
    | inl m ↦ inl m
    | inr s ↦ inr (s.0, IsFurther-full old.partial s.1)
  ]

  module _ (page : IsOpen c run) where
    at_full_boundary-IsReduced :
        (last : Option Position) → IsReduced c false (at_full_boundary c run last)
    at_full_boundary-IsReduced none = tt
    at_full_boundary-IsReduced (some position) =
        if_lem (IsReduced c false) (full_boundary_advances c position)
          (λ y. inr (
            inr (record {
              room = page.room;
              fits = page.fits;
              state = _;
              stop_is = refl;
              after = full_boundary_advances-IsAfter position c.resume y;
            })))
          (λ n. tt)

    at_checkpoint-IsReduced :
        (at : GrepCheckpointCoords) → IsReduced c false (at_checkpoint c run job at)
    at_checkpoint-IsReduced at =
        if_lem (IsReduced c false) (checkpoint_advances c run job.position at)
          (λ y. inr (
            inr (record {
              room = page.room;
              fits = page.fits;
              state = _;
              stop_is = refl;
              after = checkpoint_advances-IsAfter at c.resume y;
            })))
          (λ n. tt)

    after_emit-IsReduced :
        (progress : JobProgress) (candidate : GrepScannedCandidate) (state : GrepCursorState)
        (o : Outcome (Bool × GrepRun))
        → IsEmitted c run candidate state o
        → IsReduced c false (after_emit progress run o)
    after_emit-IsReduced progress candidate state (fail e) h = tt
    after_emit-IsReduced progress candidate state (ok (true, r)) h = inr (inl h.0)
    after_emit-IsReduced progress candidate state (ok (false, r)) h = h.0

    after_unfit-IsReduced :
        (o : Outcome (Bool × GrepRun))
        → IsStopped c true run o
        → IsReduced c true (after_unfit run o)
    after_unfit-IsReduced (fail e) h = tt
    after_unfit-IsReduced (ok (b, r)) h = inr (inl h.0)

    reduce_kind-IsReduced :
        (looks : ℕ → Option Failure) (progress : JobProgress) (event : GrepScanEvent)
        → IsReduced c (is_unfit event) (reduce_kind c looks job progress run event)
    reduce_kind-IsReduced looks progress (candidate_event _ candidate) =
        after_emit-IsReduced progress candidate _ _ (emit-IsEmitted c looks run candidate _ page)
    reduce_kind-IsReduced looks progress (full_event _) =
        inl (record {
          aligned = page.aligned;
          room = page.room;
          going = page.going;
          fits = page.fits;
        })
    reduce_kind-IsReduced looks progress (partial_event _ at advanced) =
        if_lem (IsReduced c false) advanced (λ y. at_checkpoint-IsReduced at)
          (λ n. at_full_boundary-IsReduced run.last_full)
    reduce_kind-IsReduced looks progress (unfit_event _) =
        after_unfit-IsReduced _ (unfit-IsStopped c true run page (inr refl))
    reduce_kind-IsReduced looks progress (error_event _ e) = tt

count_file-IsOpen :
    (c : GrepSettings) (job : ReducedJob) (progress : JobProgress) (run : GrepRun)
    → IsOpen c run
    → IsOpen c (count_file job progress run)
count_file-IsOpen c job progress run page =
    if_lem (IsOpen c) (not progress.started && job.has_file)
      (λ y. record {
        aligned = page.aligned;
        room = page.room;
        going = page.going;
        fits = page.fits;
      })
      (λ n. page)

reduce_counted-IsReduced :
    (c : GrepSettings) (looks : ℕ → Option Failure) (job : ReducedJob) (progress : JobProgress)
    (run : GrepRun) (event : GrepScanEvent)
    → IsOpen c run
    → IsReduced c (is_unfit event) (reduce_counted c looks job progress run event)
reduce_counted-IsReduced c looks job progress run event page =
    if_lem (IsReduced c (is_unfit event)) (ltb (event_bytes event) progress.accepted_bytes)
      (λ y. tt)
      (λ n.
        reduce_kind-IsReduced c _ job
          (record {
            aligned = page.aligned;
            room = page.room;
            going = page.going;
            fits = page.fits;
          })
          looks _ event)

reduce_event-IsReduced :
    (c : GrepSettings) (looks : ℕ → Option Failure) (job : ReducedJob) (progress : JobProgress)
    (run : GrepRun) (event : GrepScanEvent)
    → IsOpen c run
    → IsReduced c (is_unfit event) (reduce_event c looks job progress run event)
unfolding reduce_event
reduce_event-IsReduced c looks job progress run event page =
    reduce_counted-IsReduced c looks job progress _ event
      (count_file-IsOpen c job progress run page)

closed_early-IsReduced :
    (c : GrepSettings) (ended : Option Failure) (run : GrepRun)
    → IsReduced c false (closed_early ended run)
closed_early-IsReduced c none run = tt
closed_early-IsReduced c (some e) run = tt

and_on-IsReduced :
    (c : GrepSettings) (told : Bool) (m : Reduced) (next : JobProgress → GrepRun → Reduced)
    → IsReduced c told m
    → ((p : JobProgress) (r : GrepRun) → IsOpen c r → IsReduced c told (next p r))
    → IsReduced c told (and_on m next)
and_on-IsReduced c told (goes_on p r) next h k = k p r h
and_on-IsReduced c told (done r) next h k = h
and_on-IsReduced c told (failed e r) next h k = tt

pub or_left : (a b : Bool) → a ≡ true → (a || b) ≡ true
or_left a b h = ground (arith, h)

pub or_right : (a b : Bool) → b ≡ true → (a || b) ≡ true
or_right a b h = ground (arith, h)

-- Whatever the events of a job and the looks at the context: where `reduceOldest` returns no error on a page
-- that is not full and has no stop, that page is still so, or it is closed or cut.
pub reduce_oldest-IsReduced :
    (c : GrepSettings) (looks : ℕ → ℕ → Option Failure) (ended : Option Failure) (job : ReducedJob)
    (progress : JobProgress) (run : GrepRun) (events : List GrepScanEvent)
    → IsOpen c run
    → IsReduced c (has_unfit events) (reduce_oldest c looks ended job progress run events)
unfolding reduce_oldest
reduce_oldest-IsReduced c looks ended job progress run [] page = closed_early-IsReduced c ended run
reduce_oldest-IsReduced c looks ended job progress run (event ∷ events) page =
    and_on-IsReduced c (has_unfit (event ∷ events)) _ _
      (IsReduced-told c _ _ _ (or_left (is_unfit event) (has_unfit events))
        (reduce_event-IsReduced c (looks 0) job progress run event page))
      (λ p r still.
        IsReduced-told c _ _ _ (or_right (is_unfit event) (has_unfit events))
          (reduce_oldest-IsReduced c (λ n. looks (suc n)) ended job p r events still))

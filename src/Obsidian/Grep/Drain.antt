-- ===== src/Obsidian/Grep/Drain.antt =====
-- internal/tools/obsidian/grep_concurrent.go: `drain`, which reduces the jobs that are left in the window.
pub mod Pages
use personal_mcp_gateway.Base.{ℕ, Bool, true, false, Option, List, [], ◌∷◌, if◌then◌else◌}
use personal_mcp_gateway.Obsidian.Outcome.{Failure}
use personal_mcp_gateway.Obsidian.Grep.{GrepScanEvent}
use personal_mcp_gateway.Obsidian.Grep.Run.{GrepSettings, GrepRun}
use personal_mcp_gateway.Obsidian.Grep.Reduce.{
  ReducedJob, JobProgress, Reduced, goes_on, done, failed, has_some, reduce_oldest,
}

-- A job with what its channel gives until it is closed, and what the looks at the context find meanwhile.
pub record PendingJob : Type 0 where
  pub job : ReducedJob
  pub progress : JobProgress
  pub looks : ℕ → ℕ → Option Failure
  pub ended : Option Failure
  pub events : List GrepScanEvent

abbrev pub unless_stopped : GrepRun → Reduced → Reduced
unless_stopped run rest = if has_some run.stop then done run else rest

-- After a job: an error ends the loop, and so does a stop.
abbrev pub after_job : Reduced → (GrepRun → Reduced) → Reduced
after_job (goes_on progress run) next = goes_on progress run
after_job (done run) next = unless_stopped run (next run)
after_job (failed e run) next = failed e run

unfoldable pub drain : GrepSettings → GrepRun → List PendingJob → Reduced
drain c run [] = done run
drain c run (p ∷ pending) = unless_stopped run (
    after_job (reduce_oldest c p.looks p.ended p.job p.progress run p.events)
      (λ r. drain c r pending))

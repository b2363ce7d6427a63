-- ===== src/Obsidian/Grep/Pool/Scheduling.antt =====
-- What `schedule` of internal/tools/obsidian/grep_concurrent.go has added to the window.
use personal_mcp_gateway.Base.{
  ◌+◌, ◌<◌, ◌≤◌, Option, none, some, length, ◌≡◌, ◌≢◌, ◌⊎◌, inl, inr, arith,
}
use personal_mcp_gateway.Obsidian.Grep.{GrepError}
use personal_mcp_gateway.Obsidian.Grep.Pool.{
  grep_worker_ceiling, VisitedFile, GrepConcurrentState, GrepBudget, scheduled, schedule_by,
  allowance_of, add_job, add_error_job,
}

module _ (b : GrepBudget) where
  abbrev pub AddsError : GrepConcurrentState → GrepConcurrentState → GrepError → Type 0
  AddsError s t e = (add_error_job s e ≡ t) × (length s.pending ≢ grep_worker_ceiling)

  abbrev pub AddsJob : GrepConcurrentState → GrepConcurrentState → VisitedFile → Type 0
  AddsJob s t f =
      (add_job s f (allowance_of b s f) ≡ t)
      × (length s.pending ≢ grep_worker_ceiling)
      × (s.reserved_files < b.max_files)
      × (s.reserved_bytes + allowance_of b s f ≤ b.max_bytes)

  failed_parts :
      (s t : GrepConcurrentState) (f : VisitedFile) (e : GrepError)
      → schedule_by b s f (some e) ≡ scheduled t
      → AddsError s t e
  failed_parts s t f e h = ground arith

  opened_parts :
      (s t : GrepConcurrentState) (f : VisitedFile)
      → schedule_by b s f none ≡ scheduled t
      → AddsJob s t f
  opened_parts s t f h = ground arith

  -- What `schedule` has added, and the room that there was.
  pub schedule_parts :
      (s t : GrepConcurrentState) (f : VisitedFile) (o : Option GrepError)
      → f.failure ≡ o
      → schedule_by b s f o ≡ scheduled t
      → ((e : GrepError) × (f.failure ≡ some e) × AddsError s t e)
        ⊎ (f.failure ≡ none) × AddsJob s t f
  schedule_parts s t f (some e) is h = inl (e, is, failed_parts s t f e h)
  schedule_parts s t f none is h = inr (is, opened_parts s t f h)

-- ===== src/Obsidian/Grep/Pool/Work.antt =====
-- What a search of internal/tools/obsidian/grep_concurrent.go has still to do gets less with every step.
use personal_mcp_gateway.Base.{
  ℕ, ◌+◌, ◌*◌, ◌<◌, Bool, true, false, ◌||◌, if◌then◌else◌, Option, none, some, List, [], ◌∷◌, ◌++◌,
  length, ◌≡◌, inl, inr, refl, ap, subst, arith, if_lem,
}
use personal_mcp_gateway.Obsidian.Grep.{GrepScanEvent}
use personal_mcp_gateway.Obsidian.Grep.Pool.{
  VisitedFile, GrepScanJob, GrepConcurrentState, GrepBudget, scheduled, error_job, schedule,
  stops_at, take_or_pass, take_job, send_next, send, is_terminal, receive_from, receive_oldest,
  receive, Search, Step, visits, takes, sends, receives,
}
use personal_mcp_gateway.Obsidian.Grep.Pool.Window.{events_or, file_events}
use personal_mcp_gateway.Obsidian.Grep.Pool.Scheduling.{schedule_parts}
use personal_mcp_gateway.Obsidian.Grep.Pool.Window.{some_inj}

-- The sends, receipts, takes and visits that are still to come.
abbrev pub is_untaken : Bool → ℕ
is_untaken true = 0
is_untaken false = 1

abbrev pub is_waiting : Option GrepScanEvent → ℕ
is_waiting none = 0
is_waiting (some e) = 1

abbrev pub job_work : GrepScanJob → ℕ
job_work j = is_untaken j.taken + is_waiting j.channel + 2 * length j.to_send

abbrev pub window_work : List GrepScanJob → ℕ
window_work [] = 0
window_work (j ∷ l) = job_work j + window_work l

abbrev pub walk_work : List VisitedFile → ℕ
walk_work [] = 0
walk_work (f ∷ l) = 2 + 2 * length (file_events f) + walk_work l

abbrev pub work : Search → ℕ
work x = window_work x.state.pending + walk_work x.unvisited

window_work-append : (l r : List GrepScanJob) → window_work (l ++ r) ≡ window_work l + window_work r
window_work-append [] r = omega arith
window_work-append (j ∷ l) r = omega (arith, window_work-append l r)

take-less :
    (j : GrepScanJob) (l r : List GrepScanJob) (t : Bool) (o : Option (List GrepScanJob))
    → take_or_pass j l t o ≡ some r
    → j.taken ≡ t
    → ((m : List GrepScanJob) → o ≡ some m → window_work m < window_work l)
    → window_work r < window_work (j ∷ l)
take-less j l r false o h e later =
    subst (λ r. window_work r < window_work (j ∷ l)) (some_inj h) (omega (arith, ap is_untaken e))
take-less j l r true none h e later = cc
take-less j l r true (some m) h e later =
    subst (λ r. window_work r < window_work (j ∷ l)) (some_inj h) (omega (arith, later m refl))

take_job-less : (l r : List GrepScanJob) → take_job l ≡ some r → window_work r < window_work l
unfolding take_job
take_job-less [] r h = cc
take_job-less (j ∷ l) r h = take-less j l r j.taken (take_job l) h refl (λ m e. take_job-less l m e)

send-less :
    (j k : GrepScanJob) (t : Bool) (c : Option GrepScanEvent) (l : List GrepScanEvent)
    → send_next j t c l ≡ some k
    → j.channel ≡ c
    → j.to_send ≡ l
    → job_work k < job_work j
send-less j k true none (e ∷ l) h ic is =
    subst (λ k. job_work k < job_work j) (some_inj h)
      (omega (arith, ap is_waiting ic, ap length is))
send-less j k true none [] h ic is = cc
send-less j k true (some e) l h ic is = cc
send-less j k false c l h ic is = cc

receive-less :
    (b : GrepBudget) (s t : GrepConcurrentState) (j : GrepScanJob) (l : List GrepScanJob)
    (c : Option GrepScanEvent)
    → receive_from b s j l c ≡ some t
    → j.channel ≡ c
    → window_work t.pending < window_work (j ∷ l)
receive-less b s t j l none h e = cc
receive-less b s t j l (some x) h e =
    subst (λ (t : GrepConcurrentState). window_work t.pending < window_work (j ∷ l)) (some_inj h)
      (if_lem (λ r. window_work r < window_work (j ∷ l)) (is_terminal x || stops_at b s.received x)
        (λ y. omega (arith, ap is_waiting e)) (λ n. omega (arith, ap is_waiting e)))

oldest-less :
    (b : GrepBudget) (s t : GrepConcurrentState) (p : List GrepScanJob) (halted : Bool)
    → (if halted then none else receive_oldest b s p) ≡ some t
    → window_work t.pending < window_work p
oldest-less b s t p true h = cc
oldest-less b s t [] false h = cc
oldest-less b s t (j ∷ l) false h = receive-less b s t j l j.channel h refl

schedule-less :
    (b : GrepBudget) (s t : GrepConcurrentState) (f : VisitedFile)
    → schedule b s f ≡ scheduled t
    → window_work t.pending < window_work s.pending + 2 + 2 * length (file_events f)
unfolding schedule
schedule-less b s t f h = elim (schedule_parts b s t f f.failure refl h) [
  | inl (e, fails, (same, room)) ↦
      subst
        (λ (t : GrepConcurrentState).
          window_work t.pending < window_work s.pending + 2 + 2 * length (file_events f))
        same
        (omega (
          arith,
          window_work-append s.pending (error_job e ∷ []),
          ap (λ o. length (events_or o f.events)) fails,
        ))
  | inr (opens, (same, room, files, bytes)) ↦
      subst
        (λ (t : GrepConcurrentState).
          window_work t.pending < window_work s.pending + 2 + 2 * length (file_events f))
        same
        (omega
          (arith, window_work-append s.pending _, ap (λ o. length (events_or o f.events)) opens))
]

-- Every step of a goroutine leaves less to do, so a search takes no more steps than there are sends,
-- receipts, takes and visits: two for each event of a file and two for the file.
pub step_work : (b : GrepBudget) (x y : Search) → Step b x y → work y < work x
unfolding receive send
step_work b x y (visits {s} {t} {f} {l} h) = omega (arith, schedule-less b s t f h)
step_work b x y (takes {s} {jobs} {l} h) = omega (arith, take_job-less s.pending jobs h)
step_work b x y (sends {s} {l} before after j k p h) = omega (
  arith,
  ap window_work p,
  window_work-append before (j ∷ after),
  window_work-append before (k ∷ after),
  send-less j k j.taken j.channel j.to_send h refl refl,
)
step_work b x y (receives {s} {t} {l} h) = omega (arith, oldest-less b s t s.pending s.halted h)

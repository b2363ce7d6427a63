-- ===== src/Obsidian/Grep/Pool/Order.antt =====
-- The events of a search of internal/tools/obsidian/grep_concurrent.go reach its reducer in one order,
-- whatever the goroutines do.
use personal_mcp_gateway.Base.{
  ℕ, suc, ◌+◌, ◌<◌, ◌≤◌, Bool, true, false, Option, none, some, List, [], ◌∷◌, ◌++◌, All, length,
  if◌then◌else◌, ◌≡◌, inl, inr, refl, sym, ap, ◌∙◌, subst, arith, append_assoc, append-nil,
  length-append,
}
use personal_mcp_gateway.Obsidian.Grep.{GrepScanEvent}
use personal_mcp_gateway.Obsidian.Grep.Pool.{
  grep_worker_ceiling, VisitedFile, GrepScanJob, GrepConcurrentState, GrepBudget, scheduled,
  stops_at, allowance_of, error_job, schedule, take_job, send, receive_from, receive_oldest,
  receive, Search, Step, visits, takes, sends, receives, Steps, none_yet, and_then,
}
use personal_mcp_gateway.Obsidian.Grep.Pool.Scheduling.{schedule_parts}
use personal_mcp_gateway.Obsidian.Grep.Pool.Counted.{HasCounted, Steps-IsCounted}
use personal_mcp_gateway.Obsidian.Grep.Pool.Window.{
  events_or, file_events, walk_events, with_event, left_of, window_events, EndsOnce, AreComplete,
  IsJob, window-append, All-append, All-split, some_inj, send-IsJob, take_job-IsTake,
  after_receipt-IsReceived,
}

-- The reducer has stopped at the last event that it has received.
abbrev pub HasStopped : GrepBudget → List GrepScanEvent → Type 0
HasStopped b received =
    (before : List GrepScanEvent) × (e : GrepScanEvent) × (received ≡ before ++ e ∷ [])
    × (stops_at b before e ≡ true)

-- The order, the window and the budget
pub record IsOrdered (b : GrepBudget) (all : List GrepScanEvent) (x : Search) : Type 0 where
  pub order :
      x.state.halted ≡ false
      → x.state.received ++ (window_events x.state.pending ++ walk_events x.unvisited) ≡ all
  pub begins : (rest : List GrepScanEvent) × (x.state.received ++ rest ≡ all)
  pub stopped : x.state.halted ≡ true → HasStopped b x.state.received
  pub jobs : All IsJob x.state.pending
  pub files : AreComplete x.unvisited
  pub window : length x.state.pending ≤ 16
  pub few_files : x.state.reserved_files ≤ b.max_files
  pub few_bytes : x.state.reserved_bytes ≤ b.max_bytes

module _ (b : GrepBudget) (all : List GrepScanEvent) where
  abbrev Ordered : Search → Type 0
  Ordered x = IsOrdered b all x

  receive_from-Ordered :
      (s t : GrepConcurrentState) (j : GrepScanJob) (l : List GrepScanJob) (f : List VisitedFile)
      (c : Option GrepScanEvent)
      → receive_from b s j l c ≡ some t
      → j.channel ≡ c
      → s.pending ≡ j ∷ l
      → s.halted ≡ false
      → Ordered (record { state = s; unvisited = f })
      → Ordered (record { state = t; unvisited = f })
  receive_from-Ordered s t j l f none h is p runs x = cc
  receive_from-Ordered s t j l f (some e) h is p runs x =
      let jobs = subst (All IsJob) p x.jobs in
      let ends = subst (λ c. EndsOnce (with_event c j.to_send)) is jobs.0.0 in
      let (same, size, after) =
        after_receipt-IsReceived e j l (stops_at b s.received e) ends jobs.1 in
      let held = ap window_events p ∙ ap (λ c. with_event c j.to_send ++ window_events l) is in
      let order = x.order runs in
      subst (λ u. Ordered (record { state = u; unvisited = f })) (some_inj h)
        (record {
          order = λ goes.
              append_assoc s.received (e ∷ []) _
              ∙ ap (λ w. s.received ++ (w ++ walk_events f))
                  (sym (held ∙ ap (λ w. e ∷ w) (same goes)))
              ∙ order;
          begins = (
            (j.to_send ++ window_events l) ++ walk_events f,
            append_assoc s.received (e ∷ []) _
                ∙ ap (λ w. s.received ++ (w ++ walk_events f)) (sym held)
                ∙ order,
          );
          stopped = λ stops. (s.received, e, refl, stops);
          jobs = after;
          files = x.files;
          window = omega (arith, size, x.window, ap length p);
          few_files = x.few_files;
          few_bytes = x.few_bytes;
        })

  receive-Ordered :
      (s t : GrepConcurrentState) (f : List VisitedFile) (p : List GrepScanJob) (halted : Bool)
      → s.pending ≡ p
      → s.halted ≡ halted
      → (if halted then none else receive_oldest b s p) ≡ some t
      → Ordered (record { state = s; unvisited = f })
      → Ordered (record { state = t; unvisited = f })
  receive-Ordered s t f p true e runs h x = cc
  receive-Ordered s t f [] false e runs h x = cc
  receive-Ordered s t f (j ∷ l) false e runs h x =
      receive_from-Ordered s t j l f j.channel h refl e runs x

  takes-Ordered :
      (s : GrepConcurrentState) (r : List GrepScanJob) (f : List VisitedFile)
      → take_job s.pending ≡ some r
      → Ordered (record { state = s; unvisited = f })
      → Ordered (record { state = record s { pending = r }; unvisited = f })
  takes-Ordered s r f h x =
      let (same, size, jobs) = take_job-IsTake s.pending r h x.jobs in
      record {
        order = λ goes. ap (λ w. s.received ++ (w ++ walk_events f)) same ∙ x.order goes;
        begins = x.begins;
        stopped = x.stopped;
        jobs = jobs;
        files = x.files;
        window = omega (arith, size, x.window);
        few_files = x.few_files;
        few_bytes = x.few_bytes;
      }

  sends-Ordered :
      (s : GrepConcurrentState) (f : List VisitedFile) (before after : List GrepScanJob)
      (j k : GrepScanJob)
      → s.pending ≡ before ++ j ∷ after
      → send j ≡ some k
      → Ordered (record { state = s; unvisited = f })
      → Ordered (record { state = record s { pending = before ++ k ∷ after }; unvisited = f })
  sends-Ordered s f before after j k p h x =
      let (front, back) = All-split before (j ∷ after) (subst (All IsJob) p x.jobs) in
      let (same, job) = send-IsJob j k h back.0 in
      let window =
        window-append before (k ∷ after)
        ∙ ap (λ e. window_events before ++ (e ++ window_events after)) same
        ∙ sym (window-append before (j ∷ after))
        ∙ ap window_events (sym p) in
      record {
        order = λ goes. ap (λ w. s.received ++ (w ++ walk_events f)) window ∙ x.order goes;
        begins = x.begins;
        stopped = x.stopped;
        jobs = All-append before (k ∷ after) front (job, back.1);
        files = x.files;
        window = omega (
          arith,
          x.window,
          ap length p,
          length-append before (j ∷ after),
          length-append before (k ∷ after),
        );
        few_files = x.few_files;
        few_bytes = x.few_bytes;
      }

  add-Ordered :
      (s : GrepConcurrentState) (f : VisitedFile) (l : List VisitedFile) (new : GrepScanJob)
      (k n : ℕ) (over : Bool)
      → left_of new ≡ file_events f
      → (new.taken ≡ false → new.channel ≡ none)
      → Ordered (record { state = s; unvisited = f ∷ l })
      → length s.pending < grep_worker_ceiling
      → k ≤ b.max_files
      → n ≤ b.max_bytes
      → Ordered (record {
        state = record s {
          pending = s.pending ++ new ∷ [];
          reserved_files = k;
          reserved_bytes = n;
          walk_over = over;
        };
        unvisited = l;
      })
  add-Ordered s f l new k n over same fresh x room files bytes =
      let window =
        window-append s.pending (new ∷ [])
        ∙ ap (λ e. window_events s.pending ++ e) (append-nil (left_of new) ∙ same) in
      record {
        order = λ goes.
            ap (λ w. s.received ++ (w ++ walk_events l)) window
            ∙ ap (λ w. s.received ++ w)
                (append_assoc (window_events s.pending) (file_events f) (walk_events l))
            ∙ x.order goes;
        begins = x.begins;
        stopped = x.stopped;
        jobs =
            All-append s.pending (new ∷ []) x.jobs
              ((subst EndsOnce (sym same) x.files.0, fresh), tt);
        files = x.files.1;
        window = omega (arith, room, length-append s.pending (new ∷ []));
        few_files = files;
        few_bytes = bytes;
      }

  -- What `schedule` adds has room in the window and in the budget.
  schedule-Ordered :
      (s t : GrepConcurrentState) (f : VisitedFile) (l : List VisitedFile)
      → schedule b s f ≡ scheduled t
      → Ordered (record { state = s; unvisited = f ∷ l })
      → Ordered (record { state = t; unvisited = l })
  unfolding schedule
  schedule-Ordered s t f l h x = elim (schedule_parts b s t f f.failure refl h) [
    | inl (e, fails, (same, room)) ↦
        subst (λ u. Ordered (record { state = u; unvisited = l })) same
          (add-Ordered s f l (error_job e) s.reserved_files s.reserved_bytes true
            (sym (ap (λ o. events_or o f.events) fails)) (λ e. cc e) x
            (omega (arith, room, x.window)) x.few_files x.few_bytes)
    | inr (opens, (same, room, files, bytes)) ↦
        subst (λ u. Ordered (record { state = u; unvisited = l })) same
          (add-Ordered s f l _ (suc s.reserved_files) (s.reserved_bytes + allowance_of b s f)
            s.walk_over (sym (ap (λ o. events_or o f.events) opens)) (λ e. refl) x
            (omega (arith, room, x.window)) (omega (arith, files)) bytes)
  ]

  pub step-Ordered : (x y : Search) → Step b x y → Ordered x → Ordered y
  unfolding receive
  step-Ordered x y (visits {s} {t} {f} {l} h) o = schedule-Ordered s t f l h o
  step-Ordered x y (takes {s} {jobs} {l} h) o = takes-Ordered s jobs l h o
  step-Ordered x y (sends {s} {l} before after j k p h) o = sends-Ordered s l before after j k p h o
  step-Ordered x y (receives {s} {t} {l} h) o =
      receive-Ordered s t l s.pending s.halted refl refl h o

  Steps-Ordered : {x y : Search} → Steps b x y → Ordered x → Ordered y
  Steps-Ordered none_yet o = o
  Steps-Ordered (and_then {y} {z} r s) o = step-Ordered y z s (Steps-Ordered r o)

-- A search before its first step.
abbrev pub begun : List VisitedFile → Search
begun files = record {
  state = record {
    pending = [];
    reserved_files = 0;
    reserved_bytes = 0;
    received = [];
    walk_over = false;
    halted = false;
  };
  unvisited = files;
}

-- Whatever the order in which the goroutines run and whichever event stops the page or is an error, where the
-- scan of each file sends candidates and then one last event: the reducer has received a first part of the
-- events of the files in the order of the walk. As long as it has not stopped, what it has received, what the
-- window holds and what the walk has still to visit are together those events; once it has, it has done so at the
-- last event that it has received. At most 16 files are in the window, and no more files and bytes are reserved
-- than the query allows. Until a file has failed, each file that the walk has left behind is reserved, with its
-- bytes unless all bytes that the query allows are.
pub search-IsOrdered :
    (b : GrepBudget) (files : List VisitedFile) (y : Search)
    → AreComplete files
    → Steps b (begun files) y
    → IsOrdered b (walk_events files) y × HasCounted b files y.state y.unvisited
search-IsOrdered b files y complete steps = (
  Steps-Ordered b (walk_events files) steps (record {
    order = λ goes. refl;
    begins = (walk_events files, refl);
    stopped = λ bad. cc bad;
    jobs = tt;
    files = complete;
    window = omega arith;
    few_files = omega arith;
    few_bytes = omega arith;
  }),
  Steps-IsCounted b files steps (λ runs. (omega arith, inr (omega arith))),
)

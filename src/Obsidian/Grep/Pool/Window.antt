-- ===== src/Obsidian/Grep/Pool/Window.antt =====
-- The events that the window of files of internal/tools/obsidian/grep_concurrent.go still holds, and what a
-- worker and the reducer do to its jobs.
use personal_mcp_gateway.Base.{
  suc, ◌≤◌, Bool, true, false, ◌||◌, Option, none, some, List, [], ◌∷◌, ◌++◌, All, length,
  if◌then◌else◌, ◌≡◌, refl, sym, ap, ◌∙◌, subst, arith, append_assoc, if_lem, or_parts,
}
use personal_mcp_gateway.Obsidian.Grep.{GrepError, GrepScanEvent, error_event}
use personal_mcp_gateway.Obsidian.Grep.Pool.{
  VisitedFile, GrepScanJob, take_or_pass, take_job, send_next, send, is_terminal,
}

-- The events of a file: those of its scan, or its error.
abbrev pub events_or : Option GrepError → List GrepScanEvent → List GrepScanEvent
events_or none events = events
events_or (some e) events = error_event 0 e ∷ []

abbrev pub file_events : VisitedFile → List GrepScanEvent
file_events f = events_or f.failure f.events

-- The events of the files in the order of the walk.
abbrev pub walk_events : List VisitedFile → List GrepScanEvent
walk_events [] = []
walk_events (f ∷ l) = file_events f ++ walk_events l

-- What a job still has: the event in its channel and those to come.
abbrev pub with_event : Option GrepScanEvent → List GrepScanEvent → List GrepScanEvent
with_event none l = l
with_event (some e) l = e ∷ l

abbrev pub left_of : GrepScanJob → List GrepScanEvent
left_of j = with_event j.channel j.to_send

abbrev pub window_events : List GrepScanJob → List GrepScanEvent
window_events [] = []
window_events (j ∷ l) = left_of j ++ window_events l

-- Candidates and then one event that ends the scan.
abbrev pub EndsOnce : List GrepScanEvent → Type 0
EndsOnce [] = ⊥
EndsOnce (e ∷ []) = is_terminal e ≡ true
EndsOnce (e ∷ f ∷ l) = (is_terminal e ≡ false) × EndsOnce (f ∷ l)

abbrev pub AreComplete : List VisitedFile → Type 0
AreComplete [] = Unit
AreComplete (f ∷ l) = EndsOnce (file_events f) × AreComplete l

-- A job that no worker has has sent nothing; a worker's job has its last event still to be received.
abbrev pub IsJob : GrepScanJob → Type 0
IsJob j = EndsOnce (left_of j) × (j.taken ≡ false → j.channel ≡ none)

pub window-append :
    (l r : List GrepScanJob) → window_events (l ++ r) ≡ window_events l ++ window_events r
window-append [] r = refl
window-append (j ∷ l) r =
    ap (λ t. left_of j ++ t) (window-append l r)
    ∙ sym (append_assoc (left_of j) (window_events l) (window_events r))

pub All-append : (l r : List GrepScanJob) → All IsJob l → All IsJob r → All IsJob (l ++ r)
All-append [] r h k = k
All-append (j ∷ l) r h k = (h.0, All-append l r h.1 k)

pub All-split : (l r : List GrepScanJob) → All IsJob (l ++ r) → All IsJob l × All IsJob r
All-split [] r h = (tt, h)
All-split (j ∷ l) r h = let both = All-split l r h.1 in ((h.0, both.0), both.1)

pub some_inj {ℓ} : {A : Type ℓ} {a b : A} → some a ≡ some b → a ≡ b
some_inj h = ground (arith, h)

-- What a worker's job is after it has sent an event.
abbrev IsSame : GrepScanJob → List GrepScanEvent → GrepScanJob → Type 0
IsSame j l k = (left_of k ≡ l) × (k.taken ≡ j.taken)

send_next-IsSame :
    (j k : GrepScanJob) (t : Bool) (c : Option GrepScanEvent) (l : List GrepScanEvent)
    → send_next j t c l ≡ some k
    → (t ≡ true) × IsSame j (with_event c l) k
send_next-IsSame j k true none (e ∷ l) h =
    (refl, subst (IsSame j (e ∷ l)) (some_inj h) (refl, refl))
send_next-IsSame j k true none [] h = cc
send_next-IsSame j k true (some e) l h = cc
send_next-IsSame j k false c l h = cc

pub send-IsJob : (j k : GrepScanJob) → send j ≡ some k → IsJob j → (left_of k ≡ left_of j) × IsJob k
unfolding send
send-IsJob j k h job =
    let (has, (left, taken)) = send_next-IsSame j k j.taken j.channel j.to_send h in
    (left, (subst EndsOnce (sym left) job.0, λ e. cc (e, taken, has)))

abbrev IsTake : List GrepScanJob → List GrepScanJob → Type 0
IsTake l r = (window_events r ≡ window_events l) × (length r ≡ length l) × All IsJob r

take_or_pass-IsTake :
    (j : GrepScanJob) (l r : List GrepScanJob) (t : Bool) (o : Option (List GrepScanJob))
    → take_or_pass j l t o ≡ some r
    → IsJob j
    → All IsJob l
    → ((m : List GrepScanJob) → o ≡ some m → IsTake l m)
    → IsTake (j ∷ l) r
take_or_pass-IsTake j l r false o h job jobs later =
    subst (IsTake (j ∷ l)) (some_inj h) (refl, refl, ((job.0, λ e. cc), jobs))
take_or_pass-IsTake j l r true none h job jobs later = cc
take_or_pass-IsTake j l r true (some m) h job jobs later =
    let (same, size, all) = later m refl in
    subst (IsTake (j ∷ l)) (some_inj h)
      (ap (λ t. left_of j ++ t) same, omega (arith, size), (job, all))

pub take_job-IsTake : (l r : List GrepScanJob) → take_job l ≡ some r → All IsJob l → IsTake l r
unfolding take_job
take_job-IsTake [] r h jobs = cc
take_job-IsTake (j ∷ l) r h jobs =
    take_or_pass-IsTake j l r j.taken (take_job l) h jobs.0 jobs.1
      (λ m e. take_job-IsTake l m e jobs.1)

tail_EndsOnce :
    (e : GrepScanEvent) (l : List GrepScanEvent)
    → EndsOnce (e ∷ l)
    → is_terminal e ≡ false
    → EndsOnce l
tail_EndsOnce e [] h n = cc
tail_EndsOnce e (f ∷ l) h n = h.1

no_tail :
    (e : GrepScanEvent) (l : List GrepScanEvent) → EndsOnce (e ∷ l) → is_terminal e ≡ true → l ≡ []
no_tail e [] h y = refl
no_tail e (f ∷ l) h y = cc (h.0, y)

is_last : (a stop : Bool) → (a || stop) ≡ true → stop ≡ false → a ≡ true
is_last a stop h goes = ground (arith, h, goes)

-- Where the reducer goes on, the rest of the window follows the event.
abbrev IsReceived :
    GrepScanEvent → GrepScanJob → List GrepScanJob → Bool → List GrepScanJob → Type 0
IsReceived e j l stop r =
    (stop ≡ false → j.to_send ++ window_events l ≡ window_events r)
    × (length r ≤ suc (length l))
    × All IsJob r

pub after_receipt-IsReceived :
    (e : GrepScanEvent) (j : GrepScanJob) (l : List GrepScanJob) (stop : Bool)
    → EndsOnce (e ∷ j.to_send)
    → All IsJob l
    → IsReceived e j l stop (if is_terminal e || stop then l else record j { channel = none } ∷ l)
after_receipt-IsReceived e j l stop ends jobs =
    if_lem (IsReceived e j l stop) (is_terminal e || stop)
      (λ y. (
        λ goes. ap (λ t. t ++ window_events l) (no_tail e j.to_send ends (is_last _ stop y goes)),
        omega arith,
        jobs,
      ))
      (λ n. (
        λ goes. refl,
        omega arith,
        ((tail_EndsOnce e j.to_send ends (or_parts _ _ n).0, λ t. refl), jobs),
      ))

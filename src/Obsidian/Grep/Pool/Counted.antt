-- ===== src/Obsidian/Grep/Pool/Counted.antt =====
-- What internal/tools/obsidian/grep_concurrent.go has reserved of the budget of a search.
use personal_mcp_gateway.Base.{
  ℕ, ◌+◌, ◌-◌, ◌≤◌, Bool, true, false, Option, none, some, List, [], ◌∷◌, length, ltb,
  if◌then◌else◌, ◌≡◌, ◌⊎◌, inl, inr, refl, subst, arith,
}
use personal_mcp_gateway.Obsidian.Grep.{GrepScanEvent}
use personal_mcp_gateway.Obsidian.Grep.Pool.{
  VisitedFile, GrepScanJob, GrepConcurrentState, GrepBudget, scheduled, schedule, receive_from,
  receive_oldest, receive, Search, Step, visits, takes, sends, receives, Steps, none_yet, and_then,
}
use personal_mcp_gateway.Obsidian.Grep.Pool.Window.{some_inj}
use personal_mcp_gateway.Obsidian.Grep.Pool.Scheduling.{schedule_parts}

abbrev pub total_size : List VisitedFile → ℕ
total_size [] = 0
total_size (f ∷ l) = f.size + total_size l

-- As long as no file has failed, each file that the walk has left behind is reserved, with its bytes or with what
-- the budget still had.
abbrev pub HasCounted :
    GrepBudget → List VisitedFile → GrepConcurrentState → List VisitedFile → Type 0
HasCounted b files s l =
    s.walk_over ≡ false
    → (s.reserved_files + length l ≡ length files)
      × ((s.reserved_bytes ≡ b.max_bytes) ⊎ (s.reserved_bytes + total_size l ≡ total_size files))

reserved_part :
    (r m size rest all : ℕ)
    → r + (if ltb size (m - r) then size else m - r) ≤ m
    → (r ≡ m) ⊎ (r + (size + rest) ≡ all)
    → (r + (if ltb size (m - r) then size else m - r) ≡ m)
      ⊎ (r + (if ltb size (m - r) then size else m - r) + rest ≡ all)
reserved_part r m size rest all fits h = ground (arith, fits, h)

schedule-HasCounted :
    (b : GrepBudget) (files l : List VisitedFile) (s t : GrepConcurrentState) (f : VisitedFile)
    → schedule b s f ≡ scheduled t
    → HasCounted b files s (f ∷ l)
    → HasCounted b files t l
unfolding schedule
schedule-HasCounted b files l s t f h counted = elim (schedule_parts b s t f f.failure refl h) [
  | inl (e, fails, (same, room)) ↦ subst (λ u. HasCounted b files u l) same (λ over. cc over)
  | inr (opens, (same, room, few, bytes)) ↦
      subst (λ u. HasCounted b files u l) same
        (λ runs. (
          omega (arith, (counted runs).0),
          reserved_part s.reserved_bytes b.max_bytes f.size (total_size l) (total_size files) bytes
              (counted runs).1,
        ))
]

receive_from-HasCounted :
    (b : GrepBudget) (files l : List VisitedFile) (s t : GrepConcurrentState) (j : GrepScanJob)
    (r : List GrepScanJob) (c : Option GrepScanEvent)
    → receive_from b s j r c ≡ some t
    → HasCounted b files s l
    → HasCounted b files t l
receive_from-HasCounted b files l s t j r none h counted = cc
receive_from-HasCounted b files l s t j r (some e) h counted =
    subst (λ u. HasCounted b files u l) (some_inj h) counted

receive-HasCounted :
    (b : GrepBudget) (files l : List VisitedFile) (s t : GrepConcurrentState) (p : List GrepScanJob)
    (halted : Bool)
    → (if halted then none else receive_oldest b s p) ≡ some t
    → HasCounted b files s l
    → HasCounted b files t l
receive-HasCounted b files l s t p true h counted = cc
receive-HasCounted b files l s t [] false h counted = cc
receive-HasCounted b files l s t (j ∷ r) false h counted =
    receive_from-HasCounted b files l s t j r j.channel h counted

abbrev IsCounted : GrepBudget → List VisitedFile → Search → Type 0
IsCounted b files x = HasCounted b files x.state x.unvisited

step-IsCounted :
    (b : GrepBudget) (files : List VisitedFile) (x y : Search)
    → Step b x y
    → IsCounted b files x
    → IsCounted b files y
unfolding receive
step-IsCounted b files x y (visits {s} {t} {f} {l} h) c = schedule-HasCounted b files l s t f h c
step-IsCounted b files x y (takes h) c = c
step-IsCounted b files x y (sends before after j k p h) c = c
step-IsCounted b files x y (receives {s} {t} {l} h) c =
    receive-HasCounted b files l s t s.pending s.halted h c

pub Steps-IsCounted :
    (b : GrepBudget) (files : List VisitedFile) {x y : Search}
    → Steps b x y
    → IsCounted b files x
    → IsCounted b files y
Steps-IsCounted b files none_yet c = c
Steps-IsCounted b files (and_then {y} {z} r s) c =
    step-IsCounted b files y z s (Steps-IsCounted b files r c)

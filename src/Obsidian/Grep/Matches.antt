-- ===== src/Obsidian/Grep/Matches.antt =====
-- What `scan` of internal/tools/obsidian/grep_concurrent.go finds in a file.
use personal_mcp_gateway.Base.{
  ℕ, zero, suc, ◌+◌, Bool, true, false, not, ◌&&◌, ◌||◌, Option, none, some, List, [], ◌∷◌, ◌++◌,
  map, is_empty, drop, last_of, All, ltb, ◌==◌, if◌then◌else◌, ◌≡◌, refl, sym, ap, ap₂, ◌∙◌, arith,
  append_assoc, append-nil, subst,
}
use personal_mcp_gateway.Obsidian.Grep.{
  GrepLine, GrepMatchEvidence, GrepCheckpointCoords, GrepScannedCandidate, full_event, GrepQuery,
  append_grep_ring, grep_ring_has_large_line,
}
use personal_mcp_gateway.Obsidian.Grep.Scan.{
  eof, GrepJob, GrepScanState, with_line, ready, waiting, candidate_of, send_all, round_state,
  round_end, round, scan_line, after_step, scan_loop, start_state, scan,
}
use personal_mcp_gateway.Obsidian.Grep.Pending.{
  Found, if_found, expected, of_candidate, completed, prepend, filled, completed-send_all,
  prepend-some, map-append, last_of-nil, filled-end, filled-split, filled-nil, filled-lines, Rising,
  Rising-next, Rising-snoc, Rising-more, ring-last_of,
}

-- A line that a search can look at: UTF-8, and held in memory if the query is a regular expression.
pub record IsPlain (q : GrepQuery) (line : GrepLine) : Type 0 where
  pub valid : q.valid_utf8 line.text ≡ true
  pub small : (q.regex && line.is_large) ≡ false

abbrev pub lines : List (ℕ × GrepLine) → List GrepLine
lines [] = []
lines ((_, line) ∷ reads) = line ∷ lines reads

ring_small :
    (q : GrepQuery) (l : List GrepLine)
    → All (IsPlain q) l
    → (q.regex && grep_ring_has_large_line l) ≡ false
ring_small q [] h = ground arith
ring_small q (x ∷ l) h = ground (arith, h.0.small, ring_small q l h.1)

pub All-drop {ℓ κ} : {A : Type ℓ} (P : A → Type κ) (n : ℕ) (l : List A) → All P l → All P (drop n l)
All-drop P zero l h = h
All-drop P (suc n) [] h = tt
All-drop P (suc n) (x ∷ l) h = All-drop P n l h.1

pub All-snoc {ℓ κ} :
    {A : Type ℓ} (P : A → Type κ) (l : List A) (x : A) → All P l → P x → All P (l ++ x ∷ [])
All-snoc P [] x h k = (k, tt)
All-snoc P (y ∷ l) x h k = (h.0, All-snoc P l x h.1 k)

module _ (q : GrepQuery) (job : GrepJob) (resume : ℕ) where
  -- Lines that begin where the search resumes or later.
  abbrev pub Follows : GrepLine → Type 0
  Follows line = ltb line.start resume ≡ false

  -- The first line is where the search resumes, unless it has advanced.
  abbrev pub Opens : Bool → List (ℕ × GrepLine) → Type 0
  Opens advanced [] = Unit
  Opens advanced ((_, line) ∷ _) = (not (line.start == resume) && not advanced) ≡ false

  -- A plain line has its round.
  scan_line-round :
      (s : GrepScanState) (n : ℕ) (line : GrepLine)
      → IsPlain q line
      → Follows line
      → (not (line.start == resume) && not s.advanced) ≡ false
      → scan_line q job resume s n line
        ≡ round q job s.before line n (map (with_line q line) s.pending) (q.match_evidence line)
  unfolding scan_line
  scan_line-round s n line plain follows opens =
      let fits : (q.regex && line.is_large && not (is_empty s.pending)) ≡ false =
        ground (arith, plain.small) in
      rw plain.valid (rw follows (rw opens (rw fits refl)))

  -- The candidates after a line.
  abbrev added : List GrepLine → GrepLine → Option GrepMatchEvidence → List GrepScannedCandidate
  added before line none = []
  added before line (some e) = candidate_of q job before line e ∷ []

  round-goes_on :
      (before : List GrepLine) (line : GrepLine) (n : ℕ) (aged : List GrepScannedCandidate)
      (evidence : Option GrepMatchEvidence)
      → All (IsPlain q) before
      → IsPlain q line
      → round q job before line n aged evidence
        ≡ round_end q line n before
            (send_all n (ready aged))
            (waiting aged ++ added before line evidence)
  round-goes_on before line n aged none h plain =
      ap (round_end q line n before (send_all n (ready aged))) (sym (append-nil (waiting aged)))
  round-goes_on before line n aged (some e) h plain =
      let fits : (q.regex && (line.is_large || grep_ring_has_large_line before)) ≡ false =
        ground (arith, plain.small, ring_small q before h) in
      rw fits refl

  no_pending : (l : List GrepScannedCandidate) → Rising 0 0 l → l ≡ []
  no_pending [] h = refl
  no_pending (c ∷ l) (low, high, more) = absurd (omega (arith, low, high))

  added-Rising :
      (c : ℕ) (before : List GrepLine) (line : GrepLine) (evidence : Option GrepMatchEvidence)
      (l : List GrepScannedCandidate)
      → q.context_lines ≡ suc c
      → Rising 0 c l
      → Rising 0 (suc c) (l ++ added before line evidence)
  added-Rising c before line none l e h =
      subst (Rising 0 (suc c)) (sym (append-nil l)) (Rising-more 0 c l h)
  added-Rising c before line (some x) l e h =
      Rising-snoc 0 c l (candidate_of q job before line x) (omega arith) h e

  waiting-added :
      (before : List GrepLine) (line : GrepLine) (evidence : Option GrepMatchEvidence)
      → (q.context_lines == 0) ≡ true
      → waiting (added before line evidence) ≡ []
  waiting-added before line none h = refl
  waiting-added before line (some e) h = rw h refl

  next-Rising :
      (c : ℕ) (before : List GrepLine) (line : GrepLine) (evidence : Option GrepMatchEvidence)
      (pending : List GrepScannedCandidate)
      → q.context_lines ≡ c
      → Rising 0 c pending
      → Rising 0 c (
          if q.context_lines == 0
          then waiting (waiting (map (with_line q line) pending) ++ added before line evidence)
          else waiting (map (with_line q line) pending) ++ added before line evidence)
  next-Rising zero before line evidence pending e h =
      let none : (q.context_lines == 0) ≡ true = ground (arith, e) in
      rw none (rw (no_pending pending h) (rw (waiting-added before line evidence none) tt))
  next-Rising (suc c) before line evidence pending e h =
      let some : (q.context_lines == 0) ≡ false = ground (arith, e) in
      let aged = Rising-next q line (suc c) pending h in
      rw some (
        added-Rising c before line evidence (waiting (map (with_line q line) pending)) e
          (subst (λ n. Rising 0 n (waiting (map (with_line q line) pending))) (omega arith) aged))

  filled-added :
      (seen : List GrepLine) (line : GrepLine) (rest : List GrepLine)
      (evidence : Option GrepMatchEvidence)
      → map (filled q rest) (added (last_of q.context_lines seen) line evidence)
        ≡ if_found q job seen line rest evidence
  filled-added seen line rest none = refl
  filled-added seen line rest (some e) = refl

  regroup :
      (a b c d w x p : List Found)
      → b ++ c ≡ w ++ x
      → a ++ w ≡ p
      → a ++ (b ++ (c ++ d)) ≡ p ++ (x ++ d)
  regroup a b c d w x p h k =
      ap (λ l. a ++ l) (sym (append_assoc b c d) ∙ ap (λ l. l ++ d) h ∙ append_assoc w x d)
      ∙ sym (append_assoc a w (x ++ d))
      ∙ ap (λ l. l ++ (x ++ d)) k

  filled-none : (l : List GrepScannedCandidate) → map (filled q []) l ≡ map of_candidate l
  filled-none [] = refl
  filled-none (c ∷ l) = ap₂ ◌∷◌ (filled-nil q c) (filled-none l)

  Opens-next : (reads : List (ℕ × GrepLine)) → Opens true reads
  Opens-next [] = tt
  Opens-next ((n, line) ∷ reads) = ground arith

  -- All that waits and all that matches is found, with the lines that follow as its context.
  pub scan_loop-expected :
      (reads : List (ℕ × GrepLine)) (seen : List GrepLine) (s : GrepScanState) (bytes : ℕ)
      → All (IsPlain q) (lines reads)
      → All Follows (lines reads)
      → Opens s.advanced reads
      → s.before ≡ last_of q.context_lines seen
      → All (IsPlain q) seen
      → Rising 0 q.context_lines s.pending
      → completed (scan_loop q job resume s reads (bytes, eof))
        ≡ some (map (filled q (lines reads)) s.pending ++ expected q job seen (lines reads))
  unfolding scan_loop
  scan_loop-expected [] seen s bytes plain follows opens ring old rising =
      completed-send_all (s.consumed + bytes) s.pending (full_event (s.consumed + bytes) ∷ [])
      ∙ prepend-some (map of_candidate s.pending) []
      ∙ ap (λ l. some (l ++ [])) (sym (filled-none s.pending))
  scan_loop-expected ((size, line) ∷ reads) seen s bytes plain follows opens ring old rising =
      let n = s.consumed + size in
      let evidence = q.match_evidence line in
      let aged = map (with_line q line) s.pending in
      let next = waiting aged ++ added s.before line evidence in
      let old_ring = subst (All (IsPlain q)) (sym ring) (All-drop (IsPlain q) _ seen old) in
      let now = if q.context_lines == 0 then ready next else [] in
      let t = round_state q line n s.before next in
      let rest = lines reads in
      let more =
        scan_loop-expected reads (seen ++ line ∷ []) t bytes plain.1 follows.1 (Opens-next reads)
          (ap (λ l. append_grep_ring l line q.context_lines) ring
            ∙ ring-last_of q.context_lines seen line)
          (All-snoc (IsPlain q) seen line old plain.0)
          (next-Rising q.context_lines s.before line evidence s.pending refl rising) in
      ap (λ step. completed (after_step step (λ u. scan_loop q job resume u reads (bytes, eof))))
        (scan_line-round s n line plain.0 follows.0 opens
          ∙ round-goes_on s.before line n aged evidence old_ring plain.0)
      ∙ ap completed (
          append_assoc (send_all n (ready aged)) (send_all n now)
            (scan_loop q job resume t reads (bytes, eof)))
      ∙ completed-send_all n (ready aged)
          (send_all n now ++ scan_loop q job resume t reads (bytes, eof))
      ∙ ap (prepend (map of_candidate (ready aged))) (
          completed-send_all n now (scan_loop q job resume t reads (bytes, eof))
          ∙ ap (prepend (map of_candidate now)) more
          ∙ prepend-some (map of_candidate now) _)
      ∙ prepend-some (map of_candidate (ready aged)) _
      ∙ ap some (
          regroup (map of_candidate (ready aged)) (map of_candidate now)
            (map (filled q rest) t.pending) (expected q job (seen ++ line ∷ []) rest)
            (map (filled q rest) (waiting aged)) (if_found q job seen line rest evidence)
            (map (filled q (line ∷ rest)) s.pending)
            (filled-end q rest (q.context_lines == 0) next
              ∙ map-append (filled q rest) (waiting aged) (added s.before line evidence)
              ∙ ap (λ l. map (filled q rest) (waiting aged) ++ l)
                  (ap (λ b. map (filled q rest) (added b line evidence)) ring
                    ∙ filled-added seen line rest evidence))
            (filled-split q rest aged
              ∙ filled-lines q rest line 0 q.context_lines s.pending rising))

-- The coordinates of a search that has not begun.
abbrev pub at_start : GrepCheckpointCoords
at_start = record { resume_offset = 0; resume_line = 1; context_offset = 0; context_line = 1 }

nothing_before : (q : GrepQuery) (job : GrepJob) (l : List GrepLine) → All (Follows q job 0) l
nothing_before q job [] = tt
nothing_before q job (x ∷ l) = (ground arith, nothing_before q job l)

-- Whatever the matcher: where a whole file is read to its end, its first line begins at 0, and each line is
-- UTF-8 and, for a regular expression, not too large, the scan sends, line by line, a candidate for each
-- line that matches and then the end of the file. The context of a candidate is exactly the lines before
-- and after it, as many as the query asks for and the file has.
pub scan-expected :
    (q : GrepQuery) (job : GrepJob) (reads : List (ℕ × GrepLine)) (bytes : ℕ)
    → All (IsPlain q) (lines reads)
    → Opens q job 0 false reads
    → completed (scan q job at_start reads (bytes, eof)) ≡ some (expected q job [] (lines reads))
unfolding scan
scan-expected q job reads bytes plain opens =
    scan_loop-expected q job 0 reads [] (start_state at_start) bytes plain
      (nothing_before q job (lines reads)) opens (sym (last_of-nil q.context_lines)) tt tt

-- ===== src/Obsidian/Grep/Ends.antt =====
-- Every scan of internal/tools/obsidian/grep_concurrent.go tells the reducer once how it has ended.
use personal_mcp_gateway.Base.{
  ℕ, ◌+◌, false, not, ◌&&◌, ◌||◌, Option, none, some, List, [], ◌∷◌, ◌++◌, All, map, is_empty, ltb,
  ◌==◌, ◌≡◌, refl, if_lem,
}
use personal_mcp_gateway.Obsidian.Grep.{
  GrepLine, GrepMatchEvidence, GrepCheckpointCoords, GrepScannedCandidate, GrepScanEvent,
  unfit_event, GrepQuery, grep_ring_has_large_line,
}
use personal_mcp_gateway.Obsidian.Grep.Scan.{
  GrepEnd, eof, line_too_large, line_budget, broken, GrepJob, GrepScanState, GrepStep, stops,
  goes_on, with_line, ready, send_all, round, scan_line, scan_end, after_step, scan_loop,
  start_state, scan,
}
use personal_mcp_gateway.Obsidian.Grep.Pool.{is_terminal}
use personal_mcp_gateway.Obsidian.Grep.Pool.Window.{EndsOnce}

abbrev IsCandidate : GrepScanEvent → Type 0
IsCandidate e = is_terminal e ≡ false

cons-EndsOnce :
    (e : GrepScanEvent) (l : List GrepScanEvent) → IsCandidate e → EndsOnce l → EndsOnce (e ∷ l)
cons-EndsOnce e [] h k = absurd k
cons-EndsOnce e (f ∷ l) h k = (h, k)

append-EndsOnce : (l r : List GrepScanEvent) → All IsCandidate l → EndsOnce r → EndsOnce (l ++ r)
append-EndsOnce [] r h k = k
append-EndsOnce (e ∷ l) r h k = cons-EndsOnce e (l ++ r) h.0 (append-EndsOnce l r h.1 k)

send_all-IsCandidate : (n : ℕ) (l : List GrepScannedCandidate) → All IsCandidate (send_all n l)
send_all-IsCandidate n [] = tt
send_all-IsCandidate n (c ∷ l) = (refl, send_all-IsCandidate n l)

All-append :
    (l r : List GrepScanEvent) → All IsCandidate l → All IsCandidate r → All IsCandidate (l ++ r)
All-append [] r h k = k
All-append (e ∷ l) r h k = (h.0, All-append l r h.1 k)

-- A step that stops has ended the scan, and one that goes on has not.
abbrev EndsAtStop : GrepStep → Type 0
EndsAtStop (stops sent) = EndsOnce sent
EndsAtStop (goes_on sent s) = All IsCandidate sent

round-EndsAtStop :
    (q : GrepQuery) (job : GrepJob) (before : List GrepLine) (line : GrepLine) (n : ℕ)
    (aged : List GrepScannedCandidate) (evidence : Option GrepMatchEvidence)
    → EndsAtStop (round q job before line n aged evidence)
round-EndsAtStop q job before line n aged none =
    All-append (send_all n (ready aged)) _ (send_all-IsCandidate n (ready aged))
      (send_all-IsCandidate n _)
round-EndsAtStop q job before line n aged (some e) =
    if_lem EndsAtStop (q.regex && (line.is_large || grep_ring_has_large_line before))
      (λ y.
        append-EndsOnce (send_all n (ready aged)) (unfit_event n ∷ [])
          (send_all-IsCandidate n (ready aged)) refl)
      (λ k.
        All-append (send_all n (ready aged)) _ (send_all-IsCandidate n (ready aged))
          (send_all-IsCandidate n _))

scan_line-EndsAtStop :
    (q : GrepQuery) (job : GrepJob) (resume : ℕ) (s : GrepScanState) (n : ℕ) (line : GrepLine)
    → EndsAtStop (scan_line q job resume s n line)
unfolding scan_line
scan_line-EndsAtStop q job resume s n line =
    if_lem EndsAtStop (not (q.valid_utf8 line.text)) (λ y. refl)
      (λ a.
        if_lem EndsAtStop (ltb line.start resume) (λ y. tt)
          (λ b.
            if_lem EndsAtStop (not (line.start == resume) && not s.advanced) (λ y. refl)
              (λ c.
                if_lem EndsAtStop (q.regex && line.is_large && not (is_empty s.pending)) (λ y. refl)
                  (λ d.
                    round-EndsAtStop q job s.before line n (map (with_line q line) s.pending)
                      (q.match_evidence line)))))

scan_end-EndsOnce : (s : GrepScanState) (n : ℕ) (end : GrepEnd) → EndsOnce (scan_end s n end)
scan_end-EndsOnce s n eof =
    append-EndsOnce (send_all n s.pending) _ (send_all-IsCandidate n s.pending) refl
scan_end-EndsOnce s n line_too_large = refl
scan_end-EndsOnce s n line_budget = refl
scan_end-EndsOnce s n (broken e) = refl

after_step-EndsOnce :
    (step : GrepStep) (go : GrepScanState → List GrepScanEvent)
    → EndsAtStop step
    → ((s : GrepScanState) → EndsOnce (go s))
    → EndsOnce (after_step step go)
after_step-EndsOnce (stops sent) go h k = h
after_step-EndsOnce (goes_on sent s) go h k = append-EndsOnce sent (go s) h (k s)

scan_loop-EndsOnce :
    (q : GrepQuery) (job : GrepJob) (resume : ℕ) (s : GrepScanState) (reads : List (ℕ × GrepLine))
    (bytes : ℕ) (end : GrepEnd)
    → EndsOnce (scan_loop q job resume s reads (bytes, end))
unfolding scan_loop
scan_loop-EndsOnce q job resume s [] bytes end = scan_end-EndsOnce s (s.consumed + bytes) end
scan_loop-EndsOnce q job resume s ((size, line) ∷ reads) bytes end =
    after_step-EndsOnce (scan_line q job resume s (s.consumed + size) line) _
      (scan_line-EndsAtStop q job resume s (s.consumed + size) line)
      (λ t. scan_loop-EndsOnce q job resume t reads bytes end)

-- Whatever the lines, the matcher and the way the file ends, an error, a line too large or the end of the
-- budget included: a scan sends candidates and then exactly one event that ends it, which is what the
-- reducer waits for.
pub scan-EndsOnce :
    (q : GrepQuery) (job : GrepJob) (at : GrepCheckpointCoords) (reads : List (ℕ × GrepLine))
    (bytes : ℕ) (end : GrepEnd)
    → EndsOnce (scan q job at reads (bytes, end))
unfolding scan
scan-EndsOnce q job at reads bytes end =
    scan_loop-EndsOnce q job at.resume_offset (start_state at) reads bytes end

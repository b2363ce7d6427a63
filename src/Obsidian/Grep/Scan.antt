-- ===== src/Obsidian/Grep/Scan.antt =====
-- internal/tools/obsidian/grep_concurrent.go: the loop of `scan` over the lines of one file.
use personal_mcp_gateway.Base.{
  ℕ, suc, ◌+◌, ◌-◌, Bytes, Bool, true, false, not, ◌&&◌, ◌||◌, Option, none, some, List, [], ◌∷◌,
  ◌++◌, map, length, is_empty, take, ltb, ◌==◌, if◌then◌else◌,
}
use personal_mcp_gateway.Obsidian.Grep.{
  GrepLine, GrepMatchEvidence, GrepCheckpointCoords, GrepScannedCandidate, GrepError, stale,
  input_too_large, not_utf8, GrepScanEvent, candidate_event, full_event, partial_event, unfit_event,
  error_event, GrepQuery, append_grep_ring, grep_ring_has_large_line, grep_resume_context,
}

-- What the reader ends with, and the bytes that it has read for that.
pub data GrepEnd : Type 0 where
  eof line_too_large line_budget : GrepEnd
  broken : GrepError → GrepEnd

-- The path and the fingerprint that a job puts into its matches.
pub record GrepJob : Type 0 where
  pub output_path : Bytes
  pub fingerprint : Bytes

-- The variables of the loop
pub record GrepScanState : Type 0 where
  pub before : List GrepLine
  pub pending : List GrepScannedCandidate
  pub checkpoint : GrepCheckpointCoords
  pub advanced : Bool
  pub consumed : ℕ

-- A line ends the loop or lets it go on, after the events that it sends.
pub data GrepStep : Type 0 where
  stops : List GrepScanEvent → GrepStep
  goes_on : List GrepScanEvent → GrepScanState → GrepStep

abbrev pub with_line : GrepQuery → GrepLine → GrepScannedCandidate → GrepScannedCandidate
with_line q line p = record p {
  match = record (p.match) { after = p.match.after ++ q.context_evidence line ∷ [] };
  remaining = p.remaining - 1;
}

-- The candidates in front that need no line more, and the others.
abbrev pub ready : List GrepScannedCandidate → List GrepScannedCandidate
ready [] = []
ready (p ∷ l) = let rest = ready l in if p.remaining == 0 then p ∷ rest else []

abbrev pub waiting : List GrepScannedCandidate → List GrepScannedCandidate
waiting [] = []
waiting (p ∷ l) = let rest = waiting l in if p.remaining == 0 then rest else p ∷ l

abbrev pub retry_of : List GrepLine → GrepLine → GrepCheckpointCoords
retry_of [] line = record {
  resume_offset = line.start;
  resume_line = line.number;
  context_offset = line.start;
  context_line = line.number;
}
retry_of (b ∷ _) line = record {
  resume_offset = line.start;
  resume_line = line.number;
  context_offset = b.start;
  context_line = b.number;
}

-- The coordinates after a line, whose context begins where `at` says.
abbrev pub coords_after : GrepLine → ℕ × ℕ → GrepCheckpointCoords
coords_after line at = record {
  resume_offset = line.stop;
  resume_line = suc line.number;
  context_offset = at.0;
  context_line = at.1;
}

abbrev pub candidate_of :
    GrepQuery → GrepJob → List GrepLine → GrepLine → GrepMatchEvidence → GrepScannedCandidate
candidate_of q job before line evidence = record {
  match = record {
    path = job.output_path;
    line = line.number;
    evidence = evidence;
    before = map q.context_evidence before;
    after = [];
    fingerprint = job.fingerprint;
  };
  occurrences_ready = not q.regex;
  remaining = q.context_lines;
  emission = coords_after line (grep_resume_context before line q.context_lines);
  retry = retry_of before line;
}

abbrev pub send_all : ℕ → List GrepScannedCandidate → List GrepScanEvent
send_all consumed [] = []
send_all consumed (p ∷ l) = candidate_event consumed p ∷ send_all consumed l

abbrev pub but_last : List GrepLine → List GrepLine
but_last l = take (length l - 1) l

-- The variables after a round.
abbrev pub round_state :
    GrepQuery → GrepLine → ℕ → List GrepLine → List GrepScannedCandidate → GrepScanState
round_state q line consumed before pending =
    let ring = append_grep_ring before line q.context_lines in
    record {
      before = ring;
      pending = if q.context_lines == 0 then waiting pending else pending;
      checkpoint = coords_after line (grep_resume_context (but_last ring) line q.context_lines);
      advanced = true;
      consumed = consumed;
    }

-- The end of a round. Without context all candidates are sent at once.
abbrev pub round_end :
    GrepQuery
    → GrepLine
    → ℕ
    → List GrepLine
    → List GrepScanEvent
    → List GrepScannedCandidate
    → GrepStep
round_end q line consumed before sent pending =
    goes_on (sent ++ send_all consumed (if q.context_lines == 0 then ready pending else []))
      (round_state q line consumed before pending)

-- The candidates that wait have the line as context, and then the line is matched.
abbrev pub round :
    GrepQuery
    → GrepJob
    → List GrepLine
    → GrepLine
    → ℕ
    → List GrepScannedCandidate
    → Option GrepMatchEvidence
    → GrepStep
round q job before line consumed aged none =
    round_end q line consumed before (send_all consumed (ready aged)) (waiting aged)
round q job before line consumed aged (some evidence) =
    if q.regex && (line.is_large || grep_ring_has_large_line before)
    then stops (send_all consumed (ready aged) ++ unfit_event consumed ∷ [])
    else round_end q line consumed before (send_all consumed (ready aged))
        (waiting aged ++ candidate_of q job before line evidence ∷ [])

unfoldable pub scan_line : GrepQuery → GrepJob → ℕ → GrepScanState → ℕ → GrepLine → GrepStep
scan_line q job resume_offset s consumed line =
    if not (q.valid_utf8 line.text)
    then stops (error_event consumed not_utf8 ∷ [])
    else if ltb line.start resume_offset
    then goes_on []
        (record s { before = append_grep_ring s.before line q.context_lines; consumed = consumed })
    else if not (line.start == resume_offset) && not s.advanced
    then stops (error_event consumed stale ∷ [])
    else if q.regex && line.is_large && not (is_empty s.pending)
    then stops (unfit_event consumed ∷ [])
    else round q job s.before line consumed (map (with_line q line) s.pending)
        (q.match_evidence line)

-- The candidate in front says where to go on when the budget ends.
abbrev pub checkpoint_at : GrepCheckpointCoords → List GrepScannedCandidate → GrepCheckpointCoords
checkpoint_at checkpoint [] = checkpoint
checkpoint_at checkpoint (p ∷ _) = p.retry

abbrev pub scan_end : GrepScanState → ℕ → GrepEnd → List GrepScanEvent
scan_end s consumed eof = send_all consumed s.pending ++ full_event consumed ∷ []
scan_end s consumed line_too_large = error_event consumed input_too_large ∷ []
scan_end s consumed line_budget =
    partial_event consumed (checkpoint_at s.checkpoint s.pending) s.advanced ∷ []
scan_end s consumed (broken e) = error_event consumed e ∷ []

abbrev pub after_step : GrepStep → (GrepScanState → List GrepScanEvent) → List GrepScanEvent
after_step (stops sent) go = sent
after_step (goes_on sent s) go = sent ++ go s

-- The loop over what the reader gives, each with the bytes that it has newly read.
unfoldable pub scan_loop :
    GrepQuery → GrepJob → ℕ → GrepScanState → List (ℕ × GrepLine) → ℕ × GrepEnd → List GrepScanEvent
scan_loop q job resume_offset s [] (bytes, end) = scan_end s (s.consumed + bytes) end
scan_loop q job resume_offset s ((bytes, line) ∷ reads) last =
    after_step (scan_line q job resume_offset s (s.consumed + bytes) line)
      (λ t. scan_loop q job resume_offset t reads last)

-- The variables before the first line.
abbrev pub start_state : GrepCheckpointCoords → GrepScanState
start_state at = record {
  before = [];
  pending = [];
  checkpoint = record {
    resume_offset = at.context_offset;
    resume_line = at.context_line;
    context_offset = at.context_offset;
    context_line = at.context_line;
  };
  advanced = false;
  consumed = 0;
}

-- A scan from coordinates on, where the reader begins at the context. A whole file begins at offset 0, line 1.
unfoldable pub scan :
    GrepQuery
    → GrepJob
    → GrepCheckpointCoords
    → List (ℕ × GrepLine)
    → ℕ × GrepEnd
    → List GrepScanEvent
scan q job at reads last = scan_loop q job at.resume_offset (start_state at) reads last

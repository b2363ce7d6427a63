-- ===== src/Obsidian/GrepTests.antt =====
-- Runs of a search of internal/tools/obsidian, and the properties at them.
use personal_mcp_gateway.Base.{
  ℕ, suc, ◌+◌, ◌*◌, Bytes, codes, true, false, Option, none, some, List, [], ◌∷◌, ◌++◌, All, length,
  ◌==◌, if◌then◌else◌, ◌≡◌, inl, refl, arith,
}
use personal_mcp_gateway.Obsidian.Outcome.{ok}
use personal_mcp_gateway.Obsidian.Grep.{
  GrepLine, GrepMatchEvidence, GrepScannedCandidate, full_event, error_event, GrepQuery, stale,
}
use personal_mcp_gateway.Obsidian.Grep.Scan.{eof, broken, GrepJob, scan_line, scan_loop, scan}
use personal_mcp_gateway.Obsidian.Grep.Pending.{Found, found_at, expected, completed}
use personal_mcp_gateway.Obsidian.Grep.Matches.{IsPlain, lines, at_start, scan-expected}
use personal_mcp_gateway.Obsidian.Grep.Resume.{IsFile}
use personal_mcp_gateway.Obsidian.Grep.Paged.{scan_is_resumed}
use personal_mcp_gateway.Obsidian.Grep.Ends.{scan-EndsOnce}
use personal_mcp_gateway.Obsidian.Grep.Run.{
  GrepSettings, GrepRun, GrepCursorState, emit, stop_for_unfit_grep_candidate,
}
use personal_mcp_gateway.Obsidian.Grep.Fitting.{IsEmitted}
use personal_mcp_gateway.Obsidian.Grep.Page.{emit-IsEmitted}
use personal_mcp_gateway.Obsidian.Grep.Pool.{
  VisitedFile, GrepScanJob, GrepBudget, schedule, take_job, send, receive, Search, visits, takes,
  sends, receives, walk_ended, GrepConcurrentState, Steps, none_yet, and_then,
}
use personal_mcp_gateway.Obsidian.Grep.Pool.Window.{walk_events, EndsOnce}
use personal_mcp_gateway.Obsidian.Grep.Pool.Counted.{HasCounted}
use personal_mcp_gateway.Obsidian.Grep.Pool.Order.{IsOrdered, begun, search-IsOrdered}

-- To unfold `searches` is to unfold the program.
searches : Unit {0}
unfolding scan_line scan_loop scan emit stop_for_unfit_grep_candidate schedule take_job send receive
searches = tt

abbrev evidence_of : GrepLine → GrepMatchEvidence
evidence_of line = record {
  column = 1;
  occurrences = 1;
  text = line.text;
  text_truncated = false;
  text_start_column = 0;
  text_end_column = 0;
  line_bytes = 0;
}

-- A line matches if its first byte is an x, and its context is one line on each side.
abbrev begins_with_x : GrepLine → Bytes → Option GrepMatchEvidence
begins_with_x line [] = none
begins_with_x line (c ∷ _) = if c == b'x' then some (evidence_of line) else none

abbrev query : GrepQuery
query = record {
  regex = true;
  context_lines = 1;
  match_evidence = λ line. begins_with_x line line.text;
  context_evidence = λ line. record {
    line = line.number;
    text = line.text;
    text_truncated = false;
    text_start_column = 0;
    text_end_column = 0;
    line_bytes = 0;
  };
  valid_utf8 = λ text. true;
}

abbrev job : GrepJob
job = record { output_path = codes "n.md"; fingerprint = [] }

abbrev line_at : ℕ → Bytes → GrepLine
line_at n text = record {
  number = suc n;
  start = 3 * n;
  stop = 3 * n + 3;
  text = text;
  is_large = false;
}

abbrev first : GrepLine
first = line_at 0 (codes "a")

abbrev second : GrepLine
second = line_at 1 (codes "xb")

abbrev third : GrepLine
third = line_at 2 (codes "xc")

abbrev reads : List (ℕ × GrepLine)
reads = (9, first) ∷ (0, second) ∷ (0, third) ∷ []

abbrev lines_found : Option (List Found) → List ℕ
lines_found none = []
lines_found (some []) = []
lines_found (some (f ∷ l)) =
    f.match.line ∷ length f.match.before ∷ length f.match.after ∷ lines_found (some l)

two_matches :
    lines_found (completed (scan query job at_start reads (0, eof))) ≡ 2 ∷ 1 ∷ 1 ∷ 3 ∷ 1 ∷ 0 ∷ []
unfolding searches
two_matches = refl

IsPlain-example : (n : ℕ) (text : Bytes) → IsPlain query (line_at n text)
IsPlain-example n text = record { valid = refl; small = refl }

IsPlain-examples : All (IsPlain query) (first ∷ second ∷ third ∷ [])
IsPlain-examples = (
  IsPlain-example 0 (codes "a"),
  (IsPlain-example 1 (codes "xb"), (IsPlain-example 2 (codes "xc"), tt)),
)

scan-expected_example :
    completed (scan query job at_start reads (0, eof)) ≡ some (expected query job [] (lines reads))
scan-expected_example = scan-expected query job reads 0 IsPlain-examples refl

three_lines : IsFile 0 (first ∷ second ∷ third ∷ [])
three_lines = (refl, omega arith, (refl, omega arith, (refl, omega arith, tt)))

abbrev second_found : Found
second_found = found_at query job (first ∷ []) second (third ∷ []) (evidence_of second)

scan_is_resumed_example :
    (earlier later : List Found) × (completed (scan query job at_start reads (0, eof))
      ≡ some (earlier ++ second_found ∷ later))
    × (completed (scan query job second_found.emission ((6, second) ∷ (0, third) ∷ []) (0, eof))
        ≡ some later)
scan_is_resumed_example =
    scan_is_resumed query job (first ∷ []) second (third ∷ []) three_lines IsPlain-examples
      (evidence_of second) reads ((6, second) ∷ (0, third) ∷ []) 0 0 refl refl refl

scan-EndsOnce_example : EndsOnce (scan query job at_start reads (4, broken stale))
scan-EndsOnce_example = scan-EndsOnce query job at_start reads 4 (broken stale)

abbrev budget : GrepBudget
budget = record { max_files = 2; max_bytes = 10; page_stops = λ received. false }

-- Two files without a match, and a third for which the budget has no room.
abbrev missed : VisitedFile
missed = record { size = 4; is_partial = false; failure = none; events = full_event 4 ∷ [] }

abbrev files : List VisitedFile
files = missed ∷ missed ∷ missed ∷ []

abbrev waiting_job : GrepScanJob
waiting_job = record { allowance = 4; taken = false; channel = none; to_send = full_event 4 ∷ [] }

abbrev busy_job : GrepScanJob
busy_job = record { allowance = 4; taken = true; channel = none; to_send = full_event 4 ∷ [] }

abbrev done_job : GrepScanJob
done_job = record { allowance = 4; taken = true; channel = some (full_event 4); to_send = [] }

abbrev window_of : List GrepScanJob → Search
window_of jobs = record {
  state = record {
    pending = jobs;
    reserved_files = 2;
    reserved_bytes = 8;
    received = [];
    walk_over = false;
    halted = false;
  };
  unvisited = missed ∷ [];
}

-- The second file is scanned before the first.
second_first : Steps budget (begun files) (window_of (busy_job ∷ done_job ∷ []))
unfolding searches
second_first =
    and_then
      (and_then (and_then (and_then (and_then none_yet (visits refl)) (visits refl)) (takes refl))
        (takes refl))
      (sends (busy_job ∷ []) [] busy_job done_job refl refl)

search-IsOrdered_example :
    IsOrdered budget (walk_events files) (window_of (busy_job ∷ done_job ∷ []))
    × HasCounted budget files (window_of (busy_job ∷ done_job ∷ [])).state (missed ∷ [])
search-IsOrdered_example = search-IsOrdered budget files _ (refl, (refl, (refl, tt))) second_first

-- A file that cannot be opened ends the walk, and its error stops the reducer.
abbrev gone : VisitedFile
gone = record missed { failure = some stale }

abbrev after_gone : GrepConcurrentState
after_gone = record {
  pending = [];
  reserved_files = 0;
  reserved_bytes = 0;
  received = error_event 0 stale ∷ [];
  walk_over = true;
  halted = true;
}

gone_stops :
    Steps budget
      (begun (gone ∷ missed ∷ []))
      (record { state = after_gone; unvisited = missed ∷ [] })
    × (schedule budget after_gone missed ≡ walk_ended)
    × (receive budget after_gone ≡ none)
unfolding searches
gone_stops = (and_then (and_then none_yet (visits refl)) (receives refl), refl, refl)

abbrev settings : GrepSettings
settings = record {
  limit = 1;
  resume = none;
  encode_state = λ state. ok (codes "next");
  output_fits = λ matches coverage. true;
  count_occurrences = length;
  extend_prefix = λ prefix position fingerprint. prefix;
  encode_digest = λ digest. digest;
  context_failure = λ e. none;
}

abbrev fresh : GrepRun
fresh = record {
  work = record { files_scanned = 1; bytes_scanned = 9; source_entries_validated = 0 };
  matches = [];
  emission_states = [];
  prefix = [];
  last_full = none;
  stop = none;
  page_bytes = 9;
}

abbrev found_candidate : GrepScannedCandidate
found_candidate = record {
  match = second_found.match;
  occurrences_ready = false;
  remaining = 0;
  emission = second_found.emission;
  retry = second_found.retry;
}

abbrev after_second : GrepCursorState
after_second = record {
  boundary = record { nfc = codes "n.md"; stored = codes "n.md" };
  prefix = [];
  partial = some (record { fingerprint = []; at = second_found.emission });
}

emit-IsEmitted_example :
    IsEmitted settings fresh found_candidate after_second
      (emit settings (λ k. none) fresh found_candidate after_second)
emit-IsEmitted_example =
    emit-IsEmitted settings (λ k. none) fresh found_candidate after_second
      (record { aligned = refl; room = omega arith; going = refl; fits = inl refl })

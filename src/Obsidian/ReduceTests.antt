-- ===== src/Obsidian/ReduceTests.antt =====
-- A job of a resumed search of internal/tools/obsidian that spends the bytes of its page, and the property of
-- `drain` at it.
use personal_mcp_gateway.Base.{ℕ, codes, true, false, none, some, List, [], ◌∷◌, length, ◌≡◌, refl}
use personal_mcp_gateway.Obsidian.Outcome.{ok}
use personal_mcp_gateway.Obsidian.Coverage.{byte_limit}
use personal_mcp_gateway.Obsidian.Grep.{
  GrepCheckpointCoords, GrepScanEvent, full_event, partial_event,
}
use personal_mcp_gateway.Obsidian.Grep.Run.{GrepCursorState, GrepSettings, GrepRun, partial_state}
use personal_mcp_gateway.Obsidian.Grep.Reduce.{
  compare_bytes, compare_grep_position, ReducedJob, JobProgress, Reduced, done, failed,
  source_changed, limit_exceeded, reduce_event, reduce_oldest,
}
use personal_mcp_gateway.Obsidian.Grep.Drain.{PendingJob, drain}
use personal_mcp_gateway.Obsidian.Fit.{Position}

-- To unfold `reduces` is to unfold the program.
reduces : Unit {0}
unfolding compare_bytes compare_grep_position reduce_event reduce_oldest
reduces = tt

abbrev at_offset : ℕ → GrepCheckpointCoords
at_offset n = record { resume_offset = n; resume_line = 1; context_offset = 0; context_line = 1 }

abbrev resumed : GrepCursorState
resumed = record {
  boundary = record { nfc = codes "n.md"; stored = codes "n.md" };
  prefix = [];
  partial = some (record { fingerprint = []; at = at_offset 3 });
}

abbrev resuming : GrepSettings
resuming = record {
  limit = 2;
  resume = some resumed;
  encode_state = λ state. ok (codes "next");
  output_fits = λ matches coverage. true;
  count_occurrences = length;
  extend_prefix = λ prefix position fingerprint. prefix;
  encode_digest = λ digest. digest;
  context_failure = λ e. none;
}

abbrev page_so_far : GrepRun
page_so_far = record {
  work = record { files_scanned = 0; bytes_scanned = 0; source_entries_validated = 0 };
  matches = [];
  emission_states = [];
  prefix = [];
  last_full = none;
  stop = none;
  page_bytes = 0;
}

abbrev same_file : ReducedJob
same_file = record { position = resumed.boundary; fingerprint = []; has_file = true }

abbrev not_begun : JobProgress
not_begun = record { accepted_bytes = 0; started = false }

abbrev one_event : GrepScanEvent → Reduced
one_event event =
    reduce_oldest resuming (λ i k. none) none same_file not_begun page_so_far (event ∷ [])

abbrev counted : GrepRun
counted = record page_so_far {
  work = record { files_scanned = 1; bytes_scanned = 9; source_entries_validated = 0 };
  page_bytes = 9;
}

-- At a later place of the file that the cursor names, the page is cut.
cuts_further :
    one_event (partial_event 9 (at_offset 7) true)
    ≡ done (record counted {
      stop = some (record {
        reason = byte_limit;
        state = partial_state resuming counted same_file.position [] (at_offset 7);
      });
    })
unfolding reduces
cuts_further = refl

-- At the place that the cursor names, the search has not come further.
refuses_same : one_event (partial_event 9 (at_offset 3) true) ≡ failed limit_exceeded counted
unfolding reduces
refuses_same = refl

-- A channel that closes without a last event.
closed_without_end :
    reduce_oldest resuming (λ i k. none) none same_file not_begun page_so_far []
    ≡ failed source_changed page_so_far
unfolding reduces
closed_without_end = refl

abbrev at_name : Position
at_name = record { nfc = codes "z.md"; stored = codes "z.md" }

abbrev cut_then_next : List PendingJob
cut_then_next =
    record {
      job = same_file;
      progress = not_begun;
      looks = λ i k. none;
      ended = none;
      events = partial_event 9 (at_offset 7) true ∷ [];
    }
    ∷ record {
      job = record same_file { position = at_name };
      progress = not_begun;
      looks = λ i k. none;
      ended = none;
      events = full_event 4 ∷ [];
    }
    ∷ []

-- The job after the one that cuts the page is not reduced.
drains_to_cut :
    drain resuming page_so_far cut_then_next ≡ one_event (partial_event 9 (at_offset 7) true)
unfolding reduces drain
drains_to_cut = refl

-- ===== src/Obsidian/Grep/Paged.antt =====
-- The pages of a search of internal/tools/obsidian/grep_concurrent.go in one file.
use personal_mcp_gateway.Base.{
  ℕ, ◌-◌, Bool, false, some, List, [], ◌∷◌, ◌++◌, map, length, last_of, All, ◌≡◌, refl, sym, ap,
  ◌∙◌, arith, append_assoc, append-nil, length-drop, subst,
}
use personal_mcp_gateway.Obsidian.Grep.{
  GrepLine, GrepMatchEvidence, GrepCheckpointCoords, GrepQuery,
}
use personal_mcp_gateway.Obsidian.Grep.Scan.{eof, GrepJob, start_state, scan_loop, scan}
use personal_mcp_gateway.Obsidian.Grep.Pending.{
  Found, found_at, if_found, expected, completed, filled, Rising, last_of-all, last_of-nil,
}
use personal_mcp_gateway.Obsidian.Grep.Matches.{
  IsPlain, lines, at_start, Opens, scan_loop-expected, scan-expected, All-drop, All-snoc,
}
use personal_mcp_gateway.Obsidian.Grep.Resume.{
  IsFile, from, IsBelow, IsBelow-before, IsFile-at, IsFile-after, Follows-All, skip,
}
use personal_mcp_gateway.Obsidian.Grep.Context.{from-grep_resume_context}

All-front {ℓ κ} : {A : Type ℓ} (P : A → Type κ) (l r : List A) → All P (l ++ r) → All P l
All-front P [] r h = tt
All-front P (x ∷ l) r h = (h.0, All-front P l r h.1)

All-back {ℓ κ} : {A : Type ℓ} (P : A → Type κ) (l r : List A) → All P (l ++ r) → All P r
All-back P [] r h = h
All-back P (x ∷ l) r h = All-back P l r h.1

Opens-file :
    (q : GrepQuery) (job : GrepJob) (offset : ℕ) (advanced : Bool) (reads : List (ℕ × GrepLine))
    → IsFile offset (lines reads)
    → Opens q job offset advanced reads
Opens-file q job offset advanced [] h = tt
Opens-file q job offset advanced ((n, line) ∷ reads) h = ground (arith, h.0)

-- What is found up to a line and after it.
expected-split :
    (q : GrepQuery) (job : GrepJob) (seen front : List GrepLine) (line : GrepLine)
    (rest : List GrepLine) (e : GrepMatchEvidence)
    → q.match_evidence line ≡ some e
    → (earlier : List Found) × (expected q job seen (front ++ line ∷ rest)
        ≡ earlier
          ++ found_at q job (seen ++ front) line rest e
            ∷ expected q job ((seen ++ front) ++ line ∷ []) rest)
expected-split q job seen [] line rest e h = (
  [],
  ap (λ o. if_found q job seen line rest o ++ expected q job (seen ++ line ∷ []) rest) h
      ∙ ap (λ s. found_at q job s line rest e ∷ expected q job (s ++ line ∷ []) rest)
          (sym (append-nil seen)),
)
expected-split q job seen (x ∷ front) line rest e h =
    let (earlier, is) = expected-split q job (seen ++ x ∷ []) front line rest e h in
    let here = if_found q job seen x (front ++ line ∷ rest) (q.match_evidence x) in
    let same = append_assoc seen (x ∷ []) front in
    let found : List GrepLine → List Found =
      λ s. found_at q job s line rest e ∷ expected q job (s ++ line ∷ []) rest in
    (
      here ++ earlier,
      ap (λ l. here ++ l) (is ∙ ap (λ s. earlier ++ found s) same)
          ∙ sym (append_assoc here earlier (found (seen ++ x ∷ front))),
    )

module _ (q : GrepQuery) (job : GrepJob) (front : List GrepLine) (line : GrepLine)
    (rest : List GrepLine) (file : IsFile 0 (front ++ line ∷ rest))
    (plain : All (IsPlain q) (front ++ line ∷ rest)) where
  abbrev seen : List GrepLine
  seen = front ++ line ∷ []

  IsPlain-seen : All (IsPlain q) seen
  IsPlain-seen =
      All-front (IsPlain q) seen rest
        (subst (All (IsPlain q)) (sym (append_assoc front (line ∷ []) rest)) plain)

  IsBelow-seen : All (IsBelow line.stop) seen
  IsBelow-seen =
      let here = IsFile-at 0 front rest line file in
      All-snoc (IsBelow line.stop) front line
        (IsBelow-before 0 front line rest line.stop file (omega (arith, here.1)))
        (ground (arith, here.1))

  -- A scan that begins with the last lines that have been seen.
  resumed :
      (at : GrepCheckpointCoords) (reads : List (ℕ × GrepLine)) (bytes : ℕ)
      → at.resume_offset ≡ line.stop
      → lines reads ≡ last_of q.context_lines seen ++ rest
      → completed (scan q job at reads (bytes, eof)) ≡ some (expected q job seen rest)
  unfolding scan
  resumed at reads bytes resumes is =
      let part = last_of q.context_lines seen in
      let start = length seen - q.context_lines in
      let k =
        skip q job line.stop bytes part rest reads [] (start_state at) is
          (All-drop (IsPlain q) start seen IsPlain-seen)
          (All-drop (IsBelow line.stop) start seen IsBelow-seen)
          (sym (last_of-nil q.context_lines)) in
      let after = subst (IsFile line.stop) (sym k.later_is) (IsFile-after 0 front rest line file) in
      let small = last_of-all q.context_lines part (omega (arith, length-drop start seen)) in
      ap (λ n. completed (scan_loop q job n (start_state at) reads (bytes, eof))) resumes
      ∙ ap completed k.goes
      ∙ scan_loop-expected q job line.stop k.later seen k.state bytes
          (subst (All (IsPlain q)) (sym k.later_is) (
            All-back (IsPlain q) (line ∷ []) rest (All-back (IsPlain q) front (line ∷ rest) plain)))
          (Follows-All q job line.stop line.stop (lines k.later) after (omega arith))
          (Opens-file q job line.stop k.state.advanced k.later after) (k.ring ∙ small) IsPlain-seen
          (subst (Rising 0 q.context_lines) (sym k.pending_is) tt)
      ∙ ap (λ p. some (map (filled q (lines k.later)) p ++ expected q job seen (lines k.later)))
          k.pending_is
      ∙ ap (λ l. some (expected q job seen l)) k.later_is

  -- Where a match is the last of a page, the next page goes on from the checkpoint of that match: the scan of
  -- the whole file finds what the pages find before it, the match, and what the scan that is resumed at its
  -- checkpoint finds, each match once and with the same context, whatever the sizes of the reads. It holds
  -- for every file whose lines follow each other from offset 0 and are UTF-8 and, for a regular expression,
  -- not too large, where the resumed reader begins at the offset of the checkpoint's context.
  pub scan_is_resumed :
      (e : GrepMatchEvidence) (reads resumed_reads : List (ℕ × GrepLine)) (bytes resumed_bytes : ℕ)
      → q.match_evidence line ≡ some e
      → lines reads ≡ front ++ line ∷ rest
      → lines resumed_reads
        ≡ from (found_at q job front line rest e).emission.context_offset (front ++ line ∷ rest)
      → (earlier later : List Found) × (completed (scan q job at_start reads (bytes, eof))
          ≡ some (earlier ++ found_at q job front line rest e ∷ later))
        × (completed (
              scan q job
                (found_at q job front line rest e).emission
                resumed_reads
                (resumed_bytes, eof))
            ≡ some later)
  scan_is_resumed e reads resumed_reads bytes resumed_bytes matches whole part =
      let (earlier, is) = expected-split q job [] front line rest e matches in
      (
        earlier,
        expected q job seen rest,
        scan-expected q job reads bytes (subst (All (IsPlain q)) (sym whole) plain)
              (Opens-file q job 0 false reads (subst (IsFile 0) (sym whole) file))
            ∙ ap (λ l. some (expected q job [] l)) whole
            ∙ ap some is,
        resumed (found_at q job front line rest e).emission resumed_reads resumed_bytes refl
            (part ∙ from-grep_resume_context 0 q.context_lines front line rest file),
      )

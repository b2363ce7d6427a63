-- ===== src/Obsidian/Fit/Largest.antt =====
-- `FitLSOutput` of internal/tools/obsidian/response_fit.go returns the largest page.
use personal_mcp_gateway.Base.{
  inl, inr, subst, ℕ, suc, ◌+◌, ◌≤◌, Bytes, Bool, true, false, Option, none, some, List, [], ◌∷◌,
  ◌++◌, map, length, is_empty, ltb, leb, ◌==◌, if◌then◌else◌, ◌≡◌, ◌≢◌, refl, sym, ap, ◌∙◌, arith,
  append_assoc, length-append, Bool-cases, bytes_eq,
}
use personal_mcp_gateway.Obsidian.Coverage.{
  new_complete_coverage, Coverage, CoverageWork, valid_cursor_stop, new_cursor_coverage,
  result_limit, response_limit,
}
use personal_mcp_gateway.Obsidian.Outcome.{response_too_large, ok, fail, ◌>>=◌}
use personal_mcp_gateway.Obsidian.Fit.{
  max_sdk_result_bytes, max_structured_result_bytes, Position, LsEntry, LsFitCandidate,
  LsFitRequest, LsOutput, Encoder, output, Look, at_start, at_end, at_size, at_prefix, after_cursor,
  Looks, Best, entries_prefix, entry_sizes, page_coverage, best_prefix, no_coverage, finish,
  fit_none, fit_some, fit_ls_output, require,
}
use personal_mcp_gateway.Obsidian.Fit.Reference.{
  total, IsJson, continued, boundary, pages, or_else, last_fitting, answer, empty_page,
  largest_page,
}

total-append :
    (size : LsEntry → ℕ) (l : List LsEntry) (e : LsEntry)
    → total size (l ++ e ∷ []) ≡ total size l + size e
total-append size [] e = omega arith
total-append size (x ∷ l) e = omega (arith, total-append size l e)

abbrev entries : List LsFitCandidate → List LsEntry
entries [] = []
entries (c ∷ l) = c.entry ∷ entries l

entries_prefix-append :
    (d : List LsFitCandidate) (c : LsFitCandidate) (l : List LsFitCandidate)
    → entries_prefix (d ++ c ∷ l) (suc (length d)) ≡ entries d ++ c.entry ∷ []
unfolding entries_prefix
entries_prefix-append [] c l = none_more l
  where
    none_more : (l : List LsFitCandidate) → c.entry ∷ entries_prefix l 0 ≡ c.entry ∷ []
    none_more [] = refl
    none_more (x ∷ l) = refl
entries_prefix-append (x ∷ d) c l = ap (λ r. x.entry ∷ r) (entries_prefix-append d c l)

limits_are_stops :
    (valid_cursor_stop result_limit ≡ true) × (valid_cursor_stop response_limit ≡ true)
unfolding valid_cursor_stop bytes_eq
limits_are_stops = (refl, refl)

new_cursor-continued :
    (work : CoverageWork) (stop cursor : Bytes)
    → valid_cursor_stop stop ≡ true
    → is_empty cursor ≡ false
    → new_cursor_coverage work stop cursor ≡ some (continued work stop cursor)
new_cursor-continued work stop cursor h k = rw h (rw k refl)

within :
    (a b : ℕ)
    → a ≡ b
    → leb b max_structured_result_bytes ≡ true
    → ltb max_structured_result_bytes a ≡ false
within a b e h = ground arith

over :
    (a b : ℕ)
    → a ≡ b
    → leb b max_structured_result_bytes ≡ false
    → ltb max_structured_result_bytes a ≡ true
over a b e h = ground arith

or_else_assoc : (a b c : Option LsOutput) → or_else (or_else a b) c ≡ or_else a (or_else b c)
or_else_assoc none b c = refl
or_else_assoc (some p) b c = refl

or_else-none : (a : Option LsOutput) → or_else a none ≡ a
or_else-none none = refl
or_else-none (some p) = refl

entries-append :
    (d : List LsFitCandidate) (c : LsFitCandidate)
    → entries (d ++ c ∷ []) ≡ entries d ++ c.entry ∷ []
entries-append [] c = refl
entries-append (x ∷ d) c = ap (λ r. x.entry ∷ r) (entries-append d c)

length-entries : (d : List LsFitCandidate) → length (entries d) ≡ length d
length-entries [] = refl
length-entries (x ∷ d) = omega (arith, length-entries d)

-- Nothing fails on the way: the context is live, the encoder does its work and each position has a cursor.
module _ (enc : Encoder) (json : IsJson enc) (looks : Looks) (live : (k : Look) → looks k ≡ none)
    (cursor : Position → Bytes) (full : (p : Position) → is_empty (cursor p) ≡ false)
    (request : LsFitRequest) where
  page_coverage-boundary :
      (i : ℕ) (c : LsFitCandidate) (last : Bool)
      → page_coverage looks (some (λ p. ok (cursor p))) request i c last
        ≡ ok (boundary cursor request c last)
  unfolding page_coverage
  page_coverage-boundary i c true = elim (Bool-cases request.has_more) [
    | inl y ↦ rw y (
        rw (live (after_cursor i)) (
          rw
            (new_cursor-continued request.work result_limit (cursor c.position) limits_are_stops.0
              (full c.position))
            refl))
    | inr n ↦ rw n refl
  ]
  page_coverage-boundary i c false = rw (live (after_cursor i)) (
      rw
        (new_cursor-continued request.work response_limit (cursor c.position) limits_are_stops.1
          (full c.position))
        refl)

  entry_sizes-total :
      (i : ℕ) (l : List LsFitCandidate)
      → entry_sizes enc looks i l ≡ ok (map (λ c. json.entry_size c.entry) l)
  unfolding entry_sizes
  entry_sizes-total i [] = refl
  entry_sizes-total i (c ∷ l) =
      rw (live (at_size i)) (rw (json.entry_bytes c.entry) (rw (entry_sizes-total (suc i) l) refl))

  -- `bestCount` and `bestCoverage` stand for the best page so far.
  abbrev IsBest : Best → Option LsOutput → Type 0
  IsBest best none = best.count ≡ 0
  IsBest best (some p) =
      (best.count ≢ 0)
      × (p ≡ output request.path (entries_prefix request.candidates best.count) best.coverage)
      × (json.page_size p ≤ max_structured_result_bytes)

  best_step :
      (d : List LsFitCandidate) (c : LsFitCandidate) (l : List LsFitCandidate) (best : Best)
      (o : Option LsOutput) (coverage : Coverage) (size : ℕ)
      → request.candidates ≡ d ++ c ∷ l
      → size ≡ json.page_size (output request.path (entries d ++ c.entry ∷ []) coverage)
      → IsBest best o
      → IsBest
          (if ltb max_structured_result_bytes size
            then best
            else record { count = suc (length d); coverage = coverage })
          (or_else
            (if leb
                (json.page_size (output request.path (entries d ++ c.entry ∷ []) coverage))
                max_structured_result_bytes
              then some (output request.path (entries d ++ c.entry ∷ []) coverage)
              else none)
            o)
  best_step d c l best o coverage size all is h =
      let p = output request.path (entries d ++ c.entry ∷ []) coverage in
      elim (Bool-cases (leb (json.page_size p) max_structured_result_bytes)) [
        | inl y ↦ rw (within size (json.page_size p) is y) (
            rw y (
              omega arith,
              ap (λ es. output request.path es coverage)
                  (sym (entries_prefix-append d c l)
                    ∙ ap (λ r. entries_prefix r (suc (length d))) (sym all)),
              ground arith,
            ))
        | inr n ↦ rw (over size (json.page_size p) is n) (rw n h)
      ]

  best_prefix-largest :
      (d l : List LsFitCandidate) (i before : ℕ) (best : Best) (o : Option LsOutput)
      → request.candidates ≡ d ++ l
      → i ≡ length d
      → before ≡ total json.entry_size (entries d)
      → IsBest best o
      → (b : Best) × (best_prefix enc looks
            (some (λ p. ok (cursor p)))
            request
            i
            before
            best
            l
            (map (λ c. json.entry_size c.entry) l)
          ≡ ok b)
        × IsBest b (or_else (last_fitting json.page_size (pages cursor request (entries d) l)) o)
  unfolding best_prefix
  best_prefix-largest d [] i before best o all ei eb h = (best, refl, h)
  best_prefix-largest d (c ∷ l) i before best o all ei eb h =
      let coverage = boundary cursor request c (is_empty l) in
      let one = json.page_size (output request.path (c.entry ∷ []) coverage) in
      let page = output request.path (entries d ++ c.entry ∷ []) coverage in
      let (b, runs, is) =
        best_prefix-largest (d ++ c ∷ []) l (suc i) (before + json.entry_size c.entry)
          (if ltb max_structured_result_bytes (one + before + i)
            then best
            else record { count = suc i; coverage = coverage })
          (or_else
            (if leb (json.page_size page) max_structured_result_bytes then some page else none) o)
          (all ∙ sym (append_assoc d (c ∷ []) l)) (omega (arith, length-append d (c ∷ [])))
          (omega (
            arith,
            total-append json.entry_size (entries d) c.entry,
            ap (total json.entry_size) (entries-append d c),
          ))
          (rw ei (
            best_step d c l best o coverage (one + before + length d) all
              (omega
                (arith, json.array request.path coverage (entries d) c.entry, length-entries d))
              h)) in
      let here =
        if leb (json.page_size page) max_structured_result_bytes then some page else none in
      let chosen = or_else here o in
      (
        b,
        rw (live (at_prefix i)) (
            rw (page_coverage-boundary i c (is_empty l))
              (rw (json.page_bytes (output request.path (c.entry ∷ []) coverage)) runs)),
        subst (IsBest b)
            (ap (λ es. or_else (last_fitting json.page_size (pages cursor request es l)) chosen)
                (entries-append d c)
              ∙ sym (
                  or_else_assoc
                    (last_fitting json.page_size
                      (pages cursor request (entries d ++ c.entry ∷ []) l))
                    here o))
            is,
      )

  finish-answer :
      (best : Best) (o : Option LsOutput)
      → IsBest best o
      → finish enc looks request best ≡ answer json.result_size o
  finish-answer best none h = rw h refl
  finish-answer best (some p) (some_count, is, small) =
      let out = output request.path (entries_prefix request.candidates best.count) best.coverage in
      let off : (best.count == 0) ≡ false = ground arith in
      let small_out : leb (json.page_size out) max_structured_result_bytes ≡ true =
        ground (arith, ap json.page_size is) in
      rw off (
        rw (live at_end) (
          rw (json.page_bytes out)
            (rw small_out (rw (json.result_bytes out) (rw is (last_check out))))))
    where
      last_check :
          (out : LsOutput)
          → (require (leb (json.result_size out) max_sdk_result_bytes) >>= (λ _. ok out)) ≡ (
              if leb (json.result_size out) max_sdk_result_bytes
              then ok out
              else fail response_too_large)
      last_check out = elim (Bool-cases (leb (json.result_size out) max_sdk_result_bytes)) [
        | inl y ↦ rw y refl
        | inr n ↦ rw n refl
      ]

  fit_none-empty_page : fit_none enc request ≡ empty_page json.page_size request
  fit_none-empty_page =
      let p = output request.path [] (new_complete_coverage request.work) in
      elim (Bool-cases request.has_more) [
        | inl y ↦ rw y refl
        | inr n ↦ rw n (
            rw (json.page_bytes p)
              (elim (Bool-cases (leb (json.page_size p) max_structured_result_bytes)) [
                | inl y ↦ rw y refl
                | inr n ↦ rw n refl
              ]))
      ]

  fit_some-largest :
      fit_some enc looks (some (λ p. ok (cursor p))) request
      ≡ answer json.result_size
          (last_fitting json.page_size (pages cursor request [] request.candidates))
  fit_some-largest =
      let found = last_fitting json.page_size (pages cursor request [] request.candidates) in
      let (b, runs, is) =
        best_prefix-largest [] request.candidates 0 0 (record { count = 0; coverage = no_coverage })
          none refl refl refl refl in
      rw (entry_sizes-total 0 request.candidates)
        (rw runs (finish-answer b found (subst (IsBest b) (or_else-none found) is)))

  -- As long as the context is live, the encoder writes JSON and each position has a cursor that is not empty:
  -- `FitLSOutput` returns, of all pages that begin with the first candidate, each encoded whole and with the
  -- cursor of its last entry unless it holds all that there is, the longest that fits the structured budget.
  -- Where none fits, or that page does not fit the complete result, it fails with "response_too_large".
  pub fit_ls_output_is_largest :
      fit_ls_output enc looks (some (λ p. ok (cursor p))) request
      ≡ largest_page enc json cursor request
  unfolding fit_ls_output
  fit_ls_output_is_largest = rw (live at_start) (rw fit_none-empty_page (rw fit_some-largest refl))

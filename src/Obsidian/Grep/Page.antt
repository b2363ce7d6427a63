-- ===== src/Obsidian/Grep/Page.antt =====
-- How `emit` of internal/tools/obsidian/grep.go fills a page.
use personal_mcp_gateway.Base.{
  ℕ, ◌<◌, Bool, true, false, not, Option, none, some, List, [], ◌∷◌, ◌++◌, length, is_empty, leb,
  ◌≡◌, ◌⊎◌, inl, inr, refl, arith, if_lem, length-append,
}
use personal_mcp_gateway.Obsidian.Outcome.{
  Failure, Outcome, ok, fail, ◌>>=◌, unless_failed, or_fail, some_of_ok,
}
use personal_mcp_gateway.Obsidian.Coverage.{Coverage}
use personal_mcp_gateway.Obsidian.Grep.{GrepMatch, GrepScannedCandidate}
use personal_mcp_gateway.Obsidian.Grep.Run.{
  GrepCursorState, GrepSettings, GrepRun, last_state, stop_at_last, stop_for_unfit_grep_candidate,
  with_occurrences, join_page, emit,
}
use personal_mcp_gateway.Obsidian.Grep.Fitting.{
  HasNoRoom, IsOpen, with_match, with_counted, IsCoverage, IsEmitted, IsStopped,
}

last_state-some :
    (s : GrepCursorState) (l : List GrepCursorState)
    → (t : GrepCursorState) × (last_state (s ∷ l) ≡ some t)
last_state-some s [] = (s, refl)
last_state-some s (t ∷ l) = last_state-some t l

last_state-snoc :
    (l : List GrepCursorState) (s : GrepCursorState) → last_state (l ++ s ∷ []) ≡ some s
last_state-snoc [] s = refl
last_state-snoc (x ∷ []) s = refl
last_state-snoc (x ∷ y ∷ l) s = last_state-snoc (y ∷ l) s

some_matches : (l : List GrepMatch) → is_empty l ≡ false → 0 < length l
some_matches [] e = ground (arith, e)
some_matches (m ∷ l) e = omega arith

was_true : (t : Bool) → not t ≡ false → t ≡ true
was_true true h = refl
was_true false h = ground (arith, h)

was_false : (t : Bool) → not t ≡ true → t ≡ false
was_false false h = refl
was_false true h = ground (arith, h)

module _ (c : GrepSettings) (told : Bool) (run : GrepRun) (page : IsOpen c run)
    (full : HasNoRoom c told run.matches) where
  stop_at_last-IsStopped :
      (o : Option GrepCursorState)
      → 0 < length run.matches
      → last_state run.emission_states ≡ o
      → IsStopped c told run (stop_at_last run o)
  stop_at_last-IsStopped none some_match e = tt
  stop_at_last-IsStopped (some s) some_match e = (
    record {
      aligned = page.aligned;
      within = omega (arith, page.room);
      fits = page.fits;
      stop = _;
      stop_is = refl;
      last_is = e;
      due = inr (refl, some_match, full);
    },
    refl,
    refl,
  )

  pub unfit-IsStopped : IsStopped c told run (stop_for_unfit_grep_candidate run)
  unfolding stop_for_unfit_grep_candidate
  unfit-IsStopped =
      if_lem (IsStopped c told run) (is_empty run.matches) (λ y. tt)
        (λ n.
          stop_at_last-IsStopped (last_state run.emission_states) (some_matches run.matches n) refl)

module _ (c : GrepSettings) (run : GrepRun) (candidate : GrepScannedCandidate)
    (state : GrepCursorState) (page : IsOpen c run) where
  abbrev Emitted : Outcome (Bool × GrepRun) → Type 0
  Emitted o = IsEmitted c run candidate state o

  Emitted-bind {ℓ} :
      {A : Type ℓ} (m : Outcome A) (f : A → Outcome (Bool × GrepRun))
      → ((a : A) → m ≡ ok a → Emitted (f a))
      → Emitted (m >>= f)
  Emitted-bind (ok a) f h = h a refl
  Emitted-bind (fail e) f h = tt

  module _ (coverage : Coverage) (covers : IsCoverage c run candidate state coverage) where
    IsStopped-Emitted :
        (c.output_fits (with_match run candidate) coverage ≡ false)
          ⊎ (c.output_fits (with_counted c run candidate) coverage ≡ false)
        → (o : Outcome (Bool × GrepRun)) → IsStopped c false run o
        → Emitted o
    IsStopped-Emitted over (fail e) h = tt
    IsStopped-Emitted over (ok (true, r)) h = (h.0, (coverage, covers, inr (over, h.1, h.2)))
    IsStopped-Emitted over (ok (false, r)) h = ground (arith, h.2)

    unfit-Emitted :
        (c.output_fits (with_match run candidate) coverage ≡ false)
          ⊎ (c.output_fits (with_counted c run candidate) coverage ≡ false)
        → Emitted (stop_for_unfit_grep_candidate run)
    unfit-Emitted (inl over) =
        IsStopped-Emitted (inl over) _
          (unfit-IsStopped c false run page (inl (candidate.match, coverage, over)))
    unfit-Emitted (inr over) =
        IsStopped-Emitted (inr over) _
          (unfit-IsStopped c false run page (inl (with_occurrences c candidate, coverage, over)))

    join_page-Emitted :
        c.output_fits (with_match run candidate) coverage ≡ true
        → c.output_fits (with_counted c run candidate) coverage ≡ true
        → Emitted (ok (join_page c run (with_occurrences c candidate) state))
    join_page-Emitted first second =
        let match = with_occurrences c candidate in
        let one_more = length-append run.matches (match ∷ []) in
        let states = length-append run.emission_states (state ∷ []) in
        if_lem (λ p. Emitted (ok p)) (leb c.limit (length (run.matches ++ match ∷ [])))
          (λ y.
            let full : length (run.matches ++ match ∷ []) ≡ c.limit =
              ground (arith, y, one_more, page.room) in
            (
              record {
                aligned = omega (arith, one_more, states, page.aligned);
                within = omega (arith, one_more, page.room);
                fits = inr (coverage, second);
                stop = _;
                stop_is = refl;
                last_is = last_state-snoc run.emission_states state;
                due = inl (refl, full);
              },
              (coverage, covers, inl (first, second, refl, λ b. full)),
            ))
          (λ n. (
            record {
              aligned = omega (arith, one_more, states, page.aligned);
              room = ground (arith, n);
              going = page.going;
              fits = inr (coverage, second);
            },
            (coverage, covers, inl (first, second, refl, λ b. ground (arith, b))),
          ))

-- Whatever the looks at the context, the cursors and the sizes: where `emit` returns on a page that is not
-- full, the candidate's match has joined at its end and fits there, with and without its count of occurrences,
-- with the coverage of a page that ends with it, and the page stops only at the limit; or the match does not
-- fit so, and the page stops as it was. The page has never more matches than the limit and is open only below
-- it; it fits in an output, and one that stops has the cursor of its last match, and the result limit as its
-- reason at the limit, or the response limit if one match more does not fit.
pub emit-IsEmitted :
    (c : GrepSettings) (looks : ℕ → Option Failure) (run : GrepRun)
    (candidate : GrepScannedCandidate) (state : GrepCursorState)
    → IsOpen c run
    → IsEmitted c run candidate state (emit c looks run candidate state)
unfolding emit
emit-IsEmitted c looks run candidate state page =
    let unfit = unfit-Emitted c run candidate state page in
    Emitted-bind c run candidate state page (unless_failed (looks 0)) _ (λ _ _.
      Emitted-bind c run candidate state page (c.encode_state state) _ (λ cursor encoded.
        Emitted-bind c run candidate state page (or_fail _ _) _ (λ coverage is.
          let covers : IsCoverage c run candidate state coverage = record {
            cursor = cursor;
            encoded = encoded;
            coverage_is = some_of_ok _ _ is;
          } in
          if_lem (IsEmitted c run candidate state)
            (not (c.output_fits (with_match run candidate) coverage))
            (λ y. unfit coverage covers (inl (was_false _ y)))
            (λ n. Emitted-bind c run candidate state page (unless_failed (looks 1)) _ (λ _ _.
              Emitted-bind c run candidate state page (unless_failed (looks 2)) _ (λ _ _.
                if_lem (IsEmitted c run candidate state)
                  (not (c.output_fits (with_counted c run candidate) coverage))
                  (λ y. unfit coverage covers (inr (was_false _ y)))
                  (λ k.
                    join_page-Emitted c run candidate state page coverage covers (was_true _ n)
                      (was_true _ k))))))))

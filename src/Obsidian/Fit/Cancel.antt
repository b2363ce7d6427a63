-- ===== src/Obsidian/Fit/Cancel.antt =====
-- What a context that ends does to `FitLSOutput` of internal/tools/obsidian/response_fit.go.
use personal_mcp_gateway.Base.{
  inl, inr, ℕ, suc, ◌+◌, Bytes, Bool, true, false, not, ◌&&◌, Option, none, some, List, [], ◌∷◌,
  is_empty, ◌==◌, if◌then◌else◌, ◌≡◌, ◌⊎◌, refl,
}
use personal_mcp_gateway.Obsidian.Coverage.{new_complete_coverage}
use personal_mcp_gateway.Obsidian.Outcome.{
  Failure, Outcome, ok, fail, ◌>>=◌, unless_failed, or_fail, encoding,
}
use personal_mcp_gateway.Obsidian.Fit.{
  Position, LsFitCandidate, LsFitRequest, Encoder, Look, at_start, at_end, at_size, at_prefix,
  after_cursor, Looks, Best, entry_sizes, page_coverage, best_prefix, no_coverage, finish, fit_none,
  fit_ls_output, require,
}

abbrev live : Looks
live _ = none

module _ (looks : Looks) where
  -- The same as under a live context, or what a look has found.
  abbrev pub Agrees {ℓ} : {A : Type ℓ} → Outcome A → Outcome A → Type ℓ
  Agrees m n = (m ≡ n) ⊎ ((k : Look) × (e : Failure) × (looks k ≡ some e) × (m ≡ fail e))

  Agrees-bind {ℓ κ} :
      {A : Type ℓ} {B : Type κ} (m n : Outcome A) (f g : A → Outcome B)
      → Agrees m n
      → ((a : A) → Agrees (f a) (g a))
      → Agrees (m >>= f) (n >>= g)
  Agrees-bind m (ok a) f g (inl e) h = rw e (h a)
  Agrees-bind m (fail x) f g (inl e) h = inl (rw e refl)
  Agrees-bind m n f g (inr (k, e, found, is)) h = inr (k, e, found, rw is refl)

  Agrees-look : (k : Look) → Agrees (unless_failed (looks k)) (ok tt)
  Agrees-look k = by_look (looks k) refl
    where
      by_look : (o : Option Failure) → looks k ≡ o → Agrees (unless_failed o) (ok tt)
      by_look none e = inl refl
      by_look (some x) e = inr (k, x, e, refl)

  Agrees-then {ℓ} :
      {A : Type ℓ} (k : Look) (m n : Outcome A)
      → Agrees m n
      → Agrees (unless_failed (looks k) >>= (λ _. m)) n
  Agrees-then k m n h =
      Agrees-bind (unless_failed (looks k)) (ok tt) (λ _. m) (λ _. n) (Agrees-look k) (λ _. h)

  Agrees-if {ℓ} :
      {A : Type ℓ} (b : Bool) (m : Outcome A) (x y : Outcome A)
      → Agrees x y
      → Agrees (if b then m else x) (if b then m else y)
  Agrees-if true m x y h = inl refl
  Agrees-if false m x y h = h

  entry_sizes-Agrees :
      (enc : Encoder) (i : ℕ) (l : List LsFitCandidate)
      → Agrees (entry_sizes enc looks i l) (entry_sizes enc live i l)
  unfolding entry_sizes
  entry_sizes-Agrees enc i [] = inl refl
  entry_sizes-Agrees enc i (c ∷ l) = Agrees-then (at_size i) _ _ (
      Agrees-bind (or_fail encoding (enc.entry_bytes c.entry)) _ _ _ (inl refl)
        (λ size. Agrees-bind _ _ _ _ (entry_sizes-Agrees enc (suc i) l) (λ sizes. inl refl)))

  page_coverage-Agrees :
      (cursor_for : Option (Position → Outcome Bytes)) (request : LsFitRequest) (i : ℕ)
      (c : LsFitCandidate) (last : Bool)
      → Agrees
          (page_coverage looks cursor_for request i c last)
          (page_coverage live cursor_for request i c last)
  unfolding page_coverage
  page_coverage-Agrees none request i c last = inl refl
  page_coverage-Agrees (some cursor_of) request i c last =
      Agrees-if (last && not request.has_more) (ok (new_complete_coverage request.work)) _ _ (
        Agrees-bind (cursor_of c.position) _ _ _ (inl refl)
          (λ cursor. Agrees-then (after_cursor i) _ _ (inl refl)))

  best_prefix-Agrees :
      (enc : Encoder) (cursor_for : Option (Position → Outcome Bytes)) (request : LsFitRequest)
      (i before : ℕ) (best : Best) (l : List LsFitCandidate) (sizes : List ℕ)
      → Agrees
          (best_prefix enc looks cursor_for request i before best l sizes)
          (best_prefix enc live cursor_for request i before best l sizes)
  unfolding best_prefix
  best_prefix-Agrees enc cursor_for request i before best [] sizes = inl refl
  best_prefix-Agrees enc cursor_for request i before best (c ∷ l) [] = inl refl
  best_prefix-Agrees enc cursor_for request i before best (c ∷ l) (size ∷ sizes) =
      Agrees-then (at_prefix i) _ _ (
        Agrees-bind _ _ _ _ (page_coverage-Agrees cursor_for request i c (is_empty l)) (λ coverage.
          Agrees-bind (or_fail encoding _) _ _ _ (inl refl)
            (λ one. best_prefix-Agrees enc cursor_for request (suc i) (before + size) _ l sizes)))

  finish-Agrees :
      (enc : Encoder) (request : LsFitRequest) (best : Best)
      → Agrees (finish enc looks request best) (finish enc live request best)
  finish-Agrees enc request best =
      Agrees-bind (require (not (best.count == 0))) _ _ _ (inl refl)
        (λ _. Agrees-then at_end _ _ (inl refl))

  -- Whatever the looks at the context find, and whatever the encoder and the cursors do: `FitLSOutput`
  -- returns what it returns under a context that stays live, or it fails with what one of the looks has
  -- found. It never returns another page because time is short.
  pub fit_ls_output-Agrees :
      (enc : Encoder) (cursor_for : Option (Position → Outcome Bytes)) (request : LsFitRequest)
      → Agrees
          (fit_ls_output enc looks cursor_for request)
          (fit_ls_output enc (λ _. none) cursor_for request)
  unfolding fit_ls_output
  fit_ls_output-Agrees enc cursor_for request = Agrees-then at_start _ _ (
      Agrees-if (is_empty request.candidates) (fit_none enc request) _ _ (
        Agrees-bind _ _ _ _ (entry_sizes-Agrees enc 0 request.candidates) (λ sizes.
          Agrees-bind _ _ _ _
            (best_prefix-Agrees enc cursor_for request 0 0
              (record { count = 0; coverage = no_coverage }) request.candidates sizes)
            (λ best. finish-Agrees enc request best))))

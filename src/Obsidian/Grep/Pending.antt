-- ===== src/Obsidian/Grep/Pending.antt =====
-- The candidates of `scan` of internal/tools/obsidian/grep_concurrent.go that wait for lines, and what they
-- become.
use personal_mcp_gateway.Base.{
  ℕ, zero, suc, ◌-◌, ◌≤◌, ◌<◌, Bool, true, false, Option, none, some, List, [], ◌∷◌, ◌++◌, map,
  length, take, drop, last_of, ◌==◌, if◌then◌else◌, ◌≡◌, refl, sym, ap, ap₂, ◌∙◌, arith, inl, inr,
  append_assoc, append-nil, length-append, length-drop, drop-append, drop-all, drop_one, Bool-cases,
  subst,
}
use personal_mcp_gateway.Obsidian.Grep.{
  GrepLine, GrepMatchEvidence, GrepContextLine, GrepMatch, GrepCheckpointCoords,
  GrepScannedCandidate, GrepScanEvent, candidate_event, full_event, GrepQuery, append_grep_ring,
  grep_resume_context,
}
use personal_mcp_gateway.Obsidian.Grep.Scan.{
  GrepJob, with_line, ready, waiting, retry_of, coords_after, send_all,
}

-- A match and where a search goes on after it.
pub record Found : Type 0 where
  pub match : GrepMatch
  pub emission : GrepCheckpointCoords
  pub retry : GrepCheckpointCoords

-- What is found in a line: the lines before it and after it are its context.
abbrev pub found_at :
    GrepQuery → GrepJob → List GrepLine → GrepLine → List GrepLine → GrepMatchEvidence → Found
found_at q job seen line rest evidence =
    let before = last_of q.context_lines seen in
    record {
      match = record {
        path = job.output_path;
        line = line.number;
        evidence = evidence;
        before = map q.context_evidence before;
        after = map q.context_evidence (take q.context_lines rest);
        fingerprint = job.fingerprint;
      };
      emission = coords_after line (grep_resume_context before line q.context_lines);
      retry = retry_of before line;
    }

abbrev pub if_found :
    GrepQuery
    → GrepJob
    → List GrepLine
    → GrepLine
    → List GrepLine
    → Option GrepMatchEvidence
    → List Found
if_found q job seen line rest none = []
if_found q job seen line rest (some evidence) = found_at q job seen line rest evidence ∷ []

-- Line by line, with the lines seen before.
abbrev pub expected : GrepQuery → GrepJob → List GrepLine → List GrepLine → List Found
expected q job seen [] = []
expected q job seen (line ∷ rest) =
    if_found q job seen line rest (q.match_evidence line) ++ expected q job (seen ++ line ∷ []) rest

-- The candidates of a scan that ends with the whole file, none if it ends otherwise.
abbrev pub push : Found → Option (List Found) → Option (List Found)
push f none = none
push f (some l) = some (f ∷ l)

abbrev pub of_candidate : GrepScannedCandidate → Found
of_candidate c = record { match = c.match; emission = c.emission; retry = c.retry }

abbrev pub completed : List GrepScanEvent → Option (List Found)
completed (full_event _ ∷ []) = some []
completed (candidate_event _ c ∷ l) = push (of_candidate c) (completed l)
completed _ = none

-- A candidate with the lines that it still waits for.
abbrev pub filled : GrepQuery → List GrepLine → GrepScannedCandidate → Found
filled q rest c = record {
  match = record (c.match) {
    after = c.match.after ++ map q.context_evidence (take c.remaining rest);
  };
  emission = c.emission;
  retry = c.retry;
}

abbrev pub prepend : List Found → Option (List Found) → Option (List Found)
prepend [] o = o
prepend (f ∷ l) o = push f (prepend l o)

pub completed-send_all :
    (n : ℕ) (l : List GrepScannedCandidate) (r : List GrepScanEvent)
    → completed (send_all n l ++ r) ≡ prepend (map of_candidate l) (completed r)
completed-send_all n [] r = refl
completed-send_all n (c ∷ l) r = ap (push (of_candidate c)) (completed-send_all n l r)

pub same_drop : (m n : ℕ) (l : List GrepLine) → m ≡ n → drop m l ≡ drop n l
same_drop m n l e = ap (λ k. drop k l) e

pub last_of-all : (c : ℕ) (seen : List GrepLine) → length seen ≤ c → last_of c seen ≡ seen
last_of-all c seen h = same_drop (length seen - c) 0 seen (omega (arith, h))

last_of-push :
    (c : ℕ) (seen : List GrepLine) (line : GrepLine)
    → suc c ≤ length seen
    → drop 1 (last_of (suc c) seen) ++ line ∷ [] ≡ last_of (suc c) (seen ++ line ∷ [])
last_of-push c seen line h =
    ap (λ l. l ++ line ∷ []) (drop_one (length seen - suc c) seen)
    ∙ sym (drop-append (suc (length seen - suc c)) seen (line ∷ []) (omega (arith, h)))
    ∙ same_drop (suc (length seen - suc c)) (length (seen ++ line ∷ []) - suc c) (seen ++ line ∷ [])
        (omega (arith, h, length-append seen (line ∷ [])))

pub last_of-zero : (seen : List GrepLine) → last_of 0 seen ≡ []
last_of-zero seen = same_drop (length seen - 0) (length seen) seen (omega arith) ∙ drop-all seen

pub last_of-nil : (c : ℕ) → last_of {A = GrepLine} c [] ≡ []
last_of-nil c = last_of-all c [] (omega arith)

-- The ring holds the last lines.
pub ring-last_of :
    (c : ℕ) (seen : List GrepLine) (line : GrepLine)
    → append_grep_ring (last_of c seen) line c ≡ last_of c (seen ++ line ∷ [])
ring-last_of zero seen line = sym (last_of-zero (seen ++ line ∷ []))
ring-last_of (suc c) seen line =
    let size = length-drop (length seen - suc c) seen in
    let some_room : (suc c == 0) ≡ false = ground arith in
    rw some_room (elim (Bool-cases (length (last_of (suc c) seen) == suc c)) [
      | inl y ↦ rw y (last_of-push c seen line (ground (arith, size, y)))
      | inr n ↦ rw n (
          ap (λ l. l ++ line ∷ []) (last_of-all (suc c) seen (ground (arith, size, n)))
          ∙ sym (
              last_of-all (suc c) (seen ++ line ∷ [])
                (ground (arith, size, n, length-append seen (line ∷ [])))))
    ])

pub prepend-some : (l : List Found) (r : List Found) → prepend l (some r) ≡ some (l ++ r)
prepend-some [] r = refl
prepend-some (f ∷ l) r = ap (push f) (prepend-some l r)

pub map-append {ℓ κ} :
    {A : Type ℓ} {B : Type κ} (f : A → B) (l r : List A) → map f (l ++ r) ≡ map f l ++ map f r
map-append f [] r = refl
map-append f (x ∷ l) r = ap (λ t. f x ∷ t) (map-append f l r)

pub take-nil : (n : ℕ) → take {A = GrepLine} n [] ≡ []
take-nil zero = refl
take-nil (suc n) = refl

with_after : GrepScannedCandidate → List GrepContextLine → Found
with_after c after = record {
  match = record (c.match) { after = after };
  emission = c.emission;
  retry = c.retry;
}

-- Where no line follows.
pub filled-nil : (q : GrepQuery) (c : GrepScannedCandidate) → filled q [] c ≡ of_candidate c
unfolding with_after
filled-nil q c =
    ap (λ l. with_after c (c.match.after ++ map q.context_evidence l)) (take-nil c.remaining)
    ∙ ap (with_after c) (append-nil c.match.after)

module _ (q : GrepQuery) (rest : List GrepLine) where
  -- A candidate that waits for nothing is as it is.
  filled-done : (c : GrepScannedCandidate) → c.remaining ≡ 0 → filled q rest c ≡ of_candidate c
  unfolding with_after
  filled-done c h =
      ap (λ n. with_after c (c.match.after ++ map q.context_evidence (take n rest))) h
      ∙ ap (with_after c) (append-nil c.match.after)

  pub filled-split :
      (l : List GrepScannedCandidate)
      → map of_candidate (ready l) ++ map (filled q rest) (waiting l) ≡ map (filled q rest) l
  filled-split [] = refl
  filled-split (c ∷ l) = elim (Bool-cases (c.remaining == 0)) [
    | inl y ↦ rw y (ap₂ ◌∷◌ (sym (filled-done c (ground (arith, y)))) (filled-split l))
    | inr n ↦ rw n refl
  ]

  pub filled-end :
      (b : Bool) (l : List GrepScannedCandidate)
      → map of_candidate (if b then ready l else [])
          ++ map (filled q rest) (if b then waiting l else l)
        ≡ map (filled q rest) l
  filled-end true l = filled-split l
  filled-end false l = refl

  filled-line :
      (line : GrepLine) (c : GrepScannedCandidate) (k : ℕ)
      → c.remaining ≡ suc k
      → filled q rest (with_line q line c) ≡ filled q (line ∷ rest) c
  unfolding with_after
  filled-line line c k h =
      let context = q.context_evidence in
      ap (λ n. with_after c ((c.match.after ++ context line ∷ []) ++ map context (take n rest)))
        (minus_one c.remaining k h)
      ∙ ap (with_after c)
          (append_assoc c.match.after (context line ∷ []) (map context (take k rest)))
      ∙ ap (λ n. with_after c (c.match.after ++ map context (take n (line ∷ rest)))) (sym h)
    where
      minus_one : (m k : ℕ) → m ≡ suc k → m - 1 ≡ k
      minus_one m k h = omega (arith, h)

-- Candidates wait for more and more lines, none for more than `hi`.
abbrev pub Rising : ℕ → ℕ → List GrepScannedCandidate → Type 0
Rising lo hi [] = Unit
Rising lo hi (c ∷ l) = (lo < c.remaining) × (c.remaining ≤ hi) × Rising c.remaining hi l

Rising-waiting : (hi : ℕ) (l : List GrepScannedCandidate) → Rising 0 hi l → waiting l ≡ l
Rising-waiting hi [] h = refl
Rising-waiting hi (c ∷ l) h =
    let some : (c.remaining == 0) ≡ false = ground (arith, h.0) in rw some refl

Rising-aged :
    (q : GrepQuery) (line : GrepLine) (lo hi : ℕ) (l : List GrepScannedCandidate)
    → Rising (suc lo) hi l
    → Rising lo (hi - 1) (map (with_line q line) l)
Rising-aged q line lo hi [] h = tt
Rising-aged q line lo hi (c ∷ l) (low, high, more) =
    let one_less : c.remaining ≡ suc (c.remaining - 1) = omega (arith, low) in
    (
      omega (arith, low),
      omega (arith, low, high),
      Rising-aged q line (c.remaining - 1) hi l (subst (λ n. Rising n hi l) one_less more),
    )

-- After a line the candidates that still wait wait for at least one line more.
pub Rising-next :
    (q : GrepQuery) (line : GrepLine) (hi : ℕ) (l : List GrepScannedCandidate)
    → Rising 0 hi l
    → Rising 0 (hi - 1) (waiting (map (with_line q line) l))
Rising-next q line hi [] h = tt
Rising-next q line hi (c ∷ l) (low, high, more) =
    let one_less : c.remaining ≡ suc (c.remaining - 1) = omega (arith, low) in
    let tail =
      Rising-aged q line (c.remaining - 1) hi l (subst (λ n. Rising n hi l) one_less more) in
    elim (Bool-cases (c.remaining - 1 == 0)) [
      | inl y ↦
          let none_left : c.remaining - 1 ≡ 0 = ground (arith, y) in
          rw y (
            let from_zero =
              subst (λ n. Rising n (hi - 1) (map (with_line q line) l)) none_left tail in
            subst (Rising 0 (hi - 1))
              (sym (Rising-waiting (hi - 1) (map (with_line q line) l) from_zero)) from_zero)
      | inr n ↦ rw n (ground (arith, n), omega (arith, low, high), tail)
    ]

pub Rising-snoc :
    (lo hi : ℕ) (l : List GrepScannedCandidate) (c : GrepScannedCandidate)
    → lo ≤ hi
    → Rising lo hi l
    → c.remaining ≡ suc hi
    → Rising lo (suc hi) (l ++ c ∷ [])
Rising-snoc lo hi [] c k h e = (omega (arith, k, e), omega (arith, e), tt)
Rising-snoc lo hi (x ∷ l) c k (low, high, more) e =
    (low, omega (arith, high), Rising-snoc x.remaining hi l c high more e)

pub Rising-more :
    (lo hi : ℕ) (l : List GrepScannedCandidate) → Rising lo hi l → Rising lo (suc hi) l
Rising-more lo hi [] h = tt
Rising-more lo hi (x ∷ l) (low, high, more) =
    (low, omega (arith, high), Rising-more x.remaining hi l more)

pub filled-lines :
    (q : GrepQuery) (rest : List GrepLine) (line : GrepLine) (lo hi : ℕ)
    (l : List GrepScannedCandidate)
    → Rising lo hi l
    → map (filled q rest) (map (with_line q line) l) ≡ map (filled q (line ∷ rest)) l
filled-lines q rest line lo hi [] h = refl
filled-lines q rest line lo hi (c ∷ l) (low, high, more) =
    ap₂ ◌∷◌ (filled-line q rest line c (c.remaining - 1) (omega (arith, low)))
      (filled-lines q rest line c.remaining hi l more)

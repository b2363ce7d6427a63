-- ===== src/Obsidian/Grep/Resume.antt =====
-- A search that internal/tools/obsidian/grep_concurrent.go resumes in the middle of a file.
use personal_mcp_gateway.Base.{
  ℕ, ◌+◌, ◌≤◌, ◌<◌, true, false, List, [], ◌∷◌, ◌++◌, last_of, All, ltb, if◌then◌else◌, ◌≡◌, refl,
  sym, ap, ◌∙◌, arith, append_assoc, append-nil, subst,
}
use personal_mcp_gateway.Obsidian.Grep.{GrepLine, GrepQuery, append_grep_ring}
use personal_mcp_gateway.Obsidian.Grep.Scan.{
  eof, GrepJob, GrepScanState, scan_line, scan_loop, after_step, goes_on,
}
use personal_mcp_gateway.Obsidian.Grep.Pending.{ring-last_of}
use personal_mcp_gateway.Obsidian.Grep.Matches.{IsPlain, lines, Follows}

-- The lines of a file from an offset on: each is not empty and begins where the one before it ends.
abbrev pub IsFile : ℕ → List GrepLine → Type 0
IsFile offset [] = Unit
IsFile offset (l ∷ r) = (l.start ≡ offset) × (l.start < l.stop) × IsFile l.stop r

-- What a reader that begins at an offset gives.
abbrev pub from : ℕ → List GrepLine → List GrepLine
from offset [] = []
from offset (l ∷ r) = let later = from offset r in if ltb l.start offset then later else l ∷ r

abbrev pub IsBelow : ℕ → GrepLine → Type 0
IsBelow offset l = ltb l.start offset ≡ true

pub from-append :
    (offset : ℕ) (l r : List GrepLine)
    → All (IsBelow offset) l
    → from offset (l ++ r) ≡ from offset r
from-append offset [] r h = refl
from-append offset (x ∷ l) r h = rw h.0 (from-append offset l r h.1)

pub from-here : (offset : ℕ) (l : List GrepLine) → IsFile offset l → from offset l ≡ l
from-here offset [] h = refl
from-here offset (x ∷ l) h =
    let here : ltb x.start offset ≡ false = ground (arith, h.0) in rw here refl

IsFile-later :
    (offset : ℕ) (l : List GrepLine) (b : GrepLine) (r : List GrepLine)
    → IsFile offset (l ++ b ∷ r)
    → offset ≤ b.start
IsFile-later offset [] b r h = omega (arith, h.0)
IsFile-later offset (x ∷ l) b r h = omega (arith, h.0, h.1, IsFile-later x.stop l b r h.2)

-- The lines before a line begin before it.
pub IsBelow-before :
    (offset : ℕ) (l : List GrepLine) (b : GrepLine) (r : List GrepLine) (limit : ℕ)
    → IsFile offset (l ++ b ∷ r)
    → b.start ≤ limit
    → All (IsBelow limit) l
IsBelow-before offset [] b r limit h k = tt
IsBelow-before offset (x ∷ l) b r limit h k =
    (ground (arith, h.1, IsFile-later x.stop l b r h.2, k), IsBelow-before x.stop l b r limit h.2 k)

pub IsFile-at :
    (offset : ℕ) (l r : List GrepLine) (b : GrepLine)
    → IsFile offset (l ++ b ∷ r)
    → IsFile b.start (b ∷ r)
IsFile-at offset [] r b h = (refl, h.1, h.2)
IsFile-at offset (x ∷ l) r b h = IsFile-at x.stop l r b h.2

pub IsFile-after :
    (offset : ℕ) (l r : List GrepLine) (b : GrepLine) → IsFile offset (l ++ b ∷ r) → IsFile b.stop r
IsFile-after offset l r b h = (IsFile-at offset l r b h).2

pub Follows-All :
    (q : GrepQuery) (job : GrepJob) (limit offset : ℕ) (l : List GrepLine)
    → IsFile offset l
    → limit ≤ offset
    → All (Follows q job limit) l
Follows-All q job limit offset [] h k = tt
Follows-All q job limit offset (x ∷ l) h k =
    (ground (arith, h.0, k), Follows-All q job limit x.stop l h.2 (omega (arith, h.0, h.1, k)))

cons_inj : (x y : GrepLine) (l r : List GrepLine) → x ∷ l ≡ y ∷ r → (x ≡ y) × (l ≡ r)
cons_inj x y l r e = ground (arith, e)

module _ (q : GrepQuery) (job : GrepJob) (resume bytes : ℕ) where
  -- What a scan comes to after the lines before its place.
  pub record Skipped (s : GrepScanState) (reads : List (ℕ × GrepLine)) (seen rest : List GrepLine)
      : Type 0 where
    pub later : List (ℕ × GrepLine)
    pub state : GrepScanState
    pub later_is : lines later ≡ rest
    pub goes :
        scan_loop q job resume s reads (bytes, eof)
        ≡ scan_loop q job resume state later (bytes, eof)
    pub ring : state.before ≡ last_of q.context_lines seen
    pub pending_is : state.pending ≡ s.pending
    pub advanced_is : state.advanced ≡ s.advanced

  scan_line-skip :
      (s : GrepScanState) (n : ℕ) (line : GrepLine)
      → IsPlain q line
      → IsBelow resume line
      → scan_line q job resume s n line
        ≡ goes_on []
            (record s { before = append_grep_ring s.before line q.context_lines; consumed = n })
  unfolding scan_line
  scan_line-skip s n line plain below = rw plain.valid (rw below refl)

  pub skip :
      (a b : List GrepLine) (reads : List (ℕ × GrepLine)) (seen : List GrepLine) (s : GrepScanState)
      → lines reads ≡ a ++ b
      → All (IsPlain q) a
      → All (IsBelow resume) a
      → s.before ≡ last_of q.context_lines seen
      → Skipped s reads (seen ++ a) b
  unfolding scan_loop
  skip [] b reads seen s e plain below ring = record {
    later = reads;
    state = s;
    later_is = e;
    goes = refl;
    ring = ring ∙ ap (last_of q.context_lines) (sym (append-nil seen));
    pending_is = refl;
    advanced_is = refl;
  }
  skip (x ∷ a) b [] seen s e plain below ring = absurd cc
  skip (x ∷ a) b ((size, line) ∷ reads) seen s e plain below ring =
      let (same, tail) = cons_inj line x (lines reads) (a ++ b) e in
      let n = s.consumed + size in
      let t : GrepScanState = record s {
        before = append_grep_ring s.before line q.context_lines;
        consumed = n;
      } in
      let more = skip a b reads (seen ++ line ∷ []) t tail plain.1 below.1 (
        ap (λ l. append_grep_ring l line q.context_lines) ring
        ∙ ring-last_of q.context_lines seen line) in
      let step =
        scan_line-skip s n line (subst (IsPlain q) (sym same) plain.0)
          (subst (IsBelow resume) (sym same) below.0) in
      record {
        later = more.later;
        state = more.state;
        later_is = more.later_is;
        goes =
            ap (λ step. after_step step (λ u. scan_loop q job resume u reads (bytes, eof))) step
            ∙ more.goes;
        ring =
            more.ring
            ∙ ap (last_of q.context_lines)
                (append_assoc seen (line ∷ []) a ∙ ap (λ y. seen ++ y ∷ a) same);
        pending_is = more.pending_is;
        advanced_is = more.advanced_is;
      }

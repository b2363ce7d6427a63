-- ===== src/Obsidian/Grep/Walk/Vouched.antt =====
-- internal/tools/obsidian/grep_concurrent.go: what a search that resumes a cursor has checked before it reads
-- a file.
use personal_mcp_gateway.Base.{
  Bytes, Bool, true, false, not, ◌||◌, Option, none, some, List, [], ◌∷◌, bytes_eq, bytes_eq_iff,
  ◌≡◌, inl, inr, refl, sym, ap, subst, ◌∙◌, arith, if◌then◌else◌, if_lem, or_parts,
}
use personal_mcp_gateway.Obsidian.Outcome.{Failure}
use personal_mcp_gateway.Obsidian.Grep.Run.{GrepPartialCursor, GrepCursorState, GrepSettings}
use personal_mcp_gateway.Obsidian.Grep.Reduce.{Order, less, same, more, compare_grep_position}
use personal_mcp_gateway.Obsidian.Grep.Walk.{
  OpenedFile, opened, not_opened, WalkFile, GrepWalk, Visited, goes_past, is_markdown_path,
  expected_prefix, is_more, is_less, validated, extended, seen, at_boundary, visit_source,
  visit_with, visit_live, visit, Walked, at_end, begins, stopped, and_walk, walk_files,
}
use personal_mcp_gateway.Obsidian.Grep.Walk.Unchanged.{
  digest_of, with_file, IsBefore, HasPrint, IsUnchanged, IsVouched, IsWalked,
}

was_true : (t : Bool) → not t ≡ false → t ≡ true
was_true true h = refl
was_true false h = ground (arith, h)

was_false : (t : Bool) → not t ≡ true → t ≡ false
was_false false h = refl
was_false true h = ground (arith, h)

by_order : (o : Order) → is_more o ≡ false → is_less o ≡ false → o ≡ same
by_order same h k = refl
by_order less h k = ground (arith, k)
by_order more h k = ground (arith, h)

less_is : (o : Order) → is_less o ≡ true → o ≡ less
less_is less h = refl
less_is same h = ground (arith, h)
less_is more h = ground (arith, h)

IsVouched-IsWalked :
    (c : GrepSettings) (r : GrepCursorState) (prefix : Bytes) (files : List WalkFile)
    → IsVouched c r prefix files
    → (x : Walked) → IsWalked c r prefix files x
IsVouched-IsWalked c r prefix files h (begins _ _ _ _) = h
IsVouched-IsWalked c r prefix files h (at_end w) = inr h
IsVouched-IsWalked c r prefix files h (stopped _ _) = tt

IsUnchanged-cons :
    (c : GrepSettings) (r : GrepCursorState) (prefix : Bytes) (f : WalkFile)
    (before : List WalkFile) (boundary : WalkFile) (partial : Option GrepPartialCursor)
    → IsUnchanged c r (with_file c prefix f) before boundary partial
    → IsUnchanged c r prefix (f ∷ before) boundary partial
IsUnchanged-cons c r prefix f before boundary none h = h
IsUnchanged-cons c r prefix f before boundary (some p) h = h

IsVouched-cons :
    (c : GrepSettings) (r : GrepCursorState) (prefix : Bytes) (f : WalkFile) (files : List WalkFile)
    → IsBefore r f
    → IsVouched c r (with_file c prefix f) files
    → IsVouched c r prefix (f ∷ files)
IsVouched-cons c r prefix f files past h = record {
  before = f ∷ h.before;
  boundary = h.boundary;
  after = h.after;
  parts = ap (λ l. f ∷ l) h.parts;
  all_before = (past, h.all_before);
  is_boundary = h.is_boundary;
  unchanged = IsUnchanged-cons c r prefix f h.before h.boundary r.partial h.unchanged;
}

IsWalked-cons :
    (c : GrepSettings) (r : GrepCursorState) (prefix : Bytes) (f : WalkFile) (files : List WalkFile)
    → IsBefore r f
    → (x : Walked) → IsWalked c r (with_file c prefix f) files x
    → IsWalked c r prefix (f ∷ files) x
IsWalked-cons c r prefix f files past (begins _ _ _ _) h = IsVouched-cons c r prefix f files past h
IsWalked-cons c r prefix f files past (at_end w) (inl h) = inl h
IsWalked-cons c r prefix f files past (at_end w) (inr h) =
    inr (IsVouched-cons c r prefix f files past h)
IsWalked-cons c r prefix f files past (stopped _ _) h = tt

with_file-skip :
    (c : GrepSettings) (prefix : Bytes) (f : WalkFile)
    → is_markdown_path f.rel ≡ false
    → with_file c prefix f ≡ prefix
with_file-skip c prefix f n = ap (λ t. if t then digest_of c prefix f f.source else prefix) n

with_file-note :
    (c : GrepSettings) (prefix fingerprint : Bytes) (f : WalkFile)
    → is_markdown_path f.rel ≡ true
    → f.source ≡ opened fingerprint
    → with_file c prefix f ≡ c.extend_prefix prefix f.position fingerprint
with_file-note c prefix fingerprint f y e =
    ap (λ t. if t then digest_of c prefix f f.source else prefix) y ∙ ap (digest_of c prefix f) e

-- What the walk of the files after this one shows.
abbrev Rest : GrepSettings → GrepCursorState → List WalkFile → (GrepWalk → Walked) → Type 0
Rest c r files next =
    (w : GrepWalk) → w.boundary_seen ≡ false → IsWalked c r w.run.prefix files (next w)

module _ (c : GrepSettings) (r : GrepCursorState) (w : GrepWalk) (f : WalkFile)
    (files : List WalkFile) (next : GrepWalk → Walked) (unseen : w.boundary_seen ≡ false)
    (rest : Rest c r files next) where
  abbrev Good : Visited → Type 0
  Good v = IsWalked c r w.run.prefix (f ∷ files) (and_walk v f files next)

  module _ (note : is_markdown_path f.rel ≡ true) (fingerprint : Bytes)
      (source_is : f.source ≡ opened fingerprint) where
    IsVouched-here :
        compare_grep_position f.position r.boundary ≡ same
        → IsUnchanged c r w.run.prefix [] f r.partial
        → IsVouched c r w.run.prefix (f ∷ files)
    IsVouched-here at same_source = record {
      before = [];
      boundary = f;
      after = files;
      parts = refl;
      all_before = tt;
      is_boundary = at;
      unchanged = same_source;
    }

    extended-Good :
        compare_grep_position f.position r.boundary ≡ less
        → Good (goes_past (extended c (validated w) f fingerprint))
    extended-Good past = IsWalked-cons c r w.run.prefix f files (inr past) _ (
        subst (λ p. IsWalked c r p files (next (extended c (validated w) f fingerprint)))
          (sym (with_file-note c w.run.prefix fingerprint f note source_is))
          (rest (extended c (validated w) f fingerprint) unseen))

    at_boundary-Good :
        compare_grep_position f.position r.boundary ≡ same
        → (partial : Option GrepPartialCursor) → r.partial ≡ partial
        → Good (at_boundary c r (seen (validated w)) f fingerprint partial)
    at_boundary-Good at none e =
        if_lem Good
          (not (bytes_eq (c.extend_prefix w.run.prefix f.position fingerprint) (expected_prefix r)))
          (λ y. tt)
          (λ n.
            IsVouched-IsWalked c r w.run.prefix (f ∷ files)
              (IsVouched-here at (
                subst (IsUnchanged c r w.run.prefix [] f) (sym e) (
                  with_file-note c w.run.prefix fingerprint f note source_is
                  ∙ (bytes_eq_iff _ _).0 (was_true _ n))))
              _)
    at_boundary-Good at (some partial) e =
        if_lem Good
          (not (bytes_eq w.run.prefix (expected_prefix r))
            || not (bytes_eq (c.encode_digest fingerprint) partial.fingerprint))
          (λ y. tt)
          (λ n.
            let both = or_parts _ _ n in
            IsVouched-here at (
              subst (IsUnchanged c r w.run.prefix [] f) (sym e) (
                (bytes_eq_iff _ _).0 (was_true _ both.0),
                subst (λ o. HasPrint c o partial.fingerprint) (sym source_is)
                    ((bytes_eq_iff _ _).0 (was_true _ both.1)),
              )))

  module _ (note : is_markdown_path f.rel ≡ true) where
    visit_source-Good :
        is_more (compare_grep_position f.position r.boundary) ≡ false
        → (o : OpenedFile) → f.source ≡ o
        → Good (visit_source c r w f o)
    visit_source-Good m (not_opened e) s = tt
    visit_source-Good m (opened fingerprint) s =
        if_lem Good (is_less (compare_grep_position f.position r.boundary))
          (λ y. extended-Good note fingerprint s (less_is _ y))
          (λ n. at_boundary-Good note fingerprint s (by_order _ m n) r.partial refl)

    visit_with-Good : Good (visit_with c (some r) w f)
    visit_with-Good =
        if_lem Good (not w.boundary_seen)
          (λ y.
            if_lem Good (is_more (compare_grep_position f.position r.boundary)) (λ k. tt)
              (λ m. visit_source-Good m f.source refl))
          (λ n. absurd (ground (arith, n, unseen)))

    visit_live-Good : c.resume ≡ some r → (ended : Option Failure) → Good (visit_live c w f ended)
    visit_live-Good resumed none =
        subst (λ o. Good (visit_with c o w f)) (sym resumed) visit_with-Good
    visit_live-Good resumed (some e) = tt

  visit-Good : c.resume ≡ some r → Good (visit c w f)
  visit-Good resumed =
      if_lem Good (not (is_markdown_path f.rel))
        (λ y.
          let skipped = was_false (is_markdown_path f.rel) y in
          IsWalked-cons c r w.run.prefix f files (inl skipped) _ (
            subst (λ p. IsWalked c r p files (next w))
              (sym (with_file-skip c w.run.prefix f skipped)) (rest w unseen)))
        (λ n. visit_live-Good (was_true _ n) resumed f.ended)

-- Whatever the files that the walk meets and whatever can be opened: a search that resumes a cursor calls
-- `schedule` for a first file only if one of the files stands where the cursor says and all notes before it
-- come earlier by the order of positions, and the notes that the cursor has left behind, that one with them if
-- it was read to its end, have the digest of the cursor by their positions and fingerprints; a note that was
-- left half read has the fingerprint of the cursor. A walk that comes to its end without an error has not seen
-- the boundary, or the same holds.
pub walk_files-IsWalked :
    (c : GrepSettings) (r : GrepCursorState) (w : GrepWalk) (files : List WalkFile)
    → c.resume ≡ some r
    → w.boundary_seen ≡ false
    → IsWalked c r w.run.prefix files (walk_files c w files)
unfolding walk_files
walk_files-IsWalked c r w [] resumed unseen = inl unseen
walk_files-IsWalked c r w (f ∷ files) resumed unseen =
    visit-Good c r w f files (λ v. walk_files c v files) unseen
      (λ v still. walk_files-IsWalked c r v files resumed still) resumed

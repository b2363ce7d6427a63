-- ===== src/Obsidian/Grep/Reduced.antt =====
-- internal/tools/obsidian/grep_concurrent.go: what `reduceOldest` may leave of a page.
use personal_mcp_gateway.Base.{
  ◌<◌, Bool, true, false, ◌||◌, Option, none, some, List, [], ◌∷◌, length, ◌≡◌, ◌⊎◌, inl, inr,
}
use personal_mcp_gateway.Obsidian.Coverage.{byte_limit}
use personal_mcp_gateway.Obsidian.Grep.{GrepMatch, GrepScanEvent, unfit_event}
use personal_mcp_gateway.Obsidian.Grep.Run.{
  GrepPartialCursor, GrepCursorState, GrepSettings, GrepRun,
}
use personal_mcp_gateway.Obsidian.Grep.Fitting.{HasFit, HasNoRoom, IsOpen, IsClosed}
use personal_mcp_gateway.Obsidian.Grep.Reduce.{
  same, more, compare_grep_position, Reduced, goes_on, done, failed,
}

-- What is read of a file that an earlier page cut at `old`: its end, or a later place in it.
abbrev pub IsFurther : Option GrepPartialCursor → Option GrepPartialCursor → Type 0
IsFurther none new = ⊥
IsFurther (some old) none = Unit
IsFurther (some old) (some new) = old.at.resume_offset < new.at.resume_offset

-- A state strictly after the one that the page resumes: in a later file, or further in the same file.
abbrev pub IsAfter : Option GrepCursorState → GrepCursorState → Type 0
IsAfter none state = Unit
IsAfter (some old) state =
    (compare_grep_position state.boundary old.boundary ≡ more)
    ⊎ (compare_grep_position state.boundary old.boundary ≡ same)
      × IsFurther old.partial state.partial

-- A page that is cut because the bytes that it may read are spent.
pub record IsCut (c : GrepSettings) (run : GrepRun) : Type 0 where
  pub room : length run.matches < c.limit
  pub fits : HasFit c run.matches
  pub state : GrepCursorState
  pub stop_is : run.stop ≡ some (record { reason = byte_limit; state = state })
  pub after : IsAfter c.resume state

-- Whether the scan has said of one of its candidates that it does not fit in an output.
abbrev pub is_unfit : GrepScanEvent → Bool
is_unfit (unfit_event _) = true
is_unfit _ = false

abbrev pub has_unfit : List GrepScanEvent → Bool
has_unfit [] = false
has_unfit (event ∷ events) = is_unfit event || has_unfit events

-- Where no error is returned.
abbrev pub IsReduced : GrepSettings → Bool → Reduced → Type 0
IsReduced c told (goes_on _ run) = IsOpen c run
IsReduced c told (done run) = IsOpen c run ⊎ IsClosed c told run ⊎ IsCut c run
IsReduced c told (failed _ run) = Unit

HasNoRoom-told :
    (c : GrepSettings) (t u : Bool) (matches : List GrepMatch)
    → (t ≡ true → u ≡ true)
    → HasNoRoom c t matches
    → HasNoRoom c u matches
HasNoRoom-told c t u matches h (inl over) = inl over
HasNoRoom-told c t u matches h (inr told) = inr (h told)

pub IsClosed-told :
    (c : GrepSettings) (t u : Bool) (run : GrepRun)
    → (t ≡ true → u ≡ true)
    → IsClosed c t run
    → IsClosed c u run
IsClosed-told c t u run h page = record {
  aligned = page.aligned;
  within = page.within;
  fits = page.fits;
  stop = page.stop;
  stop_is = page.stop_is;
  last_is = page.last_is;
  due = elim page.due [
    | inl limit ↦ inl limit
    | inr (reason, some_match, full) ↦
        inr (reason, some_match, HasNoRoom-told c t u run.matches h full)
  ];
}

pub IsReduced-told :
    (c : GrepSettings) (t u : Bool) (x : Reduced)
    → (t ≡ true → u ≡ true)
    → IsReduced c t x
    → IsReduced c u x
IsReduced-told c t u (goes_on _ run) h page = page
IsReduced-told c t u (done run) h (inl page) = inl page
IsReduced-told c t u (done run) h (inr (inl page)) = inr (inl (IsClosed-told c t u run h page))
IsReduced-told c t u (done run) h (inr (inr page)) = inr (inr page)
IsReduced-told c t u (failed _ run) h page = tt

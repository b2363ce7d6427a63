-- ===== src/Obsidian/Grep/Context.antt =====
-- Where internal/tools/obsidian/grep_concurrent.go begins to read when it resumes after a match.
use personal_mcp_gateway.Base.{
  ℕ, zero, suc, ◌-◌, ◌≤◌, true, false, List, [], ◌∷◌, ◌++◌, length, take, drop, last_of, ltb, ◌==◌,
  ◌≡◌, refl, sym, ap, ap₂, ◌∙◌, arith, append_assoc, length-append, length-drop, drop-append, subst,
  if_lem,
}
use personal_mcp_gateway.Obsidian.Grep.{GrepLine, append_grep_ring, start_of, grep_resume_context}
use personal_mcp_gateway.Obsidian.Grep.Pending.{ring-last_of, last_of-all, last_of-zero, same_drop}
use personal_mcp_gateway.Obsidian.Grep.Resume.{
  IsFile, from, from-append, from-here, IsBelow-before, IsFile-at,
}

last_of-ring :
    (c : ℕ) (t : List GrepLine) (x : GrepLine)
    → length t ≤ suc c
    → last_of (suc c) (t ++ x ∷ []) ≡ append_grep_ring t x (suc c)
last_of-ring c t x h =
    let some_room : (suc c == 0) ≡ false = ground arith in
    let size = length-append t (x ∷ []) in
    rw some_room (
      if_lem (λ r. last_of (suc c) (t ++ x ∷ []) ≡ r) (length t == suc c)
        (λ y.
          same_drop (length (t ++ x ∷ []) - suc c) 1 (t ++ x ∷ []) (ground (arith, size, y))
          ∙ drop-append 1 t (x ∷ []) (ground (arith, y)))
        (λ n. last_of-all (suc c) (t ++ x ∷ []) (ground (arith, size, n, h))))

last_of-last_of :
    (c : ℕ) (l : List GrepLine) (x : GrepLine)
    → last_of (suc c) (last_of (suc c) l ++ x ∷ []) ≡ last_of (suc c) (l ++ x ∷ [])
last_of-last_of c l x =
    last_of-ring c (last_of (suc c) l) x (omega (arith, length-drop (length l - suc c) l))
    ∙ ring-last_of (suc c) l x

take-drop : (n : ℕ) (l : List GrepLine) → take n l ++ drop n l ≡ l
take-drop zero l = refl
take-drop (suc n) [] = refl
take-drop (suc n) (x ∷ l) = ap (λ t. x ∷ t) (take-drop n l)

-- Reading from the first line of the end of a part gives that end and what follows.
from-end :
    (offset : ℕ) (a : List GrepLine) (b : GrepLine) (l rest : List GrepLine)
    → IsFile offset ((a ++ b ∷ l) ++ rest)
    → from b.start ((a ++ b ∷ l) ++ rest) ≡ (b ∷ l) ++ rest
from-end offset a b l rest h =
    let whole = append_assoc a (b ∷ l) rest in
    let file = subst (IsFile offset) whole h in
    ap (from b.start) whole
    ∙ from-append b.start a (b ∷ (l ++ rest))
        (IsBelow-before offset a b (l ++ rest) b.start file (omega arith))
    ∙ from-here b.start (b ∷ (l ++ rest)) (IsFile-at offset a (l ++ rest) b file)

-- The last lines of a part that is not empty.
pub from-last_of :
    (offset c : ℕ) (part rest : List GrepLine) (x : GrepLine) (tail : List GrepLine)
    → 1 ≤ length part
    → IsFile offset (part ++ rest)
    → last_of (suc c) part ≡ tail
    → from (start_of x tail).0 (part ++ rest) ≡ tail ++ rest
from-last_of offset c part rest x [] some h e =
    absurd (omega (arith, length-drop (length part - suc c) part, ap length e, some))
from-last_of offset c part rest x (b ∷ l) some h e =
    let a = take (length part - suc c) part in
    let split = sym (take-drop (length part - suc c) part) ∙ ap (λ t. a ++ t) e in
    ap (λ p. from b.start (p ++ rest)) split
    ∙ from-end offset a b l rest (subst (λ p. IsFile offset (p ++ rest)) split h)

-- Where the context of a search after a line begins.
pub from-grep_resume_context :
    (offset c : ℕ) (front : List GrepLine) (line : GrepLine) (rest : List GrepLine)
    → IsFile offset (front ++ line ∷ rest)
    → from (grep_resume_context (last_of c front) line c).0 (front ++ line ∷ rest)
      ≡ last_of c (front ++ line ∷ []) ++ rest
from-grep_resume_context offset zero front line rest h =
    let line_here = IsFile-at offset front rest line h in
    let below : ltb line.start line.stop ≡ true = ground (arith, line_here.1) in
    from-append line.stop front (line ∷ rest)
      (IsBelow-before offset front line rest line.stop h (omega (arith, line_here.1)))
    ∙ rw below (from-here line.stop rest line_here.2)
    ∙ ap (λ t. t ++ rest) (sym (last_of-zero (front ++ line ∷ [])))
from-grep_resume_context offset (suc c) front line rest h =
    let part = front ++ line ∷ [] in
    let whole = sym (append_assoc front (line ∷ []) rest) in
    let some_room : (suc c == 0) ≡ false = ground arith in
    rw some_room (
      ap₂ (λ t l. from (start_of line t).0 l) (last_of-last_of c front line) whole
      ∙ from-last_of offset c part rest line (last_of (suc c) part)
          (omega (arith, length-append front (line ∷ []))) (subst (IsFile offset) whole h) refl)

-- ===== src/Fsx/Normalize/Trim.antt =====
-- The fuel of the trimming that internal/fsx/fsx.go asks of `strings.TrimSpace` is enough.
use personal_mcp_gateway.Base.{ℕ, zero, suc, ◌≤◌, Bytes, [], ◌∷◌, length, ◌≡◌, refl, arith}
use personal_mcp_gateway.Fsx.Normalize.{leading_space, drop, trimmed, trim_by}

length-drop : (k : ℕ) (s : Bytes) → length (drop k s) ≤ length s
unfolding drop
length-drop zero s = omega arith
length-drop (suc k) [] = omega arith
length-drop (suc k) (c ∷ r) = omega (arith, length-drop k r)

drop_less :
    (k n : ℕ) (c : ℕ) (r : Bytes) → length (c ∷ r) ≤ suc n → length (drop (suc k) (c ∷ r)) ≤ n
unfolding drop
drop_less k n c r h = omega (arith, length-drop k r, h)

module _ (space : Bytes → ℕ) (empty : space [] ≡ 0) where
  trimmed_done :
      (s : Bytes) (again : ℕ → Bytes) (n k : ℕ)
      → length s ≤ suc n
      → space s ≡ k
      → ((j : ℕ) → length (drop j s) ≤ n → space (again j) ≡ 0)
      → space (trimmed s again k) ≡ 0
  trimmed_done s again n zero fits e h = e
  trimmed_done [] again n (suc k) fits e h = omega (arith, empty, e)
  trimmed_done (c ∷ r) again n (suc k) fits e h = h (suc k) (drop_less k n c r fits)

  -- With fuel for the whole string, no space is left in front.
  pub trim_by_done : (n : ℕ) (s : Bytes) → length s ≤ n → space (trim_by space n s) ≡ 0
  unfolding trim_by
  trim_by_done zero [] fits = empty
  trim_by_done zero (c ∷ r) fits = elim fits [ ]
  trim_by_done (suc n) s fits =
      trimmed_done s (λ k. trim_by space n (drop k s)) n (space s) fits refl
        (λ j. trim_by_done n (drop j s))

-- However often it must look, `strings.TrimSpace` leaves no white space in front.
pub leading_space-trim_by : (s : Bytes) → leading_space (trim_by leading_space (length s) s) ≡ 0
leading_space-trim_by s =
    trim_by_done leading_space (unfold leading_space in refl) (length s) s (omega arith)

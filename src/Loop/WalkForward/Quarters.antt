-- ===== src/Loop/WalkForward/Quarters.antt =====
-- The list of quarters.
use pyharmonics_gpt.Prelude.{
  ℕ, zero, suc, ◌+◌, ◌*◌, ◌≤◌, ◌≡◌, refl, List, [], ◌∷◌, arith, ltb, if◌then◌else◌,
}
use pyharmonics_gpt.Loop.WalkForward.{Quarter, quarters_from, list_quarters}

-- the quarters are `n` in number and follow each other, where `k` is four times the year, plus the
-- quarter
abbrev pub AreConsecutive : ℕ → ℕ → List Quarter → Type 0
AreConsecutive k n [] = n ≡ 0
AreConsecutive k n (x ∷ xs) =
    (4 * x.year + x.q ≡ k)
    × (1 ≤ x.q)
    × (x.q ≤ 4)
    × (m : ℕ) × (n ≡ m + 1)
    × AreConsecutive (k + 1) m xs

quarters_from-AreConsecutive :
    (year q n k : ℕ)
    → 1 ≤ q
    → q ≤ 4
    → 4 * year + q ≡ k
    → AreConsecutive k n (quarters_from year q n)
unfolding quarters_from
quarters_from-AreConsecutive year q zero k l h e = refl
quarters_from-AreConsecutive year q (suc n) k l h e =
    let over = ltb 4 (q + 1) in
    (
      e,
      l,
      h,
      n,
      omega arith,
      quarters_from-AreConsecutive (if over then year + 1 else year) (if over then 1 else q + 1) n
          (k + 1) (ground arith) (ground arith) (ground arith),
    )

-- The list has as many quarters as asked, from the first of the start year on, each the one after the
-- last, with a number from 1 to 4.
pub list_quarters-AreConsecutive :
    (start_year n : ℕ) → AreConsecutive (4 * start_year + 1) n (list_quarters start_year n)
unfolding list_quarters
list_quarters-AreConsecutive start_year n =
    quarters_from-AreConsecutive start_year 1 n (4 * start_year + 1) (omega arith) (omega arith)
      refl

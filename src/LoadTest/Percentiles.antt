-- ===== src/LoadTest/Percentiles.antt =====
-- The percentiles of the latencies: the index is in range, and enough latencies lie below.
use im_system.Common.{
  ℕ, zero, suc, ◌+◌, ◌-◌, ◌*◌, ◌/◌, ◌≤◌, ◌<◌, ◌≡◌, refl, ap, arith, some, List, [], ◌∷◌, All,
  length, leb, if◌then◌else◌,
}
use im_system.LoadTest.{Stats, nth, percentile, lines, export_lines}

abbrev pub IsSorted : List ℕ → Type 0
IsSorted [] = Unit
IsSorted (x ∷ xs) = All (λ y. x ≤ y) xs × IsSorted xs

-- How many latencies are at most `b`.
abbrev pub count_le : ℕ → List ℕ → ℕ
count_le b [] = 0
count_le b (x ∷ xs) = let n = count_le b xs in if leb x b then suc n else n

-- What sort.Slice does: the same elements, in order.
pub record IsSort (sort : List ℕ → List ℕ) : Type 0 where
  pub sorted : (xs : List ℕ) → IsSorted (sort xs)
  pub same_length : (xs : List ℕ) → length (sort xs) ≡ length xs
  pub same_counts : (b : ℕ) (xs : List ℕ) → count_le b (sort xs) ≡ count_le b xs

nth-some : (k : ℕ) (xs : List ℕ) → k < length xs → (x : ℕ) × (nth k xs ≡ some x)
nth-some k [] h = absurd (omega arith)
nth-some zero (x ∷ xs) h = (x, refl)
nth-some (suc k) (x ∷ xs) h = nth-some k xs (omega arith)

All-nth : (b k p : ℕ) (xs : List ℕ) → All (λ y. b ≤ y) xs → nth k xs ≡ some p → b ≤ p
All-nth b k p [] a e = cc
All-nth b zero p (x ∷ xs) a e = ground (arith, a.0, e)
All-nth b (suc k) p (x ∷ xs) a e = All-nth b k p xs a.1 e

nth_mono :
    (i j p q : ℕ) (xs : List ℕ)
    → IsSorted xs
    → i ≤ j
    → nth i xs ≡ some p
    → nth j xs ≡ some q
    → p ≤ q
nth_mono i j p q [] s h e f = cc
nth_mono zero zero p q (x ∷ xs) s h e f = ground (arith, e, f)
nth_mono zero (suc j) p q (x ∷ xs) s h e f = ground (arith, e, All-nth x j q xs s.0 f)
nth_mono (suc i) zero p q (x ∷ xs) s h e f = absurd (omega arith)
nth_mono (suc i) (suc j) p q (x ∷ xs) s h e f = nth_mono i j p q xs s.1 (omega arith) e f

nth-count_le : (k p : ℕ) (xs : List ℕ) → IsSorted xs → nth k xs ≡ some p → k < count_le p xs
nth-count_le k p [] s e = cc
nth-count_le zero p (x ∷ xs) s e = ground (arith, e)
nth-count_le (suc k) p (x ∷ xs) s e =
    ground (arith, All-nth x k p xs s.0 e, nth-count_le k p xs s.1 e)

index_in_range : (n k : ℕ) → k < 100 → 0 < n → n * k / 100 < n
index_in_range n k small full =
    let e : k + (99 - k) ≡ 99 = omega arith in omega (arith, ap (λ (t : ℕ). n * t) e)

module _ (sort : List ℕ → List ℕ) (law : IsSort sort) where
  percentile-some :
      (k : ℕ) (xs : List ℕ)
      → k < 100
      → 0 < length xs
      → (p : ℕ) × (percentile sort k xs ≡ some p) × (length xs * k < 100 * count_le p xs)
  unfolding percentile
  percentile-some k xs small full =
      let i = length xs * k / 100 in
      let (p, e) =
        nth-some i (sort xs)
          (omega (arith, law.same_length xs, index_in_range (length xs) k small full)) in
      let below = nth-count_le i p (sort xs) (law.sorted xs) e in
      (p, e, omega (arith, below, law.same_counts p xs))

  -- With a sort as documented, and where there is a latency: exportCSV writes three numbers, in
  -- order, and no index is out of range; more than 50, 95 and 99 percent of the latencies are at
  -- most the first, the second and the third.
  pub export_lines_cover :
      (s : Stats)
      → 0 < length s.latencies
      → (p50 : ℕ) × (p95 : ℕ) × (p99 : ℕ) × (export_lines sort s ≡ lines p50 p95 p99)
        × (p50 ≤ p95)
        × (p95 ≤ p99)
        × (length s.latencies * 50 < 100 * count_le p50 s.latencies)
        × (length s.latencies * 95 < 100 * count_le p95 s.latencies)
        × (length s.latencies * 99 < 100 * count_le p99 s.latencies)
  unfolding export_lines percentile
  export_lines_cover s full =
      let l = s.latencies in
      let (p50, e50, c50) = percentile-some 50 l (omega arith) full in
      let (p95, e95, c95) = percentile-some 95 l (omega arith) full in
      let (p99, e99, c99) = percentile-some 99 l (omega arith) full in
      (
        p50,
        p95,
        p99,
        ground (arith, full, e50, e95, e99),
        nth_mono _ _ p50 p95 (sort l) (law.sorted l) (omega arith) e50 e95,
        nth_mono _ _ p95 p99 (sort l) (law.sorted l) (omega arith) e95 e99,
        c50,
        c95,
        c99,
      )

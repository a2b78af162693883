-- ===== src/Metrics/Extremes.antt =====
-- lib/metrics/running_statistics.cpp: the extremes are those of the samples.
use gathra_gateway.Prelude.{
  ℕ, ◌+◌, ◌^◌, ◌<◌, ◌≡◌, refl, ap, ◌∙◌, List, [], ◌∷◌, arith, length, ltb, if◌then◌else◌,
}
use gathra_gateway.Metrics.{Doubles, RunningStatistics, no_samples, record_sample}

-- The least and the greatest of some samples and those that follow.
pub least : ℕ → List ℕ → ℕ
least low [] = low
least low (x ∷ xs) = least (if ltb x low then x else low) xs

pub greatest : ℕ → List ℕ → ℕ
greatest high [] = high
greatest high (x ∷ xs) = greatest (if ltb high x then x else high) xs

module _ {F : Type 0} (d : Doubles F) where
  pub record_all : RunningStatistics F → List ℕ → RunningStatistics F
  record_all s [] = s
  record_all s (x ∷ xs) = record_all (record_sample d s x) xs

  later_sample :
      (s : RunningStatistics F) (x : ℕ)
      → 0 < s.count
      → s.count + 1 < 2 ^ 64
      → ((record_sample d s x).count ≡ s.count + 1)
        × ((record_sample d s x).minimum ≡ (if ltb x s.minimum then x else s.minimum))
        × ((record_sample d s x).maximum ≡ (if ltb s.maximum x then x else s.maximum))
  unfolding record_sample
  later_sample s x p h = ground arith

  later_samples :
      (s : RunningStatistics F) (xs : List ℕ)
      → 0 < s.count
      → s.count + length xs < 2 ^ 64
      → ((record_all s xs).count ≡ s.count + length xs)
        × ((record_all s xs).minimum ≡ least s.minimum xs)
        × ((record_all s xs).maximum ≡ greatest s.maximum xs)
  unfolding record_all least greatest
  later_samples s [] p h = (omega arith, refl, refl)
  later_samples s (x ∷ xs) p h =
      let (count, low, high) = later_sample s x p (omega arith) in
      let (counts, lows, highs) =
        later_samples (record_sample d s x) xs (omega (arith, count)) (omega (arith, count, h)) in
      (
        omega (arith, counts, count),
        lows ∙ ap (λ (n : ℕ). least n xs) low,
        highs ∙ ap (λ (n : ℕ). greatest n xs) high,
      )

  first_sample :
      (x : ℕ)
      → ((record_sample d (no_samples d) x).count ≡ 1)
        × ((record_sample d (no_samples d) x).minimum ≡ x)
        × ((record_sample d (no_samples d) x).maximum ≡ x)
  unfolding record_sample
  first_sample x = (refl, refl, refl)

  -- After one sample and more, fewer than 2 ^ 64 in all, the count is their number, the minimum the
  -- least of them and the maximum the greatest.
  pub record_all-exact :
      (x : ℕ) (xs : List ℕ)
      → 1 + length xs < 2 ^ 64
      → ((record_all (no_samples d) (x ∷ xs)).count ≡ 1 + length xs)
        × ((record_all (no_samples d) (x ∷ xs)).minimum ≡ least x xs)
        × ((record_all (no_samples d) (x ∷ xs)).maximum ≡ greatest x xs)
  unfolding record_all
  record_all-exact x xs h =
      let (count, low, high) = first_sample x in
      let (counts, lows, highs) =
        later_samples (record_sample d (no_samples d) x) xs (omega (arith, count))
          (omega (arith, count, h)) in
      (
        omega (arith, counts, count),
        lows ∙ ap (λ (n : ℕ). least n xs) low,
        highs ∙ ap (λ (n : ℕ). greatest n xs) high,
      )

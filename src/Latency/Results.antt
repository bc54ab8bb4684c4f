-- ===== src/Latency/Results.antt =====
-- main.go, main_appliance.go: the statistics that a latency run reports.
use native.Mathlib.Nat.{le-div_iff_mul-le, div-le_of_le-mul}
use ztna_lab_appliance.Common.{
  ℕ, zero, suc, ◌+◌, ◌-◌, ◌*◌, ◌/◌, ◌≤◌, ◌<◌, Bool, true, false, if◌then◌else◌, List, [], ◌∷◌, some,
  Text, ◌≡◌, ◌↔◌, refl, arith, length, get_elem?, ℤ, ◌⊎◌, inl, inr, Bool-cases,
}
use ztna_lab_appliance.Latency.{
  no_samples, summarize_or_fail, Verdict, LatencyResult, Attempt, Outcome, or_default, valid_url,
  collect, sum, judge, index_p50, index_p95, index_p99, summarize, run_latency, to_api, millisecond,
}
use ztna_lab_appliance.Latency.Sorted.{
  IsSorted, AllAbove, sort, sort-IsSorted, length-sort, get_elem?_total, get_elem?_mono,
}

-- The statistics are in their natural order.
pub record IsOrdered (r : LatencyResult) : Type 0 where
  pub lowest-p50 : r.lowest ≤ r.p50
  pub p50-p95 : r.p50 ≤ r.p95
  pub p95-p99 : r.p95 ≤ r.p99
  pub p99-highest : r.p99 ≤ r.highest
  pub lowest-avg : r.lowest ≤ r.avg
  pub avg-highest : r.avg ≤ r.highest

sum-above : (b : ℕ) (xs : List ℕ) → AllAbove b xs → b * length xs ≤ sum xs
unfolding sum
sum-above b [] h = omega arith
sum-above b (x ∷ xs) h = omega (arith, sum-above b xs h.1)

sum-below :
    (x : ℕ) (xs : List ℕ) {m : ℕ}
    → IsSorted (x ∷ xs)
    → get_elem? (x ∷ xs) (length xs) ≡ some m
    → sum (x ∷ xs) ≤ m * suc (length xs)
unfolding sum
sum-below x [] {m} s e = let h : x ≡ m = ground arith in omega arith
sum-below x (y ∷ ys) {m} s e =
    let h : x ≤ m =
      get_elem?_mono (x ∷ y ∷ ys) 0 (suc (length ys)) {x = x} {y = m} s (omega arith) refl e in
    let rest = sum-below y ys {m = m} s.1 e in omega (arith, rest)

-- Of samples that are sorted and not empty: no index is out of range, and the statistics are ordered.
summarize_sorted :
    (std_dev : List ℕ → ℕ → ℕ) (url : Text) (count x : ℕ) (xs : List ℕ)
    → IsSorted (x ∷ xs)
    → (r : LatencyResult) × (summarize std_dev url count (x ∷ xs) ≡ Outcome.result r)
      × IsOrdered r
      × (r.success ≡ suc (length xs))
      × (r.total ≡ count)
      × (r.verdict ≡ judge count (suc (length xs)) r.p95)
unfolding summarize
summarize_sorted std_dev url count x xs s =
    let samples = x ∷ xs in
    let n = suc (length xs) in
    let (p50, e50) = get_elem?_total samples (index_p50 n) (omega arith) in
    let (p95, e95) = get_elem?_total samples (index_p95 n) (omega arith) in
    let (p99, e99) = get_elem?_total samples (index_p99 n) (omega arith) in
    let (top, e) = get_elem?_total samples (length xs) (omega arith) in
    let last : n - 1 ≡ length xs = omega arith in
    let low : x * n ≤ sum samples = sum-above x samples (omega arith, s.0) in
    let high : sum samples ≤ top * n = sum-below x xs {m = top} s e in
    (
      record {
        url = url;
        total = count;
        success = n;
        lowest = x;
        avg = sum samples / n;
        p50 = p50;
        p95 = p95;
        p99 = p99;
        highest = top;
        jitter = std_dev samples (sum samples / n);
        verdict = judge count n p95;
      },
      rw last (ground arith),
      record {
        lowest-p50 =
            get_elem?_mono samples 0 (index_p50 n) {x = x} {y = p50} s (omega arith) refl e50;
        p50-p95 =
            get_elem?_mono samples (index_p50 n) (index_p95 n) {x = p50} {y = p95} s (omega arith)
              e50 e95;
        p95-p99 =
            get_elem?_mono samples (index_p95 n) (index_p99 n) {x = p95} {y = p99} s (omega arith)
              e95 e99;
        p99-highest =
            get_elem?_mono samples (index_p99 n) (length xs) {x = p99} {y = top} s (omega arith) e99
              e;
        lowest-avg = (le-div_iff_mul-le {k = n} {x = x} {y = sum samples} (omega arith)).1 low;
        avg-highest = div-le_of_le-mul n {m = sum samples} {n = top} (omega arith);
      },
      refl,
      refl,
      refl,
    )

length-collect : (rounds i : ℕ) (answers : ℕ → Attempt) → length (collect rounds i answers) ≤ rounds
unfolding collect
length-collect zero i answers = omega arith
length-collect (suc rounds) i answers = ground (arith, length-collect rounds (i + 1) answers)

no_samples-IsOrdered : (url : Text) (n : ℕ) → IsOrdered (no_samples url n)
no_samples-IsOrdered url n = record {
  lowest-p50 = omega arith;
  p50-p95 = omega arith;
  p95-p99 = omega arith;
  p99-highest = omega arith;
  lowest-avg = omega arith;
  avg-highest = omega arith;
}

-- What the result of a run is, over the `n` requests it makes with `k` samples.
abbrev pub Reports : ℕ → ℕ → Outcome → Type 0
Reports n k o =
    (r : LatencyResult) × (o ≡ Outcome.result r)
    × IsOrdered r
    × (r.total ≡ n)
    × (r.success ≡ k)
    × (r.success ≤ r.total)
    × (r.verdict ≡ judge r.total r.success r.p95)

summarize_or_fail-Reports :
    (std_dev : List ℕ → ℕ → ℕ) (url : Text) (n : ℕ) (samples : List ℕ)
    → length samples ≤ n
    → Reports n (length samples) (summarize_or_fail std_dev url n samples)
unfolding summarize_or_fail judge
summarize_or_fail-Reports std_dev url n [] h =
    (no_samples url n, refl, no_samples-IsOrdered url n, refl, refl, omega arith, refl)
summarize_or_fail-Reports std_dev url n (x ∷ xs) h =
    go (sort (x ∷ xs)) (sort-IsSorted (x ∷ xs)) (length-sort (x ∷ xs)) refl
  where
    go :
        (sorted : List ℕ)
        → IsSorted sorted
        → length sorted ≡ suc (length xs)
        → sort (x ∷ xs) ≡ sorted
        → Reports n (suc (length xs)) (summarize_or_fail std_dev url n (x ∷ xs))
    go [] s e f = absurd (omega arith)
    go (y ∷ ys) s e f =
        let (r, done, ordered, successes, total, verdict) = summarize_sorted std_dev url n y ys s in
        (r, rw f done, ordered, total, omega arith, omega arith, rw (total, successes) verdict)

-- A run against a URL with the scheme http or https, for a count of which the samples can be allocated,
-- ends with a result and never reads a sample out of range: the statistics are in order, the total is
-- the number of requests, the successes are the samples and at most the total, and the verdict is the
-- one of these numbers.
pub run_latency-Reports :
    (allocates : ℕ → Bool) (std_dev : List ℕ → ℕ → ℕ) (url : Text) (count interval : ℤ)
    (answers : ℕ → Attempt)
    → valid_url url ≡ true
    → allocates (or_default count 50) ≡ true
    → Reports
        (or_default count 50)
        (length (collect (or_default count 50) 0 answers))
        (run_latency allocates std_dev url count interval answers)
unfolding run_latency
run_latency-Reports allocates std_dev url count interval answers valid allocated =
    let n = or_default count 50 in
    rw (valid, allocated)
      (summarize_or_fail-Reports std_dev url n (collect n 0 answers) (length-collect n 0 answers))

-- The two ways in which a run returns.
abbrev pub Returns : Outcome → Type 0
Returns outcome =
    (outcome ≡ Outcome.bad_url) ⊎ ((result : LatencyResult) × (outcome ≡ Outcome.result result))

pub run_latency_invalid :
    (allocates : ℕ → Bool) (std_dev : List ℕ → ℕ → ℕ) (url : Text) (count interval : ℤ)
    (answers : ℕ → Attempt)
    → valid_url url ≡ false
    → run_latency allocates std_dev url count interval answers ≡ Outcome.bad_url
unfolding run_latency
run_latency_invalid allocates std_dev url count interval answers invalid = ground (arith, invalid)

-- A run returns, if its samples can be allocated.
pub run_latency-Returns :
    (allocates : ℕ → Bool) (std_dev : List ℕ → ℕ → ℕ) (url : Text) (count interval : ℤ)
    (answers : ℕ → Attempt)
    → allocates (or_default count 50) ≡ true
    → Returns (run_latency allocates std_dev url count interval answers)
unfolding run_latency
run_latency-Returns allocates std_dev url count interval answers allocated =
    elim (Bool-cases (valid_url url)) [
      | inl valid ↦
          let report =
            run_latency-Reports allocates std_dev url count interval answers valid allocated in
          inr (report.0, report.1)
      | inr invalid ↦ inl (ground arith)
    ]

-- A run whose samples cannot be allocated reports a bad URL, or panics.
pub run_latency_panics :
    (allocates : ℕ → Bool) (std_dev : List ℕ → ℕ → ℕ) (url : Text) (count interval : ℤ)
    (answers : ℕ → Attempt)
    → allocates (or_default count 50) ≡ false
    → run_latency allocates std_dev url count interval answers
      ≡ (if valid_url url then Outcome.panics else Outcome.bad_url)
unfolding run_latency
run_latency_panics allocates std_dev url count interval answers refused = ground (arith, refused)

-- The verdict is good exactly if some request succeeded, at most a tenth of them failed, and the
-- 95th percentile is at most 250 ms.
pub judge-good_iff :
    (total success p95 : ℕ)
    → (judge total success p95 ≡ Verdict.good)
      ↔ ((1 ≤ success) × (10 * (total - success) ≤ total) × (p95 ≤ 250 * millisecond))
unfolding judge
judge-good_iff total success p95 = (λ e. ground arith, λ h. ground arith)

-- `d` is a duration, in whole milliseconds.
abbrev pub InMilliseconds : ℕ → ℕ → Type 0
InMilliseconds ms d = (ms * 1_000_000 ≤ d) × (d < (ms + 1) * 1_000_000)

-- In the result that the API returns each statistic is the number of whole milliseconds of the run's,
-- and the URL, the counts and the verdict are those of the run. So the order of the statistics is
-- kept.
pub to_api-InMilliseconds :
    (r : LatencyResult)
    → let api = to_api r in
      InMilliseconds api.lowest r.lowest
      × InMilliseconds api.avg r.avg
      × InMilliseconds api.p50 r.p50
      × InMilliseconds api.p95 r.p95
      × InMilliseconds api.p99 r.p99
      × InMilliseconds api.highest r.highest
      × InMilliseconds api.jitter r.jitter
      × (api.url ≡ r.url)
      × (api.total ≡ r.total)
      × (api.success ≡ r.success)
      × (api.verdict ≡ r.verdict)
      × (IsOrdered r → IsOrdered api)
unfolding to_api
to_api-InMilliseconds r = (
  (omega arith, omega arith),
  (omega arith, omega arith),
  (omega arith, omega arith),
  (omega arith, omega arith),
  (omega arith, omega arith),
  (omega arith, omega arith),
  (omega arith, omega arith),
  refl,
  refl,
  refl,
  refl,
  λ h. record {
    lowest-p50 = omega (arith, h.lowest-p50);
    p50-p95 = omega (arith, h.p50-p95);
    p95-p99 = omega (arith, h.p95-p99);
    p99-highest = omega (arith, h.p99-highest);
    lowest-avg = omega (arith, h.lowest-avg);
    avg-highest = omega (arith, h.avg-highest);
  },
)

-- ===== src/Latency.antt =====
-- The latency tool: `runLatency` and `verdict` of main.go, `runLatencyAPI` of main_appliance.go.
-- A duration is a number of nanoseconds. The square root over floats is a parameter, `std_dev`, and
-- the two comparisons of the failure rate with 0.5 and 0.1 are written without division, which
-- agrees with the float comparison for fewer than 2^31 requests.
pub mod Sorted
pub mod Results
mod Tests
use ztna_lab_appliance.Common.{
  ℕ, zero, suc, ◌+◌, ◌-◌, ◌*◌, ◌/◌, min, Bool, true, false, not, ◌||◌, List, [], ◌∷◌, ◌++◌, Option,
  none, some, Text, text, length, get_elem?, has_prefix, ltb, leb, ◌==◌, ℤ, pos, negsuc,
  if◌then◌else◌,
}
use ztna_lab_appliance.Latency.Sorted.{sort}

pub data Verdict : Type 0 where
  total_failure mostly_failing degraded slow acceptable good : Verdict

-- `LatencyResult`
pub record LatencyResult : Type 0 where
  pub url : Text
  pub total : ℕ
  pub success : ℕ
  pub lowest : ℕ
  pub avg : ℕ
  pub p50 : ℕ
  pub p95 : ℕ
  pub p99 : ℕ
  pub highest : ℕ
  pub jitter : ℕ
  pub verdict : Verdict

-- What one request gives: an error of the client, or a status and a duration.
pub data Attempt : Type 0 where
  failed : Attempt
  responded : ℕ → ℕ → Attempt

-- A call ends with a result, with the error for a bad URL, or by a panic: an index out of range,
-- or a slice that is too large.
pub data Outcome : Type 0 where
  result : LatencyResult → Outcome
  bad_url : Outcome
  panics : Outcome

abbrev pub millisecond : ℕ
millisecond = 1_000_000

-- `count` and `interval` after the defaults of `runLatency`.
abbrev pub or_default : ℤ → ℕ → ℕ
or_default (pos zero) default = default
or_default (pos (suc n)) default = suc n
or_default (negsuc n) default = default

unfoldable pub valid_url : Text → Bool
valid_url url = has_prefix url (text "http://") || has_prefix url (text "https://")

-- The samples of `rounds` requests from number `i` on: the durations of those that were answered
-- with a status below 500.
unfoldable pub collect : ℕ → ℕ → (ℕ → Attempt) → List ℕ
collect zero i answers = []
collect (suc rounds) i answers =
    let rest = collect rounds (i + 1) answers in
    elim (answers i) [
      | Attempt.failed ↦ rest
      | Attempt.responded status duration ↦ if ltb status 500 then duration ∷ rest else rest
    ]

unfoldable pub sum : List ℕ → ℕ
sum [] = 0
sum (x ∷ xs) = x + sum xs

-- `verdict`, of a result with at least one success.
unfoldable pub judge : ℕ → ℕ → ℕ → Verdict
judge total success p95 =
    if success == 0
    then Verdict.total_failure
    else if ltb total (2 * (total - success))
    then Verdict.mostly_failing
    else if ltb total (10 * (total - success))
    then Verdict.degraded
    else if ltb (1000 * millisecond) p95
    then Verdict.slow
    else if ltb (250 * millisecond) p95
    then Verdict.acceptable
    else Verdict.good

abbrev pub no_samples : Text → ℕ → LatencyResult
no_samples url count = record {
  url = url;
  total = count;
  success = 0;
  lowest = 0;
  avg = 0;
  p50 = 0;
  p95 = 0;
  p99 = 0;
  highest = 0;
  jitter = 0;
  verdict = Verdict.total_failure;
}

abbrev pub index_p50 : ℕ → ℕ
index_p50 n = n * 50 / 100

abbrev pub index_p95 : ℕ → ℕ
index_p95 n = min (n - 1) (n * 95 / 100)

abbrev pub index_p99 : ℕ → ℕ
index_p99 n = min (n - 1) (n * 99 / 100)

infixl 5 ◌>>=◌
abbrev ◌>>=◌ : Option ℕ → (ℕ → Outcome) → Outcome
none >>= f = Outcome.panics
some x >>= f = f x

-- The statistics of sorted samples.
unfoldable pub summarize : (List ℕ → ℕ → ℕ) → Text → ℕ → List ℕ → Outcome
unfolding sum judge
summarize std_dev url count samples =
    let n = length samples in
    let avg = sum samples / n in
    do
      lowest ← get_elem? samples 0
      p50 ← get_elem? samples (index_p50 n)
      p95 ← get_elem? samples (index_p95 n)
      p99 ← get_elem? samples (index_p99 n)
      highest ← get_elem? samples (n - 1)
      Outcome.result (record {
        url = url;
        total = count;
        success = n;
        lowest = lowest;
        avg = avg;
        p50 = p50;
        p95 = p95;
        p99 = p99;
        highest = highest;
        jitter = std_dev samples avg;
        verdict = judge count n p95;
      })

unfoldable pub summarize_or_fail : (List ℕ → ℕ → ℕ) → Text → ℕ → List ℕ → Outcome
unfolding summarize
summarize_or_fail std_dev url count [] = Outcome.result (no_samples url count)
summarize_or_fail std_dev url count (x ∷ samples) = summarize std_dev url count (sort (x ∷ samples))

-- `runLatency`; `allocates n` says whether the runtime gives `make` a slice for `n` samples, and
-- `answers i` is what request number `i` gives. The interval only delays the requests.
unfoldable pub run_latency : (ℕ → Bool) → (List ℕ → ℕ → ℕ) → Text → ℤ → ℤ → (ℕ → Attempt) → Outcome
unfolding valid_url collect summarize_or_fail
run_latency allocates std_dev url count interval answers =
    let n = or_default count 50 in
    if not (valid_url url)
    then Outcome.bad_url
    else if not (allocates n)
    then Outcome.panics
    else summarize_or_fail std_dev url n (collect n 0 answers)

-- `Duration.Milliseconds`
abbrev pub milliseconds : ℕ → ℕ
milliseconds d = d / millisecond

-- `runLatencyAPI`
unfoldable pub to_api : LatencyResult → LatencyResult
to_api r = record r {
  lowest = milliseconds r.lowest;
  avg = milliseconds r.avg;
  p50 = milliseconds r.p50;
  p95 = milliseconds r.p95;
  p99 = milliseconds r.p99;
  highest = milliseconds r.highest;
  jitter = milliseconds r.jitter;
}

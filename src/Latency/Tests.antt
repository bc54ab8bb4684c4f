-- ===== src/Latency/Tests.antt =====
-- main.go, main_appliance.go: the theorems at a concrete run.
use ztna_lab_appliance.Common.{
  ℕ, Bool, ltb, ◌-◌, ◌*◌, ◌≤◌, List, Text, text, has_prefix, length, ◌≡◌, ◌↔◌, refl, ◌==◌,
  if◌then◌else◌, pos, negsuc,
}
use ztna_lab_appliance.Latency.{
  Verdict, LatencyResult, Attempt, or_default, valid_url, collect, judge, run_latency, to_api,
  millisecond,
}
use ztna_lab_appliance.Latency.Results.{
  IsOrdered, Reports, run_latency-Reports, judge-good_iff, to_api-InMilliseconds, InMilliseconds,
}

abbrev url : Text
url = text "http://lab"

abbrev answers : ℕ → Attempt
answers i = if i == 1 then Attempt.failed else Attempt.responded 200 (30_000_000 - i)

abbrev zero_deviation : List ℕ → ℕ → ℕ
zero_deviation samples mean = 0

abbrev fits_memory : ℕ → Bool
fits_memory n = ltb n 1_000_000

run_latency-Reports_example :
    Reports
      (or_default (pos 3) 50)
      (length (collect (or_default (pos 3) 50) 0 answers))
      (run_latency fits_memory zero_deviation url (pos 3) (negsuc 0) answers)
unfolding valid_url text has_prefix
run_latency-Reports_example =
    run_latency-Reports fits_memory zero_deviation url (pos 3) (negsuc 0) answers refl refl

judge-good_iff_example :
    (judge 20 18 (200 * millisecond) ≡ Verdict.good)
    ↔ ((1 ≤ 18) × (10 * (20 - 18) ≤ 20) × (200 * millisecond ≤ 250 * millisecond))
judge-good_iff_example = judge-good_iff 20 18 (200 * millisecond)

abbrev measured : LatencyResult
measured = record {
  url = url;
  total = 2;
  success = 2;
  lowest = 10_000_000;
  avg = 15_500_000;
  p50 = 21_000_000;
  p95 = 21_000_000;
  p99 = 21_000_000;
  highest = 21_000_000;
  jitter = 5_500_000;
  verdict = Verdict.good;
}

to_api-InMilliseconds_example :
    let api = to_api measured in
    InMilliseconds api.lowest 10_000_000
    × InMilliseconds api.avg 15_500_000
    × InMilliseconds api.p50 21_000_000
    × InMilliseconds api.p95 21_000_000
    × InMilliseconds api.p99 21_000_000
    × InMilliseconds api.highest 21_000_000
    × InMilliseconds api.jitter 5_500_000
    × (api.url ≡ url)
    × (api.total ≡ 2)
    × (api.success ≡ 2)
    × (api.verdict ≡ Verdict.good)
    × (IsOrdered measured → IsOrdered api)
to_api-InMilliseconds_example = to_api-InMilliseconds measured

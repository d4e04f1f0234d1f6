-- ===== src/Tools/Summary.antt =====
-- How tools/baseline.py summarises its samples. A duration is a whole number of nanoseconds.
pub mod Sorting
use sodtware_dev_ops_gp_proj.Base.{
  ℕ, ◌*◌, ◌/◌, Option, none, some, List, [], ◌∷◌, length, leb, if◌then◌else◌, get_elem?,
}
use sodtware_dev_ops_gp_proj.Base.Result.{Result, ok, err, value_error, index_error, ◌>>=◌}

-- `samples.sort()`
pub insert : ℕ → List ℕ → List ℕ
insert x [] = x ∷ []
insert x (y ∷ ys) = let rest = insert x ys in if leb x y then x ∷ y ∷ ys else y ∷ rest

unfoldable pub sort : List ℕ → List ℕ
unfolding insert
sort [] = []
sort (x ∷ xs) = insert x (sort xs)

-- `samples[i]`
abbrev pub or_index_error : Option ℕ → Result ℕ
or_index_error none = err index_error
or_index_error (some x) = ok x

-- `int(0.95 * len(samples))`: the product of the doubles rounds to no other whole number for the
-- lengths of lists.
abbrev pub p95_index : ℕ → ℕ
p95_index n = 95 * n / 100

-- `samples[-1]`
unfoldable pub last : List ℕ → Option ℕ
last [] = none
last (x ∷ []) = some x
last (x ∷ y ∷ ys) = last (y ∷ ys)

-- `statistics.fmean` and `statistics.median` of samples, of which there are some, and what the report
-- shows of a duration.
pub record Statistics (F : Type 0) : Type 0 where
  pub fmean : List ℕ → F
  pub median : List ℕ → F
  pub shown : ℕ → F

-- The dict that `measure_end_to_end` returns.
pub record Latencies (F : Type 0) : Type 0 where
  pub samples : ℕ
  pub mean_ms : F
  pub median_ms : F
  pub p95_ms : F
  pub min_ms : F
  pub max_ms : F

-- The dict that `_time_calls` returns.
pub record Timing (F : Type 0) : Type 0 where
  pub iterations : ℕ
  pub mean_ms : F
  pub median_ms : F
  pub p95_ms : F
  pub ops_per_second : F

module _ {F : Type 0} (s : Statistics F) where
  -- The end of `measure_end_to_end`: without a sample there is an error report, which is `none`.
  unfoldable pub summarise_latencies : List ℕ → Result (Option (Latencies F))
  summarise_latencies [] = ok none
  summarise_latencies (x ∷ xs) = do
    let sorted = sort (x ∷ xs)
    p95 ← or_index_error (get_elem? sorted (p95_index (length sorted)))
    low ← or_index_error (get_elem? sorted 0)
    high ← or_index_error (last sorted)
    ok (
        some (record {
          samples = length sorted;
          mean_ms = s.fmean sorted;
          median_ms = s.median sorted;
          p95_ms = s.shown p95;
          min_ms = s.shown low;
          max_ms = s.shown high;
        }))

  -- The end of `_time_calls`; `rate` is `round(1000.0 / ...)`. Without a sample `fmean` raises a
  -- `StatisticsError`, which is a `ValueError`.
  unfoldable pub summarise_calls : (F → F) → ℕ → List ℕ → Result (Timing F)
  summarise_calls rate iterations [] = err value_error
  summarise_calls rate iterations (x ∷ xs) = do
    let sorted = sort (x ∷ xs)
    p95 ← or_index_error (get_elem? sorted (p95_index (length sorted)))
    ok (record {
      iterations = iterations;
      mean_ms = s.fmean sorted;
      median_ms = s.median sorted;
      p95_ms = s.shown p95;
      ops_per_second = rate (s.median sorted);
    })

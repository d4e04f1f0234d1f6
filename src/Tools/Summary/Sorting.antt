-- ===== src/Tools/Summary/Sorting.antt =====
-- The sorted samples of tools/baseline.py, and what their percentiles say.
use sodtware_dev_ops_gp_proj.Base.{
  ℕ, zero, suc, ◌+◌, ◌*◌, ◌≤◌, ◌<◌, ◌≡◌, refl, ap, Bool, Bool-cases, inl, inr, some, List, [], ◌∷◌,
  length, leb, ltb, if◌then◌else◌, get_elem?, All, All-map, arith, leb→le,
}
use sodtware_dev_ops_gp_proj.Base.Result.{ok}
use sodtware_dev_ops_gp_proj.Tools.Summary.{
  insert, sort, last, p95_index, Statistics, summarise_latencies, summarise_calls, Timing,
}

-- How many samples pass a test.
pub count_if : (ℕ → Bool) → List ℕ → ℕ
count_if p [] = 0
count_if p (x ∷ xs) = (if p x then 1 else 0) + count_if p xs

pub count_if-insert :
    (p : ℕ → Bool) (x : ℕ) (xs : List ℕ) → count_if p (insert x xs) ≡ count_if p (x ∷ xs)
unfolding count_if insert
count_if-insert p x [] = refl
count_if-insert p x (y ∷ ys) = elim (Bool-cases (leb x y)) [
  | inl t ↦ rw t refl
  | inr t ↦ rw t (omega (arith, count_if-insert p x ys))
]

count_if-sort : (p : ℕ → Bool) (xs : List ℕ) → count_if p (sort xs) ≡ count_if p xs
unfolding count_if sort
count_if-sort p [] = refl
count_if-sort p (x ∷ xs) = omega (arith, count_if-insert p x (sort xs), count_if-sort p xs)

length-insert : (x : ℕ) (xs : List ℕ) → length (insert x xs) ≡ suc (length xs)
unfolding insert
length-insert x [] = refl
length-insert x (y ∷ ys) = elim (Bool-cases (leb x y)) [
  | inl t ↦ rw t refl
  | inr t ↦ rw t (ap suc (length-insert x ys))
]

length-sort : (xs : List ℕ) → length (sort xs) ≡ length xs
unfolding sort
length-sort [] = refl
length-sort (x ∷ xs) = omega (arith, length-insert x (sort xs), length-sort xs)

IsSorted : List ℕ → Type 0
IsSorted [] = Unit
IsSorted (x ∷ xs) = All (λ y. x ≤ y) xs × IsSorted xs

All-insert : (P : ℕ → Type 0) (x : ℕ) (xs : List ℕ) → P x → All P xs → All P (insert x xs)
unfolding insert
All-insert P x [] h a = (h, tt)
All-insert P x (y ∷ ys) h a = elim (Bool-cases (leb x y)) [
  | inl t ↦ rw t (h, a)
  | inr t ↦ rw t (a.0, All-insert P x ys h a.1)
]

insert-IsSorted : (x : ℕ) (xs : List ℕ) → IsSorted xs → IsSorted (insert x xs)
unfolding insert IsSorted
insert-IsSorted x [] s = (tt, tt)
insert-IsSorted x (y ∷ ys) s = elim (Bool-cases (leb x y)) [
  | inl t ↦ rw t (
    (
      leb→le x y t,
      All-map (λ z. y ≤ z) (λ z. x ≤ z) ys (λ z h. omega (arith, h, leb→le x y t)) s.0,
    ),
    s,
  )
  | inr t ↦ rw t (All-insert (λ z. y ≤ z) x ys (ground arith) s.0, insert-IsSorted x ys s.1)
]

sort-IsSorted : (xs : List ℕ) → IsSorted (sort xs)
unfolding sort IsSorted
sort-IsSorted [] = tt
sort-IsSorted (x ∷ xs) = insert-IsSorted x (sort xs) (sort-IsSorted xs)

-- The samples below a value, and those that are not above it.
abbrev pub below : ℕ → List ℕ → ℕ
below v = count_if (λ x. ltb x v)

abbrev pub up_to : ℕ → List ℕ → ℕ
up_to v = count_if (λ x. leb x v)

-- None is below a lower bound.
below-All : (v : ℕ) (xs : List ℕ) → All (λ y. v ≤ y) xs → below v xs ≡ 0
unfolding count_if
below-All v [] h = refl
below-All v (x ∷ xs) h = ground (arith, h.0, below-All v xs h.1)

All-get_elem? : (P : ℕ → Type 0) (xs : List ℕ) (i v : ℕ) → All P xs → get_elem? xs i ≡ some v → P v
All-get_elem? P [] i v h e = cc
All-get_elem? P (x ∷ xs) zero v h e = let k : x ≡ v = cc in rw k at h.0
All-get_elem? P (x ∷ xs) (suc i) v h e = All-get_elem? P xs i v h.1 e

-- The rank of an element of a sorted list.
sorted_rank :
    (xs : List ℕ) (i v : ℕ)
    → IsSorted xs
    → get_elem? xs i ≡ some v
    → (below v xs ≤ i) × (i < up_to v xs)
unfolding IsSorted count_if
sorted_rank [] i v s e = cc
sorted_rank (x ∷ xs) zero v s e =
    let k : x ≡ v = cc in
    let least : All (λ y. v ≤ y) xs = rw k at s.0 in ground (arith, k, below-All v xs least)
sorted_rank (x ∷ xs) (suc i) v s e =
    let le = All-get_elem? (λ y. x ≤ y) xs i v s.0 e in
    let (lt, ge) = sorted_rank xs i v s.1 e in ground (arith, le, lt, ge)

get_elem?-some : (xs : List ℕ) (i : ℕ) → i < length xs → (v : ℕ) × (get_elem? xs i ≡ some v)
get_elem?-some [] i h = elim h [ ]
get_elem?-some (x ∷ xs) zero h = (x, refl)
get_elem?-some (x ∷ xs) (suc i) h = get_elem?-some xs i (omega arith)

last-get_elem? : (x : ℕ) (xs : List ℕ) → last (x ∷ xs) ≡ get_elem? (x ∷ xs) (length xs)
unfolding last
last-get_elem? x [] = refl
last-get_elem? x (y ∷ ys) = last-get_elem? y ys

-- The element at a place of the sorted samples, and its rank among the samples.
sort_rank :
    (xs : List ℕ) (i : ℕ)
    → i < length xs
    → (v : ℕ) × (get_elem? (sort xs) i ≡ some v) × (below v xs ≤ i) × (i < up_to v xs)
sort_rank xs i h =
    let (v, e) = get_elem?-some (sort xs) i (omega (arith, length-sort xs)) in
    let (lt, ge) = sorted_rank (sort xs) i v (sort-IsSorted xs) e in
    (
      v,
      e,
      omega (arith, lt, count_if-sort (λ x. ltb x v) xs),
      omega (arith, ge, count_if-sort (λ x. leb x v) xs),
    )

last_at : (ys : List ℕ) (n : ℕ) → length ys ≡ suc n → last ys ≡ get_elem? ys n
last_at [] n h = absurd (omega (arith, h))
last_at (y ∷ ys) n h = let e : length ys ≡ n = omega (arith, h) in rw (← e) (last-get_elem? y ys)

module _ {F : Type 0} (s : Statistics F) where
  -- The report of any samples, of which there are some: no sample is below the reported minimum and
  -- one is not above it; one reaches the maximum and all are up to it; at most 95 percent are below
  -- the reported percentile, and more than 95 percent up to it. No index is out of range.
  pub summarise_latencies_lem :
      (x : ℕ) (xs : List ℕ)
      → let samples = x ∷ xs in
        (low p95 high : ℕ) × (mean median : F) × (summarise_latencies s samples
          ≡ ok (
              some (record {
                samples = length samples;
                mean_ms = mean;
                median_ms = median;
                p95_ms = s.shown p95;
                min_ms = s.shown low;
                max_ms = s.shown high;
              })))
        × (below low samples ≡ 0)
        × (1 ≤ up_to low samples)
        × (100 * below p95 samples ≤ 95 * length samples)
        × (95 * length samples < 100 * up_to p95 samples)
        × (below high samples < length samples)
        × (length samples ≤ up_to high samples)
  unfolding summarise_latencies
  summarise_latencies_lem x xs =
      let samples = x ∷ xs in
      let sorted = sort samples in
      let (low, at_low, l1, l2) = sort_rank samples 0 (omega arith) in
      let (p95, at_p95, p1, p2) = sort_rank samples (p95_index (length samples)) (omega arith) in
      let (high, at_high, h1, h2) = sort_rank samples (length xs) (omega arith) in
      let size = length-sort samples in
      (
        low,
        p95,
        high,
        s.fmean sorted,
        s.median sorted,
        (rw (size, at_p95, at_low, last_at sorted (length xs) size, at_high) refl),
        omega (arith, l1),
        l2,
        omega (arith, p1),
        omega (arith, p2),
        omega (arith, h1),
        omega (arith, h2),
      )

  -- Calls that were timed can be summarised.
  pub summarise_calls_some :
      (rate : F → F) (iterations : ℕ) (samples : List ℕ)
      → 1 ≤ length samples
      → (t : Timing F) × (summarise_calls s rate iterations samples ≡ ok t)
        × (t.iterations ≡ iterations)
  unfolding summarise_calls
  summarise_calls_some rate iterations [] h = absurd (omega arith)
  summarise_calls_some rate iterations (x ∷ xs) h =
      let samples = x ∷ xs in
      let (p95, at_p95, _, _) = sort_rank samples (p95_index (length samples)) (omega arith) in
      (
        record {
          iterations = iterations;
          mean_ms = s.fmean (sort samples);
          median_ms = s.median (sort samples);
          p95_ms = s.shown p95;
          ops_per_second = rate (s.median (sort samples));
        },
        (rw (length-sort samples, at_p95) refl),
        refl,
      )

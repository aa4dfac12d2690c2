-- ===== src/Duration/Derived.antt =====
-- What `derive` returns.
use ubu_orchestrator.Base.{
  ℕ, zero, suc, ◌+◌, ◌*◌, ◌≤◌, ◌<◌, max, min, true, false, List, [], ◌∷◌, ◌≡◌, ◌≢◌, refl, sym, ap,
  subst, ◌∙◌, ◌⊎◌, map, length, get_elem?, retain, ltb, leb, ◌==◌, All, arith, Bool-cases, inl, inr,
}
use ubu_orchestrator.Base.Int.{ℤ, pos, negsuc, ◌-ℤ◌, -ℤ_parts, pos_part, neg_part, ltb_ℤ}
use ubu_orchestrator.Base.Sort.{sort_by, length-sort_by, All-sort_by, IsSortedBy}
use ubu_orchestrator.Planning.Seats.{fixed, shifted_lognormal_p95}
use ubu_orchestrator.Duration.{
  Observation, usable, seconds, too_few_observations, DerivedDuration, Derivation, derived,
  untrusted, or_zero, percentile, summarize, enough, within_ceiling, derive,
}
use ubu_orchestrator.Duration.Ranks.{
  IsPercentile, at_most, below, at_most-sort_by, below-sort_by, percentile-half, percentile-p95,
  retain-sort_by, sorted, none_below,
}

abbrev max_i64 : ℕ
max_i64 = 9223372036854775807

-- The lengths of the observations that end after they start, as 64 signed bits hold them.
abbrev counts : ℤ → List ℕ → List ℕ
counts (pos zero) ns = ns
counts (pos (suc n)) ns = min (suc n) max_i64 ∷ ns
counts (negsuc n) ns = ns

abbrev pub worked : List Observation → List ℕ
worked [] = []
worked (o ∷ os) = counts (o.completed_at -ℤ o.started_at) (worked os)

worked-eq : (os : List Observation) → map seconds (retain usable os) ≡ worked os
unfolding usable seconds
worked-eq [] = refl
worked-eq (o ∷ os) = go (o.completed_at -ℤ o.started_at) refl (worked-eq os)
  where
    go :
        (d : ℤ)
        → o.completed_at -ℤ o.started_at ≡ d
        → map seconds (retain usable os) ≡ worked os
        → map seconds (retain usable (o ∷ os)) ≡ counts d (worked os)
    go (pos zero) e ih =
        let parts = -ℤ_parts o.completed_at o.started_at in
        let unusable : ltb_ℤ o.started_at o.completed_at ≡ false =
          ground (arith, parts, ap pos_part e, ap neg_part e) in
        rw unusable ih
    go (pos (suc n)) e ih =
        let parts = -ℤ_parts o.completed_at o.started_at in
        let works : ltb_ℤ o.started_at o.completed_at ≡ true =
          ground (arith, parts, ap pos_part e, ap neg_part e) in
        rw works (
          ap (λ x. min (pos_part x) max_i64 ∷ map seconds (retain usable os)) e
          ∙ ap (λ ns. min (suc n) max_i64 ∷ ns) ih)
    go (negsuc n) e ih =
        let parts = -ℤ_parts o.completed_at o.started_at in
        let unusable : ltb_ℤ o.started_at o.completed_at ≡ false =
          ground (arith, parts, ap pos_part e, ap neg_part e) in
        rw unusable ih

worked-bound : (os : List Observation) → All (λ n. n ≤ max_i64) (worked os)
worked-bound [] = tt
worked-bound (o ∷ os) = go (o.completed_at -ℤ o.started_at) (worked-bound os)
  where
    go :
        (d : ℤ) → All (λ n. n ≤ max_i64) (worked os) → All (λ n. n ≤ max_i64) (counts d (worked os))
    go (pos zero) h = h
    go (pos (suc n)) h = (omega arith, h)
    go (negsuc n) h = h

-- The least of the numbers: none is below it, and some is at most it.
abbrev pub IsLeast : ℕ → List ℕ → Type 0
IsLeast n xs = (below n xs ≡ 0) × (0 < at_most n xs)

-- The lengths of at most eight times the median.
abbrev pub near : ℕ → List ℕ → List ℕ
near median = retain (λ n. leb n (median * 8))

-- The numbers of an estimate, from the least, the median and the 95th percentile: one number where the
-- least and the percentile agree, and otherwise three that rise, each moved up as far as it must.
abbrev pub Estimates : ℕ → ℕ → ℕ → DerivedDuration → Type 0
Estimates least mode high d =
    (d.min_seconds ≡ least)
    × (((least ≡ high)
          × (d.mode_seconds ≡ mode)
          × (d.p95_seconds ≡ high)
          × (d.estimate ≡ fixed least))
        ⊎ ((least ≢ high)
            × (d.mode_seconds ≡ max mode (least + 1))
            × (d.p95_seconds ≡ max high (d.mode_seconds + 1))
            × (d.estimate ≡ shifted_lognormal_p95 least d.mode_seconds d.p95_seconds)))

abbrev pub Summarizes : List ℕ → DerivedDuration → Type 0
Summarizes kept d =
    (d.observations ≡ length kept)
    × ((least : ℕ) × (mode : ℕ) × (high : ℕ) × IsLeast least kept
        × IsPercentile mode kept 1 2
        × IsPercentile high kept 19 20
        × Estimates least mode high d)

-- What a derivation is, by the lengths of the usable observations.
abbrev pub IsDerivation : List ℕ → Derivation → Type 0
IsDerivation ns (untrusted (too_few_observations n)) =
    (n < 5)
    × ((n ≡ length ns)
        ⊎ ((5 ≤ length ns)
            × ((median : ℕ) × IsPercentile median ns 1 2 × (n ≡ length (near median ns)))))
IsDerivation ns (derived d) =
    (5 ≤ length ns)
    × ((median : ℕ) × IsPercentile median ns 1 2
        × (5 ≤ length (near median ns))
        × Summarizes (near median ns) d)

first-IsLeast :
    (xs : List ℕ) → IsSortedBy leb xs → 0 < length xs → IsLeast (or_zero (get_elem? xs 0)) xs
first-IsLeast [] s h = absurd (omega (arith, h))
first-IsLeast (x ∷ xs) s h = (ground (arith, none_below x x xs (omega arith) s.0), ground arith)

summarize-Estimates :
    (xs : List ℕ)
    → Estimates (or_zero (get_elem? xs 0)) (percentile xs 1 2) (percentile xs 19 20) (summarize xs)
      × ((summarize xs).observations ≡ length xs)
unfolding summarize
summarize-Estimates xs =
    let low = or_zero (get_elem? xs 0) in
    let high = percentile xs 19 20 in
    elim (Bool-cases (low == high)) [
      | inl e ↦ rw e ((refl, inl (ground (arith, e), refl, refl, refl)), refl)
      | inr e ↦ rw e ((refl, inr ((λ q. ground (arith, e, q)), refl, refl, refl)), refl)
    ]

-- The percentiles do not depend on the order.
unsorted :
    (n num den : ℕ) (xs : List ℕ)
    → IsPercentile n (sort_by leb xs) num den
    → IsPercentile n xs num den
unsorted n num den xs h =
    let l = length-sort_by leb xs in
    let a = at_most-sort_by n xs in
    let b = below-sort_by n xs in (rw (l, a) at h.0, rw (l, b) at h.1)

summarize-Summarizes :
    (kept : List ℕ) → 5 ≤ length kept → Summarizes kept (summarize (sort_by leb kept))
summarize-Summarizes kept h =
    let xs = sort_by leb kept in
    let l = length-sort_by leb kept in
    let long : 0 < length xs = omega (arith, h, l) in
    let s = sorted kept in
    let (shape, count) = summarize-Estimates xs in
    let least = first-IsLeast xs s long in
    (
      count ∙ l,
      (
        or_zero (get_elem? xs 0),
        percentile xs 1 2,
        percentile xs 19 20,
        (sym (below-sort_by _ kept) ∙ least.0, subst (λ n. 0 < n) (at_most-sort_by _ kept) least.1),
        unsorted _ 1 2 kept (percentile-half xs s long),
        unsorted _ 19 20 kept (percentile-p95 xs s long),
        shape,
      ),
    )

-- The ceiling never saturates for lengths of 63 bits.
saturated :
    (m : ℕ) (xs : List ℕ)
    → All (λ n. n ≤ max_i64) xs
    → retain (λ n. leb n (min (m * 8) 18446744073709551615)) xs ≡ near m xs
saturated m [] h = refl
saturated m (x ∷ xs) h =
    let same : leb x (min (m * 8) 18446744073709551615) ≡ leb x (m * 8) = ground (arith, h.0) in
    let rest = saturated m xs h.1 in
    elim (Bool-cases (leb x (m * 8))) [
      | inl e ↦ rw (same, e) (ap (λ ys. x ∷ ys) rest)
      | inr e ↦ rw (same, e) rest
    ]

within_ceiling-eq :
    (ns : List ℕ)
    → All (λ n. n ≤ max_i64) ns
    → within_ceiling (sort_by leb ns) ≡ sort_by leb (near (percentile (sort_by leb ns) 1 2) ns)
unfolding within_ceiling
within_ceiling-eq ns h =
    saturated (percentile (sort_by leb ns) 1 2) (sort_by leb ns)
      (All-sort_by leb (λ n. n ≤ max_i64) ns h)
    ∙ retain-sort_by _ ns

second_stage :
    (ns : List ℕ) (median : ℕ)
    → 5 ≤ length ns
    → IsPercentile median ns 1 2
    → IsDerivation ns (enough (sort_by leb (near median ns)) (λ kept. derived (summarize kept)))
second_stage ns median h p =
    let l = length-sort_by leb (near median ns) in
    elim (Bool-cases (ltb (length (sort_by leb (near median ns))) 5)) [
      | inl e ↦ rw e (ground (arith, e), inr (h, (median, p, l)))
      | inr e ↦
          let enough_kept : 5 ≤ length (near median ns) = ground (arith, e, l) in
          rw e (h, (median, p, enough_kept, summarize-Summarizes (near median ns) enough_kept))
    ]

both_stages :
    (ns : List ℕ)
    → All (λ n. n ≤ max_i64) ns
    → IsDerivation ns (
        enough ns
          (λ xs. enough (within_ceiling (sort_by leb xs)) (λ kept. derived (summarize kept))))
both_stages ns b = elim (Bool-cases (ltb (length ns) 5)) [
  | inl e ↦ rw e (ground (arith, e), inl refl)
  | inr e ↦
      let h : 5 ≤ length ns = ground (arith, e) in
      let long : 0 < length (sort_by leb ns) = omega (arith, h, length-sort_by leb ns) in
      let median = percentile (sort_by leb ns) 1 2 in
      let p = unsorted median 1 2 ns (percentile-half (sort_by leb ns) (sorted ns) long) in
      rw e (
        subst (λ xs. IsDerivation ns (enough xs (λ kept. derived (summarize kept))))
          (sym (within_ceiling-eq ns b)) (second_stage ns median h p))
]

-- A derivation needs five observations that end after they start, and five again after those longer
-- than eight times the median are dropped; if it has too few, the answer is how many. Otherwise it
-- counts those that are left, and its numbers are their least, their median and their 95th percentile:
-- one number where the least and the percentile agree, and otherwise three, moved up so that they
-- rise. (A percentile is the least length such that the fraction of the lengths is at most it; a length
-- is at most that of 63 bits.)
pub derive_lem :
    (observations : List Observation) → IsDerivation (worked observations) (derive observations)
unfolding derive
derive_lem observations =
    subst
      (λ ns. IsDerivation (worked observations) (
        enough ns
          (λ xs. enough (within_ceiling (sort_by leb xs)) (λ kept. derived (summarize kept)))))
      (sym (worked-eq observations)) (both_stages (worked observations) (worked-bound observations))

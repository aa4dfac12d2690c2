-- ===== src/Duration/Ranks.antt =====
-- Nearest-rank percentiles, described on a list in any order by how many of its numbers are below.
use ubu_orchestrator.Base.{
  ℕ, zero, suc, ◌+◌, ◌-◌, ◌*◌, ◌/◌, ◌≤◌, ◌<◌, min, Bool, true, some, List, [], ◌∷◌, ◌≡◌, refl, ap,
  ◌∙◌, length, get_elem?, retain, ltb, leb, All, All-map, All-retain, if◌then◌else◌, arith,
  Bool-cases, inl, inr,
}
use ubu_orchestrator.Base.Sort.{sort_by, place, IsSortedBy, sort_by-IsSortedBy}
use ubu_orchestrator.Duration.{or_zero, percentile}

-- How many of the numbers are at most `n`; how many are below it.
abbrev pub at_most : ℕ → List ℕ → ℕ
at_most n [] = 0
at_most n (x ∷ xs) = if leb x n then suc (at_most n xs) else at_most n xs

abbrev pub below : ℕ → List ℕ → ℕ
below n [] = 0
below n (x ∷ xs) = if ltb x n then suc (below n xs) else below n xs

-- The least number such that `num / den` of the list is at most it.
abbrev pub IsPercentile : ℕ → List ℕ → ℕ → ℕ → Type 0
IsPercentile n xs num den =
    (length xs * num ≤ at_most n xs * den) × (below n xs * den < length xs * num)

-- Counting does not depend on the order.
at_most-place : (n x : ℕ) (xs : List ℕ) → at_most n (place leb x xs) ≡ at_most n (x ∷ xs)
unfolding place
at_most-place n x [] = refl
at_most-place n x (y ∷ ys) = ground (arith, at_most-place n x ys)

pub at_most-sort_by : (n : ℕ) (xs : List ℕ) → at_most n (sort_by leb xs) ≡ at_most n xs
unfolding sort_by
at_most-sort_by n [] = refl
at_most-sort_by n (x ∷ xs) =
    ground (arith, at_most-place n x (sort_by leb xs), at_most-sort_by n xs)

below-place : (n x : ℕ) (xs : List ℕ) → below n (place leb x xs) ≡ below n (x ∷ xs)
unfolding place
below-place n x [] = refl
below-place n x (y ∷ ys) = ground (arith, below-place n x ys)

pub below-sort_by : (n : ℕ) (xs : List ℕ) → below n (sort_by leb xs) ≡ below n xs
unfolding sort_by
below-sort_by n [] = refl
below-sort_by n (x ∷ xs) = ground (arith, below-place n x (sort_by leb xs), below-sort_by n xs)

-- In a sorted list the number at a place has that many below it at the most, and more at most it.
pub none_below : (n x : ℕ) (xs : List ℕ) → n ≤ x → All (λ y. leb x y ≡ true) xs → below n xs ≡ 0
none_below n x [] h k = refl
none_below n x (y ∷ ys) h k = ground (arith, none_below n x ys h k.1)

below-le : (xs : List ℕ) (i n : ℕ) → IsSortedBy leb xs → get_elem? xs i ≡ some n → below n xs ≤ i
below-le [] i n s h = absurd (cc)
below-le (x ∷ xs) zero n s h = ground (arith, none_below x x xs (omega arith) s.0)
below-le (x ∷ xs) (suc i) n s h = ground (arith, below-le xs i n s.1 h)

above-first :
    (x : ℕ) (xs : List ℕ) (i n : ℕ) → All (λ y. leb x y ≡ true) xs → get_elem? xs i ≡ some n → x ≤ n
above-first x [] i n s h = absurd (cc)
above-first x (y ∷ ys) zero n s h = ground (arith, s.0)
above-first x (y ∷ ys) (suc i) n s h = above-first x ys i n s.1 h

at_most-gt :
    (xs : List ℕ) (i n : ℕ) → IsSortedBy leb xs → get_elem? xs i ≡ some n → i < at_most n xs
at_most-gt [] i n s h = absurd (cc)
at_most-gt (x ∷ xs) zero n s h = ground arith
at_most-gt (x ∷ xs) (suc i) n s h =
    ground (arith, at_most-gt xs i n s.1 h, above-first x xs i n s.0 h)

get_elem?-some : (xs : List ℕ) (i : ℕ) → i < length xs → (n : ℕ) × (get_elem? xs i ≡ some n)
get_elem?-some [] i h = absurd (omega (arith, h))
get_elem?-some (x ∷ xs) zero h = (x, refl)
get_elem?-some (x ∷ xs) (suc i) h = get_elem?-some xs i (omega (arith, h))

-- `percentile` of a sorted list that is not empty is the percentile, for the two fractions in use.
pub percentile-half :
    (xs : List ℕ) → IsSortedBy leb xs → 0 < length xs → IsPercentile (percentile xs 1 2) xs 1 2
unfolding percentile
percentile-half xs s h =
    let i = min ((length xs * 1 + (2 - 1)) / 2 - 1) (length xs - 1) in
    let (n, e) = get_elem?-some xs i (omega (arith, h)) in
    let value : or_zero (get_elem? xs i) ≡ n = ap or_zero e in
    rw value (omega (arith, h, at_most-gt xs i n s e), omega (arith, h, below-le xs i n s e))

pub percentile-p95 :
    (xs : List ℕ) → IsSortedBy leb xs → 0 < length xs → IsPercentile (percentile xs 19 20) xs 19 20
unfolding percentile
percentile-p95 xs s h =
    let i = min ((length xs * 19 + (20 - 1)) / 20 - 1) (length xs - 1) in
    let (n, e) = get_elem?-some xs i (omega (arith, h)) in
    let value : or_zero (get_elem? xs i) ≡ n = ap or_zero e in
    rw value (omega (arith, h, at_most-gt xs i n s e), omega (arith, h, below-le xs i n s e))

pub sorted : (xs : List ℕ) → IsSortedBy leb (sort_by leb xs)
sorted xs = sort_by-IsSortedBy leb (λ x y h. ground arith) (λ x y z h k. ground (arith, h, k)) xs

-- A sorted list keeps its order when numbers are taken out of it.
place-first : (x : ℕ) (xs : List ℕ) → All (λ y. leb x y ≡ true) xs → place leb x xs ≡ x ∷ xs
unfolding place
place-first x [] h = refl
place-first x (y ∷ ys) h = rw h.0 refl

retain-place :
    (p : ℕ → Bool) (x : ℕ) (xs : List ℕ)
    → IsSortedBy leb xs
    → retain p (place leb x xs) ≡ (if p x then place leb x (retain p xs) else retain p xs)
unfolding place
retain-place p x [] s = ground arith
retain-place p x (y ∷ ys) s =
    let upper : leb x y ≡ true → All (λ z. leb x z ≡ true) (retain p (y ∷ ys)) = (λ e.
      All-retain (λ z. leb x z ≡ true) p (y ∷ ys)
        (e, All-map _ _ (λ z k. ground (arith, e, k)) ys s.0)) in
    let first = (λ (e : leb x y ≡ true). place-first x (retain p (y ∷ ys)) (upper e)) in
    ground (arith, retain-place p x ys s.1, first)

pub retain-sort_by :
    (p : ℕ → Bool) (xs : List ℕ) → retain p (sort_by leb xs) ≡ sort_by leb (retain p xs)
unfolding sort_by
retain-sort_by p [] = refl
retain-sort_by p (x ∷ xs) =
    let here = retain-place p x (sort_by leb xs) (sorted xs) in
    elim (Bool-cases (p x)) [
      | inl e ↦ rw e ((rw e at here) ∙ ap (place leb x) (retain-sort_by p xs))
      | inr e ↦ rw e ((rw e at here) ∙ retain-sort_by p xs)
    ]

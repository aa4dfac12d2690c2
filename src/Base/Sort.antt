-- ===== src/Base/Sort.antt =====
-- Rust's stable `slice::sort_by`, over a Boolean order `le`, and what a sorted list is.
use mathlib.Core.Path.{◌≡◌, refl}
use mathlib.Core.Bool.{Bool, true, false}
use mathlib.Core.List.{List, [], ◌∷◌, Perm}
use mathlib.Core.List.Perm
use ubu_orchestrator.Base.Tests.{if◌then◌else◌, Bool-cases}
use ubu_orchestrator.Base.Lists.{All, Any, length}
use Prim.Native.Nat.{suc}
use native.Mathlib.Omega.{arith}
use mathlib.Core.Logic.{inl, inr}

-- Every element stands in the relation to each one after it.
abbrev pub Pairwise {ℓ} : {A : Type ℓ} → (A → A → Type 0) → List A → Type 0
Pairwise R [] = Unit
Pairwise R (x ∷ xs) = All (R x) xs × Pairwise R xs

module _ {ℓ} {A : Type ℓ} (le : A → A → Bool) where
  unfoldable pub place : A → List A → List A
  place x [] = x ∷ []
  place x (y ∷ ys) = let rest = place x ys in if le x y then x ∷ y ∷ ys else y ∷ rest

  unfoldable pub sort_by : List A → List A
  unfolding place
  sort_by [] = []
  sort_by (x ∷ xs) = place x (sort_by xs)

  abbrev pub IsSortedBy : List A → Type 0
  IsSortedBy [] = Unit
  IsSortedBy (x ∷ xs) = All (λ y. le x y ≡ true) xs × IsSortedBy xs

  pub place-perm : (x : A) (xs : List A) → Perm (place x xs) (x ∷ xs)
  unfolding place
  place-perm x [] = Perm.refl _
  place-perm x (y ∷ ys) = elim (Bool-cases (le x y)) [
    | inl e ↦ rw e (Perm.refl _)
    | inr e ↦ rw e (Perm.trans (Perm.cons y (place-perm x ys)) (Perm.swap x y ys))
  ]

  pub sort_by-perm : (xs : List A) → Perm (sort_by xs) xs
  unfolding sort_by
  sort_by-perm [] = Perm.refl _
  sort_by-perm (x ∷ xs) = Perm.trans (place-perm x (sort_by xs)) (Perm.cons x (sort_by-perm xs))

  length-place : (x : A) (xs : List A) → length (place x xs) ≡ suc (length xs)
  unfolding place
  length-place x [] = refl
  length-place x (y ∷ ys) = ground (arith, length-place x ys)

  pub length-sort_by : (xs : List A) → length (sort_by xs) ≡ length xs
  unfolding sort_by
  length-sort_by [] = refl
  length-sort_by (x ∷ xs) = omega (arith, length-place x (sort_by xs), length-sort_by xs)

  module _ {κ} (P : A → Type κ) where
    All-place : (x : A) (xs : List A) → P x → All P xs → All P (place x xs)
    unfolding place
    All-place x [] p h = (p, tt)
    All-place x (y ∷ ys) p h =
        let ih = All-place x ys p h.1 in
        elim (Bool-cases (le x y)) [ inl e ↦ rw e (p, h) | inr e ↦ rw e (h.0, ih) ]

    -- What holds of every item holds of every item of the sorted list, and back.
    pub All-sort_by : (xs : List A) → All P xs → All P (sort_by xs)
    unfolding sort_by
    All-sort_by [] h = tt
    All-sort_by (x ∷ xs) h = All-place x (sort_by xs) h.0 (All-sort_by xs h.1)

    All-of-place : (x : A) (xs : List A) → All P (place x xs) → P x × All P xs
    unfolding place
    All-of-place x [] h = (h.0, tt)
    All-of-place x (y ∷ ys) h = elim (Bool-cases (le x y)) [
      | inl e ↦ (rw e at h)
      | inr e ↦
          let g : All P (y ∷ place x ys) = rw e at h in
          let rest = All-of-place x ys g.1 in (rest.0, (g.0, rest.1))
    ]

    pub All-of-sort_by : (xs : List A) → All P (sort_by xs) → All P xs
    unfolding sort_by
    All-of-sort_by [] h = tt
    All-of-sort_by (x ∷ xs) h =
        let r = All-of-place x (sort_by xs) h in (r.0, All-of-sort_by xs r.1)

  module _ (P : A → Type 0) where
    Any-place : (x : A) (xs : List A) → Any P (x ∷ xs) → Any P (place x xs)
    unfolding place
    Any-place x [] h = h
    Any-place x (y ∷ ys) h = elim (Bool-cases (le x y)) [
      | inl e ↦ rw e h
      | inr e ↦ rw e (elim h [
        | inl p ↦ inr (Any-place x ys (inl p))
        | inr (inl q) ↦ inl q
        | inr (inr r) ↦ inr (Any-place x ys (inr r))
      ])
    ]

    -- An item of the list is an item of the sorted list.
    pub Any-sort_by : (xs : List A) → Any P xs → Any P (sort_by xs)
    unfolding sort_by
    Any-sort_by [] h = h
    Any-sort_by (x ∷ xs) (inl p) = Any-place x (sort_by xs) (inl p)
    Any-sort_by (x ∷ xs) (inr h) = Any-place x (sort_by xs) (inr (Any-sort_by xs h))

  module _ (R : A → A → Type 0) (flip : (a b : A) → R a b → R b a) where
    Pairwise-place : (x : A) (xs : List A) → All (R x) xs → Pairwise R xs → Pairwise R (place x xs)
    unfolding place
    Pairwise-place x [] h k = (tt, tt)
    Pairwise-place x (y ∷ ys) h k =
        let ih = Pairwise-place x ys h.1 k.1 in
        elim (Bool-cases (le x y)) [
          | inl e ↦ rw e (h, k)
          | inr e ↦ rw e (All-place (R y) x ys (flip x y h.0) k.0, ih)
        ]

    pub Pairwise-sort_by : (xs : List A) → Pairwise R xs → Pairwise R (sort_by xs)
    unfolding sort_by
    Pairwise-sort_by [] h = tt
    Pairwise-sort_by (x ∷ xs) h =
        Pairwise-place x (sort_by xs) (All-sort_by (R x) xs h.0) (Pairwise-sort_by xs h.1)

  module _ (total : (x y : A) → le x y ≡ false → le y x ≡ true)
      (trans : (x y z : A) → le x y ≡ true → le y z ≡ true → le x z ≡ true) where
    lower :
        (x y : A) (ys : List A)
        → le x y ≡ true
        → All (λ z. le y z ≡ true) ys
        → All (λ z. le x z ≡ true) ys
    lower x y [] h k = tt
    lower x y (z ∷ zs) h k = (trans x y z h k.0, lower x y zs h k.1)

    place-IsSortedBy : (x : A) (xs : List A) → IsSortedBy xs → IsSortedBy (place x xs)
    unfolding place
    place-IsSortedBy x [] h = (tt, tt)
    place-IsSortedBy x (y ∷ ys) h =
        let ih = place-IsSortedBy x ys h.1 in
        elim (Bool-cases (le x y)) [
          | inl e ↦ rw e ((e, lower x y ys e h.0), h)
          | inr e ↦ rw e (All-place (λ z. le y z ≡ true) x ys (total x y e) h.0, ih)
        ]

    pub sort_by-IsSortedBy : (xs : List A) → IsSortedBy (sort_by xs)
    unfolding sort_by
    sort_by-IsSortedBy [] = tt
    sort_by-IsSortedBy (x ∷ xs) = place-IsSortedBy x (sort_by xs) (sort_by-IsSortedBy xs)

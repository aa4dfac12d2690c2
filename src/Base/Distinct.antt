-- ===== src/Base/Distinct.antt =====
-- Lists of values with distinct keys: their reading by key does not depend on their order.
use mathlib.Core.Path.{◌≡◌, refl, sym, ap, ◌∙◌}
use mathlib.Core.Bool.{Bool, true, false, not}
use mathlib.Core.List.{List, [], ◌∷◌, ◌++◌}
use mathlib.Core.Option.{Option, none, some}
use mathlib.Core.Logic.{inl, inr}
use native.Mathlib.Omega.{arith}
use Prim.Native.Nat.{◌<◌, ◌≤◌}
use ubu_orchestrator.Base.Tests.{if◌then◌else◌, Bool-cases}
use ubu_orchestrator.Base.Lists.{All, Any, All-append, All-map, All-retain, retain, length}
use ubu_orchestrator.Base.Order.{Ord, lt-beq, beq_comm}
use ubu_orchestrator.Base.Sort.{Pairwise, place, sort_by, All-sort_by, Pairwise-sort_by}
use ubu_orchestrator.Base.TreeMap.{
  TreeMap, values, get, IsSorted, IsKeyed, Above, collect, collect-IsSorted, collect-IsKeyed,
  find_last, get-collect, collect_into, insert, All-insert,
}

module _ {ℓ κ} {K : Type ℓ} {V : Type κ} ⦃o : Ord K⦄ (key : V → K) where
  abbrev pub Differ : V → V → Type 0
  Differ a b = o.beq (key a) (key b) ≡ false

  abbrev pub Distinct : List V → Type 0
  Distinct = Pairwise Differ

  pub Differ-sym : (a b : V) → Differ a b → Differ b a
  Differ-sym a b h = beq_comm (key b) (key a) ∙ h

  Differ-values :
      (k : K) (v : V) (m : TreeMap K V)
      → o.beq k (key v) ≡ true
      → Above k m
      → IsKeyed key m
      → All (Differ v) (values m)
  Differ-values k v [] h a ks = tt
  Differ-values k v ((j, w) ∷ m) h a ks = (
    ground (arith, o.beq_iff k (key v), o.beq_iff j (key w), lt-beq k j a.0),
    Differ-values k v m h a.1 ks.1,
  )

  -- A map whose values stand at their own keys has values with distinct keys.
  pub values-Distinct : (m : TreeMap K V) → IsSorted m → IsKeyed key m → Distinct (values m)
  values-Distinct [] s ks = tt
  values-Distinct ((k, v) ∷ m) s ks =
      (Differ-values k v m ks.0 s.0 ks.1, values-Distinct m s.1 ks.1)

  -- The values of a map collected by key have distinct keys.
  pub values-collect-Distinct : (xs : List V) → Distinct (values (collect key xs))
  values-collect-Distinct xs =
      values-Distinct (collect key xs) (collect-IsSorted key xs) (collect-IsKeyed key xs)

  All-collect_into :
      (P : V → Type 0) (m : TreeMap K V) (xs : List V)
      → All (λ e. P e.1) m
      → All P xs
      → All (λ e. P e.1) (collect_into key m xs)
  unfolding collect_into
  All-collect_into P m [] h k = h
  All-collect_into P m (x ∷ xs) h k =
      All-collect_into P (insert (key x) x m) xs (All-insert (λ e. P e.1) (key x) x m k.0 h) k.1

  All-values : (P : V → Type 0) (m : TreeMap K V) → All (λ e. P e.1) m → All P (values m)
  All-values P [] h = tt
  All-values P (e ∷ m) h = (h.0, All-values P m h.1)

  -- What holds of every item holds of every value of the map that collects them.
  pub All-values-collect :
      (P : V → Type 0) (xs : List V) → All P xs → All P (values (collect key xs))
  unfolding collect
  All-values-collect P xs h = All-values P (collect_into key [] xs) (All-collect_into P [] xs tt h)

  find_last-place :
      (le : V → V → Bool) (j : K) (x : V) (xs : List V) (d : Option V)
      → All (Differ x) xs
      → find_last key j (place le x xs) d ≡ find_last key j (x ∷ xs) d
  unfolding place find_last
  find_last-place le j x [] d h = refl
  find_last-place le j x (y ∷ ys) d h = elim (Bool-cases (le x y)) [
    | inl e ↦ rw e
    | inr e ↦ rw e (
        find_last-place le j x ys (if o.beq (key y) j then some y else d) h.1
        ∙ ap (find_last key j ys) (swap h.0))
  ]
    where
      swap :
          o.beq (key x) (key y) ≡ false
          → (if o.beq (key x) j then some x else if o.beq (key y) j then some y else d)
            ≡ (if o.beq (key y) j then some y else if o.beq (key x) j then some x else d)
      swap n = ground (arith, o.beq_iff (key x) j, o.beq_iff (key y) j, o.beq_iff (key x) (key y))

  find_last-sort_by :
      (le : V → V → Bool) (j : K) (xs : List V) (d : Option V)
      → Distinct xs
      → find_last key j (sort_by le xs) d ≡ find_last key j xs d
  unfolding sort_by find_last
  find_last-sort_by le j [] d h = refl
  find_last-sort_by le j (x ∷ xs) d h =
      find_last-place le j x (sort_by le xs) d (All-sort_by le (Differ x) xs h.0)
      ∙ find_last-sort_by le j xs (if o.beq (key x) j then some x else d) h.1

  -- Sorting a list with distinct keys leaves what each key reads.
  pub get-collect-sort_by :
      (le : V → V → Bool) (j : K) (xs : List V)
      → Distinct xs
      → get j (collect key (sort_by le xs)) ≡ get j (collect key xs)
  get-collect-sort_by le j xs h =
      get-collect key j (sort_by le xs)
      ∙ find_last-sort_by le j xs none h
      ∙ sym (get-collect key j xs)

  pub sort_by-Distinct : (le : V → V → Bool) (xs : List V) → Distinct xs → Distinct (sort_by le xs)
  sort_by-Distinct le xs h = Pairwise-sort_by le Differ Differ-sym xs h

  pub retain-Distinct : (p : V → Bool) (xs : List V) → Distinct xs → Distinct (retain p xs)
  retain-Distinct p [] h = tt
  retain-Distinct p (x ∷ xs) h =
      let rest = retain-Distinct p xs h.1 in
      elim (Bool-cases (p x)) [
        | inl e ↦ rw e (All-retain (Differ x) p xs h.0, rest)
        | inr e ↦ rw e rest
      ]

  -- Every key of the one list differs from every key of the other.
  abbrev pub Apart : List V → List V → Type 0
  Apart xs ys = All (λ x. All (Differ x) ys) xs

  pub append-Distinct :
      (xs ys : List V) → Distinct xs → Distinct ys → Apart xs ys → Distinct (xs ++ ys)
  append-Distinct [] ys h k a = k
  append-Distinct (x ∷ xs) ys h k a =
      (All-append (Differ x) xs ys h.0 a.0, append-Distinct xs ys h.1 k a.1)

  -- `Iterator::partition`: the two parts of a list with distinct keys are apart.
  pub retain-Apart :
      (p : V → Bool) (xs : List V) → Distinct xs → Apart (retain p xs) (retain (λ x. not (p x)) xs)
  retain-Apart p [] h = tt
  retain-Apart p (x ∷ xs) h =
      let rest = retain-Apart p xs h.1 in
      let others = All-retain (Differ x) p xs h.0 in
      elim (Bool-cases (p x)) [
        | inl e ↦ rw e (All-retain (Differ x) (λ y. not (p y)) xs h.0, rest)
        | inr e ↦ rw e (add (retain p xs) (retain (λ y. not (p y)) xs) others rest)
      ]
    where
      add : (ys zs : List V) → All (Differ x) ys → Apart ys zs → Apart ys (x ∷ zs)
      add [] zs h a = tt
      add (y ∷ ys) zs h a = ((Differ-sym x y h.0, a.0), add ys zs h.1 a.1)

  -- Some item of the list has the key of `y`.
  abbrev pub HasKey : List V → V → Type 0
  HasKey xs y = Any (λ x. o.beq (key x) (key y) ≡ true) xs

  -- What is apart from a list is apart from a list of its keys.
  pub Apart-Any : (xs ys zs : List V) → All (HasKey xs) ys → Apart xs zs → Apart ys zs
  Apart-Any xs [] zs h a = tt
  Apart-Any xs (y ∷ ys) zs h a = (one xs h.0 a, Apart-Any xs ys zs h.1 a)
    where
      same : (x : V) → o.beq (key x) (key y) ≡ true → (z : V) → Differ x z → Differ y z
      same x e z n = ground (arith, o.beq_iff (key x) (key y))

      one :
          (xs : List V)
          → Any (λ x. o.beq (key x) (key y) ≡ true) xs
          → Apart xs zs
          → All (Differ y) zs
      one [] m a = elim m [ ]
      one (x ∷ xs) (inl e) a = All-map (Differ x) (Differ y) (same x e) zs a.0
      one (x ∷ xs) (inr m) a = one xs m a.1

  length-retain-le : (p : V → Bool) (xs : List V) → length (retain p xs) ≤ length xs
  length-retain-le p [] = omega arith
  length-retain-le p (x ∷ xs) = ground (arith, length-retain-le p xs)

  length-retain-lt :
      (y : V) (xs : List V)
      → HasKey xs y
      → length (retain (λ x. not (o.beq (key x) (key y))) xs) < length xs
  length-retain-lt y [] h = elim h [ ]
  length-retain-lt y (x ∷ xs) (inl e) =
      rw e (ground (arith, length-retain-le (λ x. not (o.beq (key x) (key y))) xs))
  length-retain-lt y (x ∷ xs) (inr h) = ground (arith, length-retain-lt y xs h)

  HasKey-retain :
      (y z : V) (xs : List V)
      → Differ y z
      → HasKey xs z
      → HasKey (retain (λ x. not (o.beq (key x) (key y))) xs) z
  HasKey-retain y z [] n h = h
  HasKey-retain y z (x ∷ xs) n (inl e) = rw (other e) (inl e)
    where
      other : o.beq (key x) (key z) ≡ true → o.beq (key x) (key y) ≡ false
      other e =
          ground
            (arith, o.beq_iff (key x) (key z), o.beq_iff (key x) (key y), o.beq_iff (key y) (key z))
  HasKey-retain y z (x ∷ xs) n (inr h) =
      let rest = HasKey-retain y z xs n h in
      elim (Bool-cases (o.beq (key x) (key y))) [ inl e ↦ rw e rest | inr e ↦ rw e (inr rest) ]

  HasKey-retain_all :
      (y : V) (xs ys : List V)
      → All (Differ y) ys
      → All (HasKey xs) ys
      → All (HasKey (retain (λ x. not (o.beq (key x) (key y))) xs)) ys
  HasKey-retain_all y xs [] n h = tt
  HasKey-retain_all y xs (z ∷ ys) n h =
      (HasKey-retain y z xs n.0 h.0, HasKey-retain_all y xs ys n.1 h.1)

  -- A list with distinct keys, all of them keys of another list, is no longer than that.
  pub length-le : (xs ys : List V) → Distinct ys → All (HasKey xs) ys → length ys ≤ length xs
  length-le xs [] d h = omega arith
  length-le xs (y ∷ ys) d h = omega (
    arith,
    length-retain-lt y xs h.0,
    length-le (retain (λ x. not (o.beq (key x) (key y))) xs) ys d.1
        (HasKey-retain_all y xs ys d.0 h.1),
  )

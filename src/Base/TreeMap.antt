-- ===== src/Base/TreeMap.antt =====
-- Rust's `BTreeMap<K, V>`: its entries in the order of their keys, each key once.
use mathlib.Core.Path.{◌≡◌, refl, ap, ◌∙◌}
use mathlib.Core.Bool.{Bool, true}
use mathlib.Core.List.{List, [], ◌∷◌, map}
use mathlib.Core.Option.{Option, none, some}
use mathlib.Core.Logic.{inl, inr}
use native.Mathlib.Omega.{arith}
use ubu_orchestrator.Base.Tests.{if◌then◌else◌, is_some, Bool-cases}
use ubu_orchestrator.Base.Lists.{All, retain}
use ubu_orchestrator.Base.Order.{Ord, lt-beq, beq_comm}

abbrev pub TreeMap {ℓ κ} : Type ℓ → Type κ → Type (ℓ ⊔ κ)
TreeMap K V = List (K × V)

module _ {ℓ κ} {K : Type ℓ} {V : Type κ} where
  abbrev pub values : TreeMap K V → List V
  values = map (λ e. e.1)

  abbrev pub keys : TreeMap K V → List K
  keys = map (λ e. e.0)

module _ {ℓ κ} {K : Type ℓ} {V : Type κ} ⦃o : Ord K⦄ where
  unfoldable pub get : K → TreeMap K V → Option V
  get k [] = none
  get k ((j, w) ∷ m) = if o.beq j k then some w else get k m

  unfoldable pub insert : K → V → TreeMap K V → TreeMap K V
  insert k v [] = (k, v) ∷ []
  insert k v ((j, w) ∷ m) =
      let rest = insert k v m in
      if o.beq j k then (k, v) ∷ m else if o.lt k j then (k, v) ∷ (j, w) ∷ m else (j, w) ∷ rest

  unfoldable pub remove : K → TreeMap K V → TreeMap K V
  remove k [] = []
  remove k ((j, w) ∷ m) = let rest = remove k m in if o.beq j k then rest else (j, w) ∷ rest

  abbrev pub contains_key : K → TreeMap K V → Bool
  contains_key k m = is_some (get k m)

  -- Every key lies above `k`; the keys ascend strictly.
  abbrev pub Above : K → TreeMap K V → Type 0
  Above k m = All (λ e. o.lt k e.0 ≡ true) m

  abbrev pub IsSorted : TreeMap K V → Type 0
  IsSorted [] = Unit
  IsSorted ((k, v) ∷ m) = Above k m × IsSorted m

  pub get-insert :
      (j k : K) (v : V) (m : TreeMap K V)
      → get j (insert k v m) ≡ (if o.beq k j then some v else get j m)
  unfolding get insert
  get-insert j k v [] = refl
  get-insert j k v ((i, w) ∷ m) =
      ground (arith, get-insert j k v m, o.beq_iff i k, o.beq_iff i j, o.beq_iff k j)

  pub get-remove :
      (j k : K) (m : TreeMap K V) → get j (remove k m) ≡ (if o.beq k j then none else get j m)
  unfolding get remove
  get-remove j k [] = ground arith
  get-remove j k ((i, w) ∷ m) =
      ground (arith, get-remove j k m, o.beq_iff i k, o.beq_iff i j, o.beq_iff k j)

  pub get-Above : (k : K) (m : TreeMap K V) → Above k m → get k m ≡ none
  unfolding get
  get-Above k [] h = refl
  get-Above k ((j, w) ∷ m) h = rw (beq_comm j k) (rw (lt-beq k j h.0) (get-Above k m h.1))

  Above-trans : (j k : K) (m : TreeMap K V) → o.lt j k ≡ true → Above k m → Above j m
  Above-trans j k [] h a = tt
  Above-trans j k ((i, w) ∷ m) h a = (o.lt_trans j k i h a.0, Above-trans j k m h a.1)

  -- What holds of every entry and of a new one holds after the insertion.
  pub All-insert :
      (P : K × V → Type 0) (k : K) (v : V) (m : TreeMap K V)
      → P (k, v)
      → All P m
      → All P (insert k v m)
  unfolding insert
  All-insert P k v [] p h = (p, tt)
  All-insert P k v ((j, w) ∷ m) p h =
      let ih = All-insert P k v m p h.1 in
      elim (Bool-cases (o.beq j k)) [
        | inl e ↦ rw e (p, h.1)
        | inr e ↦
            rw e (elim (Bool-cases (o.lt k j)) [
              | inl l ↦ rw l (p, (h.0, h.1))
              | inr l ↦ rw l (h.0, ih)
            ])
      ]

  pub All-remove : (P : K × V → Type 0) (k : K) (m : TreeMap K V) → All P m → All P (remove k m)
  unfolding remove
  All-remove P k [] h = tt
  All-remove P k ((j, w) ∷ m) h =
      let ih = All-remove P k m h.1 in
      elim (Bool-cases (o.beq j k)) [ inl e ↦ rw e ih | inr e ↦ rw e (h.0, ih) ]

  pub insert-IsSorted : (k : K) (v : V) (m : TreeMap K V) → IsSorted m → IsSorted (insert k v m)
  unfolding insert
  insert-IsSorted k v [] h = (tt, tt)
  insert-IsSorted k v ((j, w) ∷ m) h =
      let ih = insert-IsSorted k v m h.1 in
      elim (Bool-cases (o.beq j k)) [
        | inl e ↦ rw e (rw ((o.beq_iff j k).0 e) at h)
        | inr e ↦ rw e (elim (Bool-cases (o.lt k j)) [
          | inl l ↦ rw l ((l, Above-trans k j m l h.0), h)
          | inr l ↦ rw l (All-insert _ k v m (o.lt_total k j l (beq_comm k j ∙ e)) h.0, ih)
        ])
      ]

  pub remove-IsSorted : (k : K) (m : TreeMap K V) → IsSorted m → IsSorted (remove k m)
  unfolding remove
  remove-IsSorted k [] h = tt
  remove-IsSorted k ((j, w) ∷ m) h =
      let ih = remove-IsSorted k m h.1 in
      elim (Bool-cases (o.beq j k)) [ inl e ↦ rw e ih | inr e ↦ rw e (All-remove _ k m h.0, ih) ]

-- `Iterator::collect` into a map keyed by `key`: a later item replaces an earlier one.
module _ {ℓ κ} {K : Type ℓ} {V : Type κ} ⦃o : Ord K⦄ (key : V → K) where
  unfoldable pub collect_into : TreeMap K V → List V → TreeMap K V
  collect_into m [] = m
  collect_into m (x ∷ xs) = collect_into (insert (key x) x m) xs

  unfoldable pub collect : List V → TreeMap K V
  unfolding collect_into
  collect xs = collect_into [] xs

  -- Every value stands at its own key.
  abbrev pub IsKeyed : TreeMap K V → Type 0
  IsKeyed m = All (λ e. o.beq e.0 (key e.1) ≡ true) m

  -- The last item with the key, and `d` where there is none.
  unfoldable pub find_last : K → List V → Option V → Option V
  find_last j [] d = d
  find_last j (x ∷ xs) d = find_last j xs (if o.beq (key x) j then some x else d)

  pub find_last-retain :
      (p : K → Bool) (j : K) (xs : List V) (d : Option V)
      → find_last j (retain (λ x. p (key x)) xs) d ≡ (if p j then find_last j xs d else d)
  unfolding find_last
  find_last-retain p j [] d = ground arith
  find_last-retain p j (x ∷ xs) d =
      let take_it : Option V = if o.beq (key x) j then some x else d in
      let same : o.beq (key x) j ≡ true → p (key x) ≡ p j = λ h. ap p ((o.beq_iff (key x) j).0 h) in
      elim (Bool-cases (p (key x))) [
        | inl own ↦ rw own (find_last-retain p j xs take_it ∙ ground (arith, same))
        | inr other ↦ rw other (find_last-retain p j xs d ∙ ground (arith, same))
      ]

  collect_into-IsSorted :
      (m : TreeMap K V) (xs : List V) → IsSorted m → IsSorted (collect_into m xs)
  unfolding collect_into
  collect_into-IsSorted m [] h = h
  collect_into-IsSorted m (x ∷ xs) h =
      collect_into-IsSorted (insert (key x) x m) xs (insert-IsSorted (key x) x m h)

  collect_into-IsKeyed : (m : TreeMap K V) (xs : List V) → IsKeyed m → IsKeyed (collect_into m xs)
  unfolding collect_into
  collect_into-IsKeyed m [] h = h
  collect_into-IsKeyed m (x ∷ xs) h =
      collect_into-IsKeyed (insert (key x) x m) xs
        (All-insert _ (key x) x m ((o.beq_iff (key x) (key x)).1 refl) h)

  get-collect_into :
      (j : K) (m : TreeMap K V) (xs : List V) → get j (collect_into m xs) ≡ find_last j xs (get j m)
  unfolding collect_into find_last
  get-collect_into j m [] = refl
  get-collect_into j m (x ∷ xs) =
      get-collect_into j (insert (key x) x m) xs ∙ ap (find_last j xs) (get-insert j (key x) x m)

  pub collect-IsSorted : (xs : List V) → IsSorted (collect xs)
  unfolding collect
  collect-IsSorted xs = collect_into-IsSorted [] xs tt

  pub collect-IsKeyed : (xs : List V) → IsKeyed (collect xs)
  unfolding collect
  collect-IsKeyed xs = collect_into-IsKeyed [] xs tt

  pub get-collect : (j : K) (xs : List V) → get j (collect xs) ≡ find_last j xs none
  unfolding collect get
  get-collect j xs = get-collect_into j [] xs

  abbrev or_else : Option V → Option V → Option V
  or_else none d = d
  or_else (some v) d = some v

  find_last-values :
      (j : K) (m : TreeMap K V) (d : Option V)
      → IsSorted m
      → IsKeyed m
      → find_last j (values m) d ≡ or_else (get j m) d
  unfolding find_last get
  find_last-values j [] d s h = refl
  find_last-values j ((k, v) ∷ m) d s h =
      let ih = find_last-values j m (if o.beq (key v) j then some v else d) s.1 h.1 in
      let e : k ≡ key v = (o.beq_iff k (key v)).0 h.0 in
      elim (Bool-cases (o.beq k j)) [
        | inl hit ↦
            let above = get-Above k m s.0 in
            let kj : k ≡ j = (o.beq_iff k j).0 hit in ground (arith, ih, above, kj, e, hit)
        | inr miss ↦ ground (arith, ih, e, miss)
      ]

  -- The values of a map, collected again, are the same map to every reader.
  pub get-collect-values :
      (j : K) (m : TreeMap K V) → IsSorted m → IsKeyed m → get j (collect (values m)) ≡ get j m
  get-collect-values j m s h =
      get-collect j (values m) ∙ find_last-values j m none s h ∙ or_else_none (get j m)
    where
      or_else_none : (x : Option V) → or_else x none ≡ x
      or_else_none none = refl
      or_else_none (some v) = refl

module _ {ℓ κ} {K : Type ℓ} {V : Type κ} ⦃o : Ord K⦄ where
  skip_head :
      (k : K) (v : V) (m xs : TreeMap K V)
      → Above k xs
      → All (λ e. get e.0 m ≡ some e.1) xs
      → All (λ e. get e.0 ((k, v) ∷ m) ≡ some e.1) xs
  unfolding get
  skip_head k v m [] a h = tt
  skip_head k v m ((j, w) ∷ xs) a h = (rw (lt-beq k j a.0) h.0, skip_head k v m xs a.1 h.1)

  -- Every entry of a sorted map is what its key reads.
  pub All-get : (m : TreeMap K V) → IsSorted m → All (λ e. get e.0 m ≡ some e.1) m
  unfolding get
  All-get [] s = tt
  All-get ((k, v) ∷ m) s = (rw ((o.beq_iff k k).1 refl), skip_head k v m m s.0 (All-get m s.1))

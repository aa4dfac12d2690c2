-- ===== src/Calendar/Reconcile/Kinds.antt =====
-- What `classify` reports of an external id.
use ubu_orchestrator.Base.{
  String, str_eq, eq_iff, Bool, true, false, Option, none, some, List, [], ◌∷◌, ◌++◌, ◌≡◌, arith,
  if◌then◌else◌, All, Any, All-append, Any-left, Any-right, inl, inr, Bool-cases, eq_of_some,
  is_some, sym, ◌∙◌, Option-cases,
}
use ubu_orchestrator.Base.Order.{str_ord}
use ubu_orchestrator.Base.TreeMap.{
  get, IsKeyed, IsSorted, All-get, collect-IsSorted, collect-IsKeyed,
}
use ubu_orchestrator.Base.Sort.{All-sort_by, Any-sort_by}
use ubu_orchestrator.Calendar.Event.{DesiredEvent, same_managed_fields, Events, by_external_id}
use ubu_orchestrator.Calendar.Diff.{StringSet, contains}
use ubu_orchestrator.Calendar.Reconcile.{
  CalendarConflict, conflict, lost_at, lost, unowned_at, unowned, conflict_le, classify,
}

-- The kind of conflict of an id: from what UbU applied, what the calendar has, and whether the id
-- is that of a known Task.
abbrev pub kind : Option DesiredEvent → Option DesiredEvent → Bool → Option String
kind none none known = none
kind (some event) none known = some "missing"
kind (some event) (some current) known =
    if same_managed_fields current event then none else some "drifted"
kind none (some current) known = if known then some "unrecorded" else some "foreign"

abbrev pub kind_of : List DesiredEvent → List DesiredEvent → StringSet → String → Option String
kind_of applied observed known id =
    kind (get id (by_external_id applied)) (get id (by_external_id observed)) (contains known id)

abbrev Keyed : Events → Type 0
Keyed = IsKeyed (λ e. e.external_id)

abbrev Reads : Events → Events → Type 0
Reads whole = All (λ e. get e.0 whole ≡ some e.1)

-- A conflict of the given kind about the id.
abbrev pub IsReport : String → String → CalendarConflict → Type 0
IsReport id k c = (c.external_id ≡ id) × (c.conflict_type ≡ k)

module _ (a o : Events) (known created : StringSet) where
  abbrev Justified : CalendarConflict → Type 0
  Justified c =
      kind (get c.external_id a) (get c.external_id o) (contains known c.external_id)
      ≡ some c.conflict_type

  Justified-of :
      (id k : String) (c : CalendarConflict)
      → IsReport id k c
      → kind (get id a) (get id o) (contains known id) ≡ some k
      → Justified c
  Justified-of id k c r h = rw (r.0, r.1) h

  lost_at-Justified :
      (e : DesiredEvent) (x : Option DesiredEvent)
      → get e.external_id a ≡ some e
      → get e.external_id o ≡ x
      → All Justified (lost_at e x)
  unfolding lost_at conflict
  lost_at-Justified e none h p = ((rw (h, p)), tt)
  lost_at-Justified e (some current) h p = elim (Bool-cases (same_managed_fields current e)) [
    | inl q ↦ rw q tt
    | inr q ↦ rw q ((rw (h, p, q)), tt)
  ]

  lost-Justified : (part : Events) → Keyed part → Reads a part → All Justified (lost o part)
  unfolding lost
  lost-Justified [] k r = tt
  lost-Justified ((id, e) ∷ part) k r =
      let same : id ≡ e.external_id = (eq_iff id e.external_id).0 k.0 in
      All-append Justified (lost_at e (get id o)) (lost o part)
        (lost_at-Justified e (get id o) (rw same at r.0) (rw same)) (lost-Justified part k.1 r.1)

  unowned_at-Justified :
      (e : DesiredEvent) (x y z : Bool)
      → get e.external_id o ≡ some e
      → is_some (get e.external_id a) ≡ x
      → contains known e.external_id ≡ y
      → All Justified (unowned_at e x y z)
  unfolding unowned_at conflict
  unowned_at-Justified e true y z h p q = tt
  unowned_at-Justified e false true z h p q = (ground arith, tt)
  unowned_at-Justified e false false true h p q = (ground arith, tt)
  unowned_at-Justified e false false false h p q = (ground arith, tt)

  unowned-Justified :
      (part : Events) → Keyed part → Reads o part → All Justified (unowned a known created part)
  unfolding unowned
  unowned-Justified [] k r = tt
  unowned-Justified ((id, e) ∷ part) k r =
      let same : id ≡ e.external_id = (eq_iff id e.external_id).0 k.0 in
      All-append Justified
        (unowned_at e (is_some (get id a)) (contains known id) (contains created id))
        (unowned a known created part)
        (unowned_at-Justified e (is_some (get id a)) (contains known id) (contains created id)
          (rw same at r.0) (rw same) (rw same))
        (unowned-Justified part k.1 r.1)

  lost_at-reports :
      (id k : String) (f : DesiredEvent) (x : Option DesiredEvent)
      → f.external_id ≡ id
      → kind (some f) x (contains known id) ≡ some k
      → Any (IsReport id k) (lost_at f x)
  unfolding lost_at conflict
  lost_at-reports id k f none i q = inl (i, eq_of_some q)
  lost_at-reports id k f (some current) i q = elim (Bool-cases (same_managed_fields current f)) [
    | inl e ↦ let q' : none ≡ some k = rw e at q in cc
    | inr e ↦ let q' : some "drifted" ≡ some k = rw e at q in rw e (inl (i, eq_of_some q'))
  ]

  unowned_at-reports :
      (id k : String) (f : DesiredEvent) (x : Option DesiredEvent) (z : Bool)
      → f.external_id ≡ id
      → kind none (some f) (contains known id) ≡ some k
      → x ≡ none
      → Any (IsReport id k) (unowned_at f (is_some x) (contains known id) z)
  unfolding unowned_at conflict
  unowned_at-reports id k f x z i q p = rw p (elim (Bool-cases (contains known id)) [
    | inl e ↦ let q' : some "unrecorded" ≡ some k = rw e at q in rw e (inl (i, eq_of_some q'))
    | inr e ↦ let q' : some "foreign" ≡ some k = rw e at q in rw e (go z q')
  ])
    where
      go : (z : Bool) → some "foreign" ≡ some k → Any (IsReport id k) (unowned_at f false false z)
      go true q = inl (i, eq_of_some q)
      go false q = inl (i, eq_of_some q)

  -- A conflict that the maps give is in the list, from the loop that its kind belongs to.
  lost-reports :
      (id k : String) (part : Events) (e : DesiredEvent)
      → Keyed part
      → get id part ≡ some e
      → kind (some e) (get id o) (contains known id) ≡ some k
      → Any (IsReport id k) (lost o part)
  unfolding lost get
  lost-reports id k [] e ky h q = cc
  lost-reports id k ((j, f) ∷ part) e ky h q = elim (Bool-cases (str_eq j id)) [
    | inl hit ↦
        let ji : j ≡ id = (eq_iff j id).0 hit in
        let fe : f ≡ e = eq_of_some (rw hit at h) in
        Any-left (IsReport id k) (lost_at f (get j o)) (lost o part) (
          lost_at-reports id k f (get j o) ((sym ((eq_iff j f.external_id).0 ky.0)) ∙ ji)
            (rw (fe, ji) q))
    | inr miss ↦
        Any-right (IsReport id k) (lost_at f (get j o)) (lost o part)
          (lost-reports id k part e ky.1 (rw miss at h) q)
  ]

  unowned-reports :
      (id k : String) (part : Events) (f : DesiredEvent)
      → Keyed part
      → get id part ≡ some f
      → get id a ≡ none
      → kind none (some f) (contains known id) ≡ some k
      → Any (IsReport id k) (unowned a known created part)
  unfolding unowned get
  unowned-reports id k [] f ky h p q = cc
  unowned-reports id k ((j, g) ∷ part) f ky h p q = elim (Bool-cases (str_eq j id)) [
    | inl hit ↦
        let ij : id ≡ j = sym ((eq_iff j id).0 hit) in
        let gid : g.external_id ≡ j = sym ((eq_iff j g.external_id).0 ky.0) in
        Any-left (IsReport id k)
          (unowned_at g (is_some (get j a)) (contains known j) (contains created j))
          (unowned a known created part)
          (rw ij
            (unowned_at-reports j k g (get j a) (contains created j) gid (rw ij at q) (rw ij at p)))
    | inr miss ↦
        Any-right (IsReport id k)
          (unowned_at g (is_some (get j a)) (contains known j) (contains created j))
          (unowned a known created part) (unowned-reports id k part f ky.1 (rw miss at h) p q)
  ]

  reports :
      (id k : String)
      → IsSorted a
      → IsSorted o
      → Keyed a
      → Keyed o
      → kind (get id a) (get id o) (contains known id) ≡ some k
      → Any (IsReport id k) (lost o a ++ unowned a known created o)
  reports id k sa so ka ko h = elim (Option-cases (get id a)) [
    | inr (e, p) ↦
        Any-left (IsReport id k) (lost o a) (unowned a known created o)
          (lost-reports id k a e ka p (rw p at h))
    | inl p ↦ elim (Option-cases (get id o)) [
      | inl q ↦ let h' : none ≡ some k = rw (p, q) at h in cc
      | inr (e, q) ↦
          Any-right (IsReport id k) (lost o a) (unowned a known created o)
            (unowned-reports id k o e ko q p (rw (p, q) at h))
    ]
  ]

module _ (applied observed : List DesiredEvent) (known created : StringSet) where
  -- Every reported conflict is the one that its id's records give: `missing` or `drifted` for an
  -- applied id that the calendar lacks or holds with other managed fields, `unrecorded` or `foreign`
  -- for an observed id that was not applied, as its Task is known or not. An id whose records give
  -- no conflict is not reported.
  pub classify_sound :
      All
        (λ c. kind_of applied observed known c.external_id ≡ some c.conflict_type)
        (classify applied observed known created)
  unfolding classify by_external_id
  classify_sound =
      let a = by_external_id applied in
      let o = by_external_id observed in
      let ka = collect-IsKeyed (λ e. e.external_id) applied in
      let ko = collect-IsKeyed (λ e. e.external_id) observed in
      All-sort_by conflict_le (Justified a o known created) (lost o a ++ unowned a known created o)
        (All-append (Justified a o known created) (lost o a) (unowned a known created o)
          (lost-Justified a o known created a ka
            (All-get a (collect-IsSorted (λ e. e.external_id) applied)))
          (unowned-Justified a o known created o ko
            (All-get o (collect-IsSorted (λ e. e.external_id) observed))))

  -- Every conflict that the records of an id give is reported.
  pub classify_complete :
      (id k : String)
      → kind_of applied observed known id ≡ some k
      → Any (IsReport id k) (classify applied observed known created)
  unfolding classify by_external_id
  classify_complete id k h =
      let a = by_external_id applied in
      let o = by_external_id observed in
      Any-sort_by conflict_le (IsReport id k) (lost o a ++ unowned a known created o) (
        reports a o known created id k (collect-IsSorted (λ e. e.external_id) applied)
          (collect-IsSorted (λ e. e.external_id) observed)
          (collect-IsKeyed (λ e. e.external_id) applied)
          (collect-IsKeyed (λ e. e.external_id) observed) h)

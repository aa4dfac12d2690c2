-- ===== src/Planning/Segments/Contiguous.antt =====
-- What `expand_segment` makes of a carrier step.
use ubu_orchestrator.Base.{
  ℕ, ◌+◌, ◌≤◌, ◌<◌, String, true, false, Option, none, some, List, [], ◌∷◌, ◌≡◌, refl, sym, ap,
  subst, ◌∙◌, map, length, ltb, ◌==◌, arith,
}
use ubu_orchestrator.Base.Order.{str_ord}
use ubu_orchestrator.Base.TreeMap.{TreeMap}
use ubu_orchestrator.Errors.{ok-eq, Result, ok, err, >>=-eq-ok}
use ubu_orchestrator.Planning.Window.{checked_add, u64_size}
use ubu_orchestrator.Planning.Steps.{ScheduledTask}
use ubu_orchestrator.Planning.Segments.{
  TaskDisplay, CompiledSegment, expand_from, child, after, ends_at, expanded, expand_segment,
  is_scattered, total_seconds,
}

-- The steps fill the time from `t` to `u`, in order and without a gap, with these lengths.
abbrev pub Fills : ℕ → List ℕ → List ScheduledTask → ℕ → Type 0
Fills t [] [] u = t ≡ u
Fills t (n ∷ ns) (s ∷ ss) u = (s.start ≡ t) × (s.end ≡ t + n) × Fills s.end ns ss u
Fills t _ _ u = ⊥

checked_add-eq-some : (a b c : ℕ) → checked_add a b ≡ some c → c ≡ a + b
unfolding checked_add
checked_add-eq-some a b c h = ground arith

added : (o : Option ℕ) (a b c : ℕ) → checked_add a b ≡ o → after o ≡ ok c → c ≡ a + b
added none a b c e h = absurd (cc)
added (some x) a b c e h = sym (ok-eq h) ∙ checked_add-eq-some a b x e

module _ (timestamp_at : ℕ → Result String) (titles : TreeMap String TaskDisplay) where
  -- The lengths filled, and the children named.
  abbrev Filled : ℕ → List ℕ → List String → List ScheduledTask × ℕ → Type 0
  Filled cursor lengths ids r = Fills cursor lengths r.0 r.1 × (map (λ s. s.task_id) r.0 ≡ ids)

  expand_from-Filled :
      (step : ScheduledTask) (deps ids : List String) (lengths : List ℕ) (cursor : ℕ)
      (r : List ScheduledTask × ℕ)
      → length ids ≡ length lengths
      → expand_from timestamp_at titles step deps ids lengths cursor ≡ ok r
      → Filled cursor lengths ids r
  unfolding expand_from
  expand_from-Filled step deps [] [] cursor r l h =
      subst (Filled cursor [] []) (ok-eq h) (refl, refl)
  expand_from-Filled step deps [] (n ∷ ns) cursor r l h = absurd (omega (arith, l))
  expand_from-Filled step deps (id ∷ ids) [] cursor r l h = absurd (omega (arith, l))
  expand_from-Filled step deps (id ∷ ids) (n ∷ ns) cursor r l h =
      let a = >>=-eq-ok (after (checked_add cursor n)) _ h in
      let b = >>=-eq-ok (timestamp_at cursor) _ a.2 in
      let c = >>=-eq-ok (timestamp_at a.0) _ b.2 in
      let d = >>=-eq-ok (expand_from timestamp_at titles step (id ∷ []) ids ns a.0) _ c.2 in
      let rest = expand_from-Filled step (id ∷ []) ids ns a.0 d.0 (omega (arith, l)) d.1 in
      subst (Filled cursor (n ∷ ns) (id ∷ ids)) (ok-eq d.2) (
        (refl, added (checked_add cursor n) cursor n a.0 refl a.1, rest.0),
        ap (λ t. id ∷ t) rest.1,
      )

  -- Where a segment has a length for each member, the steps that its carrier expands into are of
  -- its members, in their order, and fill the carrier's time exactly: each starts where the one
  -- before it ends, with the member's length.
  pub expand_segment-Fills :
      (step : ScheduledTask) (segment : CompiledSegment) (children : List ScheduledTask)
      → length segment.members ≡ length segment.placement_seconds
      → expand_segment timestamp_at titles step (some segment) ≡ expanded children
      → Fills step.start segment.placement_seconds children step.end
        × (map (λ s. s.task_id) children ≡ segment.members)
  unfolding expand_segment
  expand_segment-Fills step segment children l h =
      go
        (expand_from timestamp_at titles step step.depends_on segment.members
          segment.placement_seconds step.start)
        refl h
    where
      go :
          (x : Result (List ScheduledTask × ℕ))
          → expand_from timestamp_at titles step step.depends_on segment.members
              segment.placement_seconds step.start
            ≡ x
          → ends_at step x ≡ expanded children
          → Filled step.start segment.placement_seconds segment.members (children, step.end)
      go (err e) p q = absurd (cc)
      go (ok (c, last)) p q =
          subst (Filled step.start segment.placement_seconds segment.members) (ends q) (
            expand_from-Filled step step.depends_on segment.members segment.placement_seconds
              step.start (c, last) l p)
        where
          pair :
              c ≡ children
              → last ≡ step.end
              → Path (List ScheduledTask × ℕ) (c, last) (children, step.end)
          pair a b = cc

          ends :
              ends_at step (ok (c, last)) ≡ expanded children
              → Path (List ScheduledTask × ℕ) (c, last) (children, step.end)
          ends q = pair (ground (arith, q)) (ground (arith, q))

  Fills-contiguous :
      (t u : ℕ) (ns : List ℕ) (ss : List ScheduledTask) → Fills t ns ss u → is_scattered ss ≡ false
  unfolding is_scattered
  Fills-contiguous t u [] [] f = refl
  Fills-contiguous t u [] (s ∷ ss) f = elim f [ ]
  Fills-contiguous t u (n ∷ ns) [] f = elim f [ ]
  Fills-contiguous t u (n ∷ []) (s ∷ []) f = refl
  Fills-contiguous t u (n ∷ m ∷ ns) (s ∷ []) f = refl
  Fills-contiguous t u (n ∷ []) (s ∷ s' ∷ ss) f = elim f.2 [ ]
  Fills-contiguous t u (n ∷ m ∷ ns) (s ∷ s' ∷ ss) f =
      ground (arith, f.2.0, Fills-contiguous s.end u (m ∷ ns) (s' ∷ ss) f.2)

  -- `scatter_guard`'s test passes a segment's expansion.
  pub expand_segment-contiguous :
      (step : ScheduledTask) (segment : CompiledSegment) (children : List ScheduledTask)
      → length segment.members ≡ length segment.placement_seconds
      → expand_segment timestamp_at titles step (some segment) ≡ expanded children
      → is_scattered children ≡ false
  expand_segment-contiguous step segment children l h =
      Fills-contiguous step.start step.end segment.placement_seconds children
        (expand_segment-Fills step segment children l h).0

  expand_from_total :
      (step : ScheduledTask) (deps ids : List String) (lengths : List ℕ) (cursor : ℕ)
      → length ids ≡ length lengths
      → cursor + total_seconds lengths < u64_size
      → ((n : ℕ) → n ≤ cursor + total_seconds lengths → (s : String) × (timestamp_at n ≡ ok s))
      → (children : List ScheduledTask) × (last : ℕ) × (expand_from timestamp_at titles step deps
            ids lengths cursor
          ≡ ok (children, last))
        × (last ≡ cursor + total_seconds lengths)
  unfolding expand_from total_seconds checked_add
  expand_from_total step deps [] [] cursor l b t = ([], cursor, refl, omega arith)
  expand_from_total step deps [] (n ∷ ns) cursor l b t = absurd (omega (arith, l))
  expand_from_total step deps (id ∷ ids) [] cursor l b t = absurd (omega (arith, l))
  expand_from_total step deps (id ∷ ids) (n ∷ ns) cursor l b t =
      let small : ltb (cursor + n) u64_size ≡ true = ground (arith, b) in
      let (here, at_here) = t cursor (omega arith) in
      let (there, at_there) = t (cursor + n) (omega arith) in
      let (children, last, e, q) =
        expand_from_total step (id ∷ []) ids ns (cursor + n) (omega (arith, l)) (omega (arith, b))
          (λ m h. t m (omega (arith, h))) in
      (
        child timestamp_at titles step deps id cursor (cursor + n) here there ∷ children,
        last,
        rw (small, at_here, at_there, e) refl,
        omega (arith, q),
      )

  -- Where a segment has a length for each member and the lengths sum to the carrier's, and every
  -- second up to the carrier's end has a timestamp and fits in 64 bits, the expansion neither
  -- overflows nor fails its assertion.
  pub expand_segment_total :
      (step : ScheduledTask) (segment : CompiledSegment)
      → length segment.members ≡ length segment.placement_seconds
      → step.start + total_seconds segment.placement_seconds ≡ step.end
      → step.end < u64_size
      → ((n : ℕ) → n ≤ step.end → (s : String) × (timestamp_at n ≡ ok s))
      → (children : List ScheduledTask) × (expand_segment timestamp_at titles step (some segment)
          ≡ expanded children)
  unfolding expand_segment
  expand_segment_total step segment l e b t =
      let (children, last, h, q) =
        expand_from_total step step.depends_on segment.members segment.placement_seconds step.start
          l (omega (arith, e, b)) (λ n k. t n (omega (arith, k, e))) in
      let same : (last == step.end) ≡ true = ground (arith, q, e) in (children, rw (h, same) refl)

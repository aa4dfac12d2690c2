-- ===== src/Planning/Window/Fit.antt =====
-- What `earliest_fit` finds.
use ubu_orchestrator.Base.{
  ℕ, ◌+◌, ◌≤◌, ◌<◌, max, min, true, false, Option, none, some, List, [], ◌∷◌, ◌≡◌, refl, ◌∙◌,
  retain, All, All-retain, arith, Bool-cases, inl, inr, ◌⊎◌,
}
use ubu_orchestrator.Base.Sort.{
  sort_by, All-sort_by, All-of-sort_by, IsSortedBy, sort_by-IsSortedBy,
}
use ubu_orchestrator.Planning.Window.{
  TimeWindow, u64_size, checked_add, span_before, scan, reaches, window_le, earliest_fit,
}

-- The two spans share no second.
abbrev pub IsClear : TimeWindow → TimeWindow → Type 0
IsClear r w = (r.end ≤ w.start) ⊎ (w.end ≤ r.start)

-- A span of the duration within the window, clear of everything that is occupied.
pub record IsFree (window : TimeWindow) (occupied : List TimeWindow) (duration : ℕ) (r : TimeWindow)
    : Type 0 where
  pub after : window.start ≤ r.start
  pub long : r.end ≡ r.start + duration
  pub before : r.end ≤ window.end
  pub clear : All (IsClear r) occupied

span_before-eq-some :
    (cursor duration limit : ℕ) (r : TimeWindow)
    → span_before cursor duration limit ≡ some r
    → (r.start ≡ cursor) × (r.end ≡ cursor + duration) × (r.end ≤ limit)
unfolding span_before checked_add
span_before-eq-some cursor duration limit r h = ground arith

span_before-eq-none :
    (cursor duration limit : ℕ)
    → span_before cursor duration limit ≡ none
    → limit < u64_size
    → limit < cursor + duration
unfolding span_before checked_add
span_before-eq-none cursor duration limit h k = ground arith

later :
    (r : TimeWindow) (c : ℕ) (x : TimeWindow) (xs : List TimeWindow)
    → r.end ≤ x.start
    → All (λ y. window_le x y ≡ true) xs
    → All (IsClear r) xs
later r c x [] h k = tt
later r c x (y ∷ ys) h k = (inl (ground (arith, k.0)), later r c x ys h k.1)

scan-eq-some :
    (window : TimeWindow) (duration cursor : ℕ) (xs : List TimeWindow) (r : TimeWindow)
    → IsSortedBy window_le xs
    → scan window duration cursor xs ≡ some r
    → (cursor ≤ r.start) × (r.end ≡ r.start + duration) × (r.end ≤ window.end) × All (IsClear r) xs
unfolding scan
scan-eq-some window duration cursor [] r s h =
    let k = span_before-eq-some cursor duration window.end r h in
    (omega (arith, k), omega (arith, k), k.2, tt)
scan-eq-some window duration cursor (x ∷ xs) r s h =
    go (scan-eq-some window duration (max cursor x.end) xs r s.1)
      (span_before cursor duration (min x.start window.end)) refl h
  where
    go :
        (scan window duration (max cursor x.end) xs ≡ some r
          → (max cursor x.end ≤ r.start)
            × (r.end ≡ r.start + duration)
            × (r.end ≤ window.end)
            × All (IsClear r) xs)
        → (o : Option TimeWindow) → span_before cursor duration (min x.start window.end) ≡ o
        → (elim o [ some w ↦ some w | none ↦ scan window duration (max cursor x.end) xs ]) ≡ some r
        → (cursor ≤ r.start)
          × (r.end ≡ r.start + duration)
          × (r.end ≤ window.end)
          × All (IsClear r) (x ∷ xs)
    go rec none e k =
        let ih = rec k in (omega (arith, ih.0), ih.1, ih.2, (inr (omega (arith, ih.0)), ih.3))
    go rec (some w) e k =
        let f = span_before-eq-some cursor duration (min x.start window.end) r (e ∙ k) in
        (
          omega (arith, f),
          omega (arith, f),
          omega (arith, f),
          (inl (omega (arith, f)), later r cursor x xs (omega (arith, f)) s.0),
        )

le_total : (x y : TimeWindow) → window_le x y ≡ false → window_le y x ≡ true
le_total x y h = ground arith

le_trans : (x y z : TimeWindow) → window_le x y ≡ true → window_le y z ≡ true → window_le x z ≡ true
le_trans x y z h k = ground arith

-- What the filter drops is clear of every span within the window.
dropped :
    (window r : TimeWindow) (xs : List TimeWindow)
    → window.start ≤ r.start
    → r.end ≤ window.end
    → All (IsClear r) (retain (reaches window) xs)
    → All (IsClear r) xs
dropped window r [] a b h = tt
dropped window r (x ∷ xs) a b h = elim (Bool-cases (reaches window x)) [
  | inl e ↦
      let g : All (IsClear r) (x ∷ retain (reaches window) xs) = rw e at h in
      (g.0, dropped window r xs a b g.1)
  | inr e ↦
      let g : All (IsClear r) (retain (reaches window) xs) = rw e at h in
      (ground arith, dropped window r xs a b g)
]

-- The span that `earliest_fit` finds lies in the window, has the duration asked for, and shares no
-- second with an occupied span, in whatever order and however overlapping those are given.
pub earliest_fit-IsFree :
    (window : TimeWindow) (occupied : List TimeWindow) (duration : ℕ) (r : TimeWindow)
    → earliest_fit window occupied duration ≡ some r
    → IsFree window occupied duration r
unfolding earliest_fit
earliest_fit-IsFree window occupied duration r h =
    let near = retain (reaches window) occupied in
    let f =
      scan-eq-some window duration window.start (sort_by window_le near) r
        (sort_by-IsSortedBy window_le le_total le_trans near) h in
    record {
      after = f.0;
      long = f.1;
      before = f.2;
      clear = dropped window r occupied f.0 f.2 (All-of-sort_by window_le (IsClear r) near f.3);
    }

scan_complete :
    (window : TimeWindow) (duration cursor : ℕ) (xs : List TimeWindow) (s : TimeWindow)
    → window.end < u64_size
    → cursor ≤ s.start
    → s.end ≡ s.start + duration
    → s.end ≤ window.end
    → All (IsClear s) xs
    → (r : TimeWindow) × (scan window duration cursor xs ≡ some r) × (r.start ≤ s.start)
unfolding scan
scan_complete window duration cursor [] s u a l b c =
    go (span_before cursor duration window.end) refl
  where
    go :
        (o : Option TimeWindow)
        → span_before cursor duration window.end ≡ o
        → (r : TimeWindow) × (o ≡ some r) × (r.start ≤ s.start)
    go none e = absurd (omega (arith, span_before-eq-none cursor duration window.end e u))
    go (some w) e = (w, refl, omega (arith, span_before-eq-some cursor duration window.end w e))
scan_complete window duration cursor (x ∷ xs) s u a l b c =
    go (λ below. scan_complete window duration (max cursor x.end) xs s u below l b c.1)
      (span_before cursor duration (min x.start window.end)) refl
  where
    go :
        (max cursor x.end ≤ s.start
          → (r : TimeWindow) × (scan window duration (max cursor x.end) xs ≡ some r)
            × (r.start ≤ s.start))
        → (o : Option TimeWindow) → span_before cursor duration (min x.start window.end) ≡ o
        → (r : TimeWindow) × ((elim o [
          | some w ↦ some w
          | none ↦ scan window duration (max cursor x.end) xs
        ])
            ≡ some r)
          × (r.start ≤ s.start)
    go rec none e =
        let f = span_before-eq-none cursor duration (min x.start window.end) e (omega arith) in
        rec (elim c.0 [ inl p ↦ absurd (omega (arith, f, p)) | inr p ↦ omega (arith, p) ])
    go rec (some w) e =
        (w, refl, omega (arith, span_before-eq-some cursor duration (min x.start window.end) w e))

-- Where the window ends within 64 bits and has a free span of the duration, `earliest_fit` finds
-- one, and it starts no later than that span.
pub earliest_fit_complete :
    (window : TimeWindow) (occupied : List TimeWindow) (duration : ℕ) (s : TimeWindow)
    → window.end < u64_size
    → IsFree window occupied duration s
    → (r : TimeWindow) × (earliest_fit window occupied duration ≡ some r) × (r.start ≤ s.start)
unfolding earliest_fit
earliest_fit_complete window occupied duration s u f =
    let near = retain (reaches window) occupied in
    scan_complete window duration window.start (sort_by window_le near) s u f.after f.long f.before
      (All-sort_by window_le (IsClear s) near
        (All-retain (IsClear s) (reaches window) occupied f.clear))

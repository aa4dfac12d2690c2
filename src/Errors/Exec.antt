-- ===== src/Errors/Exec.antt =====
-- Code that acts on a world and may return an error. What was done before the error stays done, so
-- the world comes back beside the error too.
use ubu_orchestrator.Base.{◌≡◌, refl, sym, ap, subst, ◌∙◌, ◌⊎◌, inl, inr}
use ubu_orchestrator.Errors.{AppError, Result, ok, err}

abbrev pub Exec {ℓ} : Type ℓ → Type ℓ → Type ℓ
Exec S A = S → S × Result A

module _ {ℓ} {S A : Type ℓ} where
  abbrev pub pure : A → Exec S A
  pure a s = (s, ok a)

  abbrev pub lift : Result A → Exec S A
  lift r s = (s, r)

  -- Checks that read the world and may refuse.
  abbrev pub check : (S → Result A) → Exec S A
  check f s = (s, f s)

  -- An action that returns no error, and one that only reads.
  abbrev pub total : (S → S × A) → Exec S A
  total f s = let (s', a) = f s in (s', ok a)

  abbrev pub reads : (S → A) → Exec S A
  reads f s = (s, ok (f s))

module _ {ℓ} {S A B : Type ℓ} where
  pub continue : Result A → (A → Exec S B) → Exec S B
  continue (ok a) f s = f a s
  continue (err e) f s = (s, err e)

  infixl 5 ◌>>=◌ ◌>>◌
  unfoldable pub ◌>>=◌ : Exec S A → (A → Exec S B) → Exec S B
  unfolding continue
  ◌>>=◌ m f s = let (s', r) = m s in continue r f s'

  abbrev pub ◌>>◌ : Exec S A → Exec S B → Exec S B
  m >> n = m >>= λ _. n

  -- A block that returned a value ran its first action to a value, and the rest from there.
  pub record Split (m : Exec S A) (f : A → Exec S B) (s s' : S) (b : B) : Type ℓ where
    pub value : A
    pub between : S
    pub fst_ok : m s ≡ (between, ok value)
    pub rest_ok : f value between ≡ (s', ok b)

  continue-ok :
      (m : Exec S A) (f : A → Exec S B) (s t s' : S) (r : Result A) (b : B)
      → m s ≡ (t, r)
      → continue r f t ≡ (s', ok b)
      → Split m f s s' b
  unfolding continue
  continue-ok m f s t s' (ok a) b e h = record { value = a; between = t; fst_ok = e; rest_ok = h }
  continue-ok m f s t s' (err x) b e h = absurd (cc)

  pub bind-ok :
      (m : Exec S A) (f : A → Exec S B) (s s' : S) (b : B)
      → (m >>= f) s ≡ (s', ok b)
      → Split m f s s' b
  unfolding ◌>>=◌
  bind-ok m f s s' b h = continue-ok m f s (m s).0 s' (m s).1 b refl h

  -- The same, where the first action is a check that reads the world.
  pub check-ok :
      (g : S → Result A) (f : A → Exec S B) (s s' : S) (b : B)
      → (check g >>= f) s ≡ (s', ok b)
      → (a : A) × (g s ≡ ok a) × (f a s ≡ (s', ok b))
  check-ok g f s s' b h =
      let split = bind-ok (check g) f s s' b h in
      let still : s ≡ split.between = ap (λ x. x.0) split.fst_ok in
      (split.value, ap (λ x. x.1) split.fst_ok, ap (f split.value) still ∙ split.rest_ok)

module _ {ℓ} {S A B : Type ℓ} where
  -- A block whose first action returns a value goes on from there.
  pub bind-run :
      (m : Exec S A) (f : A → Exec S B) (s t : S) (a : A) → m s ≡ (t, ok a) → (m >>= f) s ≡ f a t
  unfolding ◌>>=◌ continue
  bind-run m f s t a h = ap (λ x. continue x.1 f x.0) h

  -- A block that returned an error got it from its first action, or from the rest.
  abbrev pub Failed : Exec S A → (A → Exec S B) → S → S → AppError → Type ℓ
  Failed m f s s' e =
      (m s ≡ (s', err e)) ⊎ ((a : A) × (t : S) × (m s ≡ (t, ok a)) × (f a t ≡ (s', err e)))

  continue-err :
      (m : Exec S A) (f : A → Exec S B) (s t s' : S) (r : Result A) (e : AppError)
      → m s ≡ (t, r)
      → continue r f t ≡ (s', err e)
      → Failed m f s s' e
  unfolding continue
  continue-err m f s t s' (ok a) e q h = inr (a, t, q, h)
  continue-err m f s t s' (err x) e q h = inl (cc)

  pub bind-err :
      (m : Exec S A) (f : A → Exec S B) (s s' : S) (e : AppError)
      → (m >>= f) s ≡ (s', err e)
      → Failed m f s s' e
  unfolding ◌>>=◌
  bind-err m f s s' e h = continue-err m f s (m s).0 s' (m s).1 e refl h

-- A view of the world that an action leaves alone, whether it returns a value or an error.
abbrev pub Fixes {ℓ} : {S A T : Type ℓ} → (S → T) → Exec S A → Type ℓ
Fixes {S} view m = (s : S) → view (m s).0 ≡ view s

module _ {ℓ κ} {S A B : Type ℓ} (Q : S → Type κ) where
  continue-holds :
      (m : Exec S A) (f : A → Exec S B) (s t : S) (r : Result A)
      → m s ≡ (t, r)
      → Q t
      → ((u : S) (a : A) → m s ≡ (u, ok a) → Q (f a u).0)
      → Q (continue r f t).0
  unfolding continue
  continue-holds m f s t (ok a) e q k = k t a e
  continue-holds m f s t (err x) e q k = q

  -- What holds of the world after a block, by what its first action did.
  pub bind-holds :
      (m : Exec S A) (f : A → Exec S B) (s : S)
      → Q (m s).0
      → ((u : S) (a : A) → m s ≡ (u, ok a) → Q (f a u).0)
      → Q ((m >>= f) s).0
  unfolding ◌>>=◌
  bind-holds m f s q k = continue-holds m f s (m s).0 (m s).1 refl q k

  -- The same, where the first action leaves the world alone.
  pub bind-reads :
      (m : Exec S A) (f : A → Exec S B) (s : S)
      → Fixes (λ t. t) m
      → Q s
      → ((a : A) → m s ≡ (s, ok a) → Q (f a s).0)
      → Q ((m >>= f) s).0
  bind-reads m f s fixes q k = bind-holds m f s (subst Q (sym (fixes s)) q) λ u a e.
      let still : s ≡ u = sym (fixes s) ∙ ap (λ x. x.0) e in
      subst (λ t. Q (f a t).0) still (k a (subst (λ t. m s ≡ (t, ok a)) (sym still) e))

module _ {ℓ} {S A B T : Type ℓ} (view : S → T) where
  Fixes-continue :
      (f : A → Exec S B) (s t : S) (r : Result A)
      → ((a : A) → Fixes view (f a))
      → view t ≡ view s
      → view (continue r f t).0 ≡ view s
  unfolding continue
  Fixes-continue f s t (ok a) kf h = kf a t ∙ h
  Fixes-continue f s t (err e) kf h = h

  pub Fixes-bind :
      (m : Exec S A) (f : A → Exec S B)
      → Fixes view m
      → ((a : A) → Fixes view (f a))
      → Fixes view (m >>= f)
  unfolding ◌>>=◌
  Fixes-bind m f km kf s = Fixes-continue f s (m s).0 (m s).1 kf (km s)

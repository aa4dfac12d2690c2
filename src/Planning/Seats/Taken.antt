-- ===== src/Planning/Seats/Taken.antt =====
-- `position` and `remove`: the task that a round takes, and the tests on dependencies.
use mathlib.Core.List.{Perm}
use mathlib.Core.List.Perm
use ubu_orchestrator.Base.{
  suc, String, Bool, true, false, Option, none, some, List, [], ◌∷◌, ◌≡◌, refl, ap, subst, length,
  All, Any, any, all, if◌then◌else◌, arith, Bool-cases, inl, inr,
}
use ubu_orchestrator.Base.Order.{str_ord}
use ubu_orchestrator.Planning.Seats.{TaskSpec, take_first}
use ubu_orchestrator.Planning.Seats.Decisions.{Fits}

-- The task that is taken, and the others.
pub record Taken (p : TaskSpec → Bool) (tasks : List TaskSpec) (x : TaskSpec × List TaskSpec)
    : Type 0 where
  pub holds : p x.0 ≡ true
  pub perm : Perm (x.0 ∷ x.1) tasks
  pub long : length tasks ≡ suc (length x.1)
  pub fits : All Fits tasks → All Fits (x.0 ∷ x.1)

pub take_first-some :
    (p : TaskSpec → Bool) (tasks : List TaskSpec) (x : TaskSpec × List TaskSpec)
    → take_first p tasks ≡ some x
    → Taken p tasks x
unfolding take_first
take_first-some p [] x h = absurd (cc)
take_first-some p (t ∷ tasks) x h =
    go (take_first-some p tasks) (p t) refl (take_first p tasks) refl h
  where
    got : {a b : TaskSpec × List TaskSpec} → some a ≡ some b → a ≡ b
    got h = cc

    later : (y : TaskSpec × List TaskSpec) → Taken p tasks y → Taken p (t ∷ tasks) (y.0, t ∷ y.1)
    later y k = record {
      holds = k.holds;
      perm = Perm.trans (Perm.swap t y.0 y.1) (Perm.cons t k.perm);
      long = ap suc k.long;
      fits = λ f. let g = k.fits f.1 in (g.0, (f.0, g.1));
    }

    go :
        ((y : TaskSpec × List TaskSpec) → take_first p tasks ≡ some y → Taken p tasks y)
        → (b : Bool) → p t ≡ b
        → (o : Option (TaskSpec × List TaskSpec)) → take_first p tasks ≡ o
        → (if b
            then some (t, tasks)
            else elim o [ none ↦ none | some (found, others) ↦ some (found, t ∷ others) ])
          ≡ some x
        → Taken p (t ∷ tasks) x
    go rec true q o e k =
        subst (Taken p (t ∷ tasks)) (got k)
          (record { holds = q; perm = Perm.refl _; long = refl; fits = λ f. f })
    go rec false q none e k = absurd (cc)
    go rec false q (some y) e k = subst (Taken p (t ∷ tasks)) (got k) (later y (rec y e))

pub take_first-none :
    (p : TaskSpec → Bool) (tasks : List TaskSpec)
    → take_first p tasks ≡ none
    → All (λ t. p t ≡ false) tasks
unfolding take_first
take_first-none p [] h = tt
take_first-none p (t ∷ tasks) h =
    go (take_first-none p tasks) (p t) refl (take_first p tasks) refl h
  where
    go :
        (take_first p tasks ≡ none → All (λ t. p t ≡ false) tasks)
        → (b : Bool) → p t ≡ b
        → (o : Option (TaskSpec × List TaskSpec)) → take_first p tasks ≡ o
        → if◌then◌else◌ {A = Option (TaskSpec × List TaskSpec)} b
            (some (t, tasks))
            (elim o [ none ↦ none | some (found, others) ↦ some (found, t ∷ others) ])
          ≡ none
        → All (λ t. p t ≡ false) (t ∷ tasks)
    go rec true q o e k = absurd (cc)
    go rec false q none e k = (q, rec e)
    go rec false q (some y) e k = absurd (cc)

pub any-Any : (p : String → Bool) (xs : List String) → any p xs ≡ true → Any (λ x. p x ≡ true) xs
any-Any p [] h = cc
any-Any p (x ∷ xs) h = elim (Bool-cases (p x)) [
  | inl e ↦ inl e
  | inr e ↦ inr (any-Any p xs (rw e at h))
]

pub any-none : (p : String → Bool) (xs : List String) → any p xs ≡ false → All (λ x. p x ≡ false) xs
any-none p [] h = tt
any-none p (x ∷ xs) h = (ground arith, any-none p xs (ground arith))

pub all-false :
    (p : String → Bool) (xs : List String) → all p xs ≡ false → Any (λ x. p x ≡ false) xs
all-false p [] h = cc
all-false p (x ∷ xs) h = elim (Bool-cases (p x)) [
  | inr e ↦ inl e
  | inl e ↦ inr (all-false p xs (rw e at h))
]

pub Any-map :
    (P Q : String → Type 0) → ((x : String) → P x → Q x) → (xs : List String) → Any P xs → Any Q xs
Any-map P Q f [] h = h
Any-map P Q f (x ∷ xs) (inl h) = inl (f x h)
Any-map P Q f (x ∷ xs) (inr h) = inr (Any-map P Q f xs h)

pub all→ : (p : String → Bool) (xs : List String) → all p xs ≡ true → All (λ x. p x ≡ true) xs
all→ p [] h = tt
all→ p (x ∷ xs) h = (ground arith, all→ p xs (ground arith))

-- ===== src/Base/Order.antt =====
-- The bound `K: Ord` of Rust's ordered collections, and its instances for numbers and texts.
use Prim.Native.Nat.{ℕ, Ordering, compare as compare_ℕ}
use Prim.Native.Char.{code}
use Prim.Native.String.{String}
use Prim.Native.String
use Prim.Native.String.compare
use mathlib.Core.Path.{◌≡◌, sym, ap, ◌∙◌}
use mathlib.Core.Logic.{◌↔◌, inl, inr}
use mathlib.Core.Bool.{Bool, true, false, ◌&&◌, ◌||◌, false≢true, true≢false}
use native.Mathlib.Omega.{arith}
use text.Mathlib.Text.{◌==◌ as str_eq, is_lt, is_eq}
use text.Mathlib.TextEquality.{eq_iff}
use text.Mathlib.TextPositions.{compare_refl}
use ubu_orchestrator.Base.Tests.{ltb, ◌==◌, Bool-cases}

pub record Ord {ℓ} (K : Type ℓ) : Type ℓ where
  pub beq : K → K → Bool
  pub lt : K → K → Bool
  pub beq_iff : (a b : K) → (beq a b ≡ true) ↔ (a ≡ b)
  pub lt_irrefl : (a : K) → lt a a ≡ false
  pub lt_trans : (a b c : K) → lt a b ≡ true → lt b c ≡ true → lt a c ≡ true
  pub lt_total : (a b : K) → lt a b ≡ false → beq a b ≡ false → lt b a ≡ true

pub ℕ-beq_iff : (a b : ℕ) → ((a == b) ≡ true) ↔ (a ≡ b)
ℕ-beq_iff a b = ground arith

pub ltb_irrefl : (a : ℕ) → ltb a a ≡ false
ltb_irrefl a = ground arith

pub ltb_trans : (a b c : ℕ) → ltb a b ≡ true → ltb b c ≡ true → ltb a c ≡ true
ltb_trans a b c h k = ground arith

pub ltb_total : (a b : ℕ) → ltb a b ≡ false → (a == b) ≡ false → ltb b a ≡ true
ltb_total a b h k = ground arith

instance abbrev pub nat_ord : Ord ℕ
nat_ord = record {
  beq = ◌==◌;
  lt = ltb;
  beq_iff = ℕ-beq_iff;
  lt_irrefl = ltb_irrefl;
  lt_trans = ltb_trans;
  lt_total = ltb_total;
}

-- Texts are ordered by their characters' code points, which is the order of their UTF-8 bytes.
unfoldable pub str_lt : String → String → Bool
str_lt s t = is_lt (String.compare s t)

lex_trans :
    (a b c : ℕ) (r s t : Ordering)
    → (is_lt r ≡ true → is_lt s ≡ true → is_lt t ≡ true)
    → is_lt (String.then (compare_ℕ a b) r) ≡ true
    → is_lt (String.then (compare_ℕ b c) s) ≡ true
    → is_lt (String.then (compare_ℕ a c) t) ≡ true
lex_trans a b c r s t f h k = ground arith

lex_total :
    (a b : ℕ) (r s : Ordering)
    → (is_lt r ≡ false → is_eq r ≡ false → is_lt s ≡ true)
    → is_lt (String.then (compare_ℕ a b) r) ≡ false
    → is_eq (String.then (compare_ℕ a b) r) ≡ false
    → is_lt (String.then (compare_ℕ b a) s) ≡ true
lex_total a b r s f h k = ground arith

pub str_lt_irrefl : (s : String) → str_lt s s ≡ false
unfolding str_lt
str_lt_irrefl s = rw (compare_refl s)

pub str_lt_trans : (s t u : String) → str_lt s t ≡ true → str_lt t u ≡ true → str_lt s u ≡ true
unfolding str_lt
str_lt_trans String.[] String.[] u h k = absurd (false≢true (ap is_lt (sym compare.nil-nil) ∙ h))
str_lt_trans String.[] (String.◌∷◌ d t) String.[] h k =
    absurd (false≢true (ap is_lt (sym (compare.cons-nil d t)) ∙ k))
str_lt_trans String.[] (String.◌∷◌ d t) (String.◌∷◌ e u) h k = ap is_lt (compare.nil-cons e u)
str_lt_trans (String.◌∷◌ c s) String.[] u h k =
    absurd (false≢true (ap is_lt (sym (compare.cons-nil c s)) ∙ h))
str_lt_trans (String.◌∷◌ c s) (String.◌∷◌ d t) String.[] h k =
    absurd (false≢true (ap is_lt (sym (compare.cons-nil d t)) ∙ k))
str_lt_trans (String.◌∷◌ c s) (String.◌∷◌ d t) (String.◌∷◌ e u) h k =
    ap is_lt (compare.cons-cons c e s u)
    ∙ lex_trans (code c) (code d) (code e) (String.compare s t) (String.compare t u)
        (String.compare s u) (str_lt_trans s t u) (ap is_lt (sym (compare.cons-cons c d s t)) ∙ h)
        (ap is_lt (sym (compare.cons-cons d e t u)) ∙ k)

pub str_lt_total : (s t : String) → str_lt s t ≡ false → str_eq s t ≡ false → str_lt t s ≡ true
unfolding str_lt
str_lt_total String.[] String.[] h k = absurd (true≢false (ap is_eq (sym compare.nil-nil) ∙ k))
str_lt_total String.[] (String.◌∷◌ d t) h k =
    absurd (true≢false (ap is_lt (sym (compare.nil-cons d t)) ∙ h))
str_lt_total (String.◌∷◌ c s) String.[] h k = ap is_lt (compare.nil-cons c s)
str_lt_total (String.◌∷◌ c s) (String.◌∷◌ d t) h k =
    ap is_lt (compare.cons-cons d c t s)
    ∙ lex_total (code c) (code d) (String.compare s t) (String.compare t s) (str_lt_total s t)
        (ap is_lt (sym (compare.cons-cons c d s t)) ∙ h)
        (ap is_eq (sym (compare.cons-cons c d s t)) ∙ k)

instance abbrev pub str_ord : Ord String
str_ord = record {
  beq = str_eq;
  lt = str_lt;
  beq_iff = eq_iff;
  lt_irrefl = str_lt_irrefl;
  lt_trans = str_lt_trans;
  lt_total = str_lt_total;
}

module _ {ℓ} {K : Type ℓ} ⦃o : Ord K⦄ where
  pub lt-beq : (j k : K) → o.lt j k ≡ true → o.beq j k ≡ false
  lt-beq j k h = elim (Bool-cases (o.beq j k)) [
    | inl e ↦ absurd (false≢true (sym (o.lt_irrefl k) ∙ (rw ((o.beq_iff j k).0 e) at h)))
    | inr e ↦ e
  ]

  pub beq_comm : (j k : K) → o.beq j k ≡ o.beq k j
  beq_comm j k = ground (arith, o.beq_iff j k, o.beq_iff k j)

-- Pairs compare lexicographically, as Rust's tuples do.
module _ {ℓ κ} {A : Type ℓ} {B : Type κ} ⦃a : Ord A⦄ ⦃b : Ord B⦄ where
  abbrev pub pair_beq : A × B → A × B → Bool
  pair_beq x y = a.beq x.0 y.0 && b.beq x.1 y.1

  abbrev pub pair_lt : A × B → A × B → Bool
  pair_lt x y = a.lt x.0 y.0 || (a.beq x.0 y.0 && b.lt x.1 y.1)

module _ {ℓ} {K : Type ℓ} (o : Ord K) where
  open o use {beq, lt, beq_iff, lt_irrefl, lt_trans, lt_total}

  pub lt_asymm : (a b : K) → lt a b ≡ true → lt b a ≡ false
  lt_asymm a b h = elim (Bool-cases (lt b a)) [
    | inl e ↦ absurd (false≢true (sym (lt_irrefl a) ∙ lt_trans a b a h e))
    | inr e ↦ e
  ]

  -- "Not after" is transitive.
  pub le_trans : (a b c : K) → lt b a ≡ false → lt c b ≡ false → lt c a ≡ false
  le_trans a b c h k = elim (Bool-cases (lt c a)) [
    | inr e ↦ e
    | inl e ↦ elim (Bool-cases (beq b a)) [
      | inl q ↦ absurd (false≢true (cc (k, e, (beq_iff b a).0 q)))
      | inr q ↦ absurd (false≢true (sym k ∙ lt_trans c a b e (lt_total b a h q)))
    ]
  ]

-- ===== src/Calendar/Capture/Handle.antt =====
-- Calendar event ids and Task handles: each determines the other, and a captured event keeps its id.
use Prim.Native.Char.{code}
use Prim.Native.String.append
use text.Mathlib.TextEquality.{Char-path}
use ubu_orchestrator.Base.{
  String, true, none, some, ◌≡◌, sym, ap, ◌∙◌, ◌==◌, arith, if◌then◌else◌, Bool-cases, Option-cases,
  inl, inr, eq_of_some, ◌↔◌,
}
use ubu_orchestrator.Calendar.Capture.{
  ◌<>◌, strip_prefix, is_handle, checked, external_id, external_id_for,
}

strip_prefix_sound : (p s t : String) → strip_prefix p s ≡ some t → s ≡ p <> t
unfolding strip_prefix
strip_prefix_sound String.[] s t h = eq_of_some h ∙ sym (append.nil t)
strip_prefix_sound (String.◌∷◌ c p) String.[] t h = cc
strip_prefix_sound (String.◌∷◌ c p) (String.◌∷◌ d s) t h = elim (Bool-cases (code c == code d)) [
  | inl e ↦
      let tail : s ≡ p <> t = strip_prefix_sound p s t (rw e at h) in
      let head : d ≡ c = sym (Char-path c d (ground arith)) in
      rw (head, tail) (sym (append.cons c p t))
  | inr e ↦ let h' : none ≡ some t = rw e at h in cc
]

strip_prefix-append : (p t : String) → strip_prefix p (p <> t) ≡ some t
unfolding strip_prefix
strip_prefix-append String.[] t = ap some (append.nil t)
strip_prefix-append (String.◌∷◌ c p) t =
    rw (append.cons c p t)
      (let e : (code c == code c) ≡ true = ground arith in rw e (strip_prefix-append p t))

checked_sound :
    (p s id : String) → checked (strip_prefix p s) ≡ some id → (s ≡ p <> id) × (is_handle id ≡ true)
checked_sound p s id h = elim (Option-cases (strip_prefix p s)) [
  | inl e ↦ let h' : none ≡ some id = rw e at h in cc
  | inr (t, e) ↦ elim (Bool-cases (is_handle t)) [
    | inl v ↦
        let ti : t ≡ id = eq_of_some (rw (e, v) at h) in
        (rw (← ti) (strip_prefix_sound p s t e), rw (← ti) v)
    | inr v ↦ let h' : none ≡ some id = rw (e, v) at h in cc
  ]
]

pub checked-append :
    (p id : String) → checked (strip_prefix p (p <> id)) ≡ (if is_handle id then some id else none)
checked-append p id = rw (strip_prefix-append p id)

-- A Task id gives an event id exactly when it is `task_` before a text that can be an event id, and
-- the event id is that text; so the Task id is recovered from the event id by prepending `task_`.
pub external_id_iff :
    (task id : String)
    → (external_id task ≡ some id) ↔ ((task ≡ "task_" <> id) × (is_handle id ≡ true))
unfolding external_id
external_id_iff task id = (
  checked_sound "task_" task id,
  λ h.
      ap (λ s. checked (strip_prefix "task_" s)) h.0
      ∙ checked-append "task_" id
      ∙ ap (λ b. if b then some id else none) h.1,
)

-- A captured event is exported under its own id or not at all, whatever its Task is: it never falls
-- back to the id that its Task would give.
pub external_id_for_origin :
    (task origin : String)
    → external_id_for task (some origin) ≡ (if is_handle origin then some origin else none)
unfolding external_id_for external_id
external_id_for_origin task origin = checked-append "task_" origin

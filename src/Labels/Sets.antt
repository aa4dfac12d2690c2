-- ===== src/Labels/Sets.antt =====
-- The label sets of src/services/projection_service.rs, and `stable_operation_id`.
use Prim.Native.Char.{Char, code}
use Prim.Native.String.{char_at}
use ubu_orchestrator.Base.{
  ℕ, ◌-◌, String, str_eq, Bool, not, ◌&&◌, ◌||◌, List, [], ◌∷◌, retain, leb, ◌==◌, if◌then◌else◌,
}
use ubu_orchestrator.Base.Order.{str_lt}
use ubu_orchestrator.Calendar.Capture.{◌<>◌, show}
use ubu_orchestrator.Calendar.Diff.{StringSet, contains}

-- `BTreeSet::insert` and `collect`: the labels in their order, each once.
unfoldable pub set_insert : String → StringSet → StringSet
set_insert name [] = name ∷ []
set_insert name (first ∷ set) =
    let rest = set_insert name set in
    if str_eq name first
    then first ∷ set
    else if str_lt name first
    then name ∷ first ∷ set
    else first ∷ rest

unfoldable pub btree_set : List String → StringSet
unfolding set_insert
btree_set [] = []
btree_set (name ∷ names) = set_insert name (btree_set names)

-- `BTreeSet::difference`
unfoldable pub difference : StringSet → StringSet → StringSet
difference a b = retain (λ name. not (contains b name)) a

-- `to_ascii_lowercase().replace('/', "-")`
abbrev slug_char : Char → Char
slug_char c =
    if code c == b'/'
    then char_at "-" 0
    else if leb b'A' (code c) && leb (code c) b'Z'
    then char_at "abcdefghijklmnopqrstuvwxyz" (code c - b'A')
    else c

unfoldable pub slug : String → String
slug String.[] = String.[]
slug (String.◌∷◌ c s) = String.◌∷◌ (slug_char c) (slug s)

unfoldable pub stable_operation_id : String → String → String → ℕ → String → String
unfolding slug
stable_operation_id action owner repo issue_number name =
    "label-"
    <> action
    <> "-"
    <> slug owner
    <> "-"
    <> slug repo
    <> "-"
    <> show issue_number
    <> "-"
    <> slug name

-- `Vec::dedup` on pairs of texts.
abbrev same_pair : String × String → String × String → Bool
same_pair a b = str_eq a.0 b.0 && str_eq a.1 b.1

abbrev pub pair_le : String × String → String × String → Bool
pair_le a b = str_lt a.0 b.0 || (str_eq a.0 b.0 && not (str_lt b.1 a.1))

unfoldable pub dedup : List (String × String) → List (String × String)
dedup [] = []
dedup (pair ∷ []) = pair ∷ []
dedup (pair ∷ (next ∷ pairs)) =
    let rest = dedup (next ∷ pairs) in if same_pair pair next then rest else pair ∷ rest

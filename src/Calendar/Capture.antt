-- ===== src/Calendar/Capture.antt =====
-- src/services/calendar_projection.rs: `external_id` and `external_id_for`; and the diagnostics of
-- src/services/calendar_capture.rs that say why an event is not owned.
pub mod Handle
use Prim.Native.Char.{code}
use Prim.Native.String
use Prim.Native.String.{◌++◌ as str_append, len}
use ubu_orchestrator.Base.{
  ℕ, String, Bool, true, false, ◌&&◌, ◌||◌, Option, none, some, List, [], ◌∷◌, leb, ◌==◌, length,
  ◌-◌, ◌/◌, ◌%◌, zero, suc, ltb, take, is_none, if◌then◌else◌,
}

-- `DiagnosticBody` of src/api/planning.rs.
pub record DiagnosticBody : Type 0 where
  pub code : String
  pub message : String

infixr 65 ◌<>◌
abbrev pub ◌<>◌ : String → String → String
◌<>◌ = str_append

-- `str::strip_prefix`, by characters.
unfoldable pub strip_prefix : String → String → Option String
strip_prefix String.[] s = some s
strip_prefix (String.◌∷◌ c p) String.[] = none
strip_prefix (String.◌∷◌ c p) (String.◌∷◌ d s) =
    let rest = strip_prefix p s in if code c == code d then rest else none

-- `b'a'..=b'v' | b'0'..=b'9'`: these bytes are characters, and the bytes of any other character
-- are not among them.
abbrev pub is_handle_char : ℕ → Bool
is_handle_char c = (leb b'a' c && leb c b'v') || (leb b'0' c && leb c b'9')

unfoldable pub all_chars : (ℕ → Bool) → String → Bool
all_chars p String.[] = true
all_chars p (String.◌∷◌ c s) = p (code c) && all_chars p s

-- A text that can be an event id: 5 to 1024 bytes, of `a` to `v` and `0` to `9`.
abbrev pub is_handle : String → Bool
is_handle tail = (leb 5 (len tail) && leb (len tail) 1024) && all_chars is_handle_char tail

abbrev pub checked : Option String → Option String
checked none = none
checked (some tail) = if is_handle tail then some tail else none

unfoldable pub external_id : String → Option String
external_id task_id = checked (strip_prefix "task_" task_id)

unfoldable pub external_id_for : String → Option String → Option String
external_id_for task_id none = external_id task_id
external_id_for task_id (some origin) = external_id ("task_" <> origin)

unfoldable pub not_ownable_diagnostic : String → Option DiagnosticBody
not_ownable_diagnostic id =
    if is_none (external_id_for "" (some id))
    then some (record {
      code = "capture_event_not_ownable";
      message =
          "Calendar event `" <> id
          <> "` cannot be captured: its id cannot be a UbU Task handle, so UbU cannot own it";
    })
    else none

abbrev pub max_occupancy_named : ℕ
max_occupancy_named = 3

-- `usize` in decimal: a number has fewer digits than its value plus one.
abbrev digit : ℕ → String
digit d =
    if d == 0
    then "0"
    else if d == 1
    then "1"
    else if d == 2
    then "2"
    else if d == 3
    then "3"
    else if d == 4
    then "4"
    else if d == 5
    then "5"
    else if d == 6
    then "6"
    else if d == 7
    then "7"
    else if d == 8
    then "8"
    else "9"

unfoldable pub show_within : ℕ → ℕ → String
show_within zero n = digit n
show_within (suc fuel) n =
    let rest = show_within fuel (n / 10) in if ltb n 10 then digit n else rest <> digit (n % 10)

unfoldable pub show : ℕ → String
unfolding show_within
show n = show_within n n

-- `named.join(", ")` over ids in backquotes.
unfoldable pub join_ids : List String → String
join_ids [] = ""
join_ids (id ∷ []) = "`" <> id <> "`"
join_ids (id ∷ (next ∷ ids)) = "`" <> id <> "`, " <> join_ids (next ∷ ids)

-- ` and {more} more`, where more ids are there than are named.
unfoldable pub and_more : ℕ → String
unfolding show
and_more zero = ""
and_more (suc n) = " and " <> show (suc n) <> " more"

unfoldable pub occupancy_diagnostic : List String → Option DiagnosticBody
unfolding join_ids and_more
occupancy_diagnostic [] = none
occupancy_diagnostic (id ∷ []) = some (record {
  code = "capture_occupancy_only";
  message =
      "Calendar event `" <> id
      <> "` cannot be owned by UbU, so its time is recorded as an occupied window that UbU will never write back to or export";
})
occupancy_diagnostic (id ∷ (next ∷ ids)) =
    let all_ids = id ∷ (next ∷ ids) in
    let named = take max_occupancy_named all_ids in
    some (record {
      code = "capture_occupancy_only";
      message =
          show (length all_ids)
          <> " Calendar events cannot be owned by UbU, so the time of each is recorded as an occupied window that UbU will never write back to or export: "
          <> join_ids named
          <> and_more (length all_ids - length named);
    })

unfoldable pub stale_export_diagnostic : List String → Option DiagnosticBody
unfolding join_ids and_more
stale_export_diagnostic [] = none
stale_export_diagnostic (id ∷ []) = some (record {
  code = "capture_stale_export";
  message =
      "Calendar event `" <> id
      <> "` was created by UbU for a Task this store does not have, so it is left alone and becomes no Task";
})
stale_export_diagnostic (id ∷ (next ∷ ids)) =
    let all_ids = id ∷ (next ∷ ids) in
    let named = take max_occupancy_named all_ids in
    some (record {
      code = "capture_stale_export";
      message =
          show (length all_ids)
          <> " Calendar events were created by UbU for Tasks this store does not have, so each is left alone and becomes no Task: "
          <> join_ids named
          <> and_more (length all_ids - length named);
    })

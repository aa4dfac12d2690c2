-- ===== src/Lib.antt =====
-- The orchestrator's core logic: what it writes to a person's calendar, what it takes from it, how a
-- Task moves through its life, where a plan may put it, and how long it is expected to take.
--
-- Parts and files:
-- - Calendar.Event, Calendar.Capture: `DesiredEvent`, external ids and the capture diagnostics of
--   src/services/calendar_projection.rs and src/services/calendar_capture.rs.
-- - Calendar.Desired: `desired_events` of calendar_projection.rs, the events that a plan asks for.
-- - Calendar.Diff: `diff` of calendar_projection.rs, and the landing of an accepted operation in
--   `approve` of src/services/calendar_apply.rs.
-- - Calendar.Reconcile: `classify` and `repair` of src/services/calendar_reconcile.rs.
-- - Calendar.Reconciliation: src/services/calendar_reconciliation_service.rs. A reconciliation stores an
--   observation with its conflicts; a repair of it stores a result, as an approval does.
-- - Calendar.Preview: `preview` of src/services/calendar_apply.rs, which stores what an approval carries
--   out: the plan's desired events, as the Tasks are now, against the applied events.
-- - Calendar.Apply: `approve` of calendar_apply.rs with all that it calls. The approval loads a stored
--   preview, whose operations are those of `diff`; it refuses it if the applied events have changed;
--   it passes each operation by the export gate to the client, and stores a result, whose applied
--   events the next preview and the next reconciliation start from.
-- - Calendar.Interaction: the gestures of src/services/calendar_interaction.rs, and the ranges of
--   src/services/calendar_range.rs. A completion or reopening that is detected goes to `Tasks`.
-- - Calendar.Gestures: `apply` of calendar_interaction.rs with the moves and resizes. It detects the
--   gestures of an observation, carries them out on the Tasks, and accepts what was observed.
-- - Calendar.Intake: `plan_capture` and `normalize_observed` of calendar_capture.rs.
-- - Calendar.Admission: `capture` of calendar_capture.rs: the gestures first, then the foreign events,
--   which become Tasks and, if UbU can own them, applied events.
-- - Calendar.History: sequences of all these operations on one store, under the lock they share.
-- - Tasks: the actions, transitions, effects and undos of src/services/log_service.rs.
-- - Planning: windows, seats of mandatory occurrences, steps, segments and collisions of
--   src/services/planning_service.rs.
-- - Labels: src/services/projection_service.rs, the managed labels of a GitHub issue. `preview` stores the
--   operations of `desired_label_diff` (Labels), `approve` passes them by the gate to GitHub
--   (Labels.Export, Labels.Approve, Labels.Github), and `reconcile` compares the labels with what was applied
--   (Labels.Reconcile).
-- - Duration: src/services/duration_model.rs.
-- - Errors: src/errors.rs; Errors.Exec is code that acts on a world and may fail.
-- - Base: shared names, lists, orders, sorted maps (`BTreeMap`), stable sorts and integers.
-- - Examples: the theorems at concrete data.
--
-- Correspondence: a function of the source keeps its name. A loop over a list is recursion on it; the
-- loop of `unseatable_mandatory` takes an occurrence out of `pending` in each round, so it has the
-- length of `pending` as fuel, which is a round for each of them. A function that reaches the
-- store, the gate, the clock or a client takes them from a record `Env` and returns the changed world
-- beside its result or error; its lock is why one call is one function. `u64` sums are checked at
-- 2 ^ 64 and `u32` indexes are taken modulo 2 ^ 32, as the code does. `HashSet` and `BTreeSet` are
-- lists of which only membership is read.
--
-- Not modelled: the HTTP routers, the SQLite store, the Google and GitHub clients, the prompts to a
-- language model, reports and imports, which are input and output; the parsers of timestamps, the
-- planning kernel and the universe state, which are other crates. JSON payloads are records of the
-- fields that the code reads.
pub mod Base
pub mod Errors
pub mod Calendar
pub mod Planning
pub mod Tasks
pub mod Labels
pub mod Duration
pub mod Examples

-- ===== src/Lib.antt =====
-- Carbon Paper: workflows of data stages, their checks and order, and the lineage of their rows.
--
-- A workflow is a list of stages. Each stage names the stages that it reads, declares in its
-- signature which columns it reads from each and what it writes, and may name the kind of thing
-- that one of its rows is. Before a workflow runs, app/models/workflow.py checks the list as a
-- graph, orders it, resolves a table schema through every stage and compares each signature with
-- what the inputs supply. While it runs, each stage records which input rows every output row came
-- from (app/runtime/lineage.py) and which branches of the code each row took
-- (app/runtime/branches.py); app/runtime/trace.py walks these records back from a row to its source.
--
-- The modules and the code that they model:
--   Schema          app/models/schema.py: the column types (ColumnType), `Column` and the refusals
--                   of its validators (Column), spec equality (Spec) and `TableSchema` (Table).
--   Stage           app/models/stages/: `StageType` and `RowEffect` (Kind), the config blocks
--                   (Blocks), the fields of a stored stage, and the row-type rules (RowType).
--   Signature       app/models/stages/signature.py: the checks of a signature against the
--                   schemas of the inputs, and the output schema that it promises.
--   StageChecks     app/models/stages/dedupe.py, union.py, explode.py, join.py and
--                   sort_rank.py: the column checks of these stages.
--   Workflow        app/models/workflow.py: `detect_cycle` (Cycle), `sort_stages_by_dependency`
--                   (Order), the structural checks (Checks), row types (RowTypes), and schema
--                   resolution with `graph_issues` (Resolve), `Workflow` (Form),
--                   and the stages behind a report or a stage (Reach). Raised holds
--                   the exceptions.
--   Lineage         app/runtime/lineage.py: row parents and the lineages of the stages (Row), the
--                   table that a lineage is written to (Sidecar) and its reader (Reader).
--   Trace           app/runtime/trace.py: what a walk reads of a run (Frames), the rows behind a
--                   summarized one (FanIn), what a round records (Step), and the loop (Walk).
--   Branches        app/runtime/branches.py: the recorder of branches (Recorder).
--   Predicate       app/core/predicate.py: the nodes of a parsed filter (Syntax), their checks
--                   (Validate), and what `ast.walk` reads off them (Walk).
--   Reshape         app/runtime/stages/agreement.py (Agreement), and `handle_dedupe` of
--                   app/runtime/stages/reshape.py (Dedupe).
--   Evals           app/evals/dataset_columns.py: the columns that an eval dataset injects
--                   (DatasetColumns), and run_settings.py: the stages that an eval executes
--                   (RunSettings), and compatibility.py: the conditions on an eval
--                   (Compatibility).
--   Executor        app/runtime/executor.py: `topological_sort` (Topological), row windows and the
--                   lineage of what a stage makes (Window), `_run_stage` (Gather, Issues,
--                   Finalize, StageRun), the loop over the stages with its variables (Progress,
--                   Loop) and `execute_subset` (Subset), with the statuses (Status), the records (Records) and the
--                   operations of others that they call (Runtime).
--   Prelude         lists, dictionaries, texts, equality and results that the others share.
--   Tests           sample stages, the code run on them, and the theorems at one of them.
-- Lemmas stand in modules named for what they prove: Schema/Names, Schema/Extend,
-- Schema/Satisfy, Schema/Supply, Stage/RowTypeIssues, Workflow/Order/Placed, Workflow/Order/Perm, Workflow/Order/Kept,
-- Workflow/Order/Total, Workflow/Cycle/Whites, Workflow/Cycle/Kept, Workflow/Cycle/Visit,
-- Workflow/Cycle/Correct, Workflow/Found, Workflow/Answered, Workflow/Resolved, Workflow/Inherited, Workflow/Formed,
-- StageChecks/DedupeDecided, StageChecks/UnionAgrees, StageChecks/ExplodeNarrows,
-- StageChecks/JoinLands, StageChecks/SortPlaces, Workflow/Reach/Enough, Workflow/Reach/Closed,
-- Workflow/Reach/Upstream, Lineage/Moves, Lineage/Merged, Lineage/RoundTrip, Lineage/Columns,
-- Lineage/Places, Lineage/Coherent,
-- Trace/Hops, Trace/Landing, Trace/Origin, Trace/Linked, Trace/Chained, Trace/Traced, Trace/Picked, Trace/Chosen,
-- Trace/Used,
-- Trace/Sampled, Branches/Recorded,
-- Predicate/Admitted, Predicate/Found, Reshape/Agreed, Reshape/Survivors,
-- Evals/Deconflicted, Evals/Executed, Evals/Injected, Executor/Topological/Visited,
-- Executor/Topological/Index,
-- Executor/Topological/Visit, Executor/Topological/Sorted, Executor/Topological/Acyclic,
-- Executor/Window/Read, Executor/StageRun/Outcome,
-- Executor/StageRun/Ended, Executor/Loop/Turn, Executor/Loop/Noted, Executor/Loop/Took,
-- Executor/Loop/Between, Executor/Loop/Stopped, Executor/Loop/Ran, Executor/Loop/Final,
-- Executor/Subset/Picked, Executor/Subset/Complete.
--
-- How state is kept. A dictionary is an association list, `dict_of` filling it in the order of the
-- source, so that a later entry of a key replaces the value and keeps the place. The variables that
-- `visit` shares with its caller are the record `Search`, passed along. An exception is the left
-- side of `Result`: `Raised` for workflow.py and signature.py, `SchemaError` for the
-- constructors of `TableSchema`. An issue or a message is a constructor with what its text names,
-- and a set that is sorted for a message keeps the order in which it was found. A type text is a
-- list of characters, since the pattern for `list[...]` reads it; any other text is a String. The
-- numbers of a `range` are counts of millionths, so that finer floats, infinities and NaN are left out.
-- A row ordinal is an unbounded integer up to the sidecar, whose column holds 64 bits. The loop of the executor passes the record
-- `Progress` along, its own variables with the manifests written so far, and a stage's run the
-- record `StageRun`; a table is its column names and its rows, and a state of the outside world goes
-- through every operation of the `Runtime`: the cancel message, the handlers, and the writes, each
-- of which may raise. Only what a handler is given and answers is modelled, not what it does. The
-- checks of tables and keys that the Runtime holds, and the paths relative to the run's directory,
-- are taken to raise nothing.
--
-- Bounds. The recursion of `detect_cycle` has as much fuel as there are ids, which is enough because
-- each call turns one white id gray; the proof that the answer is right carries this bound. The
-- loop of `sort_stages_by_dependency` recurs on a proved bound for the pending stages, and so
-- needs no fuel. The loops of Workflow/Reach have fuel for each entry that can be pushed, which
-- Workflow/Reach/Enough proves to be enough, and so has that of Evals/RunSettings. The sort of the
-- executor has a call's depth for each stage and one, and raises `too_deep` beyond; its answers are
-- proved never to be that. The walk of a trace is given its fuel, since a run
-- whose lineage goes round would be walked for ever; where a numbering of the stages falls along
-- every hop, the number of the first stage and one are enough. A function of the source that takes stages of any class takes a `StageInGraph`.
--
-- Other libraries. What Python does with the values of cells (`==`, `str`) is the record `Cells`,
-- and the sort of pyarrow is an argument of `handle_dedupe`, on which no theorem has a hypothesis.
-- `ast.walk` goes level by level, with the number of nodes as its bound.
--
-- Not modelled. In the checks on a graph, the column and signature checks that each stage class
-- overrides are the parameter `StageHooks`; those of StageChecks are modelled apart from it. Prose (prompts, wording), generated pydantic models, fingerprints, and the parts of
-- a config block that no modelled check reads are left out, as are the row driver, the handlers of stages, storage, the agents and the web
-- application, and of a run its times, its progress, its log and the tracebacks of errors, which are I/O or calls of other libraries.
pub mod Prelude
pub mod Schema
pub mod Stage
pub mod Signature
pub mod Workflow
pub mod StageChecks
pub mod Evals
pub mod Executor
pub mod Lineage
pub mod Predicate
pub mod Reshape
pub mod Trace
pub mod Branches
mod Tests

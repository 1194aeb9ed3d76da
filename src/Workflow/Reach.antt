-- ===== src/Workflow/Reach.antt =====
-- app/models/workflow.py: the stages that a report rests on, and those upstream of a stage.
pub mod Enough
pub mod Closed
pub mod Upstream
use mathlib.Core.List.{reverse}
use carbonpaper.Prelude.{
  ℕ, zero, suc, ◌+◌, String, Bool, true, false, not, Option, some, none, List, [], ◌∷◌, ◌++◌, map,
  filter, flat_map, contains, lookup, length, string_eq, Result, ok, err, if◌then◌else◌,
}
use carbonpaper.Stage.{Stage, type_of}
use carbonpaper.Stage.Kind.{is_report}
use carbonpaper.Workflow.Checks.{stage_graph}
use carbonpaper.Workflow.Graph.{edges_of}
use carbonpaper.Workflow.Raised.{Raised, key_error, no_stage, reads_outside}

-- A loop over a stack, whose top stands first: `none` is a loop that has not ended.
abbrev pub Loop : Type 0
Loop = Option (Result Raised (List String))

abbrev pub Edges : Type 0
Edges = List (String × List String)

-- What is put on a stack by `extend`: the last comes first.
abbrev pub push_all : {A : Type 0} → List A → List A → List A
push_all xs stack = reverse xs ++ stack

-- One round at an id that is not in the set yet, told its inputs.
abbrev pub reach_new :
    (List String → List String → Loop)
    → String
    → List String
    → List String
    → Option (List String)
    → Loop
reach_new go id frontier reaching none = some (err (key_error id))
reach_new go id frontier reaching (some inputs) = go (push_all inputs frontier) (id ∷ reaching)

abbrev pub reach_round :
    (List String → List String → Loop) → Edges → String → List String → List String → Bool → Loop
reach_round go edges id frontier reaching true = go frontier reaching
reach_round go edges id frontier reaching false =
    reach_new go id frontier reaching (lookup id edges)

-- The `while` loop of `find_stages_reaching_report`.
pub reach_from : ℕ → Edges → List String → List String → Loop
reach_from zero edges frontier reaching = none
reach_from (suc fuel) edges [] reaching = some (ok reaching)
reach_from (suc fuel) edges (id ∷ frontier) reaching =
    reach_round (reach_from fuel edges) edges id frontier reaching (contains reaching id)

-- How many inputs the stages outside of a set have together.
abbrev pub weight : Edges → List String → ℕ
weight [] reached = 0
weight ((id, inputs) ∷ edges) reached =
    if contains reached id then weight edges reached else length inputs + weight edges reached

-- Rounds enough for a stack: each takes one id off it, and puts the inputs of a new id on it.
abbrev pub enough_rounds : Edges → List String → ℕ
enough_rounds edges frontier = suc (length frontier + weight edges [])

-- The inputs of all reports, in order.
abbrev pub report_inputs : List Stage → List String
report_inputs stages = flat_map (λ s. s.inputs) (filter (λ s. is_report (type_of s)) stages)

unfoldable pub find_stages_reaching_report : List Stage → Loop
unfolding reach_from edges_of
find_stages_reaching_report stages =
    let edges = edges_of stage_graph stages in
    let frontier = reverse (report_inputs stages) in
    reach_from (enough_rounds edges frontier) edges frontier []

-- The loop of `find_stages_upstream_of`, over pairs of a stage that reads and what it reads.
abbrev pub upstream_known :
    (List (String × String) → List String → Loop)
    → String
    → List String
    → List (String × String)
    → List String
    → Bool
    → Loop
upstream_known go current inputs pending upstream true = go pending upstream
upstream_known go current inputs pending upstream false =
    go (push_all (map (λ read. (current, read)) inputs) pending) (current ∷ upstream)

abbrev pub upstream_round :
    (List (String × String) → List String → Loop)
    → String
    → String
    → List (String × String)
    → List String
    → Option (List String)
    → Loop
upstream_round go reader current pending upstream none = some (err (reads_outside reader current))
upstream_round go reader current pending upstream (some inputs) =
    upstream_known go current inputs pending upstream (contains upstream current)

pub upstream_from : ℕ → Edges → List (String × String) → List String → Loop
upstream_from zero edges pending upstream = none
upstream_from (suc fuel) edges [] upstream = some (ok upstream)
upstream_from (suc fuel) edges ((reader, current) ∷ pending) upstream =
    upstream_round (upstream_from fuel edges) reader current pending upstream (lookup current edges)

abbrev pub upstream_seeds : String → List String → List (String × String)
upstream_seeds stage_id inputs = reverse (map (λ read. (stage_id, read)) inputs)

abbrev pub upstream_of_inputs : Edges → String → Option (List String) → Loop
upstream_of_inputs edges stage_id none = some (err (no_stage stage_id))
upstream_of_inputs edges stage_id (some inputs) =
    upstream_from (suc (length inputs + weight edges [])) edges (upstream_seeds stage_id inputs) []

unfoldable pub find_stages_upstream_of : List Stage → String → Loop
unfolding upstream_from edges_of
find_stages_upstream_of stages stage_id =
    let edges = edges_of stage_graph stages in
    upstream_of_inputs edges stage_id (lookup stage_id edges)

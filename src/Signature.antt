-- ===== src/Signature.antt =====
-- app/models/stages/signature.py: the contract of what a stage reads and writes, its check against
-- what the inputs supply, and the output schema that it promises.
use carbonpaper.Prelude.{
  String, Bool, not, Option, some, none, List, [], ◌∷◌, ◌++◌, map, flat_map, filter, dict_of,
  lookup, keys, contains, string_eq, ◌==◌, if◌then◌else◌, Result, ok, err, ◌>>=◌, is_empty,
  is_unique,
}
use carbonpaper.Schema.Column.{Column, name}
use carbonpaper.Schema.Table.{
  TableSchema, SchemaError, table_schema, extend, Reason, find_unsatisfied_columns, compatible,
}
use carbonpaper.Stage.{Stage, InputReads, ExtendsSignature, TransformSignature, extends, replaces}
use carbonpaper.Workflow.Raised.{Raised, schema_error, index_error, no_anchor_input}

pub record WorkflowStageInput : Type 0 where
  pub id : String
  pub table_schema : TableSchema

pub data SignatureIssue : Type 0 where
  reads_twice : (stage input : String) → SignatureIssue
  reads_no_input : (stage input : String) (supplied : List String) → SignatureIssue
  reads_unsatisfied : (stage input : String) → Reason → SignatureIssue
  rewrites_unread : (stage column anchor : String) → SignatureIssue
  adds_supplied : (stage column anchor : String) → SignatureIssue

abbrev pub reads_of : TransformSignature → List InputReads
reads_of (extends e) = e.reads
reads_of (replaces r) = r.reads

-- A schema error of the constructor of `TableSchema`, as an exception of its caller.
abbrev pub or_raise {ℓ} : {A : Type ℓ} → Result SchemaError A → Result Raised A
or_raise (ok a) = ok a
or_raise (err e) = err (schema_error e)

-- What the model's validators refuse: `_refuse_duplicate_names`, and reads of no column.
abbrev pub names_differ : List Column → Bool
names_differ columns = is_unique (map name columns)

abbrev supplied_by : List WorkflowStageInput → List (String × TableSchema)
supplied_by inputs = dict_of (map (λ r. (r.id, r.table_schema)) inputs)

read_issues :
    String → List (String × TableSchema) → InputReads → Result Raised (List SignatureIssue)
read_issues stage supplied entry = elim (lookup entry.input supplied) [
  | none ↦ ok (reads_no_input stage entry.input (keys supplied) ∷ [])
  | some upstream ↦ do
    required ← or_raise (table_schema entry.columns)
    ok (
        map (reads_unsatisfied stage entry.input)
          (find_unsatisfied_columns required upstream compatible))
]

-- The loop of `_find_read_issues`, from the inputs that it has seen.
read_issues_from :
    String
    → List (String × TableSchema)
    → List String
    → List InputReads
    → Result Raised (List SignatureIssue)
unfolding read_issues
read_issues_from stage supplied seen [] = ok []
read_issues_from stage supplied seen (entry ∷ reads) =
    let again = read_issues_from stage supplied seen reads in
    let rest = read_issues_from stage supplied (entry.input ∷ seen) reads in
    if contains seen entry.input
    then (do more ← again; ok (reads_twice stage entry.input ∷ more))
    else (do issues ← read_issues stage supplied entry; more ← rest; ok (issues ++ more))

unfoldable pub find_read_issues :
    Stage → List WorkflowStageInput → List InputReads → Result Raised (List SignatureIssue)
unfolding read_issues_from
find_read_issues s inputs reads = read_issues_from s.id (supplied_by inputs) [] reads

abbrev columns_read_from : String → List InputReads → List Column
columns_read_from anchor reads =
    flat_map (λ entry. if entry.input == anchor then entry.columns else []) reads

unfoldable pub anchor_read_columns : Stage → List Column
anchor_read_columns s = elim s.inputs [
  | [] ↦ []
  | anchor ∷ _ ↦ (elim s.signature [
    | extends e ↦ columns_read_from anchor e.reads
    | replaces _ ↦ []
  ])
]

unfoldable pub find_extends_issues :
    Stage → List WorkflowStageInput → ExtendsSignature → Result Raised (List SignatureIssue)
unfolding anchor_read_columns
find_extends_issues s [] signature = err index_error
find_extends_issues s (anchor ∷ _) signature =
    let anchor_reads = map name (anchor_read_columns s) in
    let anchor_columns = map name anchor.table_schema.columns in
    ok (
      map (λ c. rewrites_unread s.id (name c) anchor.id)
        (filter (λ c. not (contains anchor_reads (name c))) signature.rewrites)
      ++ map (λ c. adds_supplied s.id (name c) anchor.id)
          (filter (λ c. contains anchor_columns (name c)) signature.adds))

unfoldable pub find_signature_issues :
    Stage → List WorkflowStageInput → Result Raised (List SignatureIssue)
unfolding find_read_issues find_extends_issues
find_signature_issues s inputs = do
  issues ← find_read_issues s inputs (reads_of s.signature)
  elim s.signature [
    | extends e ↦ (do more ← find_extends_issues s inputs e; ok (issues ++ more))
    | replaces _ ↦ ok issues
  ]

unfoldable pub promised_output_schema :
    Stage → List WorkflowStageInput → Result Raised (Option TableSchema)
promised_output_schema s inputs = elim s.signature [
  | extends e ↦ (elim inputs [
    | [] ↦ err (no_anchor_input s.id)
    | anchor ∷ _ ↦ (do t ← or_raise (extend anchor.table_schema e.rewrites e.adds); ok (some t))
  ])
  | replaces r ↦
      if is_empty r.produces
      then ok none
      else (do t ← or_raise (table_schema r.produces); ok (some t))
]

unfoldable pub list_written_column_names : Stage → List String
list_written_column_names s = elim s.signature [
  | extends e ↦ map name (e.rewrites ++ e.adds)
  | replaces _ ↦ []
]

unfoldable pub list_rewritten_column_names : Stage → List String
list_rewritten_column_names s = elim s.signature [
  | extends e ↦ map name e.rewrites
  | replaces _ ↦ []
]

unfoldable pub list_read_column_names : Stage → List String
list_read_column_names s = flat_map (λ entry. map name entry.columns) (reads_of s.signature)

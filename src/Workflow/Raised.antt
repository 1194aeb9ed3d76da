-- ===== src/Workflow/Raised.antt =====
-- The exceptions that the functions of app/models/workflow.py and app/models/stages/signature.py
-- raise, with what their messages name.
use carbonpaper.Prelude.{String, List}
use carbonpaper.Schema.Table.{SchemaError}

pub data Raised : Type 0 where
  -- `ValueError`: cyclic stages, cannot order
  cyclic_stages : List String → Raised
  -- `ValueError`: the stage, and the input that references no stage
  references_no_stage : String → String → Raised
  -- `ValueError`: the stage, and the input that resolves no output schema
  resolves_no_schema : String → String → Raised
  -- `ValueError`: an extends-form output without an anchor input
  no_anchor_input : String → Raised
  -- `ValueError`: no stage of the id in this workflow
  no_stage : String → Raised
  -- `ValueError`: the stage that reads, and what it reads, which is not in this workflow
  reads_outside : String → String → Raised
  -- `KeyError`, `IndexError`
  key_error : String → Raised
  index_error : Raised
  -- the validators of `TableSchema`
  schema_error : SchemaError → Raised

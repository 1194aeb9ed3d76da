-- ===== src/Stage.antt =====
-- app/models/stages/stage_base.py and the stage classes beside it: the stage types, what each does
-- to its input's rows, and the fields and row-type rules of a stored stage.
pub mod Kind
pub mod Blocks
pub mod RowType
pub mod RowTypeIssues
use carbonpaper.Prelude.{String, Bool, Option, List}
use carbonpaper.Schema.Column.{Column}
use carbonpaper.Stage.Blocks.{StageBlock, stage_type}
use carbonpaper.Stage.Kind.{StageType}

pub record InputReads : Type 0 where
  pub input : String
  pub columns : List Column

pub record ExtendsSignature : Type 0 where
  pub reads : List InputReads
  pub adds : List Column
  pub rewrites : List Column

pub record ReplacesSignature : Type 0 where
  pub reads : List InputReads
  pub produces : List Column

pub data TransformSignature : Type 0 where
  extends : ExtendsSignature → TransformSignature
  replaces : ReplacesSignature → TransformSignature

-- The per-type config block decides the type; `inputs` holds the ids of the upstream stages.
pub record Stage : Type 0 where
  pub id : String
  pub block : StageBlock
  pub description : String
  pub inputs : List String
  pub cache : Bool
  pub signature : TransformSignature
  pub row_type_id : Option String

abbrev pub type_of : Stage → StageType
type_of s = stage_type s.block

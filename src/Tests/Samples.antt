-- ===== src/Tests/Samples.antt =====
-- A workflow of three stages: a source, a row map on it, and a sort that drops no column.
use carbonpaper.Prelude.{String, codes, none, some, List, [], ◌∷◌, ok, true, false, Text}
use carbonpaper.Schema.Column.{Column, column, absent}
use carbonpaper.Schema.Table.{TableSchema}
use carbonpaper.Stage.{ExtendsSignature, Stage, extends, replaces}
use carbonpaper.Signature.{WorkflowStageInput}
use carbonpaper.Stage.Blocks.{
  DedupeConfig, DedupeKeep, ExplodeConfig, JoinConfig, SortRankConfig, StageBlock,
}
use carbonpaper.Workflow.Resolve.{StageHooks}

abbrev pub scalar : String → Text → Column
scalar n t =
    column
      (record {
        name = n;
        type = t;
        nullable = false;
        description = none;
        range = none;
        source = none;
        enum = none;
        value_type = none;
      })
      absent

abbrev pub age : Column
age = scalar "age" (codes "int")

abbrev pub city : Column
city = scalar "city" (codes "str")

abbrev pub age_text : Column
age_text = scalar "age" (codes "str")

abbrev pub rank : Column
rank = scalar "rank" (codes "int")

abbrev pub people : TableSchema
people = record { columns = age ∷ city ∷ []; estimated_rows = none; notes = none }

abbrev pub ranked_people : TableSchema
ranked_people = record {
  columns = age_text ∷ city ∷ rank ∷ [];
  estimated_rows = none;
  notes = none;
}

abbrev pub source : Stage
source = record {
  id = "people";
  block = StageBlock.input_data;
  description = "the people";
  inputs = [];
  cache = false;
  signature = replaces (record { reads = []; produces = age ∷ city ∷ [] });
  row_type_id = some "person";
}

abbrev pub spelled : Stage
spelled = record {
  id = "spelled";
  block = StageBlock.python_row_function;
  description = "ages as text, and a rank";
  inputs = "people" ∷ [];
  cache = true;
  signature = extends (record {
    reads = record { input = "people"; columns = age ∷ [] } ∷ [];
    adds = rank ∷ [];
    rewrites = age_text ∷ [];
  });
  row_type_id = none;
}

abbrev pub sorted : Stage
sorted = record {
  id = "sorted";
  block = StageBlock.sort_rank (record { keys = []; rank_column = none });
  description = "by rank";
  inputs = "spelled" ∷ [];
  cache = false;
  signature = extends (record {
    reads = record { input = "spelled"; columns = rank ∷ [] } ∷ [];
    adds = [];
    rewrites = [];
  });
  row_type_id = none;
}

-- The last stage stands first, as a workflow may list its stages in any order.
abbrev pub stages : List Stage
stages = sorted ∷ source ∷ spelled ∷ []

abbrev pub ordered_stages : List Stage
ordered_stages = source ∷ spelled ∷ sorted ∷ []

-- Two stages that read each other.
abbrev pub cyclic_stages : List Stage
cyclic_stages =
    record {
      id = "p";
      block = StageBlock.python_row_function;
      description = "p";
      inputs = "q" ∷ [];
      cache = false;
      signature = extends (record { reads = []; adds = []; rewrites = [] });
      row_type_id = none;
    }
    ∷ record {
      id = "q";
      block = StageBlock.python_row_function;
      description = "q";
      inputs = "p" ∷ [];
      cache = false;
      signature = extends (record { reads = []; adds = []; rewrites = [] });
      row_type_id = none;
    }
    ∷ []

-- A stage type without checks of its own.
abbrev pub no_hooks : StageHooks String
no_hooks = record {
  find_config_column_issues = λ _ _. ok [];
  find_signature_schema_issues = λ _ _. ok [];
}

abbrev pub people_input : WorkflowStageInput
people_input = record { id = "people"; table_schema = people }

abbrev pub oldest_per_city : DedupeConfig
oldest_per_city = record { keys = "city" ∷ []; keep = DedupeKeep.highest; by = some "age" }

abbrev pub one_tag_each : ExplodeConfig
one_tag_each = record { column = "tags"; keep_empty = false }

abbrev pub tagged_input : WorkflowStageInput
tagged_input = record {
  id = "tagged";
  table_schema = record {
    columns = city ∷ scalar "tags" (codes "list[str]") ∷ [];
    estimated_rows = none;
    notes = none;
  };
}

abbrev pub one_tag : ExtendsSignature
one_tag = record { reads = []; adds = []; rewrites = scalar "tags" (codes "str") ∷ [] }

abbrev pub with_region : JoinConfig
with_region = record {
  keys = record { left = "city"; right = "town" } ∷ [];
  enrich_with = ("region", "region") ∷ [];
}

abbrev pub cities_input : WorkflowStageInput
cities_input = record {
  id = "cities";
  table_schema = record {
    columns = scalar "town" (codes "str") ∷ scalar "region" (codes "str") ∷ [];
    estimated_rows = none;
    notes = none;
  };
}

abbrev pub by_age : SortRankConfig
by_age = record {
  keys = record { column = "age"; descending = true; order = none; nulls = none } ∷ [];
  rank_column = some "place";
}

-- ===== src/Lineage/Equal.antt =====
-- app/runtime/lineage.py: `==` of two `RowParent`, which a dataclass compares field by field.
use carbonpaper.Prelude.{
  Bool, ◌&&◌, true, ◌==◌, Eq, string_eq, list_eq, option_eq, int_eq, eq_iff, int_beq_iff,
  option_beq_iff, ◌≡◌, ◌↔◌, arith,
}
use carbonpaper.Lineage.Row.{RowParent}

abbrev pub parent_beq : RowParent → RowParent → Bool
parent_beq p q =
    p.stage_id == q.stage_id
    && (p.row_ordinal == q.row_ordinal
        && (p.kind == q.kind
            && (p.columns == q.columns
                && (p.source_file == q.source_file && p.source_file_sha == q.source_file_sha))))

pub parent_beq_iff : (p q : RowParent) → (parent_beq p q ≡ true) ↔ (p ≡ q)
parent_beq_iff p q = ground (
  arith,
  eq_iff p.stage_id q.stage_id,
  int_beq_iff p.row_ordinal q.row_ordinal,
  eq_iff p.kind q.kind,
  option_beq_iff p.columns q.columns,
  option_beq_iff p.source_file q.source_file,
  option_beq_iff p.source_file_sha q.source_file_sha,
)

instance abbrev pub parent_eq : Eq RowParent
parent_eq = record { beq = parent_beq; beq_iff = parent_beq_iff }

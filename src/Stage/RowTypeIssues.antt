-- ===== src/Stage/RowTypeIssues.antt =====
-- What the row-type rules of a stage amount to.
use carbonpaper.Prelude.{
  String, some, none, [], ◌≡◌, ◌≢◌, ◌⊎◌, ◌↔◌, arith, eq_iff, true, Option-cases, inl, inr, refl,
}
use carbonpaper.Stage.Blocks.{StageBlock}
use carbonpaper.Stage.{Stage, type_of}
use carbonpaper.Stage.Kind.{declares_its_own_row_type}
use carbonpaper.Stage.RowType.{no_kind_row_type_id, resolve_own_row_type_id, find_row_type_issues}

written_iff :
    (s : Stage) (w : String) (b : StageBlock)
    → s.block ≡ b
    → s.row_type_id ≡ some w
    → (find_row_type_issues s ≡ []) ↔ (
        (w ≢ no_kind_row_type_id)
        × (declares_its_own_row_type (type_of s) ≡ true)
        × (resolve_own_row_type_id s ≡ some w))
unfolding find_row_type_issues resolve_own_row_type_id
written_iff s w (StageBlock.aggregate a) e h = ground (arith, eq_iff w no_kind_row_type_id)
written_iff s w (StageBlock.report r) e h = ground (arith, eq_iff w no_kind_row_type_id)
written_iff s w _ e h = ground (arith, eq_iff w no_kind_row_type_id)

-- A stage is refused no row type exactly where it writes none, or writes a word other than the
-- reserved one, is of a type that names its own rows, and answers with the very word it wrote.
pub find_row_type_issues-nil_iff :
    (s : Stage)
    → (find_row_type_issues s ≡ []) ↔ (
        (s.row_type_id ≡ none)
        ⊎ ((w : String) × (s.row_type_id ≡ some w)
            × (w ≢ no_kind_row_type_id)
            × (declares_its_own_row_type (type_of s) ≡ true)
            × (resolve_own_row_type_id s ≡ some w)))
unfolding find_row_type_issues resolve_own_row_type_id
find_row_type_issues-nil_iff s = elim (Option-cases s.row_type_id) [
  | inl e ↦ (λ _. inl e, λ _. ground arith)
  | inr (w, e) ↦ (
    λ h.
        let (reserved, own, answer) = (written_iff s w s.block refl e).0 h in
        inr (w, e, reserved, own, answer),
    λ h. (written_iff s w s.block refl e).1 (only w e h),
  )
]
  where
    only :
        (w : String)
        → s.row_type_id ≡ some w
        → (s.row_type_id ≡ none)
          ⊎ ((v : String) × (s.row_type_id ≡ some v)
              × (v ≢ no_kind_row_type_id)
              × (declares_its_own_row_type (type_of s) ≡ true)
              × (resolve_own_row_type_id s ≡ some v))
        → (w ≢ no_kind_row_type_id)
          × (declares_its_own_row_type (type_of s) ≡ true)
          × (resolve_own_row_type_id s ≡ some w)
    only w e (inl n) = cc
    only w e (inr (v, f, reserved, own, answer)) = (λ q. reserved (cc), own, cc)

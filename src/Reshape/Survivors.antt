-- ===== src/Reshape/Survivors.antt =====
-- Which rows a dedupe keeps, and which rows each of them stands for.
use carbonpaper.Prelude.{
  ℕ, ◌≡◌, refl, sym, ap, subst, ◌∙◌, Bool, true, false, String, Option, some, none, range, List, [],
  ◌∷◌, ◌++◌, map, any, flat_map, leb, sorted, pos, ok, >>=-eq-ok, ok-injective, if◌then◌else◌, Perm,
  Bool-cases, inl, inr,
}
use mathlib.Core.List.{append_assoc, append-nil, perm_middle}
use mathlib.Core.List.Perm
use carbonpaper.Lineage.Row.{single_parent_lineage}
use carbonpaper.Stage.Blocks.{DedupeKeep, DedupeConfig}
use carbonpaper.Reshape.Agreement.{Cells}
use carbonpaper.Reshape.Dedupe.{
  Frame, Direction, Group, members, Taken, each, column_of, row_at, keyed, ranking_for_keep,
  order_of, same_key, add_to, group_from, group_ordinals, refuse_if_agree,
  refuse_disagreeing_groups, ascending, descending, handle_dedupe,
}

module _ {A : Type 0} (cells : Cells A) where
  -- The rows whose key no row that was kept before has, in order.
  abbrev pub first_of_each_key : List (List A) → List (List A × ℕ) → List ℕ
  first_of_each_key kept [] = []
  first_of_each_key kept ((key, ordinal) ∷ rest) =
      if any (same_key cells key) kept
      then first_of_each_key kept rest
      else ordinal ∷ first_of_each_key (kept ++ key ∷ []) rest

  abbrev keys_of : List (Group A) → List (List A)
  keys_of groups = map (λ g. g.key) groups

  abbrev pub winners : List (Group A) → List ℕ
  winners groups = map (λ g. g.winner) groups

  behind {ℓ} :
      {B : Type ℓ} (x : B) (xs ys : List B) (b : Bool)
      → x ∷ (if b then xs else ys) ≡ (if b then x ∷ xs else x ∷ ys)
  behind x xs ys true = refl
  behind x xs ys false = refl

  keys_of-add_to :
      (key : List A) (o : ℕ) (groups : List (Group A))
      → keys_of (add_to cells key o groups) ≡ (
          if any (same_key cells key) (keys_of groups)
          then keys_of groups
          else keys_of groups ++ key ∷ [])
  keys_of-add_to key o [] = refl
  keys_of-add_to key o (g ∷ groups) = elim (Bool-cases (same_key cells key g.key)) [
    | inl e ↦ rw e refl
    | inr e ↦ rw e (
        ap (◌∷◌ g.key) (keys_of-add_to key o groups)
        ∙ behind g.key _ _ (any (same_key cells key) (keys_of groups)))
  ]

  winners-add_to :
      (key : List A) (o : ℕ) (groups : List (Group A))
      → winners (add_to cells key o groups) ≡ (
          if any (same_key cells key) (keys_of groups)
          then winners groups
          else winners groups ++ o ∷ [])
  winners-add_to key o [] = refl
  winners-add_to key o (g ∷ groups) = elim (Bool-cases (same_key cells key g.key)) [
    | inl e ↦ rw e refl
    | inr e ↦ rw e (
        ap (◌∷◌ g.winner) (winners-add_to key o groups)
        ∙ behind g.winner _ _ (any (same_key cells key) (keys_of groups)))
  ]

  winners-group_from :
      (groups : List (Group A)) (rows : List (List A × ℕ))
      → winners (group_from cells groups rows)
        ≡ winners groups ++ first_of_each_key (keys_of groups) rows
  winners-group_from groups [] = sym (append-nil (winners groups))
  winners-group_from groups ((key, o) ∷ rows) =
      winners-group_from (add_to cells key o groups) rows
      ∙ (elim (Bool-cases (any (same_key cells key) (keys_of groups))) [
        | inl e ↦ rw (winners-add_to key o groups) (rw (keys_of-add_to key o groups) (rw e refl))
        | inr e ↦
            rw (winners-add_to key o groups)
              (rw (keys_of-add_to key o groups) (rw e (append_assoc (winners groups) (o ∷ []) _)))
      ])

  members-add_to :
      (key : List A) (o : ℕ) (groups : List (Group A))
      → Perm (flat_map members (add_to cells key o groups)) (o ∷ flat_map members groups)
  members-add_to key o [] = Perm.rfl
  members-add_to key o (g ∷ groups) = elim (Bool-cases (same_key cells key g.key)) [
    | inl e ↦ rw e (
        Perm.trans (Perm.cons g.winner (to_front g.collapsed (flat_map members groups)))
          (Perm.swap o g.winner (g.collapsed ++ flat_map members groups)))
    | inr e ↦ rw e (
        Perm.trans (Perm.append_left (members g) (members-add_to key o groups))
          (perm_middle (members g) (flat_map members groups)))
  ]
    where
      to_front : (xs ys : List ℕ) → Perm ((xs ++ o ∷ []) ++ ys) (o ∷ (xs ++ ys))
      to_front xs ys =
          subst (λ zs. Perm zs (o ∷ (xs ++ ys))) (sym (append_assoc xs (o ∷ []) ys))
            (perm_middle xs ys)

  members-group_from :
      (groups : List (Group A)) (rows : List (List A × ℕ))
      → Perm
          (flat_map members (group_from cells groups rows))
          (flat_map members groups ++ map (λ r. r.1) rows)
  members-group_from groups [] =
      subst (λ zs. Perm (flat_map members groups) zs) (sym (append-nil (flat_map members groups)))
        Perm.rfl
  members-group_from groups ((key, o) ∷ rows) =
      Perm.trans (members-group_from (add_to cells key o groups) rows) (
        Perm.trans (Perm.append_right (map (λ r. r.1) rows) (members-add_to key o groups))
          (Perm.symm (perm_middle (flat_map members groups) (map (λ r. r.1) rows))))

  keyed-ordinal :
      (key_columns : List (List A)) (o : ℕ) (row : List A × ℕ)
      → keyed key_columns o ≡ ok row
      → row.1 ≡ o
  keyed-ordinal key_columns o row e =
      let (key, _, i) = >>=-eq-ok (row_at key_columns o) (λ k. ok (k, o)) e in
      sym (ap (λ r. r.1) (ok-injective i))

  ordinals-each :
      (key_columns : List (List A)) (order : List ℕ) (rows : List (List A × ℕ))
      → each (keyed key_columns) order ≡ ok rows
      → map (λ r. r.1) rows ≡ order
  ordinals-each key_columns [] rows e = ap (map (λ r. r.1)) (sym (ok-injective e))
  ordinals-each key_columns (o ∷ order) rows e =
      let (first, f, g) = >>=-eq-ok (keyed key_columns o) _ e in
      let (rest, h, k) = >>=-eq-ok (each (keyed key_columns) order) _ g in
      ap (map (λ r. r.1)) (sym (ok-injective k))
      ∙ (ap (λ n. n ∷ map (λ r. r.1) rest) (keyed-ordinal key_columns o first f)
          ∙ ap (◌∷◌ o) (ordinals-each key_columns order rest h))

  -- No row is lost or added: the members of the groups, winners and collapsed, are the rows in the
  -- order in which they are ranked, each once.
  group_ordinals-perm :
      (table : Frame A) (keys : List String) (ranked : Option (List ℕ)) (groups : List (Group A))
      → group_ordinals cells table keys ranked ≡ ok groups
      → Perm (flat_map members groups) (order_of table ranked)
  group_ordinals-perm table keys ranked groups e =
      let (key_columns, f, g) = >>=-eq-ok (each (column_of table) keys) _ e in
      let (rows, h, k) = >>=-eq-ok (each (keyed key_columns) (order_of table ranked)) _ g in
      subst (λ gs. Perm (flat_map members gs) (order_of table ranked)) (ok-injective k)
        (subst (Perm (flat_map members (group_from cells [] rows)))
          (ordinals-each key_columns (order_of table ranked) rows h) (members-group_from [] rows))

  -- The rows in the order in which a dedupe looks at them: as they stand, or by a column.
  abbrev pub RankedAs :
      (Frame A → String → Direction → List ℕ)
      → Frame A
      → DedupeKeep
      → Option String
      → List ℕ
      → Type 0
  RankedAs sort_indices table DedupeKeep.first by order = order ≡ range 0 table.num_rows
  RankedAs sort_indices table DedupeKeep.agree by order = order ≡ range 0 table.num_rows
  RankedAs sort_indices table DedupeKeep.lowest by order =
      (name : String) × (by ≡ some name) × (order ≡ sort_indices table name ascending)
  RankedAs sort_indices table DedupeKeep.highest by order =
      (name : String) × (by ≡ some name) × (order ≡ sort_indices table name descending)

  ranking_for_keep-RankedAs :
      (sort_indices : Frame A → String → Direction → List ℕ) (table : Frame A) (keep : DedupeKeep)
      (by : Option String) (ranked : Option (List ℕ))
      → ranking_for_keep sort_indices table keep by ≡ ok ranked
      → RankedAs sort_indices table keep by (order_of table ranked)
  ranking_for_keep-RankedAs sort_indices table DedupeKeep.first by ranked e =
      ap (order_of table) (sym (ok-injective e))
  ranking_for_keep-RankedAs sort_indices table DedupeKeep.agree by ranked e =
      ap (order_of table) (sym (ok-injective e))
  ranking_for_keep-RankedAs sort_indices table DedupeKeep.lowest none ranked e = cc
  ranking_for_keep-RankedAs sort_indices table DedupeKeep.lowest (some name) ranked e =
      (name, refl, ap (order_of table) (sym (ok-injective e)))
  ranking_for_keep-RankedAs sort_indices table DedupeKeep.highest none ranked e = cc
  ranking_for_keep-RankedAs sort_indices table DedupeKeep.highest (some name) ranked e =
      (name, refl, ap (order_of table) (sym (ok-injective e)))

  agreed :
      (keep : DedupeKeep) (table : Frame A) (keys : List String) (groups : List (Group A))
      → refuse_if_agree cells keep table keys groups ≡ ok tt
      → keep ≡ DedupeKeep.agree
      → refuse_disagreeing_groups cells table keys groups ≡ ok tt
  agreed DedupeKeep.agree table keys groups e k = e
  agreed DedupeKeep.first table keys groups e k = cc
  agreed DedupeKeep.lowest table keys groups e k = cc
  agreed DedupeKeep.highest table keys groups e k = cc

  -- Where a dedupe answers, it took, in the order of the input, the rows that come first of their
  -- key in its order: that of the input for `first` and `agree`, else that of its column, ascending
  -- for `lowest` and descending for `highest`. Its lineage names each of them, and no other row, as
  -- the parent of its row. For `agree`, no group of the rows was refused.
  pub handle_dedupe-survivors :
      (sort_indices : Frame A → String → Direction → List ℕ) (config : DedupeConfig)
      (input_id : String) (table : Frame A) (t : Taken)
      → handle_dedupe cells sort_indices config input_id table ≡ ok t
      → (order : List ℕ) × (key_columns : List (List A)) × (rows : List (List A × ℕ)) × RankedAs
          sort_indices table config.keep config.by order
        × (each (column_of table) config.keys ≡ ok key_columns)
        × (each (keyed key_columns) order ≡ ok rows)
        × (t.ordinals ≡ sorted leb (first_of_each_key [] rows))
        × (t.lineage ≡ single_parent_lineage input_id (map pos t.ordinals))
        × (config.keep ≡ DedupeKeep.agree
            → refuse_disagreeing_groups cells table config.keys (group_from cells [] rows) ≡ ok tt)
  unfolding handle_dedupe
  handle_dedupe-survivors sort_indices config input_id table t e =
      let (ranked, a, e1) =
        >>=-eq-ok (ranking_for_keep sort_indices table config.keep config.by) _ e in
      let (groups, b, e2) = >>=-eq-ok (group_ordinals cells table config.keys ranked) _ e1 in
      let (checked, c, e3) =
        >>=-eq-ok (refuse_if_agree cells config.keep table config.keys groups) _ e2 in
      let (key_columns, f, g) = >>=-eq-ok (each (column_of table) config.keys) _ b in
      let (rows, h, k) = >>=-eq-ok (each (keyed key_columns) (order_of table ranked)) _ g in
      (
        order_of table ranked,
        key_columns,
        rows,
        ranking_for_keep-RankedAs sort_indices table config.keep config.by ranked a,
        f,
        h,
        ap (λ u. u.ordinals) (sym (ok-injective e3))
            ∙ ap (λ gs. sorted leb (winners gs)) (sym (ok-injective k))
            ∙ ap (sorted leb) (winners-group_from [] rows),
        subst (λ u. u.lineage ≡ single_parent_lineage input_id (map pos u.ordinals))
            (ok-injective e3) refl,
        λ by_agreement.
            subst (λ gs. refuse_disagreeing_groups cells table config.keys gs ≡ ok tt)
              (sym (ok-injective k)) (agreed config.keep table config.keys groups c by_agreement),
      )

-- ===== src/Schema/Column.antt =====
-- app/models/schema.py: `Column`, and what its validators refuse.
use carbonpaper.Prelude.{
  Bool, true, false, not, ◌&&◌, ◌||◌, String, Text, codes, Option, none, some, List, [], ◌∷◌, ◌==◌,
  Eq, string_eq, nat_eq, bool_eq, list_eq, option_eq, ◌≡◌, ◌↔◌, arith, contains, length, all,
  is_none, is_empty, list_beq_iff, int_beq_iff, int_eq, ℤ, if◌then◌else◌,
}
use carbonpaper.Schema.ColumnType.{
  scalar_column_types, str_column_type, json_column_type, list_json_column_type,
  is_valid_column_type,
}

-- One bound of a `range`. A number is a count of millionths; `other` is a value that is neither a
-- number nor a string, or a Boolean, by its `repr`.
pub data RangeBound : Type 0 where
  number : (millionths : ℤ) → RangeBound
  text : Text → RangeBound
  other : Text → RangeBound

-- The fields of a column but `fields`, which holds columns.
pub record ColumnAttributes : Type 0 where
  pub name : String
  pub type : Text
  pub nullable : Bool
  pub description : Option String
  pub range : Option (List RangeBound)
  pub source : Option String
  pub enum : Option (List String)
  pub value_type : Option Text

mutual
  pub data Column : Type 0 where
    column : ColumnAttributes → SubColumns → Column

  -- `fields: Optional[list[Column]]`
  pub data SubColumns : Type 0 where
    absent : SubColumns
    declared : Columns → SubColumns

  pub data Columns : Type 0 where
    nil : Columns
    cons : Column → Columns → Columns

abbrev pub attributes : Column → ColumnAttributes
attributes (column a f) = a

abbrev pub fields : Column → SubColumns
fields (column a f) = f

abbrev pub name : Column → String
name c = (attributes c).name

abbrev pub nullable : Column → Bool
nullable c = (attributes c).nullable

abbrev pub column_type : Column → Text
column_type c = (attributes c).type

abbrev pub to_list : Columns → List Column
to_list nil = []
to_list (cons c cs) = c ∷ to_list cs

-- Equality of bounds, as `==` between the lists of two `range` fields reads it.
abbrev pub bound_beq : RangeBound → RangeBound → Bool
bound_beq (number m) (number n) = m == n
bound_beq (text s) (text t) = s == t
bound_beq (other s) (other t) = s == t
bound_beq _ _ = false

pub bound_beq_iff : (a b : RangeBound) → (bound_beq a b ≡ true) ↔ (a ≡ b)
bound_beq_iff (number m) (number n) = ground (arith, int_beq_iff m n)
bound_beq_iff (text s) (text t) = ground (arith, list_beq_iff s t)
bound_beq_iff (other s) (other t) = ground (arith, list_beq_iff s t)
bound_beq_iff _ _ = ground arith

instance abbrev pub bound_eq : Eq RangeBound
bound_eq = record { beq = bound_beq; beq_iff = bound_beq_iff }

-- The exceptions of the validators, in the order of the source.
pub data ColumnError : Type 0 where
  unknown_column_type : Text → ColumnError
  enum_only_on_str : String → Text → ColumnError
  enum_empty : String → ColumnError
  json_without_shape : String → ColumnError
  json_with_both_shapes : String → ColumnError
  value_type_not_scalar : String → Text → ColumnError
  fields_only_on_json : String → Text → ColumnError
  value_type_only_on_json : String → Text → ColumnError
  range_only_on_numeric : String → Text → ColumnError
  range_not_two_bounds : String → ColumnError

-- `RANGE_UNBOUNDED_MARKER in v`
holds_inf : Text → Bool
holds_inf (c ∷ d ∷ e ∷ rest) = (c == b'i' && d == b'n' && e == b'f') || holds_inf (d ∷ e ∷ rest)
holds_inf _ = false

unfoldable pub is_range_bound : RangeBound → Bool
unfolding holds_inf
is_range_bound (text t) = holds_inf t
is_range_bound (number _) = true
is_range_bound (other _) = false

abbrev is_declared : SubColumns → Bool
is_declared absent = false
is_declared (declared _) = true

-- Each validator is the first exception that it raises, or none.
unfoldable pub known_type : Column → Option ColumnError
known_type c =
    if is_valid_column_type (column_type c)
    then none
    else some (unknown_column_type (column_type c))

unfoldable pub enum_only_on_str_check : Column → Option ColumnError
enum_only_on_str_check (column a _) = elim a.enum [
  | none ↦ none
  | some values ↦
      if not (a.type == str_column_type)
      then some (enum_only_on_str a.name a.type)
      else if is_empty values
      then some (enum_empty a.name)
      else none
]

abbrev is_json : Text → Bool
is_json t = t == json_column_type || t == list_json_column_type

abbrev scalar_value_type : String → Option Text → Option ColumnError
scalar_value_type n none = none
scalar_value_type n (some v) =
    if contains scalar_column_types v then none else some (value_type_not_scalar n v)

unfoldable pub json_shape : Column → Option ColumnError
json_shape (column a f) =
    if is_json a.type
    then (if not (is_declared f) && is_none a.value_type
        then some (json_without_shape a.name)
        else if is_declared f && not (is_none a.value_type)
        then some (json_with_both_shapes a.name)
        else scalar_value_type a.name a.value_type)
    else if is_declared f
    then some (fields_only_on_json a.name a.type)
    else if not (is_none a.value_type)
    then some (value_type_only_on_json a.name a.type)
    else none

abbrev pub is_numeric : Text → Bool
is_numeric t = t == codes "int" || t == codes "float"

unfoldable pub range_is_numeric_bounds : Column → Option ColumnError
unfolding is_range_bound
range_is_numeric_bounds (column a _) = elim a.range [
  | none ↦ none
  | some bounds ↦
      if not (is_numeric a.type)
      then some (range_only_on_numeric a.name a.type)
      else if length bounds == 2 && all is_range_bound bounds
      then none
      else some (range_not_two_bounds a.name)
]

abbrev or_else {ℓ} : {A : Type ℓ} → Option A → Option A → Option A
or_else (some e) next = some e
or_else none next = next

-- The validators of one column, its sub-columns apart.
unfoldable pub find_column_error : Column → Option ColumnError
unfolding known_type enum_only_on_str_check json_shape range_is_numeric_bounds
find_column_error c =
    or_else (known_type c)
      (or_else (enum_only_on_str_check c) (or_else (json_shape c) (range_is_numeric_bounds c)))

-- A column can be constructed: its sub-columns can, and no validator raises.
unfoldable mutual
  unfolding find_column_error

  pub is_constructible : Column → Bool
  is_constructible (column a f) =
      are_constructible_fields f && is_none (find_column_error (column a f))

  pub are_constructible_fields : SubColumns → Bool
  are_constructible_fields absent = true
  are_constructible_fields (declared cs) = are_constructible cs

  pub are_constructible : Columns → Bool
  are_constructible nil = true
  are_constructible (cons c cs) = is_constructible c && are_constructible cs

-- `resolve_numeric_bounds`: the numbers of a range, a string bound being none.
abbrev numeric_bound : RangeBound → Option RangeBound
numeric_bound (text _) = none
numeric_bound b = some b

unfoldable pub resolve_numeric_bounds : Column → Option RangeBound × Option RangeBound
resolve_numeric_bounds (column a _) =
    if is_numeric a.type
    then (elim a.range [
      | some (low ∷ high ∷ []) ↦ (numeric_bound low, numeric_bound high)
      | _ ↦ (none, none)
    ])
    else (none, none)

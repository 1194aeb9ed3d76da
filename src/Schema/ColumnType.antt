-- ===== src/Schema/ColumnType.antt =====
-- app/models/schema.py: the column-type vocabulary.
use mathlib.Core.List.{reverse}
use carbonpaper.Prelude.{
  Text, codes, strip, strip_prefix, Bool, true, false, not, ◌&&◌, ◌||◌, Option, none, some, List,
  [], ◌∷◌, ◌==◌, nat_eq, list_eq, contains, is_empty, if◌then◌else◌, ℕ,
}

abbrev pub scalar_column_types : List Text
scalar_column_types =
    codes "str" ∷ codes "int" ∷ codes "float" ∷ codes "bool" ∷ codes "datetime" ∷ codes "date" ∷ []

abbrev pub structured_column_types : List Text
structured_column_types = codes "json" ∷ []

abbrev pub str_column_type : Text
str_column_type = codes "str"

abbrev pub json_column_type : Text
json_column_type = codes "json"

abbrev pub list_json_column_type : Text
list_json_column_type = codes "list[json]"

abbrev pub newline : ℕ
newline = 10

-- The end of `^list\[(.+)\]$`, on the reversed rest of the text: `$` also matches before a final
-- newline, and `.` matches no newline.
close_list : Text → Option Text
close_list (c ∷ middle) =
    if c == b']' && not (is_empty middle) && not (contains middle newline)
    then some (reverse middle)
    else none
close_list [] = none

drop_newline : Text → Text
drop_newline (c ∷ cs) = if c == newline then cs else c ∷ cs
drop_newline [] = []

-- `_LIST_RE.match(t)`, as its group 1.
unfoldable pub match_list : Text → Option Text
unfolding close_list drop_newline strip_prefix
match_list t = elim (strip_prefix (codes "list[") t) [
  | some rest ↦ close_list (drop_newline (reverse rest))
  | none ↦ none
]

unfoldable pub find_list_element_type : Text → Option Text
unfolding match_list strip
find_list_element_type t = elim (match_list t) [ some inner ↦ some (strip inner) | none ↦ none ]

abbrev is_plain : Text → Bool
is_plain t = contains scalar_column_types t || contains structured_column_types t

matches_list : Text → Bool
unfolding match_list
matches_list t = elim (match_list t) [ some _ ↦ true | none ↦ false ]

unfoldable pub is_valid_column_type : Text → Bool
unfolding find_list_element_type matches_list
is_valid_column_type t = is_plain t || (elim (find_list_element_type t) [
  | some inner ↦ is_plain inner || matches_list inner
  | none ↦ false
])

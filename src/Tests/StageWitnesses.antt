-- ===== src/Tests/StageWitnesses.antt =====
-- The theorems on the checks of single stage types at sample stages.
use carbonpaper.Prelude.{
  ◌≡◌, refl, true, false, some, [], ◌∷◌, ok, map, find, contains, ◌==◌, string_eq, All,
}
use carbonpaper.Schema.Column.{Column, name, column_type}
use carbonpaper.Schema.ColumnType.{find_list_element_type}
use carbonpaper.StageChecks.Explode.{find_explode_signature_issues, find_explode_column_issues}
use carbonpaper.StageChecks.ExplodeNarrows.{find_explode_column_issues-narrows}
use carbonpaper.StageChecks.Join.{find_join_column_issues}
use carbonpaper.StageChecks.JoinLands.{find_join_column_issues-lands}
use carbonpaper.Prelude.{String, ◌≢◌, none, filter}
use carbonpaper.Schema.Column.{nullable}
use carbonpaper.StageChecks.SortRank.{find_sort_rank_column_issues}
use carbonpaper.StageChecks.SortPlaces.{find_sort_rank_column_issues-places}
use carbonpaper.Tests.Samples.{
  by_age, people, people_input, one_tag_each, tagged_input, one_tag, with_region, cities_input,
}

tags-signed : find_explode_signature_issues "tags" one_tag_each one_tag ≡ []
unfolding find_explode_signature_issues
tags-signed = refl

tags-clean : find_explode_column_issues "tags" one_tag_each one_tag (tagged_input ∷ []) ≡ ok []
unfolding find_explode_column_issues find_list_element_type
tags-clean = refl

find_explode_column_issues-narrows_example :
    (supplied declared : Column) × (find (λ c. name c == "tags") tagged_input.table_schema.columns
      ≡ some supplied)
    × (find (λ r. name r == "tags") one_tag.rewrites ≡ some declared)
    × (find_list_element_type (column_type supplied) ≡ some (column_type declared))
find_explode_column_issues-narrows_example =
    find_explode_column_issues-narrows "tags" one_tag_each one_tag tagged_input [] tags-signed
      tags-clean

region-clean :
    find_join_column_issues "regions" with_region (people_input ∷ cities_input ∷ []) ≡ ok []
unfolding find_join_column_issues
region-clean = refl

find_join_column_issues-lands_example :
    All
      (λ k.
        (contains (map name people.columns) k.left ≡ true)
        × (contains (map name cities_input.table_schema.columns) k.right ≡ true))
      with_region.keys
    × All
        (λ p.
          (contains (map name cities_input.table_schema.columns) p.0 ≡ true)
          × (contains (map name people.columns) p.1 ≡ false)
          × (contains (map (λ k. k.right) with_region.keys) p.1 ≡ true → p.1 ≡ p.0))
        with_region.enrich_with
find_join_column_issues-lands_example =
    find_join_column_issues-lands "regions" with_region people_input cities_input [] region-clean

by_age-clean : find_sort_rank_column_issues "by_age" by_age (people_input ∷ []) ≡ ok []
unfolding find_sort_rank_column_issues
by_age-clean = refl

find_sort_rank_column_issues-places_example :
    All
      (λ k.
        (contains (map name people.columns) k.column ≡ true)
        × (contains (map name (filter nullable people.columns)) k.column ≡ true → k.nulls ≢ none))
      by_age.keys
    × ((rank : String)
        → by_age.rank_column ≡ some rank
        → rank == "" ≡ false
        → contains (map name people.columns) rank ≡ false)
find_sort_rank_column_issues-places_example =
    find_sort_rank_column_issues-places "by_age" by_age people_input [] by_age-clean

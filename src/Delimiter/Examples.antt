-- ===== src/Delimiter/Examples.antt =====
-- A small listing with a delimiter.
use shardscape.Base.{
  pos, ◌≡◌, ◌≤◌, ◌+◌, refl, false, List, [], ◌∷◌, Bytes, text, none, some, ok, In, length, list_beq,
  strip_prefix,
}
use shardscape.Fixtures.{small_store}
use shardscape.Store.Queries.{Listed, key_range}
use shardscape.Delimiter.{
  Page, group_by_delimiter, group_objects, group_one, common_prefix, before_first,
  merge_and_truncate, list_page,
}
use shardscape.Delimiter.Pages.{merge_and_truncate_lem, list_page-ok}

abbrev keys : List Listed
keys = (text "a", pos 1, []) ∷ (text "d/x", pos 1, []) ∷ (text "d/y", pos 1, []) ∷ []

group_by_delimiter_test :
    group_by_delimiter keys [] (text "/") ≡ ((text "a", pos 1, []) ∷ [], text "d/" ∷ [])
unfolding group_by_delimiter group_objects group_one common_prefix before_first list_beq
    strip_prefix
group_by_delimiter_test = refl

merge_and_truncate_lem_example :
    (let page = merge_and_truncate keys (text "d/" ∷ []) 2 in
      (length page.objects + length page.prefixes ≤ 2)
      × ((o : Listed) → In o page.objects → In o keys)
      × ((p : Bytes) → In p page.prefixes → In p (text "d/" ∷ []))
      × (page.is_truncated ≡ false
          → ((o : Listed) → In o keys → In o page.objects)
            × ((p : Bytes) → In p (text "d/" ∷ []) → In p page.prefixes)))
merge_and_truncate_lem_example = merge_and_truncate_lem keys (text "d/" ∷ []) 2

list_page-ok_example :
    (page : Page) × (list_page small_store (text "bk") none none (some (text "/")) 5 ≡ ok page)
unfolding key_range
list_page-ok_example =
    list_page-ok small_store (text "bk") none none none none (some (text "/")) 5 refl

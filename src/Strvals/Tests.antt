-- ===== src/Strvals/Tests.antt =====
-- Runs of the parser on texts of `--set`, and the theorems at them.
use helm.Common.Text.{eqb}
use helm.Common.Decimal.{atoi, format}
use helm.Strvals.Runes.{runes_until, in_map, typed_val, equal_fold, fold_all, fold, parsed_int}
use helm.Common.{Bytes, codes, true, false, some, List, [], ◌∷◌, ◌≡◌, ◌≢◌, refl}
use helm.Chartutil.Value.{
  Fields, null, number, text, bool, list, table, nil, cons, end, field, assign, lookup,
}
use helm.Strvals.Values.{
  done, panicked, failed, no_value, no_map_value, out_of_fuel, val_list, val, set, key_index,
  set_index, items_length, list_rounds, list_round, skip_comma, append_item, item_at, set_item,
}
use helm.Strvals.Parser.{
  parse, parse_string, parse_into_file, to_value, parse_into_string, rounds, key, read_value,
  parse_into, list_item, store_list, store_map,
}
use helm.Strvals.Parser.Fuel.{parse_into_file-ends}
use helm.Strvals.Print.{Entry, print, put_all, print_path, escape, put}
use helm.Strvals.Print.Parse.{parse_into-print}

abbrev a_key : Bytes
a_key = codes "a"

parse_typed : parse (codes "a.b=1,a.c=true,d={x,0}") ≡ (
  done,
  field a_key
      (table (field (codes "b") (number (codes "1")) (field (codes "c") (bool true) end)))
      (field (codes "d") (list (cons (text (codes "x")) (cons (number (codes "0")) nil))) end),
)
unfolding parse_into parse_into_string parse_into_file rounds key list_item runes_until in_map
    key_index atoi lookup read_value val_list set_index items_length val store_list store_map assign
    list_rounds list_round skip_comma format equal_fold fold fold_all parsed_int typed_val
    append_item item_at set_item set eqb
parse_typed = refl

parse_forced : parse_string (codes "a=1") ≡ (done, field a_key (text (codes "1")) end)
unfolding parse_into parse_into_string parse_into_file rounds key list_item runes_until in_map
    key_index atoi lookup read_value val_list set_index items_length val store_list store_map assign
    list_rounds list_round skip_comma format equal_fold fold fold_all parsed_int typed_val
    append_item item_at set_item set eqb
parse_forced = refl

parse_indexed : parse (codes "a[1].b=x") ≡ (
  done,
  field a_key (list (cons null (cons (table (field (codes "b") (text (codes "x")) end)) nil))) end,
)
unfolding parse_into parse_into_string parse_into_file rounds key list_item runes_until in_map
    key_index atoi lookup read_value val_list set_index items_length val store_list store_map assign
    list_rounds list_round skip_comma format equal_fold fold fold_all parsed_int typed_val
    append_item item_at set_item set eqb
parse_indexed = refl

parse_unfinished : (parse (codes "a")).0 ≡ failed (no_value a_key)
unfolding parse_into parse_into_string parse_into_file rounds key list_item runes_until in_map
    key_index atoi lookup read_value val_list set_index items_length val store_list store_map assign
    list_rounds list_round skip_comma format equal_fold fold fold_all parsed_int typed_val
    append_item item_at set_item set eqb
parse_unfinished = refl

parse_no_map : (parse (codes "a.")).0 ≡ failed (no_map_value a_key)
unfolding parse_into parse_into_string parse_into_file rounds key list_item runes_until in_map
    key_index atoi lookup read_value val_list set_index items_length val store_list store_map assign
    list_rounds list_round skip_comma format equal_fold fold fold_all parsed_int typed_val
    append_item item_at set_item set eqb
parse_no_map = refl

-- A negative index, a key under a value that is no map, and an index on one make the parser panic.
parse_negative : (parse (codes "a[-1]=x")).0 ≡ panicked
unfolding parse_into parse_into_string parse_into_file rounds key list_item runes_until in_map
    key_index atoi lookup read_value val_list set_index items_length val store_list store_map assign
    list_rounds list_round skip_comma format equal_fold fold fold_all parsed_int typed_val
    append_item item_at set_item set eqb
parse_negative = refl

parse_clash : (parse (codes "a=1,a.b=2")).0 ≡ panicked
unfolding parse_into parse_into_string parse_into_file rounds key list_item runes_until in_map
    key_index atoi lookup read_value val_list set_index items_length val store_list store_map assign
    list_rounds list_round skip_comma format equal_fold fold fold_all parsed_int typed_val
    append_item item_at set_item set eqb
parse_clash = refl

parse_clash_index : (parse (codes "a=1,a[0]=2")).0 ≡ panicked
unfolding parse_into parse_into_string parse_into_file rounds key list_item runes_until in_map
    key_index atoi lookup read_value val_list set_index items_length val store_list store_map assign
    list_rounds list_round skip_comma format equal_fold fold fold_all parsed_int typed_val
    append_item item_at set_item set eqb
parse_clash_index = refl

parse_into_file-ends_example :
    (parse_into_file (to_value false) (codes "a.b[0]={x,y}") end).0 ≢ out_of_fuel
parse_into_file-ends_example = parse_into_file-ends (to_value false) (codes "a.b[0]={x,y}") end

-- a.b is set to the text "x,y", and then c to 7
abbrev entries : List Entry
entries =
    (record { first = (b'a', []); inner = (b'b', []) ∷ []; value = codes "x,y" })
    ∷ (record { first = (b'c', []); inner = []; value = codes "7" })
    ∷ []

abbrev printed_fields : Fields
printed_fields =
    field a_key (table (field (codes "b") (text (codes "x,y")) end))
      (field (codes "c") (number (codes "7")) end)

print_run : print entries ≡ codes "a.b=x\\,y,c=7"
unfolding print print_path escape in_map
print_run = refl

put_all_run : put_all false entries end ≡ some printed_fields
unfolding put_all put lookup assign eqb typed_val equal_fold fold_all fold parsed_int atoi format
put_all_run = refl

parse_into-print_example :
    parse_into_file (to_value false) (print entries) end ≡ (done, printed_fields)
parse_into-print_example = parse_into-print false entries end printed_fields put_all_run

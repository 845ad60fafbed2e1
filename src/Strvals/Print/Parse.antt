-- ===== src/Strvals/Print/Parse.antt =====
-- The parse, by pkg/strvals/parser.go, of the text that is printed for paths and values.
use helm.Common.{
  ℕ, zero, suc, Bytes, Bool, true, false, Option, none, some, List, [], ◌∷◌, ◌++◌, ◌≡◌, refl, arith,
  append-nil, append_assoc, length, ◌<◌, ◌∙◌, ap, subst, length-append,
}
use helm.Chartutil.Value.{Value, Fields, table, assign, end, field}
use helm.Strvals.Runes.{runes_until, in_map, typed_val}
use helm.Strvals.Values.{done, set}
use helm.Strvals.Parser.{
  key, rounds, parse_into_file, to_value, key_stop, close_map, store_map, parse_body,
}
use helm.Strvals.Print.{
  escape, Key, key_text, Entry, print_path, print, put, put_all, under, nest, continue,
}
use helm.Strvals.Print.Runs.{
  close, left, ending, runes_until-escape, runes_until-stop, key_stop-Escaped, read_value-escape,
}

-- A key and the rune after it are read.
key_run :
    (c : ℕ) (k rest : Bytes)
    → in_map c key_stop ≡ true
    → runes_until key_stop (escape k ++ c ∷ rest) ≡ (k, some c, rest)
key_run c k rest h =
    rw
      (
        runes_until-escape key_stop k (c ∷ rest) key_stop-Escaped,
        runes_until-stop key_stop c rest h,
      )
      (ap (λ x. (x, some c, rest)) (append-nil k))

filled : Fields → Bool
filled end = false
filled (field k v fs) = true

assign-filled : (k : Bytes) (v : Value) (fs : Fields) → filled (assign k v fs) ≡ true
unfolding filled assign
assign-filled k v end = refl
assign-filled k v (field j w fs) = ground arith

-- A path of two keys or more went through the map of its first.
put-under :
    (k : Key) (vals r : Fields) (x : Option Fields) (next : Fields → Option Fields)
    → under k vals x next ≡ some r
    → (fs : Fields) × (inner : Fields) × (x ≡ some fs)
      × (next fs ≡ some inner)
      × (r ≡ assign (key_text k) (table inner) vals)
put-under k vals r none next h = cc
put-under k vals r (some fs) next h = go (next fs) refl h
  where
    go :
        (y : Option Fields)
        → next fs ≡ y
        → nest k vals y ≡ some r
        → (fs' : Fields) × (inner : Fields) × (some fs ≡ some fs')
          × (next fs' ≡ some inner)
          × (r ≡ assign (key_text k) (table inner) vals)
    go none e h' = cc
    go (some inner) e h' = (fs, inner, refl, e, cc)

put-filled :
    (k : Key) (ps : List Key) (v : Value) (vals r : Fields)
    → put k ps v vals ≡ some r
    → filled r ≡ true
unfolding put
put-filled k [] v vals r h = ground (arith, assign-filled (key_text k) v vals)
put-filled k (q ∷ ps) v vals r h =
    let (fs, inner, _, _, e) = put-under k vals r _ (put q ps v) h in
    rw e (assign-filled (key_text k) (table inner) vals)

close_map-filled :
    (k : Key) (vals : Fields) (v : Bytes) (tl : Option Bytes) (fs : Fields)
    → filled fs ≡ true
    → close_map (key_text k) vals (ending v tl, left tl, fs)
      ≡ (ending v tl, left tl, assign (key_text k) (table fs) vals)
unfolding filled store_map
close_map-filled k vals v tl end h = cc
close_map-filled k vals [] none (field j w fs) h = refl
close_map-filled k vals [] (some t) (field j w fs) h = refl
close_map-filled k vals (c ∷ v) tl (field j w fs) h = refl

key-print_path :
    (st : Bool) (fuel : ℕ) (k : Key) (ps : List Key) (v : Bytes) (tl : Option Bytes)
    (vals r : Fields)
    → length ps < fuel
    → put k ps (typed_val v st) vals ≡ some r
    → key (to_value st) fuel (print_path k ps v ++ close tl) vals ≡ (ending v tl, left tl, r)
unfolding key put print_path set in_map
key-print_path st zero k ps v tl vals r lt h = absurd (omega arith)
key-print_path st (suc fuel) k [] v tl vals r lt h =
    rw
      (
        append_assoc (escape (key_text k)) (b'=' ∷ escape v) (close tl),
        key_run b'=' (key_text k) (escape v ++ close tl) refl,
        read_value-escape st fuel v tl,
      )
      (cc h)
key-print_path st (suc fuel) k (q ∷ ps) v tl vals r lt h =
    let (fs, inner, e, e', er) = put-under k vals r _ (put q ps (typed_val v st)) h in
    rw
      (
        append_assoc (escape (key_text k)) (b'.' ∷ print_path q ps v) (close tl),
        key_run b'.' (key_text k) (print_path q ps v ++ close tl) refl,
        e,
        key-print_path st fuel q ps v tl fs inner (omega arith) e',
        er,
      )
      (close_map-filled k vals v tl inner (put-filled q ps (typed_val v st) fs inner e'))

escape-long : (c : ℕ) (k : Bytes) → 0 < length (escape (c ∷ k))
unfolding escape
escape-long c k = ground arith

-- Every key of a path and the sign before the value take at least one rune.
print_path-long :
    (k : Key) (ps : List Key) (v : Bytes) → suc (length ps) < length (print_path k ps v)
unfolding print_path
print_path-long (c, k) [] v =
    omega (arith, escape-long c k, length-append (escape (c ∷ k)) (b'=' ∷ escape v))
print_path-long (c, k) (q ∷ ps) v = omega (
  arith,
  escape-long c k,
  length-append (escape (c ∷ k)) (b'.' ∷ print_path q ps v),
  print_path-long q ps v,
)

-- The loop stops at the end of the text.
rounds-end :
    (st : Bool) (fuel : ℕ) (vals : Fields) → rounds (to_value st) (suc fuel) [] vals ≡ (done, vals)
unfolding rounds key runes_until
rounds-end st fuel vals = refl

last_round :
    (st : Bool) (fuel : ℕ) (v : Bytes) (vals : Fields)
    → 0 < fuel
    → parse_body (rounds (to_value st) fuel) (ending v none, [], vals) ≡ (done, vals)
last_round st fuel [] vals lt = refl
last_round st zero (c ∷ v) vals lt = absurd (omega arith)
last_round st (suc fuel) (c ∷ v) vals lt = rounds-end st fuel vals

next_round :
    (st : Bool) (fuel : ℕ) (v t : Bytes) (vals : Fields)
    → parse_body (rounds (to_value st) fuel) (ending v (some t), left (some t), vals)
      ≡ rounds (to_value st) fuel t vals
next_round st fuel [] t vals = refl
next_round st fuel (c ∷ v) t vals = refl

continue-some :
    (x : Option Fields) (next : Fields → Option Fields) (r : Fields)
    → continue x next ≡ some r
    → (vals : Fields) × (x ≡ some vals) × (next vals ≡ some r)
continue-some none next r h = cc
continue-some (some vals) next r h = (vals, refl, h)

some_injective : (x y : Fields) → some x ≡ some y → x ≡ y
some_injective x y h = cc

rounds-print :
    (st : Bool) (fuel : ℕ) (es : List Entry) (vals r : Fields)
    → length (print es) < fuel
    → put_all st es vals ≡ some r
    → rounds (to_value st) fuel (print es) vals ≡ (done, r)
unfolding rounds put_all print
rounds-print st zero es vals r lt h = absurd (omega arith)
rounds-print st (suc fuel) [] vals r lt h =
    rounds-end st fuel vals ∙ ap (λ fs. (done, fs)) (some_injective vals r h)
rounds-print st (suc fuel) (e ∷ []) vals r lt h =
    let (vals', eq, eq') = continue-some _ (put_all st []) r h in
    let long = print_path-long e.first e.inner e.value in
    let whole = append-nil (print_path e.first e.inner e.value) in
    subst
      (λ s.
        parse_body (rounds (to_value st) fuel) (key (to_value st) (suc fuel) s vals) ≡ (done, r))
      whole
      (rw (key-print_path st (suc fuel) e.first e.inner e.value none vals vals' (omega arith) eq) (
        last_round st fuel e.value vals' (omega arith)
        ∙ ap (λ fs. (done, fs)) (some_injective vals' r eq')))
rounds-print st (suc fuel) (e ∷ e' ∷ es) vals r lt h =
    let (vals', eq, eq') = continue-some _ (put_all st (e' ∷ es)) r h in
    let long = print_path-long e.first e.inner e.value in
    let split = length-append (print_path e.first e.inner e.value) (b',' ∷ print (e' ∷ es)) in
    rw
      (key-print_path st (suc fuel) e.first e.inner e.value (some (print (e' ∷ es))) vals vals'
        (omega arith) eq)
      (next_round st fuel e.value (print (e' ∷ es)) vals'
        ∙ rounds-print st fuel (e' ∷ es) vals' r (omega arith) eq')

-- Entries that are printed, with special runes escaped, and parsed into a map give the map in which
-- each is set under its path, in their order, where no path meets a value that is no table.
pub parse_into-print :
    (st : Bool) (es : List Entry) (vals r : Fields)
    → put_all st es vals ≡ some r
    → parse_into_file (to_value st) (print es) vals ≡ (done, r)
unfolding parse_into_file
parse_into-print st es vals r h =
    rounds-print st (suc (length (print es))) es vals r (omega arith) h

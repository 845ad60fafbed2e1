-- ===== src/Storage/ConfigMaps/Tests.antt =====
-- An API server that is a list of objects, a coding that fits it, and the refinement at them.
use helm.Common.{
  Bytes, codes, true, if◌then◌else◌, Option, none, some, List, [], ◌∷◌, ◌≡◌, refl, arith, ap, sym,
  ◌≤◌, length,
}
use native.Mathlib.Decide.{ℕ_discrete}
use helm.Common.Text.{eqb, eqb_iff, has_prefix}
use helm.Common.Decimal.{int32}
use helm.Release.{Release, deployed}
use helm.Result.{Result, ok, err, external, bind}
use helm.Storage.Labels
use helm.Storage.Encoding.{
  Codec, IsCodec, encode_release, decode_release, decode_release-encode_release, magic_gzip,
}
use helm.Storage.ConfigMaps.{
  Client, Context, Object, Answer, got, refused, is_not_found, is_already_exists, get_release,
}
use helm.Storage.ConfigMaps.Refines.{
  IsServer, or_not_found, config_maps-refines, found, releases, Creates, Updates, Deletes,
}

abbrev Objects : Type 0
Objects = List Object

find : Objects → Bytes → Option Object
find [] k = none
find (o ∷ os) k = if eqb o.name k then some o else find os k

remove : Bytes → Objects → Objects
remove k [] = []
remove k (o ∷ os) = if eqb o.name k then remove k os else o ∷ remove k os

select : Labels.Labels → Objects → Objects
select sel [] = []
select sel (o ∷ os) = if Labels.matches o.lbs sel then o ∷ select sel os else select sel os

abbrev add : Object → Objects → Option Object → Answer (Unit {0}) × Objects
add o os none = (got tt, o ∷ os)
add o os (some p) = (refused is_already_exists, os)

abbrev replace : Object → Objects → Option Object → Answer (Unit {0}) × Objects
replace o os none = (refused is_not_found, os)
replace o os (some p) = (got tt, o ∷ os)

abbrev drop : Bytes → Objects → Option Object → Answer (Unit {0}) × Objects
drop k os none = (refused is_not_found, os)
drop k os (some p) = (got tt, remove k os)

abbrev api : Client
api = record {
  State = Objects;
  get = λ k os. or_not_found (find os k);
  list = λ sel os. got (select sel os);
  create = λ o os. add o os (find os o.name);
  update = λ o os. replace o os (find os o.name);
  delete = λ k os. drop k os (find os k);
}

find-remove :
    (k j : Bytes) (os : Objects) → find (remove k os) j ≡ (if eqb k j then none else find os j)
unfolding find remove
find-remove k j [] = ground arith
find-remove k j (o ∷ os) =
    ground (arith, find-remove k j os, eqb_iff o.name k, eqb_iff o.name j, eqb_iff k j)

api-IsServer : IsServer api find
unfolding find
api-IsServer = record {
  get = λ k s. refl;
  create_fresh = λ o s h. (o ∷ s, rw h refl, λ k. refl);
  create_taken = λ o p s h. rw h refl;
  update_present = λ o p s h. (o ∷ s, rw h refl, λ k. refl);
  update_missing = λ o s h. rw h refl;
  delete_present = λ k p s h. (remove k s, rw h refl, λ j. find-remove k j s);
}

abbrev one : Release
one = record {
  name = codes "web";
  info = record {
    code = deployed;
    notes = [];
    first_deployed = 1;
    last_deployed = 1;
    deleted_at = none;
    description = [];
  };
  chart = none;
  config = none;
  manifest = [];
  hooks = [];
  version = int32 1;
  namespace = codes "ns";
}

Release-discrete : Discrete Release
Release-discrete = hlevel (ℕ_discrete)

-- the coding of the one release
abbrev marshal_one : (r : Release) → Dec (r ≡ one) → Result Bytes
marshal_one r (yes e) = ok (codes "one")
marshal_one r (no ne) = err (external (codes "unknown"))

abbrev tail1 : Bytes → Bytes
tail1 [] = []
tail1 (c ∷ s) = s

abbrev tail3 : Bytes → Bytes
tail3 s = tail1 (tail1 (tail1 s))

abbrev codec : Codec
codec = record {
  marshal = λ r. marshal_one r (Release-discrete r one);
  unmarshal = λ b. ok one;
  zip = λ b. 31 ∷ 139 ∷ 8 ∷ b;
  unzip = λ b. ok (tail3 b);
  b64_encode = λ b. 0 ∷ b;
  b64_decode = λ text. ok (tail1 text);
}

marshal_one-one : (r : Release) (d : Dec (r ≡ one)) (b : Bytes) → marshal_one r d ≡ ok b → r ≡ one
marshal_one-one r (yes e) b h = e
marshal_one-one r (no ne) b h = cc

filled : (b : Bytes) → has_prefix b magic_gzip ≡ true → 4 ≤ length (0 ∷ b)
unfolding has_prefix
filled [] h = cc
filled (x ∷ []) h = ground arith
filled (x ∷ y ∷ []) h = ground arith
filled (x ∷ y ∷ z ∷ b) h = omega arith

codec-IsCodec : IsCodec codec
unfolding has_prefix
codec-IsCodec = record {
  unmarshal-marshal = λ r b h. ap ok (sym (marshal_one-one r (Release-discrete r one) b h));
  unzip-zip = λ b. refl;
  zip-magic = λ b. refl;
  decode-encode = λ b. refl;
  encode-long = filled;
}

one_text : Bytes
one_text = 0 ∷ 31 ∷ 139 ∷ 8 ∷ codes "one"

encode_one : encode_release codec one ≡ ok one_text
unfolding encode_release one_text
encode_one = go (Release-discrete one one)
  where
    go :
        (d : Dec (one ≡ one))
        → bind (marshal_one one d) (λ b. ok (codec.b64_encode (codec.zip b))) ≡ ok one_text
    go (yes e) = refl
    go (no ne) = absurd (ne refl)

decode_release-encode_release_example : decode_release codec one_text ≡ ok one
decode_release-encode_release_example =
    decode_release-encode_release codec codec-IsCodec one one_text encode_one

abbrev context : Context api
context = record {
  encode = encode_release codec;
  decode = decode_release codec;
  unix_time = λ s. codes "0";
  label_errors = λ v. [];
}

abbrev key : Bytes
key = codes "web.v1"

abbrev present : Objects
present = (record { name = key; lbs = []; payload = one_text }) ∷ []

config_maps-refines_example :
    (get_release api context key present
      ≡ found api context find key (releases api context find present key))
    × Creates api context find present key one (releases api context find present key)
    × Updates api context find present key one (releases api context find present key)
    × Deletes api context find present key (releases api context find present key)
config_maps-refines_example =
    config_maps-refines api context find api-IsServer
      (decode_release-encode_release codec codec-IsCodec) present key one one_text encode_one

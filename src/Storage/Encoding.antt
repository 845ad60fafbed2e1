-- ===== src/Storage/Encoding.antt =====
-- encodeRelease and decodeRelease of pkg/storage/driver/util.go. Protobuf, gzip and base64 are
-- parameters; that a write to a buffer fails is left out.
use helm.Common.{
  Bytes, codes, if◌then◌else◌, [], ◌∷◌, ltb, length, ◌≡◌, refl, ◌≤◌, arith, false, true,
}
use helm.Common.Text.{has_prefix}
use helm.Release.{Release}
use helm.Result.{Error, Result, ok, err, external, bind}

pub record Codec : Type 0 where
  -- proto.Marshal and proto.Unmarshal
  pub marshal : Release → Result Bytes
  pub unmarshal : Bytes → Result Release
  -- a gzip writer at the best compression, and a reader
  pub zip : Bytes → Bytes
  pub unzip : Bytes → Result Bytes
  -- base64.StdEncoding
  pub b64_encode : Bytes → Bytes
  pub b64_decode : Bytes → Result Bytes

abbrev pub magic_gzip : Bytes
magic_gzip = 31 ∷ 139 ∷ 8 ∷ []

-- `b[0:3]` of a slice without room for three bytes; base64 gives room for three bytes to each four
-- of the text, so this is a text of less than four
abbrev pub slice_out_of_range : Error
slice_out_of_range = external (codes "runtime error: slice bounds out of range")

module _ (C : Codec) where
  open C use {marshal, unmarshal, zip, unzip, b64_encode, b64_decode}

  unfoldable pub encode_release : Release → Result Bytes
  encode_release rls = bind (marshal rls) λ b. ok (b64_encode (zip b))

  -- A release that was stored before compression was introduced is not decompressed.
  unfoldable pub decode_bytes : Bytes → Result Release
  decode_bytes b = bind (if has_prefix b magic_gzip then unzip b else ok b) unmarshal

  unfoldable pub decode_release : Bytes → Result Release
  unfolding decode_bytes
  decode_release text =
      bind (b64_decode text)
        λ b. if ltb (length text) 4 then err slice_out_of_range else decode_bytes b

-- What the packages promise: each decoding undoes its encoding, gzip's output begins with its magic
-- number, and base64 makes four bytes at least of an input that is not empty.
pub record IsCodec (C : Codec) : Type 0 where
  pub unmarshal-marshal : (r : Release) (b : Bytes) → C.marshal r ≡ ok b → C.unmarshal b ≡ ok r
  pub unzip-zip : (b : Bytes) → C.unzip (C.zip b) ≡ ok b
  pub zip-magic : (b : Bytes) → has_prefix (C.zip b) magic_gzip ≡ true
  pub decode-encode : (b : Bytes) → C.b64_decode (C.b64_encode b) ≡ ok b
  pub encode-long : (b : Bytes) → has_prefix b magic_gzip ≡ true → 4 ≤ length (C.b64_encode b)

-- A release that is encoded is decoded to itself.
pub decode_release-encode_release :
    (C : Codec) (is : IsCodec C) (r : Release) (text : Bytes)
    → encode_release C r ≡ ok text
    → decode_release C text ≡ ok r
unfolding encode_release decode_release decode_bytes
decode_release-encode_release C is r text h = go (C.marshal r) refl h
  where
    go :
        (m : Result Bytes)
        → C.marshal r ≡ m
        → bind m (λ b. ok (C.b64_encode (C.zip b))) ≡ ok text
        → decode_release C text ≡ ok r
    go (err e) em h' = cc
    go (ok b) em h' =
        let same : text ≡ C.b64_encode (C.zip b) = cc in
        let long : ltb (length (C.b64_encode (C.zip b))) 4 ≡ false =
          ground (arith, is.encode-long (C.zip b) (is.zip-magic b)) in
        rw (same, is.decode-encode (C.zip b), long, is.zip-magic b, is.unzip-zip b)
          (is.unmarshal-marshal r b em)

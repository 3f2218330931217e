-- ===== src/Transcoding/Examples.antt =====
-- Concrete values through the transcoders (transcoding.go), with a JSON encoder for numbers alone.
use gocb.Base.{ℕ, ◌≡◌, refl, ◌≢◌, Option, none, some, List, [], ◌∷◌, ◌==◌, if◌then◌else◌}
use gocb.Transcoding.Defs.{
  DataType, unknown_type, json_type, binary_type, string_type, Compression, no_compression,
  unknown_compression, other, ok, Codec, encode, legacy, legacy_encode,
}
use gocb.Transcoding.RoundTrip.{contents, Restores, decode-encode}

abbrev number_of : List ℕ → Option ℕ
number_of (n ∷ []) = some n
number_of _ = none

-- JSON's flag is 0, and so is that of an unknown type, which is read back as JSON.
abbrev flags_of : DataType → Compression → ℕ
flags_of binary_type c = 1
flags_of string_type c = 2
flags_of _ c = 0

abbrev types_of : ℕ → DataType × Compression
types_of n =
    if n == 0
    then (json_type, no_compression)
    else if n == 1
    then (binary_type, no_compression)
    else if n == 2
    then (string_type, no_compression)
    else (unknown_type, unknown_compression)

flags_there :
    (t : DataType)
    → t ≢ unknown_type
    → ((types_of (flags_of t no_compression)).0 ≡ t)
      × ((types_of (flags_of t no_compression)).1 ≡ no_compression)
flags_there unknown_type h = absurd (h refl)
flags_there json_type h = (refl, refl)
flags_there binary_type h = (refl, refl)
flags_there string_type h = (refl, refl)

-- Numbers as JSON values, each written as a single byte.
abbrev a_codec : Codec
a_codec = record {
  J = ℕ;
  marshal = λ n. some (n ∷ []);
  marshal_bytes = λ b. some b;
  unmarshal = λ out b. number_of b;
  encode_flags = flags_of;
  decode_flags = types_of;
  flags_back = flags_there;
}

number_written : encode a_codec legacy (other 9) ≡ ok (9 ∷ [], 0)
unfolding encode legacy_encode
number_written = refl

decode-encode_example :
    (contents a_codec legacy (other 9) ≡ some (9 ∷ []))
    × Restores a_codec legacy json_type (9 ∷ []) 0
decode-encode_example = decode-encode a_codec legacy (other 9) (9 ∷ []) 0 number_written

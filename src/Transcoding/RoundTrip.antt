-- ===== src/Transcoding/RoundTrip.antt =====
-- What a transcoder reads back of what it, or another one, has written (transcoding.go).
use gocb.Base.{ℕ, ◌≡◌, refl, ap, ap₂, ◌∙◌, ◌≢◌, Bool, true, false, Option, none, some, arith}
use gocb.Transcoding.Defs.{
  DataType, unknown_type, json_type, binary_type, string_type, no_compression, Bytes, Value, bytes,
  bytes_ref, text, text_ref, raw_message, raw_message_ref, any_ref, other, Target, to_bytes,
  to_text, to_any, wrote_bytes, wrote_text, ok, Codec, json_encode, raw_json_encode,
  raw_string_encode, raw_binary_encode, legacy_encode, unmarshalled, json_read, raw_json_read,
  raw_string_read, raw_binary_read, legacy_read, Transcoder, json, raw_json, raw_string, raw_binary,
  legacy, encode, read, decode,
}

module _ {J : Type 0} where
  -- The type that each transcoder documents for a value that it takes.
  abbrev pub stored_type : Transcoder → Value J → DataType
  stored_type json v = json_type
  stored_type raw_json v = json_type
  stored_type raw_string v = string_type
  stored_type raw_binary v = binary_type
  stored_type legacy (bytes b) = binary_type
  stored_type legacy (bytes_ref b) = binary_type
  stored_type legacy (text b) = string_type
  stored_type legacy (text_ref b) = string_type
  stored_type legacy (any_ref v) = stored_type legacy v
  stored_type legacy (raw_message b) = json_type
  stored_type legacy (raw_message_ref b) = json_type
  stored_type legacy (other v) = json_type

  stored_type-known : (t : Transcoder) (v : Value J) → stored_type t v ≢ unknown_type
  stored_type-known json v = λ p. cc
  stored_type-known raw_json v = λ p. cc
  stored_type-known raw_string v = λ p. cc
  stored_type-known raw_binary v = λ p. cc
  stored_type-known legacy (any_ref v) = stored_type-known legacy v
  stored_type-known legacy (bytes x) = λ p. cc
  stored_type-known legacy _ = λ p. cc

  -- The bytes of a value that is bytes, a text or a raw message.
  abbrev pub payload : Value J → Option Bytes
  payload (bytes b) = some b
  payload (bytes_ref b) = some b
  payload (text b) = some b
  payload (text_ref b) = some b
  payload (raw_message b) = some b
  payload (raw_message_ref b) = some b
  payload (any_ref v) = payload v
  payload (other v) = none

-- The types that a transcoder reads.
abbrev pub accepts : Transcoder → DataType → Bool
accepts json json_type = true
accepts raw_json json_type = true
accepts raw_string string_type = true
accepts raw_binary binary_type = true
accepts legacy json_type = true
accepts legacy string_type = true
accepts legacy binary_type = true
accepts _ _ = false

module _ (codec : Codec) where
  open codec use {J, marshal, marshal_bytes, unmarshal, encode_flags, decode_flags, flags_back}

  encode-flags :
      (t : Transcoder) (v : Value J) (b : Bytes) (f : ℕ)
      → encode codec t v ≡ ok (b, f)
      → f ≡ encode_flags (stored_type t v) no_compression
  unfolding encode json_encode raw_json_encode raw_string_encode raw_binary_encode legacy_encode
  encode-flags json (any_ref v) b f e = encode-flags json v b f e
  encode-flags json (bytes x) b f e = ground arith
  encode-flags json _ b f e = ground arith
  encode-flags raw_json (any_ref v) b f e = encode-flags raw_json v b f e
  encode-flags raw_json (bytes x) b f e = ground arith
  encode-flags raw_json _ b f e = ground arith
  encode-flags raw_string (any_ref v) b f e = encode-flags raw_string v b f e
  encode-flags raw_string (bytes x) b f e = ground arith
  encode-flags raw_string _ b f e = ground arith
  encode-flags raw_binary (any_ref v) b f e = encode-flags raw_binary v b f e
  encode-flags raw_binary (bytes x) b f e = ground arith
  encode-flags raw_binary _ b f e = ground arith
  encode-flags legacy (any_ref v) b f e = encode-flags legacy v b f e
  encode-flags legacy (bytes x) b f e = ground arith
  encode-flags legacy _ b f e = ground arith

  read_after :
      (t : Transcoder) (v : Value J) (b : Bytes) (f : ℕ) (u : Transcoder) (out : Target)
      → encode codec t v ≡ ok (b, f)
      → decode codec u b f out ≡ read codec u (stored_type t v) no_compression out b
  unfolding decode
  read_after t v b f u out e =
      let w = encode-flags t v b f e in
      let back = flags_back (stored_type t v) (stored_type-known t v) in
      ap₂ (λ ty c. read codec u ty c out b) (ap (λ g. (decode_flags g).0) w ∙ back.0)
        (ap (λ g. (decode_flags g).1) w ∙ back.1)

  -- How a stored value comes back, by the type under which its bytes `p` are stored.
  abbrev pub Restores : Transcoder → DataType → Bytes → ℕ → Type 0
  Restores t binary_type p f =
      (decode codec t p f to_bytes ≡ ok (wrote_bytes p))
      × (decode codec t p f to_any ≡ ok (wrote_bytes p))
  Restores t string_type p f =
      (decode codec t p f to_text ≡ ok (wrote_text p))
      × (decode codec t p f to_any ≡ ok (wrote_text p))
  Restores raw_json json_type p f =
      (decode codec raw_json p f to_bytes ≡ ok (wrote_bytes p))
      × (decode codec raw_json p f to_text ≡ ok (wrote_text p))
  Restores t json_type p f =
      (out : Target) → decode codec t p f out ≡ unmarshalled codec (unmarshal out p)
  Restores t unknown_type p f = ⊥

  -- The bytes that go into storage: the value's own, or those of its JSON text.
  abbrev pub contents : Transcoder → Value J → Option Bytes
  contents json (bytes b) = none
  contents json (bytes_ref b) = none
  contents json (text b) = marshal_bytes b
  contents json (text_ref b) = marshal_bytes b
  contents json (any_ref v) = contents json v
  contents json (raw_message b) = some b
  contents json (raw_message_ref b) = some b
  contents t (other j) = marshal j
  contents t (any_ref v) = contents t v
  contents t v = payload v

  encode-contents :
      (t : Transcoder) (v : Value J) (b : Bytes) (f : ℕ)
      → encode codec t v ≡ ok (b, f)
      → contents t v ≡ some b
  unfolding encode json_encode raw_json_encode raw_string_encode raw_binary_encode legacy_encode
  encode-contents json (any_ref v) b f e = encode-contents json v b f e
  encode-contents json (bytes x) b f e = ground arith
  encode-contents json _ b f e = ground arith
  encode-contents raw_json (any_ref v) b f e = encode-contents raw_json v b f e
  encode-contents raw_json (bytes x) b f e = ground arith
  encode-contents raw_json _ b f e = ground arith
  encode-contents raw_string (any_ref v) b f e = encode-contents raw_string v b f e
  encode-contents raw_string (bytes x) b f e = ground arith
  encode-contents raw_string _ b f e = ground arith
  encode-contents raw_binary (any_ref v) b f e = encode-contents raw_binary v b f e
  encode-contents raw_binary (bytes x) b f e = ground arith
  encode-contents raw_binary _ b f e = ground arith
  encode-contents legacy (any_ref v) b f e = encode-contents legacy v b f e
  encode-contents legacy (bytes x) b f e = ground arith
  encode-contents legacy _ b f e = ground arith

  -- If the flags of every known type without compression can be read back, then a transcoder stores
  -- the value's own bytes, or its JSON text, under the type that it documents, and reads them back:
  -- binary values as bytes, strings as text, raw JSON as either, and any other JSON as the JSON
  -- decoder has it.
  pub decode-encode :
      (t : Transcoder) (v : Value J) (b : Bytes) (f : ℕ)
      → encode codec t v ≡ ok (b, f)
      → (contents t v ≡ some b) × Restores t (stored_type t v) b f
  decode-encode t v b f e = (encode-contents t v b f e, restored t v e)
    where
      back :
          (s : Transcoder) (w : Value J) (out : Target)
          → encode codec s w ≡ ok (b, f)
          → decode codec s b f out ≡ read codec s (stored_type s w) no_compression out b
      back s w out h = read_after s w b f s out h

      legacy_restored :
          (ty : DataType)
          → ty ≢ unknown_type
          → ((out : Target)
              → decode codec legacy b f out ≡ read codec legacy ty no_compression out b)
          → Restores legacy ty b f
      legacy_restored binary_type ne h =
          (h to_bytes ∙ (unfold legacy_read in refl), h to_any ∙ (unfold legacy_read in refl))
      legacy_restored string_type ne h =
          (h to_text ∙ (unfold legacy_read in refl), h to_any ∙ (unfold legacy_read in refl))
      legacy_restored json_type ne h = λ out. h out ∙ (unfold legacy_read in refl)
      legacy_restored unknown_type ne h = ne refl

      restored :
          (s : Transcoder) (w : Value J)
          → encode codec s w ≡ ok (b, f)
          → Restores s (stored_type s w) b f
      restored json w h = λ out. back json w out h ∙ (unfold json_read in refl)
      restored raw_json w h = (
        back raw_json w to_bytes h ∙ (unfold raw_json_read in refl),
        back raw_json w to_text h ∙ (unfold raw_json_read in refl),
      )
      restored raw_string w h = (
        back raw_string w to_text h ∙ (unfold raw_string_read in refl),
        back raw_string w to_any h ∙ (unfold raw_string_read in refl),
      )
      restored raw_binary w h = (
        back raw_binary w to_bytes h ∙ (unfold raw_binary_read in refl),
        back raw_binary w to_any h ∙ (unfold raw_binary_read in refl),
      )
      restored legacy w h =
          legacy_restored (stored_type legacy w) (stored_type-known legacy w)
            (λ out. back legacy w out h)

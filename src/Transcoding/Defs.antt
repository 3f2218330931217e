-- ===== src/Transcoding/Defs.antt =====
-- The five transcoders of transcoding.go. A text is its bytes. The JSON encoder and gocbcore's common
-- flags are parameters.
use gocb.Base.{ℕ, ◌≡◌, ◌≢◌, Option, none, some, List}

-- gocbcore's data types and compressions, as far as the transcoders tell them apart.
pub data DataType : Type 0 where
  unknown_type json_type binary_type string_type : DataType

pub data Compression : Type 0 where
  no_compression unknown_compression : Compression

abbrev pub Bytes : Type 0
Bytes = List ℕ

-- A value to encode: the types that the switches name, pointers to them, an interface behind a pointer,
-- and any other type.
pub data Value (J : Type 0) : Type 0 where
  bytes bytes_ref text text_ref raw_message raw_message_ref : Bytes → Value J
  any_ref : Value J → Value J
  other : J → Value J

-- What a decoder writes to: a pointer to bytes, a text, an interface, or anything else.
pub data Target : Type 0 where
  to_bytes to_text to_any to_other : Target

-- What it has written: bytes, a text, or what the JSON decoder made.
pub data Written (J : Type 0) : Type 0 where
  wrote_bytes wrote_text : Bytes → Written J
  wrote_json : J → Written J

pub data Error : Type 0 where
  compressed unexpected_flags unsupported_type wrong_target json_error invalid_argument : Error

pub data Result (A : Type 0) : Type 0 where
  ok : A → Result A
  err : Error → Result A

-- What the transcoders use from elsewhere: encoding/json, and the common flags of gocbcore. The flags of
-- a known type without compression can be read back; nothing is assumed of others.
pub record Codec : Type 1 where
  pub J : Type 0
  pub marshal : J → Option Bytes
  pub marshal_bytes : Bytes → Option Bytes
  pub unmarshal : Target → Bytes → Option J
  pub encode_flags : DataType → Compression → ℕ
  pub decode_flags : ℕ → DataType × Compression
  pub flags_back :
      (t : DataType)
      → t ≢ unknown_type
      → ((decode_flags (encode_flags t no_compression)).0 ≡ t)
        × ((decode_flags (encode_flags t no_compression)).1 ≡ no_compression)

-- The Transcoder interface: which of the five a collection uses.
pub data Transcoder : Type 0 where
  json raw_json raw_string raw_binary legacy : Transcoder

module _ (codec : Codec) where
  open codec use {J, marshal, marshal_bytes, unmarshal, encode_flags, decode_flags}

  abbrev pub Encoded : Type 0
  Encoded = Result (Bytes × ℕ)

  abbrev pub with_type : DataType → Bytes → Encoded
  with_type t b = ok (b, encode_flags t no_compression)

  abbrev pub marshalled : Option Bytes → Encoded
  marshalled none = err json_error
  marshalled (some b) = with_type json_type b

  -- JSONTranscoder.Encode: a text is marshalled as any other value.
  unfoldable pub json_encode : Value J → Encoded
  json_encode (bytes b) = err unsupported_type
  json_encode (bytes_ref b) = err unsupported_type
  json_encode (raw_message b) = with_type json_type b
  json_encode (raw_message_ref b) = with_type json_type b
  json_encode (any_ref v) = json_encode v
  json_encode (text b) = marshalled (marshal_bytes b)
  json_encode (text_ref b) = marshalled (marshal_bytes b)
  json_encode (other v) = marshalled (marshal v)

  -- RawJSONTranscoder.Encode
  unfoldable pub raw_json_encode : Value J → Encoded
  raw_json_encode (bytes b) = with_type json_type b
  raw_json_encode (bytes_ref b) = with_type json_type b
  raw_json_encode (text b) = with_type json_type b
  raw_json_encode (text_ref b) = with_type json_type b
  raw_json_encode (raw_message b) = with_type json_type b
  raw_json_encode (raw_message_ref b) = with_type json_type b
  raw_json_encode (any_ref v) = raw_json_encode v
  raw_json_encode (other v) = err invalid_argument

  -- RawStringTranscoder.Encode
  unfoldable pub raw_string_encode : Value J → Encoded
  raw_string_encode (text b) = with_type string_type b
  raw_string_encode (text_ref b) = with_type string_type b
  raw_string_encode (any_ref v) = raw_string_encode v
  raw_string_encode (bytes b) = err invalid_argument
  raw_string_encode (bytes_ref b) = err invalid_argument
  raw_string_encode (raw_message b) = err invalid_argument
  raw_string_encode (raw_message_ref b) = err invalid_argument
  raw_string_encode (other v) = err invalid_argument

  -- RawBinaryTranscoder.Encode
  unfoldable pub raw_binary_encode : Value J → Encoded
  raw_binary_encode (bytes b) = with_type binary_type b
  raw_binary_encode (bytes_ref b) = with_type binary_type b
  raw_binary_encode (any_ref v) = raw_binary_encode v
  raw_binary_encode (text b) = err invalid_argument
  raw_binary_encode (text_ref b) = err invalid_argument
  raw_binary_encode (raw_message b) = err invalid_argument
  raw_binary_encode (raw_message_ref b) = err invalid_argument
  raw_binary_encode (other v) = err invalid_argument

  -- LegacyTranscoder.Encode
  unfoldable pub legacy_encode : Value J → Encoded
  legacy_encode (bytes b) = with_type binary_type b
  legacy_encode (bytes_ref b) = with_type binary_type b
  legacy_encode (text b) = with_type string_type b
  legacy_encode (text_ref b) = with_type string_type b
  legacy_encode (raw_message b) = with_type json_type b
  legacy_encode (raw_message_ref b) = with_type json_type b
  legacy_encode (any_ref v) = legacy_encode v
  legacy_encode (other v) = marshalled (marshal v)

  abbrev pub Decoded : Type 0
  Decoded = Result (Written J)

  abbrev pub unmarshalled : Option J → Decoded
  unmarshalled none = err json_error
  unmarshalled (some v) = ok (wrote_json v)

  -- The assignment of bytes, or of a text, to what the caller gave.
  abbrev pub put_bytes : Target → Bytes → Decoded
  put_bytes to_bytes b = ok (wrote_bytes b)
  put_bytes to_any b = ok (wrote_bytes b)
  put_bytes to_text b = err wrong_target
  put_bytes to_other b = err wrong_target

  abbrev pub put_text : Target → Bytes → Decoded
  put_text to_text b = ok (wrote_text b)
  put_text to_any b = ok (wrote_text b)
  put_text to_bytes b = err wrong_target
  put_text to_other b = err wrong_target

  abbrev pub put_raw : Target → Bytes → Decoded
  put_raw to_bytes b = ok (wrote_bytes b)
  put_raw to_text b = ok (wrote_text b)
  put_raw to_any b = err wrong_target
  put_raw to_other b = err wrong_target

  -- The decoders, once the flags have been read.
  unfoldable pub json_read : DataType → Compression → Target → Bytes → Decoded
  json_read t unknown_compression out b = err compressed
  json_read binary_type no_compression out b = err unsupported_type
  json_read string_type no_compression out b = err unsupported_type
  json_read json_type no_compression out b = unmarshalled (unmarshal out b)
  json_read unknown_type no_compression out b = err unexpected_flags

  unfoldable pub raw_json_read : DataType → Compression → Target → Bytes → Decoded
  raw_json_read t unknown_compression out b = err compressed
  raw_json_read binary_type no_compression out b = err unsupported_type
  raw_json_read string_type no_compression out b = err unsupported_type
  raw_json_read json_type no_compression out b = put_raw out b
  raw_json_read unknown_type no_compression out b = err unexpected_flags

  unfoldable pub raw_string_read : DataType → Compression → Target → Bytes → Decoded
  raw_string_read t unknown_compression out b = err compressed
  raw_string_read binary_type no_compression out b = err unsupported_type
  raw_string_read string_type no_compression out b = put_text out b
  raw_string_read json_type no_compression out b = err unsupported_type
  raw_string_read unknown_type no_compression out b = err unexpected_flags

  unfoldable pub raw_binary_read : DataType → Compression → Target → Bytes → Decoded
  raw_binary_read t unknown_compression out b = err compressed
  raw_binary_read binary_type no_compression out b = put_bytes out b
  raw_binary_read string_type no_compression out b = err unsupported_type
  raw_binary_read json_type no_compression out b = err unsupported_type
  raw_binary_read unknown_type no_compression out b = err unexpected_flags

  unfoldable pub legacy_read : DataType → Compression → Target → Bytes → Decoded
  legacy_read t unknown_compression out b = err compressed
  legacy_read binary_type no_compression out b = put_bytes out b
  legacy_read string_type no_compression out b = put_text out b
  legacy_read json_type no_compression out b = unmarshalled (unmarshal out b)
  legacy_read unknown_type no_compression out b = err unexpected_flags

  unfoldable pub encode : Transcoder → Value J → Encoded
  encode json v = json_encode v
  encode raw_json v = raw_json_encode v
  encode raw_string v = raw_string_encode v
  encode raw_binary v = raw_binary_encode v
  encode legacy v = legacy_encode v

  abbrev pub read : Transcoder → DataType → Compression → Target → Bytes → Decoded
  read json = json_read
  read raw_json = raw_json_read
  read raw_string = raw_string_read
  read raw_binary = raw_binary_read
  read legacy = legacy_read

  unfoldable pub decode : Transcoder → Bytes → ℕ → Target → Decoded
  decode t b flags out = read t (decode_flags flags).0 (decode_flags flags).1 out b

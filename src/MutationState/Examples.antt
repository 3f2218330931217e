-- ===== src/MutationState/Examples.antt =====
-- Concrete mutation states (token.go).
use gocb.Base.{ℕ, ◌+◌, ◌^◌, ◌<◌, String, ◌≡◌, none, some, List, [], ◌∷◌, arith, All}
use gocb.Go.Decimal.{sprint_d}
use gocb.RangeScan.Tokens.{Token}
use gocb.MutationState.Json.{marshal_json, unmarshal_json}
use gocb.MutationState.Latest.{IsTyped, Same, find_data, last_of, marshal_json-last_of}
use gocb.MutationState.RoundTrip.{
  IsReadable, first_of, unmarshal-marshal_json, unmarshal-marshal_json_fails,
}

abbrev a_token : Token
a_token = record { bucket_name = "travel"; vb_id = 12; vb_uuid = 907; seq_no = 40 }

-- The same partition, later.
abbrev later_token : Token
later_token = record a_token { seq_no = 41 }

abbrev two_tokens : List Token
two_tokens = later_token ∷ a_token ∷ []

two_tokens-IsTyped : All IsTyped two_tokens
two_tokens-IsTyped = ((omega arith, omega arith), ((omega arith, omega arith), tt))

marshal_json-last_of_example :
    Same
      (last_of "travel" 12 two_tokens none)
      (find_data "travel" (sprint_d 12) (marshal_json two_tokens))
marshal_json-last_of_example =
    marshal_json-last_of two_tokens two_tokens-IsTyped "travel" 12 (omega arith)

unmarshal-marshal_json_example :
    (us : List Token) × (unmarshal_json (marshal_json two_tokens) ≡ some us)
    × ((b : String) (v : ℕ) → v < 2 ^ 16 → first_of b v us ≡ last_of b v two_tokens none)
unmarshal-marshal_json_example = unmarshal-marshal_json two_tokens two_tokens-IsReadable
  where
    two_tokens-IsReadable : All IsReadable two_tokens
    two_tokens-IsReadable = ((omega arith, omega arith), ((omega arith, omega arith), tt))

abbrev large_token : Token
large_token = record a_token { vb_uuid = 2 ^ 63 + 5 }

unmarshal-marshal_json_fails_example : unmarshal_json (marshal_json (large_token ∷ [])) ≡ none
unmarshal-marshal_json_fails_example =
    unmarshal-marshal_json_fails large_token (omega arith) (omega arith)

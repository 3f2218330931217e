-- ===== src/MutationState/Json.antt =====
-- The mutation state and its JSON (MutationState in token.go). The JSON is the two levels of maps that
-- are marshalled, from bucket names and from partition ids as texts; a Go map is an association list.
use gocb.Base.{
  ℕ, ◌%◌, ◌^◌, String, Option, none, some, List, [], ◌∷◌, ◌++◌, str_eq, if◌then◌else◌, snoc,
}
use gocb.Go.ByteMap.{put_at}
use gocb.Go.Decimal.{sprint_d, atoi}
use gocb.RangeScan.Tokens.{Token}

-- bucketToken
pub record Entry : Type 0 where
  pub seq_no : ℕ
  pub vb_uuid : List ℕ

abbrev pub Entries : Type 0
Entries = List (List ℕ × Entry)

abbrev pub Data : Type 0
Data = List (String × Entries)

-- `Add`: a token without a bucket is left out.
unfoldable pub add_tokens : List Token → List Token → List Token
add_tokens tokens [] = tokens
add_tokens tokens (t ∷ ts) =
    let added = add_tokens (snoc tokens t) ts in
    let skipped = add_tokens tokens ts in if str_eq t.bucket_name "" then skipped else added

-- A bucket's map is made when its first token comes.
unfoldable pub put_bucket : String → List ℕ → Entry → Data → Data
put_bucket b v e [] = (b, put_at v e []) ∷ []
put_bucket b v e ((c, es) ∷ d) =
    if str_eq c b then (c, put_at v e es) ∷ d else (c, es) ∷ put_bucket b v e d

unfoldable pub entry_of : Token → Entry
entry_of t = record { seq_no = t.seq_no; vb_uuid = sprint_d t.vb_uuid }

-- The loop of MarshalJSON.
unfoldable pub marshal_onto : List Token → Data → Data
marshal_onto [] d = d
marshal_onto (t ∷ ts) d =
    marshal_onto ts (put_bucket t.bucket_name (sprint_d t.vb_id) (entry_of t) d)

unfoldable pub marshal_json : List Token → Data
marshal_json ts = marshal_onto ts []

-- A token of UnmarshalJSON; the two numbers may fail to be read.
unfoldable pub token_of : String → List ℕ → Entry → Option Token
token_of b v e = elim (atoi v) [
  | none ↦ none
  | some vb_id ↦ elim (atoi e.vb_uuid) [
    | none ↦ none
    | some vb_uuid ↦
        some
          (record { bucket_name = b; vb_id = vb_id % 2 ^ 16; vb_uuid = vb_uuid; seq_no = e.seq_no })
  ]
]

abbrev pub cons_token : Option Token → Option (List Token) → Option (List Token)
cons_token none ts = none
cons_token (some t) none = none
cons_token (some t) (some ts) = some (t ∷ ts)

unfoldable pub tokens_of : String → Entries → Option (List Token)
tokens_of b [] = some []
tokens_of b ((v, e) ∷ es) = cons_token (token_of b v e) (tokens_of b es)

abbrev pub append_tokens : Option (List Token) → Option (List Token) → Option (List Token)
append_tokens none us = none
append_tokens (some ts) none = none
append_tokens (some ts) (some us) = some (ts ++ us)

-- UnmarshalJSON, `none` being an error; the maps are gone through in this order.
unfoldable pub unmarshal_json : Data → Option (List Token)
unmarshal_json [] = some []
unmarshal_json ((b, es) ∷ d) = append_tokens (tokens_of b es) (unmarshal_json d)

-- A map whose keys are a partition and its uuid, with a slash between them.
abbrev pub search_key : Token → List ℕ
search_key t = sprint_d t.vb_id ++ b'/' ∷ sprint_d t.vb_uuid

-- `toSearchMutationState`: nothing, or one index with its map.
unfoldable pub search_onto : List Token → List (List ℕ × ℕ) → List (List ℕ × ℕ)
search_onto [] ss = ss
search_onto (t ∷ ts) ss = search_onto ts (put_at (search_key t) t.seq_no ss)

unfoldable pub to_search_mutation_state : String → List Token → List (String × List (List ℕ × ℕ))
to_search_mutation_state index [] = []
to_search_mutation_state index (t ∷ ts) = (index, search_onto (t ∷ ts) []) ∷ []

-- ===== src/MutationState/RoundTrip.antt =====
-- Mutation states through JSON (MarshalJSON and UnmarshalJSON in token.go).
use gocb.Base.{
  ℕ, ◌%◌, ◌^◌, ◌≤◌, ◌<◌, String, ◌≡◌, refl, sym, ap, ap₂, subst, ◌∙◌, inl, inr, Bool, true, false,
  ◌&&◌, Option, none, some, List, [], ◌∷◌, ◌++◌, arith, str_eq, ◌==◌, if◌then◌else◌, lt→ltb, ge→ltb,
  Bool-cases, All,
}
use gocb.Go.Bytes.{same_bytes}
use gocb.Go.ByteMap.{find_at, put_at}
use gocb.Go.Decimal.{sprint_d, atoi, atoi-sprint_d}
use gocb.RangeScan.Tokens.{Token}
use gocb.MutationState.Json.{
  Entry, Entries, Data, put_bucket, entry_of, marshal_onto, marshal_json, token_of, cons_token,
  tokens_of, append_tokens, unmarshal_json,
}
use gocb.MutationState.Latest.{
  or_else, find_data, last_of, Same, Same-unique, same_bytes-sprint_d, marshal_json-last_of,
}

-- A token that the JSON can bring back.
abbrev pub IsReadable : Token → Type 0
IsReadable t = (t.vb_id < 2 ^ 16) × (t.vb_uuid < 2 ^ 63)

-- An entry whose texts are numbers that can be read back.
abbrev GoodEntry : List ℕ × Entry → Type 0
GoodEntry (v, e) =
    (n : ℕ) × (u : ℕ) × (n < 2 ^ 16) × (u < 2 ^ 63) × (v ≡ sprint_d n) × (e.vb_uuid ≡ sprint_d u)

abbrev GoodData : Data → Type 0
GoodData d = All (λ p. All GoodEntry p.1) d

All-put_at :
    (v : List ℕ) (e : Entry) (es : Entries)
    → GoodEntry (v, e)
    → All GoodEntry es
    → All GoodEntry (put_at v e es)
unfolding put_at
All-put_at v e [] g h = (g, tt)
All-put_at v e ((w, f) ∷ es) g h = elim (Bool-cases (same_bytes w v)) [
  | inl p ↦ rw (p, put_at) (g, h.1)
  | inr p ↦ rw (p, put_at) (h.0, All-put_at v e es g h.1)
]

put_bucket-GoodData :
    (b : String) (v : List ℕ) (e : Entry) (d : Data)
    → GoodEntry (v, e)
    → GoodData d
    → GoodData (put_bucket b v e d)
unfolding put_bucket put_at
put_bucket-GoodData b v e [] g h = ((g, tt), tt)
put_bucket-GoodData b v e ((c, es) ∷ d) g h = elim (Bool-cases (str_eq c b)) [
  | inl p ↦ rw (p, put_bucket) (All-put_at v e es g h.0, h.1)
  | inr p ↦ rw (p, put_bucket) (h.0, put_bucket-GoodData b v e d g h.1)
]

marshal_onto-GoodData :
    (ts : List Token) (d : Data) → All IsReadable ts → GoodData d → GoodData (marshal_onto ts d)
unfolding marshal_onto entry_of
marshal_onto-GoodData [] d h g = g
marshal_onto-GoodData (t ∷ ts) d h g =
    marshal_onto-GoodData ts _ h.1
      (put_bucket-GoodData t.bucket_name _ _ d (t.vb_id, t.vb_uuid, h.0.0, h.0.1, refl, refl) g)

-- The first token of a partition in what was read.
unfoldable pub first_of : String → ℕ → List Token → Option (ℕ × ℕ)
first_of b v [] = none
first_of b v (t ∷ ts) =
    if str_eq t.bucket_name b && t.vb_id == v then some (t.seq_no, t.vb_uuid) else first_of b v ts

first_of-append :
    (b : String) (v : ℕ) (xs ys : List Token)
    → first_of b v (xs ++ ys) ≡ or_else (first_of b v xs) (first_of b v ys)
unfolding first_of
first_of-append b v [] ys = refl
first_of-append b v (t ∷ xs) ys = elim (Bool-cases (str_eq t.bucket_name b && t.vb_id == v)) [
  | inl p ↦ rw (p, first_of) refl
  | inr p ↦ rw (p, first_of) (first_of-append b v xs ys)
]

Same-or_else :
    (x y : Option (ℕ × ℕ)) (o p : Option Entry)
    → Same x o
    → Same y p
    → Same (or_else x y) (or_else o p)
Same-or_else x y none p h k = rw h k
Same-or_else x y (some e) p (u, lt, q, r) k = rw q (u, lt, refl, r)

read_number : (n : ℕ) → n < 2 ^ 63 → atoi (sprint_d n) ≡ some n
read_number n lt =
    atoi-sprint_d n (omega (arith, lt)) ∙ ap (λ b. if b then some n else none) (lt→ltb n _ lt)

-- What an entry is read back as.
abbrev token_at : String → ℕ → ℕ → ℕ → Token
token_at b n u s = record { bucket_name = b; vb_id = n % 2 ^ 16; vb_uuid = u; seq_no = s }

token_of-good :
    (b : String) (v : List ℕ) (e : Entry) (n u : ℕ)
    → n < 2 ^ 16
    → u < 2 ^ 63
    → v ≡ sprint_d n
    → e.vb_uuid ≡ sprint_d u
    → token_of b v e ≡ some (token_at b n u e.seq_no)
unfolding token_of
token_of-good b v e n u ln lu p q =
    rw (ap atoi p ∙ read_number n (omega (arith, ln)), ap atoi q ∙ read_number u lu, token_of) refl

-- The head of a list of tokens against the head of a map.
first_of-head :
    (b c : String) (n v u s : ℕ) (rest : Option (ℕ × ℕ)) (k : List ℕ) (e : Entry) (es : Entries)
    → n < 2 ^ 16
    → v < 2 ^ 16
    → u < 2 ^ 63
    → k ≡ sprint_d n
    → e.vb_uuid ≡ sprint_d u
    → s ≡ e.seq_no
    → Same rest (if str_eq b c then find_at (sprint_d v) es else none)
    → Same
        (if str_eq b c && n % 2 ^ 16 == v then some (s, u) else rest)
        (if str_eq b c then find_at (sprint_d v) ((k, e) ∷ es) else none)
unfolding find_at
first_of-head b c n v u s rest k e es ln lv lu p q r h =
    head (str_eq b c) (n % 2 ^ 16 == v) (same_bytes k (sprint_d v)) same h
  where
    same : same_bytes k (sprint_d v) ≡ (n % 2 ^ 16 == v)
    same =
        ap (λ w. same_bytes w (sprint_d v)) p
        ∙ same_bytes-sprint_d n v (omega (arith, ln)) (omega (arith, lv))
        ∙ ap (λ m. m == v) (omega (arith, ln))

    head :
        (x y z : Bool)
        → z ≡ y
        → Same rest (if x then find_at (sprint_d v) es else none)
        → Same
            (if x && y then some (s, u) else rest)
            (if x then (if z then some e else find_at (sprint_d v) es) else none)
    head false y z i j = j
    head true true true i j = (u, omega (arith, lu), ap (λ m. some (m, u)) r, q)
    head true false false i j = j
    head true true false i j = cc
    head true false true i j = cc

abbrev ReadsTo : Option (List Token) → (String → ℕ → Option Entry) → Type 0
ReadsTo r holds =
    (us : List Token) × (r ≡ some us)
    × ((c : String) (v : ℕ) → v < 2 ^ 16 → Same (first_of c v us) (holds c v))

tokens_of-ReadsTo :
    (b : String) (es : Entries)
    → All GoodEntry es
    → ReadsTo (tokens_of b es) (λ c v. if str_eq b c then find_at (sprint_d v) es else none)
unfolding tokens_of first_of find_at
tokens_of-ReadsTo b [] h = ([], refl, λ c v lv. nothing (str_eq b c))
  where
    nothing : (x : Bool) → Same none (if x then none else none)
    nothing true = refl
    nothing false = refl
tokens_of-ReadsTo b ((k, e) ∷ es) ((n, u, ln, lu, p, q), h) =
    let (us, r, s) = tokens_of-ReadsTo b es h in
    (
      token_at b n u e.seq_no ∷ us,
      ap₂ cons_token (token_of-good b k e n u ln lu p q) r,
      λ c v lv.
          first_of-head b c n v u e.seq_no (first_of c v us) k e es ln lv lu p q refl (s c v lv),
    )

unmarshal_json-ReadsTo :
    (d : Data) → GoodData d → ReadsTo (unmarshal_json d) (λ c v. find_data c (sprint_d v) d)
unfolding unmarshal_json find_data first_of
unmarshal_json-ReadsTo [] h = ([], refl, λ c v lv. refl)
unmarshal_json-ReadsTo ((b, es) ∷ d) h =
    let (us, r, s) = tokens_of-ReadsTo b es h.0 in
    let (ws, q, t) = unmarshal_json-ReadsTo d h.1 in
    (
      us ++ ws,
      ap₂ append_tokens r q,
      λ c v lv.
          subst
            (λ x. Same x (
              or_else (if str_eq b c then find_at (sprint_d v) es else none)
                (find_data c (sprint_d v) d)))
            (sym (first_of-append c v us ws))
            (Same-or_else (first_of c v us) (first_of c v ws) _ _ (s c v lv) (t c v lv)),
    )

-- A mutation state whose partition ids fit a uint16 and whose uuids are below 2 ^ 63 is read back
-- from its JSON: for every partition of every bucket what is read first is what was added last.
pub unmarshal-marshal_json :
    (ts : List Token)
    → All IsReadable ts
    → (us : List Token) × (unmarshal_json (marshal_json ts) ≡ some us)
      × ((b : String) (v : ℕ) → v < 2 ^ 16 → first_of b v us ≡ last_of b v ts none)
unfolding marshal_json
unmarshal-marshal_json ts h =
    let (us, r, s) =
      unmarshal_json-ReadsTo (marshal_onto ts []) (marshal_onto-GoodData ts [] h tt) in
    (
      us,
      r,
      λ b v lv.
          Same-unique _ _ (find_data b (sprint_d v) (marshal_onto ts [])) (s b v lv)
            (marshal_json-last_of ts (typed ts h) b v lv),
    )
  where
    typed :
        (ts : List Token)
        → All IsReadable ts
        → All (λ t. (t.vb_id < 2 ^ 16) × (t.vb_uuid < 2 ^ 64)) ts
    typed [] g = tt
    typed (t ∷ ts) g = ((g.0.0, omega (arith, g.0.1)), typed ts g.1)

-- A mutation state of one token whose uuid is 2 ^ 63 or more, as a uint64 may be, is written but
-- cannot be read back.
pub unmarshal-marshal_json_fails :
    (t : Token)
    → t.vb_uuid < 2 ^ 64
    → 2 ^ 63 ≤ t.vb_uuid
    → unmarshal_json (marshal_json (t ∷ [])) ≡ none
unfolding marshal_json marshal_onto put_bucket put_at entry_of unmarshal_json tokens_of token_of
unmarshal-marshal_json_fails t lt ge =
    ap (λ o. append_tokens (cons_token o (some [])) (some []))
      (unread (atoi (sprint_d t.vb_id)) refl)
  where
    uuid : atoi (sprint_d t.vb_uuid) ≡ none
    uuid =
        atoi-sprint_d t.vb_uuid lt
        ∙ ap (λ b. if b then some t.vb_uuid else none) (ge→ltb t.vb_uuid (2 ^ 63) ge)

    unread :
        (o : Option ℕ)
        → atoi (sprint_d t.vb_id) ≡ o
        → token_of t.bucket_name
            (sprint_d t.vb_id)
            (record { seq_no = t.seq_no; vb_uuid = sprint_d t.vb_uuid })
          ≡ none
    unread none e = rw (e, token_of) refl
    unread (some n) e = rw (e, uuid, token_of) refl

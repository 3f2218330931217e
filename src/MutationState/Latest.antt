-- ===== src/MutationState/Latest.antt =====
-- What the JSON of a mutation state holds of each partition (MarshalJSON in token.go).
use gocb.Base.{
  ℕ, ◌^◌, ◌<◌, String, ◌≡◌, refl, sym, ap, subst, ◌∙◌, ◌⊎◌, inl, inr, Bool, true, false, ◌&&◌,
  Option, none, some, List, [], ◌∷◌, arith, str_eq, str_eq_iff, ◌==◌, if◌then◌else◌, ==_iff,
  Bool-cases, All,
}
use gocb.Go.Bytes.{same_bytes, same_bytes_refl, same_bytes-eq}
use gocb.Go.ByteMap.{find_at, put_at, find_at-put_at}
use gocb.Go.Decimal.{sprint_d, sprint_d-inj}
use gocb.RangeScan.Tokens.{Token, find, put, required, add_token, merge_tokens}
use gocb.MutationState.Json.{Entry, Data, put_bucket, entry_of, marshal_onto, marshal_json}

abbrev pub or_else {ℓ} : {A : Type ℓ} → Option A → Option A → Option A
or_else none o = o
or_else (some a) o = some a

-- The entry of a partition of a bucket.
unfoldable pub find_data : String → List ℕ → Data → Option Entry
find_data b v [] = none
find_data b v ((c, es) ∷ d) = or_else (if str_eq c b then find_at v es else none) (find_data b v d)

-- The sequence number and the uuid that were added last for a partition, or `o`.
unfoldable pub last_of : String → ℕ → List Token → Option (ℕ × ℕ) → Option (ℕ × ℕ)
last_of b v [] o = o
last_of b v (t ∷ ts) o =
    last_of b v ts
      (if str_eq t.bucket_name b && t.vb_id == v then some (t.seq_no, t.vb_uuid) else o)

-- An entry is that of these numbers.
abbrev pub Same : Option (ℕ × ℕ) → Option Entry → Type 0
Same x none = x ≡ none
Same x (some e) = (u : ℕ) × (u < 2 ^ 64) × (x ≡ some (e.seq_no, u)) × (e.vb_uuid ≡ sprint_d u)

pub Same-unique : (x y : Option (ℕ × ℕ)) (o : Option Entry) → Same x o → Same y o → x ≡ y
Same-unique x y none p q = p ∙ sym q
Same-unique x y (some e) (u, lu, p, r) (w, lw, q, s) =
    p ∙ ap (λ n. some (e.seq_no, n)) (sprint_d-inj u w lu lw (sym r ∙ s)) ∙ sym q

-- The texts of two partitions are the same exactly if they are.
pub same_bytes-sprint_d :
    (m n : ℕ) → m < 2 ^ 64 → n < 2 ^ 64 → same_bytes (sprint_d m) (sprint_d n) ≡ (m == n)
same_bytes-sprint_d m n lm ln = elim (Bool-cases (m == n)) [
  | inl e ↦
      sym (ap (λ k. same_bytes (sprint_d m) (sprint_d k)) ((==_iff m n).0 e))
      ∙ same_bytes_refl (sprint_d m)
      ∙ sym e
  | inr e ↦ different e (Bool-cases (same_bytes (sprint_d m) (sprint_d n))) ∙ sym e
]
  where
    clash : true ≡ false → ⊥
    clash p = cc

    different :
        (m == n) ≡ false
        → (same_bytes (sprint_d m) (sprint_d n) ≡ true)
          ⊎ (same_bytes (sprint_d m) (sprint_d n) ≡ false)
        → same_bytes (sprint_d m) (sprint_d n) ≡ false
    different e (inr f) = f
    different e (inl f) =
        absurd (clash (sym ((==_iff m n).1 (sprint_d-inj m n lm ln (same_bytes-eq _ _ f))) ∙ e))

or_else-if :
    (x : Bool) (e : Entry) (o r : Option Entry)
    → or_else (if x then some e else o) r ≡ (if x then some e else or_else o r)
or_else-if true e o r = refl
or_else-if false e o r = refl

-- The map of another bucket comes first.
or_else-skip :
    (kc bc x : Bool) (e : Entry) (o r : Option Entry)
    → (kc ≡ true → bc ≡ true → ⊥)
    → or_else (if kc then o else none) (if bc && x then some e else r)
      ≡ (if bc && x then some e else or_else (if kc then o else none) r)
or_else-skip true true x e o r h = absurd (h refl refl)
or_else-skip true false x e o r h = refl
or_else-skip false bc x e o r h = refl

-- The map of the bucket itself is changed.
or_else-same :
    (bc x : Bool) (e : Entry) (o o' r : Option Entry)
    → o' ≡ (if x then some e else o)
    → or_else (if bc then o' else none) r
      ≡ (if bc && x then some e else or_else (if bc then o else none) r)
or_else-same true x e o o' r h = ap (λ q. or_else q r) h ∙ or_else-if x e o r
or_else-same false x e o o' r h = refl

find_data-put :
    (b c : String) (v w : List ℕ) (e : Entry) (d : Data)
    → find_data c w (put_bucket b v e d)
      ≡ (if str_eq b c && same_bytes v w then some e else find_data c w d)
unfolding find_data put_bucket
find_data-put b c v w e [] =
    or_else-same (str_eq b c) (same_bytes v w) e none (find_at w (put_at v e [])) none
      (find_at-put_at w v e [] ∙ (unfold find_at in refl))
    ∙ nothing (str_eq b c)
  where
    nothing :
        (x : Bool)
        → (if x && same_bytes v w then some e else or_else (if x then none else none) none)
          ≡ (if x && same_bytes v w then some e else none)
    nothing true = refl
    nothing false = refl
find_data-put b c v w e ((k, es) ∷ d) = elim (Bool-cases (str_eq k b)) [
  | inl p ↦
      rw (p, find_data, put_bucket)
        (ap
            (λ q.
              or_else (if str_eq q c then find_at w (put_at v e es) else none) (find_data c w d))
            ((str_eq_iff k b).0 p)
          ∙ or_else-same (str_eq b c) (same_bytes v w) e (find_at w es) _ (find_data c w d)
              (find_at-put_at w v e es)
          ∙ ap
              (λ q.
                if str_eq b c && same_bytes v w
                then some e
                else or_else (if str_eq q c then find_at w es else none) (find_data c w d))
              (sym ((str_eq_iff k b).0 p)))
  | inr p ↦
      rw (p, find_data, put_bucket)
        (ap (or_else (if str_eq k c then find_at w es else none)) (find_data-put b c v w e d)
          ∙ or_else-skip (str_eq k c) (str_eq b c) (same_bytes v w) e (find_at w es)
              (find_data c w d)
              (λ x y.
                clash (
                  sym ((str_eq_iff k b).1 ((str_eq_iff k c).0 x ∙ sym ((str_eq_iff b c).0 y)))
                  ∙ p)))
]
  where
    clash : true ≡ false → ⊥
    clash q = cc

Same-if :
    (x y : Bool) (t : Token) (o : Option (ℕ × ℕ)) (e : Option Entry)
    → x ≡ y
    → t.vb_uuid < 2 ^ 64
    → Same o e
    → Same (if x then some (t.seq_no, t.vb_uuid) else o) (if y then some (entry_of t) else e)
unfolding entry_of
Same-if true true t o e p lt h = (t.vb_uuid, lt, refl, refl)
Same-if false false t o e p lt h = h
Same-if true false t o e p lt h = cc
Same-if false true t o e p lt h = cc

-- The ids of a token are in the range of their types.
abbrev pub IsTyped : Token → Type 0
IsTyped t = (t.vb_id < 2 ^ 16) × (t.vb_uuid < 2 ^ 64)

last_of-marshal_onto :
    (b : String) (v : ℕ) (ts : List Token) (d : Data) (o : Option (ℕ × ℕ))
    → v < 2 ^ 16
    → All IsTyped ts
    → Same o (find_data b (sprint_d v) d)
    → Same (last_of b v ts o) (find_data b (sprint_d v) (marshal_onto ts d))
unfolding last_of marshal_onto
last_of-marshal_onto b v [] d o lv h s = s
last_of-marshal_onto b v (t ∷ ts) d o lv h s = last_of-marshal_onto b v ts _ _ lv h.1 (
    subst (Same (if str_eq t.bucket_name b && t.vb_id == v then some (t.seq_no, t.vb_uuid) else o))
      (sym (find_data-put t.bucket_name b (sprint_d t.vb_id) (sprint_d v) (entry_of t) d))
      (Same-if _ _ t o _
        (ap (λ x. str_eq t.bucket_name b && x)
          (sym (same_bytes-sprint_d t.vb_id v (omega (arith, h.0.0)) (omega (arith, lv)))))
        (h.0.1) s))

-- The JSON of a mutation state whose ids are in the range of their types has, for every partition
-- of every bucket, the sequence number and the uuid of the token that was added last, and nothing
-- for a partition without a token.
pub marshal_json-last_of :
    (ts : List Token)
    → All IsTyped ts
    → (b : String) (v : ℕ) → v < 2 ^ 16
    → Same (last_of b v ts none) (find_data b (sprint_d v) (marshal_json ts))
unfolding marshal_json find_data
marshal_json-last_of ts h b v lv = last_of-marshal_onto b v ts [] none lv h refl

-- If an operation's token is added behind the token of a later operation on the same partition, then
-- the JSON asks for the earlier one alone, while a scan merges the same state to the later one.
pub marshal_json_forgets :
    (t u : Token)
    → IsTyped t
    → IsTyped u
    → t.bucket_name ≡ u.bucket_name
    → t.vb_id ≡ u.vb_id
    → t.vb_uuid ≡ u.vb_uuid
    → u.seq_no < t.seq_no
    → Same
        (some (u.seq_no, u.vb_uuid))
        (find_data u.bucket_name (sprint_d u.vb_id) (marshal_json (t ∷ u ∷ [])))
      × (merge_tokens (t ∷ u ∷ []) [] ≡ some ((t.vb_id, required t) ∷ []))
unfolding last_of merge_tokens add_token find put
marshal_json_forgets t u ht hu b v w lt = (
  subst (λ o. Same o (find_data u.bucket_name (sprint_d u.vb_id) (marshal_json (t ∷ u ∷ []))))
      (newest (str_eq_iff u.bucket_name u.bucket_name).1)
      (marshal_json-last_of (t ∷ u ∷ []) (ht, (hu, tt)) u.bucket_name u.vb_id (hu.0)),
  ground (arith, ht, hu, v, w, lt),
)
  where
    newest :
        (u.bucket_name ≡ u.bucket_name → str_eq u.bucket_name u.bucket_name ≡ true)
        → last_of u.bucket_name u.vb_id (t ∷ u ∷ []) none ≡ some (u.seq_no, u.vb_uuid)
    newest h = ground (arith, h refl)

-- ===== src/RangeScan/Conflicts.antt =====
-- When the tokens of a mutation state are refused, and where the merged requirements come from
-- (newRangeScanOpManager in rangescanopmanager.go).
use mathlib.Core.List.{Memᴰ}
use gocb.Base.{
  ℕ, ◌≡◌, refl, sym, ap, ◌∙◌, ◌≢◌, ◌↔◌, inl, inr, Option, none, some, List, [], ◌∷◌, arith, ltb,
  ◌==◌, if◌then◌else◌, ==_iff, Bool-cases, Option-cases, some-inj,
}
use gocb.RangeScan.Tokens.{
  Token, Requirement, find, put, required, add_token, merge_tokens, find-put,
}
use gocb.RangeScan.Snapshot.{partition, Asks, asks, merge_tokens-covers}

-- Two tokens of one partition with different histories.
pub data Conflict (ts : List Token) : Type 0 where
  conflict :
      (t u : Token)
      → Memᴰ t ts
      → Memᴰ u ts
      → partition t ≡ partition u
      → t.vb_uuid ≢ u.vb_uuid
      → Conflict ts

-- Every requirement is what some token asks.
pub data Origin (ts : List Token) (v : ℕ) (r : Requirement) : Type 0 where
  origin : (t : Token) → Memᴰ t ts → partition t ≡ v → r ≡ required t → Origin ts v r

abbrev pub From : List Token → List (ℕ × Requirement) → Type 0
From ts m = (v : ℕ) (r : Requirement) → find v m ≡ some r → Origin ts v r

put-From :
    (ts : List Token) (t : Token) (m : List (ℕ × Requirement))
    → Memᴰ t ts
    → From ts m
    → From ts (put (partition t) (required t) m)
put-From ts t m i fr v r f = elim (Bool-cases (partition t == v)) [
  | inl h ↦
      let q : (if partition t == v then some (required t) else find v m) ≡ some r =
        sym (find-put (partition t) v (required t) m) ∙ f in
      origin t i ((==_iff _ _).0 h) (sym (some-inj (rw h at q)))
  | inr h ↦
      let q : (if partition t == v then some (required t) else find v m) ≡ some r =
        sym (find-put (partition t) v (required t) m) ∙ f in
      fr v r (rw h at q)
]

abbrev Outcome : List Token → Option (List (ℕ × Requirement)) → Type 0
Outcome ts none = Conflict ts
Outcome ts (some m) = From ts m

add_token-Outcome :
    (ts : List Token) (t : Token) (m : List (ℕ × Requirement))
    → Memᴰ t ts
    → From ts m
    → Outcome ts (add_token t m)
unfolding add_token
add_token-Outcome ts t m i fr = elim (Option-cases (find (partition t) m)) [
  | inl f ↦ rw (f, add_token) (put-From ts t m i fr)
  | inr (old, f) ↦ rw (f, add_token) (known old (fr (partition t) old f))
]
  where
    known :
        (old : Requirement)
        → Origin ts (partition t) old
        → Outcome ts (
            if old.uuid == t.vb_uuid
            then some (if ltb old.seqno t.seq_no then put (partition t) (required t) m else m)
            else none)
    known old (origin u j same req) = elim (Bool-cases (old.uuid == t.vb_uuid)) [
      | inr x ↦
          rw x
            (conflict t u i j (sym same) λ e. ground (arith, ap (λ (r : Requirement). r.uuid) req))
      | inl x ↦ elim (Bool-cases (ltb old.seqno t.seq_no)) [
        | inl y ↦ rw (x, y) (put-From ts t m i fr)
        | inr y ↦ rw (x, y) fr
      ]
    ]

merge_tokens-Outcome :
    (all ts : List Token) (m : List (ℕ × Requirement))
    → ((t : Token) → Memᴰ t ts → Memᴰ t all)
    → From all m
    → Outcome all (merge_tokens ts m)
unfolding merge_tokens
merge_tokens-Outcome all [] m sub fr = fr
merge_tokens-Outcome all (t ∷ ts) m sub fr = elim (Option-cases (add_token t m)) [
  | inl f ↦ rw (f, merge_tokens) (rw f at (add_token-Outcome all t m (sub t (Memᴰ.head refl)) fr))
  | inr (n, f) ↦
      rw (f, merge_tokens)
        (merge_tokens-Outcome all ts n (λ u j. sub u (Memᴰ.tail j))
          (rw f at (add_token-Outcome all t m (sub t (Memᴰ.head refl)) fr)))
]

From-nothing : (ts : List Token) → From ts []
From-nothing ts v r f = unfold find in cc f

no-Conflict :
    (ts : List Token) (m : List (ℕ × Requirement)) → merge_tokens ts [] ≡ some m → Conflict ts → ⊥
no-Conflict ts m e (conflict t u i j same differ) =
    clash (merge_tokens-covers ts [] m e t i) (merge_tokens-covers ts [] m e u j)
  where
    clash : Asks m (partition t) t.vb_uuid t.seq_no → Asks m (partition u) u.vb_uuid u.seq_no → ⊥
    clash (asks r f x _) (asks q g y _) =
        let p : some r ≡ some q = sym f ∙ ap (λ v. find v m) same ∙ g in
        differ (sym x ∙ ap (λ (w : Requirement). w.uuid) (some-inj p) ∙ y)

-- A scan refuses its mutation state exactly when two of its tokens name different histories of one
-- partition; otherwise each partition's requirement is one that a token of that partition asks.
pub merge_tokens-refuses :
    (ts : List Token)
    → ((merge_tokens ts [] ≡ none) ↔ Conflict ts)
      × ((m : List (ℕ × Requirement)) → merge_tokens ts [] ≡ some m → From ts m)
merge_tokens-refuses ts = (
  (
    refused,
    λ c. elim (Option-cases (merge_tokens ts [])) [
      | inl e ↦ e
      | inr (m, e) ↦ absurd (no-Conflict ts m e c)
    ],
  ),
  λ m e. rw e at result,
)
  where
    result : Outcome ts (merge_tokens ts [])
    result = merge_tokens-Outcome ts ts [] (λ t i. i) (From-nothing ts)

    refused : merge_tokens ts [] ≡ none → Conflict ts
    refused e = rw e at result

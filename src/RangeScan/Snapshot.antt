-- ===== src/RangeScan/Snapshot.antt =====
-- What the merged tokens ask of each partition (newRangeScanOpManager in rangescanopmanager.go).
use mathlib.Core.List.{Memᴰ}
use gocb.Base.{
  ℕ, ◌%◌, ◌^◌, ◌≤◌, ◌<◌, ◌≡◌, refl, sym, ap, subst, ◌∙◌, ◌⊎◌, inl, inr, true, false, none, some,
  List, [], ◌∷◌, arith, ltb, ◌==◌, if◌then◌else◌, ltb→lt, ltb→ge, ==_iff, Bool-cases, Option-cases,
  some-inj,
}
use gocb.RangeScan.Tokens.{
  Token, Requirement, find, put, required, add_token, merge_tokens, find-put,
}

abbrev pub partition : Token → ℕ
partition t = t.vb_id % 2 ^ 16

-- The map asks the partition `v` for this history, up to this sequence number or further.
pub data Asks (m : List (ℕ × Requirement)) (v uuid seqno : ℕ) : Type 0 where
  asks :
      (r : Requirement) → find v m ≡ some r → r.uuid ≡ uuid → seqno ≤ r.seqno → Asks m v uuid seqno

abbrev pub Grows : List (ℕ × Requirement) → List (ℕ × Requirement) → Type 0
Grows m m' = (v uuid seqno : ℕ) → Asks m v uuid seqno → Asks m' v uuid seqno

put-Asks :
    (m : List (ℕ × Requirement)) (t : Token) (old : Requirement)
    → find (partition t) m ≡ some old
    → old.uuid ≡ t.vb_uuid
    → old.seqno ≤ t.seq_no
    → Grows m (put (partition t) (required t) m)
put-Asks m t old e same le v uuid seqno (asks r f u s) = elim (Bool-cases (partition t == v)) [
  | inl h ↦
      let p : partition t ≡ v = (==_iff _ _).0 h in
      let q : some old ≡ some r = sym e ∙ ap (λ w. find w m) p ∙ f in
      asks (required t) (find-put (partition t) v (required t) m ∙ pick h) (ground arith)
        (ground arith)
  | inr h ↦ asks r (find-put (partition t) v (required t) m ∙ skip h) u s
]
  where
    pick :
        (partition t == v) ≡ true
        → (if partition t == v then some (required t) else find v m) ≡ some (required t)
    pick h = rw h refl

    skip :
        (partition t == v) ≡ false
        → (if partition t == v then some (required t) else find v m) ≡ some r
    skip h = rw h f

put-Asks_new :
    (m : List (ℕ × Requirement)) (t : Token)
    → find (partition t) m ≡ none
    → Grows m (put (partition t) (required t) m)
put-Asks_new m t e v uuid seqno (asks r f u s) =
    asks r (find-put (partition t) v (required t) m ∙ skip (Bool-cases (partition t == v))) u s
  where
    skip :
        ((partition t == v) ≡ true) ⊎ ((partition t == v) ≡ false)
        → (if partition t == v then some (required t) else find v m) ≡ some r
    skip (inr h) = rw h f
    skip (inl h) = let q : none ≡ some r = sym e ∙ ap (λ w. find w m) ((==_iff _ _).0 h) ∙ f in cc

put_self :
    (m : List (ℕ × Requirement)) (t : Token)
    → Asks (put (partition t) (required t) m) (partition t) t.vb_uuid t.seq_no
put_self m t =
    asks (required t)
      (find-put (partition t) (partition t) (required t) m ∙ same ((==_iff _ _).1 refl)) refl
      (omega arith)
  where
    same :
        (partition t == partition t) ≡ true
        → (if partition t == partition t then some (required t) else find (partition t) m)
          ≡ some (required t)
    same h = rw h refl

-- A round keeps what was asked and adds what the token asks.
add_token-Asks :
    (t : Token) (m m' : List (ℕ × Requirement))
    → add_token t m ≡ some m'
    → Grows m m' × Asks m' (partition t) t.vb_uuid t.seq_no
unfolding add_token
add_token-Asks t m m' e = elim (Option-cases (find (partition t) m)) [
  | inl f ↦
      let q : put (partition t) (required t) m ≡ m' = some-inj (rw (f, add_token) at e) in
      subst (λ n. Grows m n × Asks n (partition t) t.vb_uuid t.seq_no) q
        (put-Asks_new m t f, put_self m t)
  | inr (old, f) ↦ known old f (rw (f, add_token) at e)
]
  where
    known :
        (old : Requirement)
        → find (partition t) m ≡ some old
        → (if old.uuid == t.vb_uuid
            then some (if ltb old.seqno t.seq_no then put (partition t) (required t) m else m)
            else none)
          ≡ some m'
        → Grows m m' × Asks m' (partition t) t.vb_uuid t.seq_no
    known old f h = elim (Bool-cases (old.uuid == t.vb_uuid)) [
      | inr x ↦ cc (rw x at h)
      | inl x ↦ elim (Bool-cases (ltb old.seqno t.seq_no)) [
        | inl y ↦
            let q : put (partition t) (required t) m ≡ m' = some-inj (rw (x, y) at h) in
            let lt : old.seqno < t.seq_no = ltb→lt _ _ y in
            subst (λ n. Grows m n × Asks n (partition t) t.vb_uuid t.seq_no) q
              (put-Asks m t old f ((==_iff _ _).0 x) (omega arith), put_self m t)
        | inr y ↦
            let q : m ≡ m' = some-inj (rw (x, y) at h) in
            let le : t.seq_no ≤ old.seqno = ltb→ge _ _ y in
            subst (λ n. Grows m n × Asks n (partition t) t.vb_uuid t.seq_no) q
              ((λ v uuid seqno a. a), asks old f ((==_iff _ _).0 x) le)
      ]
    ]

merge_tokens-Grows :
    (ts : List Token) (m m' : List (ℕ × Requirement)) → merge_tokens ts m ≡ some m' → Grows m m'
unfolding merge_tokens
merge_tokens-Grows [] m m' e = subst (Grows m) (some-inj e) (λ v uuid seqno a. a)
merge_tokens-Grows (t ∷ ts) m m' e = elim (Option-cases (add_token t m)) [
  | inl f ↦ cc (rw (f, merge_tokens) at e)
  | inr (n, f) ↦ λ v uuid seqno a.
      merge_tokens-Grows ts n m' (rw (f, merge_tokens) at e) v uuid seqno
        ((add_token-Asks t m n f).0 v uuid seqno a)
]

-- If the tokens of a mutation state are accepted, then the snapshot options of every token's
-- partition ask for that token's history, up to its sequence number or further.
pub merge_tokens-covers :
    (ts : List Token) (m m' : List (ℕ × Requirement))
    → merge_tokens ts m ≡ some m'
    → (t : Token) → Memᴰ t ts
    → Asks m' (partition t) t.vb_uuid t.seq_no
unfolding merge_tokens
merge_tokens-covers [] m m' e t i = elim i [ ]
merge_tokens-covers (t ∷ ts) m m' e u i = elim (Option-cases (add_token t m)) [
  | inl f ↦ cc (rw (f, merge_tokens) at e)
  | inr (n, f) ↦
      let e' : merge_tokens ts n ≡ some m' = rw (f, merge_tokens) at e in
      here_or_later n f e' i (merge_tokens-covers ts n m' e' u)
]
  where
    here_or_later :
        (n : List (ℕ × Requirement))
        → add_token t m ≡ some n
        → merge_tokens ts n ≡ some m'
        → Memᴰ u (t ∷ ts)
        → (Memᴰ u ts → Asks m' (partition u) u.vb_uuid u.seq_no)
        → Asks m' (partition u) u.vb_uuid u.seq_no
    here_or_later n f e' (Memᴰ.head p) later =
        subst (λ (w : Token). Asks m' (partition w) w.vb_uuid w.seq_no) (sym p)
          (merge_tokens-Grows ts n m' e' _ _ _ (add_token-Asks t m n f).1)
    here_or_later n f e' (Memᴰ.tail j) later = later j

-- ===== src/Structures/Agent.antt =====
-- What the data structures of collection_ds.go use of a key-value provider: reads and subdocument
-- mutations of one document that holds a JSON array. The provider and the cluster behind it are a
-- parameter, with what their documentation says of CAS values and array paths.
use gocb.Base.{ℕ, ◌≡◌, sym, subst, ◌≢◌, ◌⊎◌, Option, none, some, List, [], ◌∷◌, ◌++◌, length}

pub data Reply (A E : Type 0) : Type 0 where
  ok : A → Reply A E
  err : E → Reply A E

-- The answer to a mutation: the errors that the loops ask about, and any other.
pub data Change (E : Type 0) : Type 0 where
  changed cas_mismatch document_exists : Change E
  failed : E → Change E

-- `doc` is the document's CAS and items, if it is there. A lookup answers with the CAS and, for the
-- path, an item or an error of its own.
pub record Agent : Type 1 where
  pub V : Type 0
  pub E : Type 0
  pub S : Type 0
  pub doc : S → Option (ℕ × List V)
  pub get : S → Reply (ℕ × Reply (List V) E) E
  pub lookup_last : S → Reply (ℕ × Reply V E) E
  pub prepend : V → S → Change E × S
  pub remove_last : ℕ → S → Change E × S
  pub remove_at : ℕ → ℕ → S → Change E × S

module _ (agent : Agent) where
  open agent use {V, E, S, doc, get, lookup_last, prepend, remove_last, remove_at}

  -- Reads show the document; a mutation with a CAS is done only to the version of the document that has
  -- that CAS, and a mismatch of the CAS changes nothing; what is done is the removal at the path. Any
  -- other error may be ambiguous, such as a timeout: the removal was done, or it was not.
  pub record Documented : Type 0 where
    pub get_shows :
        (s : S) (cas : ℕ) (xs : List V) → get s ≡ ok (cas, ok xs) → doc s ≡ some (cas, xs)
    pub last_shows :
        (s : S) (cas : ℕ) (v : V)
        → lookup_last s ≡ ok (cas, ok v)
        → (rest : List V) × (doc s ≡ some (cas, rest ++ v ∷ []))
    pub last_removed :
        (s s' : S) (cas : ℕ)
        → remove_last cas s ≡ (changed, s')
        → cas ≢ 0
        → (rest : List V) × (v : V) × (cas' : ℕ) × (doc s ≡ some (cas, rest ++ v ∷ []))
          × (doc s' ≡ some (cas', rest))
    pub last_kept :
        (s : S) (cas : ℕ) (c : Change E) (s' : S)
        → remove_last cas s ≡ (c, s')
        → (c ≡ cas_mismatch) ⊎ (c ≡ document_exists)
        → s' ≡ s
    pub last_failed :
        (s s' : S) (cas : ℕ) (e : E)
        → remove_last cas s ≡ (failed e, s')
        → cas ≢ 0
        → (s' ≡ s)
          ⊎ ((rest : List V) × (v : V) × (cas' : ℕ) × (doc s ≡ some (cas, rest ++ v ∷ []))
              × (doc s' ≡ some (cas', rest)))
    pub removed_at :
        (s s' : S) (i cas : ℕ)
        → remove_at i cas s ≡ (changed, s')
        → cas ≢ 0
        → (xs : List V) × (v : V) × (ys : List V) × (cas' : ℕ) × (length xs ≡ i)
          × (doc s ≡ some (cas, xs ++ v ∷ ys))
          × (doc s' ≡ some (cas', xs ++ ys))
    pub kept_at :
        (s : S) (i cas : ℕ) (c : Change E) (s' : S)
        → remove_at i cas s ≡ (c, s')
        → (c ≡ cas_mismatch) ⊎ (c ≡ document_exists)
        → s' ≡ s
    pub failed_at :
        (s s' : S) (i cas : ℕ) (e : E)
        → remove_at i cas s ≡ (failed e, s')
        → cas ≢ 0
        → (s' ≡ s)
          ⊎ ((xs : List V) × (v : V) × (ys : List V) × (cas' : ℕ) × (length xs ≡ i)
              × (doc s ≡ some (cas, xs ++ v ∷ ys))
              × (doc s' ≡ some (cas', xs ++ ys)))
    pub stamped : (s : S) (cas : ℕ) (xs : List V) → doc s ≡ some (cas, xs) → cas ≢ 0

  abbrev pub items_of : Option (ℕ × List V) → List V
  items_of none = []
  items_of (some d) = d.1

  -- A cluster that answers: what is asked of a document that is there is done, and a prepend also makes
  -- the document.
  pub record Answers : Type 0 where
    pub prepended :
        (v : V) (s : S)
        → (s' : S) × (cas : ℕ) × (prepend v s ≡ (changed, s'))
          × (doc s' ≡ some (cas, v ∷ items_of (doc s)))
    pub last_found :
        (s : S) (cas : ℕ) (rest : List V) (v : V)
        → doc s ≡ some (cas, rest ++ v ∷ [])
        → lookup_last s ≡ ok (cas, ok v)
    pub last_done :
        (s : S) (cas : ℕ) (rest : List V) (v : V)
        → doc s ≡ some (cas, rest ++ v ∷ [])
        → (s' : S) × (cas' : ℕ) × (remove_last cas s ≡ (changed, s')) × (doc s' ≡ some (cas', rest))

  module _ (others : ℕ → S → S) where
    -- What other clients do leaves the document alone if it keeps its CAS.
    abbrev pub Versioned : Type 0
    Versioned =
        (t : ℕ) (s : S) (cas : ℕ) (xs ys : List V)
        → doc s ≡ some (cas, xs)
        → doc (others t s) ≡ some (cas, ys)
        → xs ≡ ys

    -- The other clients alone have brought the cluster from one state to the other.
    pub data Alone (s : S) : S → Type 0 where
      here : Alone s s
      then_others : {h : S} (t : ℕ) → Alone s h → Alone s (others t h)

    pub Alone-trans : {s h k : S} → Alone s h → Alone h k → Alone s k
    Alone-trans a here = a
    Alone-trans a (then_others t b) = then_others t (Alone-trans a b)

    -- A mutation that changed nothing, at a moment of the others.
    pub Alone-kept : (t : ℕ) (s k : S) → k ≡ others t s → Alone s k
    Alone-kept t s k p = subst (Alone s) (sym p) (then_others t here)

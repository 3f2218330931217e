-- ===== src/Structures/Set.antt =====
-- The set (CouchbaseSet in collection_ds.go): Remove reads the whole document, looks for the value and
-- removes it at its index if the document has not changed in between. The reads of a value in a list
-- are here too. `same` is Go's comparison of an item with the value.
use gocb.Base.{
  ℕ, zero, suc, ◌≡◌, Bool, true, false, Option, none, some, List, [], ◌∷◌, ◌++◌, if◌then◌else◌,
  length, All,
}
use gocb.Structures.Agent.{
  Reply, ok, err, Change, changed, cas_mismatch, document_exists, failed, Agent, Alone, Alone-trans,
}

-- What Remove returns: no error, an error of the provider, or the error after 16 tries.
pub data Removed (E : Type 0) : Type 0 where
  done : Removed E
  stopped : E → Removed E
  gave_up : Removed E

module _ {ℓ} {V : Type ℓ} (same : V → V → Bool) where
  -- The loop of Remove, which goes on behind a match.
  unfoldable pub last_index : V → ℕ → Option ℕ → List V → Option ℕ
  last_index val i found [] = found
  last_index val i found (x ∷ xs) = last_index val (suc i) (if same x val then some i else found) xs

  -- The loop of IndexOf, where -1 is `none`.
  unfoldable pub index_of : V → ℕ → List V → Option ℕ
  index_of val i [] = none
  index_of val i (x ∷ xs) = if same x val then some i else index_of val (suc i) xs

  unfoldable pub contains : V → List V → Bool
  contains val [] = false
  contains val (x ∷ xs) = if same x val then true else contains val xs

module _ (agent : Agent) where
  open agent use {V, E, S, doc, get, remove_at}

  unfoldable pub settle_removal : Change E × S → (S → Removed E × S) → Removed E × S
  settle_removal (changed, s) again = (done, s)
  settle_removal (cas_mismatch, s) again = again s
  settle_removal (document_exists, s) again = again s
  settle_removal (failed e, s) again = (stopped e, s)

  unfoldable pub remove_found :
      S → Option ℕ → (ℕ → Change E × S) → (S → Removed E × S) → Removed E × S
  remove_found s none remove again = (done, s)
  remove_found s (some i) remove again = settle_removal (remove i) again

  -- What follows the read, which was made at `s`.
  unfoldable pub after_get :
      (V → V → Bool)
      → V
      → S
      → Reply (ℕ × Reply (List V) E) E
      → (ℕ → ℕ → Change E × S)
      → (S → Removed E × S)
      → Removed E × S
  after_get same val s (err e) remove again = (stopped e, s)
  after_get same val s (ok (cas, err e)) remove again = (stopped e, s)
  after_get same val s (ok (cas, ok xs)) remove again =
      remove_found s (last_index same val 0 none xs) (λ i. remove i cas) again

  module _ (same : V → V → Bool) (others : ℕ → S → S) (val : V) where
    -- The loop with `n` tries left.
    unfoldable pub remove_from : ℕ → ℕ → S → Removed E × S
    remove_from zero t s = (gave_up, s)
    remove_from (suc n) t s =
        after_get same val (others t s) (get (others t s))
          (λ i cas. remove_at i cas (others (suc t) (others t s)))
          (λ s'. remove_from n (suc (suc t)) s')

    unfoldable pub remove_value : S → Removed E × S
    remove_value s = remove_from 16 0 s

    abbrev pub Absent : List V → Type 0
    Absent xs = All (λ x. same x val ≡ false) xs

    -- Without an error, either the last occurrence of the value was removed, and nothing else, or the
    -- document had none at some moment. With an error of its last removal that one was done, or nothing
    -- was removed; with any other error nothing was. All else the others have done.
    pub data RemovesOnce (s : S) : Removed E × S → Type 0 where
      removed_last :
          (h s' : S) (cas cas' : ℕ) (xs ys : List V) (v : V)
          → Alone agent others s h
          → doc h ≡ some (cas, xs ++ v ∷ ys)
          → same v val ≡ true
          → Absent ys
          → remove_at (length xs) cas h ≡ (changed, s')
          → doc s' ≡ some (cas', xs ++ ys)
          → RemovesOnce s (done, s')
      absent :
          (h : S) (cas : ℕ) (xs : List V)
          → Alone agent others s h
          → doc h ≡ some (cas, xs)
          → Absent xs
          → RemovesOnce s (done, h)
      removed_unsure :
          (h s' : S) (cas cas' : ℕ) (xs ys : List V) (v : V) (e : E)
          → Alone agent others s h
          → doc h ≡ some (cas, xs ++ v ∷ ys)
          → same v val ≡ true
          → Absent ys
          → remove_at (length xs) cas h ≡ (failed e, s')
          → doc s' ≡ some (cas', xs ++ ys)
          → RemovesOnce s (stopped e, s')
      untouched_stop : (e : E) (s' : S) → Alone agent others s s' → RemovesOnce s (stopped e, s')
      untouched_end : (s' : S) → Alone agent others s s' → RemovesOnce s (gave_up, s')

    pub RemovesOnce-later :
        {s h : S} {r : Removed E × S} → Alone agent others s h → RemovesOnce h r → RemovesOnce s r
    RemovesOnce-later a (removed_last h s' cas cas' xs ys v b d m n e f) =
        removed_last h s' cas cas' xs ys v (Alone-trans agent others a b) d m n e f
    RemovesOnce-later a (absent h cas xs b d n) = absent h cas xs (Alone-trans agent others a b) d n
    RemovesOnce-later a (removed_unsure h s' cas cas' xs ys v e b d m n f g) =
        removed_unsure h s' cas cas' xs ys v e (Alone-trans agent others a b) d m n f g
    RemovesOnce-later a (untouched_stop e s' b) = untouched_stop e s' (Alone-trans agent others a b)
    RemovesOnce-later a (untouched_end s' b) = untouched_end s' (Alone-trans agent others a b)

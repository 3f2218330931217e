-- ===== src/Structures/Queue.antt =====
-- The queue (CouchbaseQueue in collection_ds.go): Push prepends, Pop reads the last item and removes it
-- if the document has not changed in between, and tries again if it has.
use gocb.Base.{ℕ, zero, suc, ◌≡◌, some, List, [], ◌∷◌, ◌++◌}
use gocb.Structures.Agent.{
  Reply, ok, err, Change, changed, cas_mismatch, document_exists, failed, Agent, Alone, Alone-trans,
}

-- What Pop returns: no error and the item read, an error of the provider, or the error after 16 tries.
pub data Popped (V E : Type 0) : Type 0 where
  item : V → Popped V E
  stopped : E → Popped V E
  gave_up : Popped V E

module _ (agent : Agent) where
  open agent use {V, E, S, doc, lookup_last, prepend, remove_last}

  unfoldable pub push : V → S → Change E × S
  push v s = prepend v s

  -- What follows the removal.
  unfoldable pub settle : V → Change E × S → (S → Popped V E × S) → Popped V E × S
  settle v (changed, s) again = (item v, s)
  settle v (cas_mismatch, s) again = again s
  settle v (document_exists, s) again = again s
  settle v (failed e, s) again = (stopped e, s)

  -- What follows the lookup, which was made at `s`.
  unfoldable pub after_lookup :
      S → Reply (ℕ × Reply V E) E → (ℕ → Change E × S) → (S → Popped V E × S) → Popped V E × S
  after_lookup s (err e) remove again = (stopped e, s)
  after_lookup s (ok (cas, err e)) remove again = (stopped e, s)
  after_lookup s (ok (cas, ok v)) remove again = settle v (remove cas) again

  module _ (others : ℕ → S → S) where
    -- The loop with `n` tries left; `others t` is what other clients do at the moment `t`, of which each
    -- try has two, one before the lookup and one before the removal.
    unfoldable pub pop_from : ℕ → ℕ → S → Popped V E × S
    pop_from zero t s = (gave_up, s)
    pop_from (suc n) t s =
        after_lookup (others t s) (lookup_last (others t s))
          (λ cas. remove_last cas (others (suc t) (others t s))) (λ s'. pop_from n (suc (suc t)) s')

    unfoldable pub pop : S → Popped V E × S
    pop s = pop_from 16 0 s

    -- Either the item returned was the last one at the moment of the one removal that was done, and the
    -- rest is left; or the one removal that was tried last failed with the error returned, and was done
    -- all the same; or nothing was removed. All else the other clients have done.
    pub data PopsOnce (s : S) : Popped V E × S → Type 0 where
      removed :
          (h s' : S) (cas cas' : ℕ) (rest : List V) (v : V)
          → Alone agent others s h
          → doc h ≡ some (cas, rest ++ v ∷ [])
          → remove_last cas h ≡ (changed, s')
          → doc s' ≡ some (cas', rest)
          → PopsOnce s (item v, s')
      removed_unsure :
          (h s' : S) (cas cas' : ℕ) (rest : List V) (v : V) (e : E)
          → Alone agent others s h
          → doc h ≡ some (cas, rest ++ v ∷ [])
          → remove_last cas h ≡ (failed e, s')
          → doc s' ≡ some (cas', rest)
          → PopsOnce s (stopped e, s')
      untouched_stop : (e : E) (s' : S) → Alone agent others s s' → PopsOnce s (stopped e, s')
      untouched_end : (s' : S) → Alone agent others s s' → PopsOnce s (gave_up, s')

    pub PopsOnce-later :
        {s h : S} {r : Popped V E × S} → Alone agent others s h → PopsOnce h r → PopsOnce s r
    PopsOnce-later a (removed h s' cas cas' rest v b d e f) =
        removed h s' cas cas' rest v (Alone-trans agent others a b) d e f
    PopsOnce-later a (removed_unsure h s' cas cas' rest v e b d f g) =
        removed_unsure h s' cas cas' rest v e (Alone-trans agent others a b) d f g
    PopsOnce-later a (untouched_stop e s' b) = untouched_stop e s' (Alone-trans agent others a b)
    PopsOnce-later a (untouched_end s' b) = untouched_end s' (Alone-trans agent others a b)

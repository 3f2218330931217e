-- ===== src/Structures/Once.antt =====
-- Pop among other clients (CouchbaseQueue.Pop in collection_ds.go).
use gocb.Base.{ℕ, zero, suc, ◌≡◌, refl, sym, subst, inl, inr, some, List, [], ◌∷◌, ◌++◌}
use gocb.Structures.Agent.{
  Reply, ok, err, Change, changed, cas_mismatch, document_exists, failed, Agent, Documented,
  Versioned, here, then_others, Alone-kept,
}
use gocb.Structures.Queue.{
  Popped, settle, after_lookup, pop_from, pop, PopsOnce, removed, removed_unsure, untouched_stop,
  untouched_end, PopsOnce-later,
}

pub snoc-inj {ℓ} : {A : Type ℓ} (xs ys : List A) (x y : A) → xs ++ x ∷ [] ≡ ys ++ y ∷ [] → x ≡ y
snoc-inj [] [] x y e = cc
snoc-inj [] (b ∷ []) x y e = cc
snoc-inj [] (b ∷ c ∷ ys) x y e = cc
snoc-inj (a ∷ []) [] x y e = cc
snoc-inj (a ∷ c ∷ xs) [] x y e = cc
snoc-inj (a ∷ xs) (b ∷ ys) x y e = snoc-inj xs ys x y cc

module _ (agent : Agent) (laws : Documented agent) (others : ℕ → agent.S → agent.S)
    (versioned : Versioned agent others) where
  open agent use {V, E, S, doc, lookup_last, remove_last}

  -- The removal, once the lookup at `s` has shown the last item.
  settle-PopsOnce :
      (t : ℕ) (s : S) (cas : ℕ) (v : V) (again : S → Popped V E × S) (r : Change E × S)
      → lookup_last s ≡ ok (cas, ok v)
      → remove_last cas (others t s) ≡ r
      → ((h : S) → PopsOnce agent others h (again h))
      → PopsOnce agent others s (settle agent v r again)
  unfolding settle
  settle-PopsOnce t s cas v again (changed, s') l e more =
      let (seen, d) = laws.last_shows s cas v l in
      let (rest, w, cas', d', f) =
        laws.last_removed (others t s) s' cas e (laws.stamped s cas _ d) in
      let same = snoc-inj seen rest v w (versioned t s cas _ _ d d') in
      removed (others t s) s' cas cas' rest v (then_others t here)
        (subst (λ x. doc (others t s) ≡ some (cas, rest ++ x ∷ [])) (sym same) d') e f
  settle-PopsOnce t s cas v again (cas_mismatch, s') l e more =
      PopsOnce-later agent others
        (Alone-kept agent others t s s'
          (laws.last_kept (others t s) cas cas_mismatch s' e (inl refl)))
        (more s')
  settle-PopsOnce t s cas v again (document_exists, s') l e more =
      PopsOnce-later agent others
        (Alone-kept agent others t s s'
          (laws.last_kept (others t s) cas document_exists s' e (inr refl)))
        (more s')
  settle-PopsOnce t s cas v again (failed x, s') l e more =
      let (seen, d) = laws.last_shows s cas v l in
      elim (laws.last_failed (others t s) s' cas x e (laws.stamped s cas _ d)) [
        | inl same ↦ untouched_stop x s' (Alone-kept agent others t s s' same)
        | inr (rest, w, cas', d', f) ↦
            removed_unsure (others t s) s' cas cas' rest w x (then_others t here) d' e f
      ]

  pop_from-PopsOnce : (n t : ℕ) (s : S) → PopsOnce agent others s (pop_from agent others n t s)
  unfolding pop_from
  pop_from-PopsOnce zero t s = untouched_end s here
  pop_from-PopsOnce (suc n) t s =
      PopsOnce-later agent others (then_others t here)
        (seen (λ h. pop_from-PopsOnce n (suc (suc t)) h) (lookup_last (others t s)) refl)
    where
      seen :
          ((h : S) → PopsOnce agent others h (pop_from agent others n (suc (suc t)) h))
          → (l : Reply (ℕ × Reply V E) E) → lookup_last (others t s) ≡ l
          → PopsOnce agent others (others t s) (
              after_lookup agent
                (others t s)
                l
                (λ cas. remove_last cas (others (suc t) (others t s)))
                (λ s'. pop_from agent others n (suc (suc t)) s'))
      seen more (err e) q = unfold after_lookup in untouched_stop e _ here
      seen more (ok (cas, err e)) q = unfold after_lookup in untouched_stop e _ here
      seen more (ok (cas, ok v)) q =
          unfold after_lookup in settle-PopsOnce (suc t) (others t s) cas v _ _ q refl more

  -- On a server that works as documented, where an error other than a CAS mismatch leaves open
  -- whether a removal was done, and that gives a document which other clients change another CAS,
  -- Pop removes at most one item, whatever they do between its steps. If it returns an item then it
  -- has removed it, as the last one of the document at that moment, and the rest is left. If it
  -- returns an error, then either that is the error of a removal of the last item that was done all
  -- the same, or only the other clients have done anything.
  pub pop-PopsOnce : (s : S) → PopsOnce agent others s (pop agent others s)
  unfolding pop
  pop-PopsOnce s = pop_from-PopsOnce 16 0 s

-- ===== src/Structures/Removal.antt =====
-- Remove among other clients, and where a value is found (CouchbaseSet and CouchbaseList in
-- collection_ds.go).
use gocb.Base.{
  ℕ, zero, suc, ◌+◌, ◌≡◌, refl, sym, ap, subst, ◌∙◌, inl, inr, Bool, true, false, Option, none,
  some, List, [], ◌∷◌, ◌++◌, arith, if◌then◌else◌, Bool-cases, length, All,
}
use gocb.Structures.Agent.{
  Reply, ok, err, Change, changed, cas_mismatch, document_exists, failed, Agent, Documented,
  Versioned, here, then_others, Alone-kept,
}
use gocb.Structures.Set.{
  Removed, last_index, settle_removal, remove_found, after_get, remove_from, remove_value, Absent,
  RemovesOnce, removed_last, removed_unsure, absent, untouched_stop, untouched_end,
  RemovesOnce-later,
}

split-same {ℓ} :
    {A : Type ℓ} (xs xs' ys ys' : List A) (v v' : A)
    → xs ++ v ∷ ys ≡ xs' ++ v' ∷ ys'
    → length xs ≡ length xs'
    → (v ≡ v') × (ys ≡ ys')
split-same [] [] ys ys' v v' e l = (cc, cc)
split-same [] (x ∷ xs') ys ys' v v' e l = absurd (omega (arith, l))
split-same (x ∷ xs) [] ys ys' v v' e l = absurd (omega (arith, l))
split-same (x ∷ xs) (x' ∷ xs') ys ys' v v' e l =
    let tails : xs ++ v ∷ ys ≡ xs' ++ v' ∷ ys' = cc in
    let lengths : length xs ≡ length xs' = omega (arith, l) in
    split-same xs xs' ys ys' v v' tails lengths

module _ {V : Type 0} (same : V → V → Bool) (val : V) where
  -- What the loop of Remove finds, behind `i` items and after `found`.
  data Finds (i : ℕ) (found : Option ℕ) (xs : List V) : Option ℕ → Type 0 where
    finds_none : All (λ x. same x val ≡ false) xs → Finds i found xs found
    finds_last :
        (as' bs : List V) (v : V)
        → xs ≡ as' ++ v ∷ bs
        → same v val ≡ true
        → All (λ x. same x val ≡ false) bs
        → Finds i found xs (some (i + length as'))

  Finds-next :
      (i : ℕ) (found : Option ℕ) (x : V) (xs : List V) (r : Option ℕ)
      → Finds (suc i) (if same x val then some i else found) xs r
      → Finds i found (x ∷ xs) r
  Finds-next i found x xs _ (finds_none h) = elim (Bool-cases (same x val)) [
    | inl e ↦ subst (Finds i found (x ∷ xs)) (at_here e) (finds_last [] xs x refl e h)
    | inr e ↦ subst (Finds i found (x ∷ xs)) (not_here e) (finds_none (e, h))
  ]
    where
      at_here :
          same x val ≡ true → some (i + length {A = V} []) ≡ (if same x val then some i else found)
      at_here e = rw e (ap some (omega arith))

      not_here : same x val ≡ false → found ≡ (if same x val then some i else found)
      not_here e = rw e refl
  Finds-next i found x xs _ (finds_last as' bs v e m n) =
      subst (Finds i found (x ∷ xs)) (ap some (omega arith))
        (finds_last (x ∷ as') bs v (ap (◌∷◌ x) e) m n)

  last_index-Finds :
      (i : ℕ) (found : Option ℕ) (xs : List V) → Finds i found xs (last_index same val i found xs)
  unfolding last_index
  last_index-Finds i found [] = finds_none tt
  last_index-Finds i found (x ∷ xs) = Finds-next i found x xs _ (last_index-Finds (suc i) _ xs)

module _ (agent : Agent) (laws : Documented agent) (same : agent.V → agent.V → Bool)
    (others : ℕ → agent.S → agent.S) (versioned : Versioned agent others) (val : agent.V) where
  open agent use {V, E, S, doc, get, remove_at}

  -- The removal at the index of the value, which the read at `s` has found.
  settle_removal-RemovesOnce :
      (t : ℕ) (s : S) (cas : ℕ) (xs ys : List V) (v : V) (again : S → Removed E × S)
      (r : Change E × S)
      → doc s ≡ some (cas, xs ++ v ∷ ys)
      → same v val ≡ true
      → Absent agent same others val ys
      → remove_at (length xs) cas (others t s) ≡ r
      → ((h : S) → RemovesOnce agent same others val h (again h))
      → RemovesOnce agent same others val s (settle_removal agent r again)
  unfolding settle_removal
  settle_removal-RemovesOnce t s cas xs ys v again (changed, s') d m n e more =
      let (xs', v', ys', cas', l, d', f) =
        laws.removed_at (others t s) s' (length xs) cas e (laws.stamped s cas _ d) in
      let (p, q) = split-same xs xs' ys ys' v v' (versioned t s cas _ _ d d') (sym l) in
      removed_last (others t s) s' cas cas' xs' ys' v' (then_others t here) d'
        (subst (λ x. same x val ≡ true) p m) (subst (Absent agent same others val) q n)
        (subst (λ i. remove_at i cas (others t s) ≡ (changed, s')) (sym l) e) f
  settle_removal-RemovesOnce t s cas xs ys v again (cas_mismatch, s') d m n e more =
      RemovesOnce-later agent same others val
        (Alone-kept agent others t s s'
          (laws.kept_at (others t s) _ cas cas_mismatch s' e (inl refl)))
        (more s')
  settle_removal-RemovesOnce t s cas xs ys v again (document_exists, s') d m n e more =
      RemovesOnce-later agent same others val
        (Alone-kept agent others t s s'
          (laws.kept_at (others t s) _ cas document_exists s' e (inr refl)))
        (more s')
  settle_removal-RemovesOnce t s cas xs ys v again (failed x, s') d m n e more =
      elim (laws.failed_at (others t s) s' (length xs) cas x e (laws.stamped s cas _ d)) [
        | inl kept ↦ untouched_stop x s' (Alone-kept agent others t s s' kept)
        | inr (xs', v', ys', cas', l, d', f) ↦
            let (p, q) = split-same xs xs' ys ys' v v' (versioned t s cas _ _ d d') (sym l) in
            removed_unsure (others t s) s' cas cas' xs' ys' v' x (then_others t here) d'
              (subst (λ y. same y val ≡ true) p m) (subst (Absent agent same others val) q n)
              (subst (λ i. remove_at i cas (others t s) ≡ (failed x, s')) (sym l) e) f
      ]

  remove_found-RemovesOnce :
      (t : ℕ) (s : S) (cas : ℕ) (xs : List V) (i : Option ℕ) (again : S → Removed E × S)
      → doc s ≡ some (cas, xs)
      → Finds same val 0 none xs i
      → ((h : S) → RemovesOnce agent same others val h (again h))
      → RemovesOnce agent same others val s
          (remove_found agent s i (λ i. remove_at i cas (others t s)) again)
  unfolding remove_found
  remove_found-RemovesOnce t s cas xs _ again d (finds_none n) more = absent s cas xs here d n
  remove_found-RemovesOnce t s cas xs _ again d (finds_last as' bs v e m n) more =
      settle_removal-RemovesOnce t s cas as' bs v again _ (d ∙ ap (λ ys. some (cas, ys)) e) m n
        (ap (λ i. remove_at i cas (others t s)) (omega arith)) more

  remove_from-RemovesOnce :
      (n t : ℕ) (s : S)
      → RemovesOnce agent same others val s (remove_from agent same others val n t s)
  unfolding remove_from
  remove_from-RemovesOnce zero t s = untouched_end s here
  remove_from-RemovesOnce (suc n) t s =
      RemovesOnce-later agent same others val (then_others t here)
        (seen (λ h. remove_from-RemovesOnce n (suc (suc t)) h) (get (others t s)) refl)
    where
      seen :
          ((h : S)
            → RemovesOnce agent same others val h
                (remove_from agent same others val n (suc (suc t)) h))
          → (l : Reply (ℕ × Reply (List V) E) E) → get (others t s) ≡ l
          → RemovesOnce agent same others val (others t s) (
              after_get agent same val
                (others t s)
                l
                (λ i cas. remove_at i cas (others (suc t) (others t s)))
                (λ s'. remove_from agent same others val n (suc (suc t)) s'))
      seen more (err e) q = unfold after_get in untouched_stop e _ here
      seen more (ok (cas, err e)) q = unfold after_get in untouched_stop e _ here
      seen more (ok (cas, ok xs)) q =
          unfold after_get in
          remove_found-RemovesOnce (suc t) (others t s) cas xs _ _ (laws.get_shows _ cas xs q)
            (last_index-Finds same val 0 none xs) more

  -- On a server that works as documented, where an error other than a CAS mismatch leaves open
  -- whether a removal was done, and that gives a document which other clients change another CAS,
  -- Remove removes at most one item, whatever they do between its steps. If it returns no error
  -- then it has removed the last occurrence of the value, as the document was at that moment, or
  -- has read a document without the value. If it returns an error, then either that is the error of
  -- a removal of that occurrence which was done all the same, or it has removed nothing.
  pub remove_value-RemovesOnce :
      (s : S) → RemovesOnce agent same others val s (remove_value agent same others val s)
  unfolding remove_value
  remove_value-RemovesOnce s = remove_from-RemovesOnce 16 0 s

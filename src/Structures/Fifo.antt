-- ===== src/Structures/Fifo.antt =====
-- Push and Pop by one client alone (CouchbaseQueue in collection_ds.go).
use gocb.Base.{
  ℕ, zero, suc, ◌≡◌, refl, sym, ap, ap₂, ◌∙◌, inl, inr, some, List, [], ◌∷◌, ◌++◌, map,
  Option-cases, length,
}
use gocb.Structures.Agent.{Agent, Answers, items_of}
use gocb.Structures.Queue.{Popped, item, push, settle, after_lookup, pop_from, pop}

reverse_onto {ℓ} : {A : Type ℓ} → List A → List A → List A
reverse_onto [] ys = ys
reverse_onto (x ∷ xs) ys = reverse_onto xs (x ∷ ys)

reverse_onto-append {ℓ} :
    {A : Type ℓ} (xs ys zs : List A) → reverse_onto xs (ys ++ zs) ≡ reverse_onto xs ys ++ zs
unfolding reverse_onto
reverse_onto-append [] ys zs = refl
reverse_onto-append (x ∷ xs) ys zs = reverse_onto-append xs (x ∷ ys) zs

not_empty {ℓ} : {A : Type ℓ} (xs : List A) (x : A) → [] ≡ xs ++ x ∷ [] → ⊥
not_empty [] x e = cc
not_empty (y ∷ xs) x e = cc

module _ (agent : Agent) where
  open agent use {V, E, S, doc, prepend, lookup_last, remove_last}

  pub push_all : List V → S → S
  push_all [] s = s
  push_all (v ∷ vs) s = push_all vs (push agent v s).1

  -- The answers to `n` calls of Pop, with no other client about.
  pub pop_all : ℕ → S → List (Popped V E)
  pop_all zero s = []
  pop_all (suc n) s = (pop agent (λ t s. s) s).0 ∷ pop_all n (pop agent (λ t s. s) s).1

  module _ (answers : Answers agent) where
    items-push_all :
        (vs : List V) (s : S)
        → items_of agent (doc (push_all vs s)) ≡ reverse_onto vs (items_of agent (doc s))
    unfolding push_all push reverse_onto
    items-push_all [] s = refl
    items-push_all (v ∷ vs) s =
        let (s', cas, e, d) = answers.prepended v s in
        items-push_all vs (prepend v s).1
        ∙ ap (λ r. reverse_onto vs (items_of agent (doc r.1))) e
        ∙ ap (λ o. reverse_onto vs (items_of agent o)) d

    pop-last :
        (s : S) (cas : ℕ) (rest : List V) (v : V)
        → doc s ≡ some (cas, rest ++ v ∷ [])
        → (s' : S) × (cas' : ℕ) × (pop agent (λ t s. s) s ≡ (item v, s'))
          × (doc s' ≡ some (cas', rest))
    unfolding pop pop_from
    pop-last s cas rest v d =
        let (s', cas', e, f) = answers.last_done s cas rest v d in
        (
          s',
          cas',
          ap
                (λ l.
                  after_lookup agent s l (λ c. remove_last c s)
                    (λ k. pop_from agent (λ t s. s) 15 2 k))
                (answers.last_found s cas rest v d)
              ∙ (unfold after_lookup settle in
                  ap (λ r. settle agent v r (λ k. pop_from agent (λ t s. s) 15 2 k)) e),
          f,
        )

    pop_all-items :
        (vs : List V) (s : S)
        → items_of agent (doc s) ≡ reverse_onto vs []
        → pop_all (length vs) s ≡ map item vs
    unfolding pop_all reverse_onto
    pop_all-items [] s e = refl
    pop_all-items (v ∷ vs) s e = elim (Option-cases (doc s)) [
      | inl none_there ↦ absurd (
          not_empty (reverse_onto vs []) v
            (sym (ap (items_of agent) none_there) ∙ e ∙ reverse_onto-append vs [] (v ∷ [])))
      | inr ((cas, xs), there) ↦
          let split = sym (ap (items_of agent) there) ∙ e ∙ reverse_onto-append vs [] (v ∷ []) in
          let (s', cas', p, d) =
            pop-last s cas (reverse_onto vs []) v (there ∙ ap (λ ys. some (cas, ys)) split) in
          ap₂ (◌∷◌) (ap (λ r. r.0) p) (
            pop_all-items vs (pop agent (λ t s. s) s).1
              (ap (λ r. items_of agent (doc r.1)) p ∙ ap (items_of agent) d))
    ]

    -- While one client alone uses an empty queue of a cluster that answers, or one whose document is not
    -- there yet, it pops what it has pushed, in the order in which it pushed it.
    pub pop_all-push_all :
        (vs : List V) (s : S)
        → items_of agent (doc s) ≡ []
        → pop_all (length vs) (push_all vs s) ≡ map item vs
    pop_all-push_all vs s e =
        pop_all-items vs (push_all vs s) (items-push_all vs s ∙ ap (reverse_onto vs) e)

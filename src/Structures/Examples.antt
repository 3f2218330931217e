-- ===== src/Structures/Examples.antt =====
-- Runs of the data structures on a cluster with one document (collection_ds.go).
use gocb.Base.{
  ℕ, suc, ◌≡◌, refl, sym, ap, ◌∙◌, Bool, true, false, none, some, [], ◌∷◌, arith, ◌==◌,
  if◌then◌else◌, some-inj,
}
use gocb.Structures.Agent.{Versioned}
use gocb.Structures.Queue.{item, settle, after_lookup, pop_from, pop, PopsOnce}
use gocb.Structures.Once.{pop-PopsOnce}
use gocb.Structures.Fifo.{push_all, pop_all, pop_all-push_all}
use gocb.Structures.Set.{remove_value, RemovesOnce}
use gocb.Structures.Removal.{remove_value-RemovesOnce}
use gocb.Structures.Cluster.{Cluster, doc_of, a_cluster, a_cluster-Documented, a_cluster-Answers}

-- Another client adds 7 between the first lookup and the removal that follows it.
abbrev added : Cluster → Cluster
added none = none
added (some (n, xs)) = some (suc n, 7 ∷ xs)

abbrev one_other : ℕ → Cluster → Cluster
one_other t s = if t == 1 then added s else s

one_other-Versioned : Versioned a_cluster one_other
one_other-Versioned t s cas xs ys d e = go s (t == 1) d e
  where
    go :
        (s : Cluster) (b : Bool)
        → doc_of s ≡ some (cas, xs)
        → doc_of (if b then added s else s) ≡ some (cas, ys)
        → xs ≡ ys
    go none b d e = cc
    go (some (n, zs)) true d e =
        let p : suc n ≡ cas = ap (λ r. r.0) (some-inj d) in
        let q : suc (suc n) ≡ cas = ap (λ r. r.0) (some-inj e) in absurd (omega (arith, p, q))
    go (some (n, zs)) false d e = ap (λ r. r.1) (some-inj (sym d ∙ e))

abbrev stored : Cluster
stored = some (0, 3 ∷ 4 ∷ 5 ∷ [])

pop_test : pop a_cluster one_other stored ≡ (item 5, some (2, 7 ∷ 3 ∷ 4 ∷ []))
unfolding pop pop_from after_lookup settle
pop_test = refl

pop-PopsOnce_example : PopsOnce a_cluster one_other stored (pop a_cluster one_other stored)
pop-PopsOnce_example =
    pop-PopsOnce a_cluster a_cluster-Documented one_other one_other-Versioned stored

remove_value-RemovesOnce_example :
    RemovesOnce a_cluster
      (λ x y. x == y)
      one_other
      4
      stored
      (remove_value a_cluster (λ x y. x == y) one_other 4 stored)
remove_value-RemovesOnce_example =
    remove_value-RemovesOnce a_cluster a_cluster-Documented (λ x y. x == y) one_other
      one_other-Versioned 4 stored

pop_all-push_all_example :
    pop_all a_cluster 3 (push_all a_cluster (1 ∷ 2 ∷ 3 ∷ []) none) ≡ item 1 ∷ item 2 ∷ item 3 ∷ []
pop_all-push_all_example = pop_all-push_all a_cluster a_cluster-Answers (1 ∷ 2 ∷ 3 ∷ []) none refl

-- ===== src/Structures/Cluster.antt =====
-- A cluster with one document, as the data structures of collection_ds.go use it: an instance of what
-- is assumed of the cluster.
use gocb.Base.{
  ℕ, suc, ◌≡◌, refl, sym, ap, ap₂, ◌∙◌, ◌≢◌, ◌⊎◌, inl, inr, Bool, true, false, Option, none, some,
  List, [], ◌∷◌, ◌++◌, arith, ◌==◌, ==_iff, Option-cases, some-inj, length,
}
use gocb.Structures.Ends.{split_last, split_at, split_last-some, split_last-append, split_at-some}
use gocb.Structures.Agent.{
  Reply, ok, err, Change, changed, cas_mismatch, document_exists, failed, Agent, Documented,
  Answers, items_of,
}

-- The document, if it is there, with the number of its changes.
abbrev pub Cluster : Type 0
Cluster = Option (ℕ × List ℕ)

abbrev pub doc_of : Cluster → Option (ℕ × List ℕ)
doc_of none = none
doc_of (some (n, xs)) = some (suc n, xs)

abbrev get_of : Cluster → Reply (ℕ × Reply (List ℕ) ℕ) ℕ
get_of none = err 0
get_of (some (n, xs)) = ok (suc n, ok xs)

abbrev item_reply : Option (List ℕ × ℕ) → Reply ℕ ℕ
item_reply none = err 1
item_reply (some (rest, v)) = ok v

abbrev last_of : Cluster → Reply (ℕ × Reply ℕ ℕ) ℕ
last_of none = err 0
last_of (some (n, xs)) = ok (suc n, item_reply (split_last xs))

abbrev prepend_of : ℕ → Cluster → Change ℕ × Cluster
prepend_of v none = (changed, some (0, v ∷ []))
prepend_of v (some (n, xs)) = (changed, some (suc n, v ∷ xs))

-- A mutation with a CAS, `b` being whether the document still has it.
abbrev guarded : Bool → Cluster → Change ℕ × Cluster → Change ℕ × Cluster
guarded true s r = r
guarded false s r = (cas_mismatch, s)

abbrev without_last : ℕ → List ℕ → Option (List ℕ × ℕ) → Change ℕ × Cluster
without_last n xs none = (failed 1, some (n, xs))
without_last n xs (some (rest, v)) = (changed, some (suc n, rest))

abbrev remove_last_of : ℕ → Cluster → Change ℕ × Cluster
remove_last_of cas none = (failed 0, none)
remove_last_of cas (some (n, xs)) =
    guarded (cas == suc n) (some (n, xs)) (without_last n xs (split_last xs))

abbrev without_at : ℕ → List ℕ → Option (List ℕ × ℕ × List ℕ) → Change ℕ × Cluster
without_at n xs none = (failed 1, some (n, xs))
without_at n xs (some (as', v, bs)) = (changed, some (suc n, as' ++ bs))

abbrev remove_at_of : ℕ → ℕ → Cluster → Change ℕ × Cluster
remove_at_of i cas none = (failed 0, none)
remove_at_of i cas (some (n, xs)) =
    guarded (cas == suc n) (some (n, xs)) (without_at n xs (split_at i xs))

abbrev pub a_cluster : Agent
a_cluster = record {
  V = ℕ;
  E = ℕ;
  S = Cluster;
  doc = doc_of;
  get = get_of;
  lookup_last = last_of;
  prepend = prepend_of;
  remove_last = remove_last_of;
  remove_at = remove_at_of;
}

get_shows :
    (s : Cluster) (cas : ℕ) (xs : List ℕ) → get_of s ≡ ok (cas, ok xs) → doc_of s ≡ some (cas, xs)
get_shows none cas xs e = cc
get_shows (some (n, ys)) cas xs e = cc

abbrev ok_at : ℕ → Reply ℕ ℕ → Reply (ℕ × Reply ℕ ℕ) ℕ
ok_at n r = ok (n, r)

last_shows :
    (s : Cluster) (cas v : ℕ)
    → last_of s ≡ ok (cas, ok v)
    → (rest : List ℕ) × (doc_of s ≡ some (cas, rest ++ v ∷ []))
last_shows none cas v e = absurd cc
last_shows (some (n, xs)) cas v e = elim (Option-cases (split_last xs)) [
  | inl h ↦ absurd (clash (sym (ap (λ o. ok (suc n, item_reply o)) h) ∙ e))
  | inr ((rest, w), h) ↦ (
    rest,
    found rest w (split_last-some xs rest w h) (sym (ap (λ o. ok (suc n, item_reply o)) h) ∙ e),
  )
]
  where
    clash : ok_at (suc n) (err 1) ≡ ok (cas, ok v) → ⊥
    clash p = cc

    found :
        (rest : List ℕ) (w : ℕ)
        → xs ≡ rest ++ w ∷ []
        → ok_at (suc n) (ok w) ≡ ok (cas, ok v)
        → doc_of (some (n, xs)) ≡ some (cas, rest ++ v ∷ [])
    found rest w q p =
        let a : suc n ≡ cas = cc in
        let b : w ≡ v = cc in ap₂ (λ c ys. some (c, ys)) a (q ∙ ap (λ u. rest ++ u ∷ []) b)

stamped : (s : Cluster) (cas : ℕ) (xs : List ℕ) → doc_of s ≡ some (cas, xs) → cas ≢ 0
stamped none cas xs e = absurd cc
stamped (some (n, ys)) cas xs e = λ p. let q : suc n ≡ cas = cc in omega (arith, p, q)

guarded_done :
    (b : Bool) (s s' : Cluster) (r : Change ℕ × Cluster)
    → guarded b s r ≡ (changed, s')
    → (b ≡ true) × (r ≡ (changed, s'))
guarded_done true s s' r e = (refl, e)
guarded_done false s s' r e = cc

guarded_kept :
    (b : Bool) (s s' : Cluster) (r : Change ℕ × Cluster) (c : Change ℕ)
    → (r.0 ≢ changed → r.1 ≡ s)
    → guarded b s r ≡ (c, s')
    → c ≢ changed
    → s' ≡ s
guarded_kept true s s' r c k e ne = sym (ap (λ t. t.1) e) ∙ k (λ p. ne (sym (ap (λ t. t.0) e) ∙ p))
guarded_kept false s s' r c k e ne = sym (ap (λ t. t.1) e)

last_removed :
    (s s' : Cluster) (cas : ℕ)
    → remove_last_of cas s ≡ (changed, s')
    → cas ≢ 0
    → (rest : List ℕ) × (v : ℕ) × (cas' : ℕ) × (doc_of s ≡ some (cas, rest ++ v ∷ []))
      × (doc_of s' ≡ some (cas', rest))
last_removed none s' cas e ne = absurd cc
last_removed (some (n, xs)) s' cas e ne =
    let (b, r) = guarded_done (cas == suc n) (some (n, xs)) s' _ e in
    go (split_last xs) refl ((==_iff _ _).0 b) r
  where
    go :
        (o : Option (List ℕ × ℕ))
        → split_last xs ≡ o
        → cas ≡ suc n
        → without_last n xs o ≡ (changed, s')
        → (rest : List ℕ) × (v : ℕ) × (cas' : ℕ) × (doc_of (some (n, xs))
            ≡ some (cas, rest ++ v ∷ []))
          × (doc_of s' ≡ some (cas', rest))
    go none q c p = absurd cc
    go (some (rest, v)) q c p = (
      rest,
      v,
      suc (suc n),
      ap₂ (λ m ys. some (m, ys)) (sym c) (split_last-some xs rest v q),
      ap doc_of (sym (ap (λ t. t.1) p)),
    )

last_kept :
    (s : Cluster) (cas : ℕ) (c : Change ℕ) (s' : Cluster)
    → remove_last_of cas s ≡ (c, s')
    → c ≢ changed
    → s' ≡ s
last_kept none cas c s' e ne = sym (ap (λ t. t.1) e)
last_kept (some (n, xs)) cas c s' e ne =
    guarded_kept (cas == suc n) (some (n, xs)) s' _ c (kept (split_last xs)) e ne
  where
    kept :
        (o : Option (List ℕ × ℕ))
        → (without_last n xs o).0 ≢ changed
        → (without_last n xs o).1 ≡ some (n, xs)
    kept none k = refl
    kept (some (rest, v)) k = absurd (k refl)

removed_at :
    (s s' : Cluster) (i cas : ℕ)
    → remove_at_of i cas s ≡ (changed, s')
    → cas ≢ 0
    → (xs : List ℕ) × (v : ℕ) × (ys : List ℕ) × (cas' : ℕ) × (length xs ≡ i)
      × (doc_of s ≡ some (cas, xs ++ v ∷ ys))
      × (doc_of s' ≡ some (cas', xs ++ ys))
removed_at none s' i cas e ne = absurd cc
removed_at (some (n, xs)) s' i cas e ne =
    let (b, r) = guarded_done (cas == suc n) (some (n, xs)) s' _ e in
    go (split_at i xs) refl ((==_iff _ _).0 b) r
  where
    go :
        (o : Option (List ℕ × ℕ × List ℕ))
        → split_at i xs ≡ o
        → cas ≡ suc n
        → without_at n xs o ≡ (changed, s')
        → (as' : List ℕ) × (v : ℕ) × (bs : List ℕ) × (cas' : ℕ) × (length as' ≡ i)
          × (doc_of (some (n, xs)) ≡ some (cas, as' ++ v ∷ bs))
          × (doc_of s' ≡ some (cas', as' ++ bs))
    go none q c p = absurd cc
    go (some (as', v, bs)) q c p =
        let (l, m) = split_at-some i xs as' bs v q in
        (
          as',
          v,
          bs,
          suc (suc n),
          l,
          ap₂ (λ m ys. some (m, ys)) (sym c) m,
          ap doc_of (sym (ap (λ t. t.1) p)),
        )

kept_at :
    (s : Cluster) (i cas : ℕ) (c : Change ℕ) (s' : Cluster)
    → remove_at_of i cas s ≡ (c, s')
    → c ≢ changed
    → s' ≡ s
kept_at none i cas c s' e ne = sym (ap (λ t. t.1) e)
kept_at (some (n, xs)) i cas c s' e ne =
    guarded_kept (cas == suc n) (some (n, xs)) s' _ c (kept (split_at i xs)) e ne
  where
    kept :
        (o : Option (List ℕ × ℕ × List ℕ))
        → (without_at n xs o).0 ≢ changed
        → (without_at n xs o).1 ≡ some (n, xs)
    kept none k = refl
    kept (some (as', v, bs)) k = absurd (k refl)

mismatch : (c : Change ℕ) → (c ≡ cas_mismatch) ⊎ (c ≡ document_exists) → c ≢ changed
mismatch changed (inl e) = absurd cc
mismatch changed (inr e) = absurd cc
mismatch cas_mismatch h = λ p. cc
mismatch document_exists h = λ p. cc
mismatch (failed x) h = λ p. cc

pub a_cluster-Documented : Documented a_cluster
a_cluster-Documented = record {
  get_shows = get_shows;
  last_shows = last_shows;
  last_removed = last_removed;
  last_kept = λ s cas c s' e h. last_kept s cas c s' e (mismatch c h);
  last_failed = λ s s' cas x e ne. inl (last_kept s cas (failed x) s' e (λ p. cc));
  removed_at = removed_at;
  kept_at = λ s i cas c s' e h. kept_at s i cas c s' e (mismatch c h);
  failed_at = λ s s' i cas x e ne. inl (kept_at s i cas (failed x) s' e (λ p. cc));
  stamped = stamped;
}

prepended :
    (v : ℕ) (s : Cluster)
    → (s' : Cluster) × (cas : ℕ) × (prepend_of v s ≡ (changed, s'))
      × (doc_of s' ≡ some (cas, v ∷ items_of a_cluster (doc_of s)))
prepended v none = (some (0, v ∷ []), 1, refl, refl)
prepended v (some (n, xs)) = (some (suc n, v ∷ xs), suc (suc n), refl, refl)

last_found :
    (s : Cluster) (cas : ℕ) (rest : List ℕ) (v : ℕ)
    → doc_of s ≡ some (cas, rest ++ v ∷ [])
    → last_of s ≡ ok (cas, ok v)
last_found none cas rest v d = cc
last_found (some (n, xs)) cas rest v d =
    ap₂ (λ c ys. ok_at c (item_reply (split_last ys))) (ap (λ r. r.0) (some-inj d))
      (ap (λ r. r.1) (some-inj d))
    ∙ ap (λ o. ok_at cas (item_reply o)) (split_last-append rest v)

last_done :
    (s : Cluster) (cas : ℕ) (rest : List ℕ) (v : ℕ)
    → doc_of s ≡ some (cas, rest ++ v ∷ [])
    → (s' : Cluster) × (cas' : ℕ) × (remove_last_of cas s ≡ (changed, s'))
      × (doc_of s' ≡ some (cas', rest))
last_done none cas rest v d = absurd cc
last_done (some (n, xs)) cas rest v d =
    let p : suc n ≡ cas = ap (λ r. r.0) (some-inj d) in
    let q : xs ≡ rest ++ v ∷ [] = ap (λ r. r.1) (some-inj d) in
    (
      some (suc n, rest),
      suc (suc n),
      ap (λ b. guarded b (some (n, xs)) (without_last n xs (split_last xs)))
            ((==_iff _ _).1 (sym p))
          ∙ ap (without_last n xs) (ap split_last q ∙ split_last-append rest v),
      refl,
    )

pub a_cluster-Answers : Answers a_cluster
a_cluster-Answers = record { prepended = prepended; last_found = last_found; last_done = last_done }

-- ===== src/Subdoc/Accepted.antt =====
-- What a request of MutateIn holds (kvprovider_coresubdoc.go).
use gocb.Base.{
  ℕ, ◌+◌, ◌^◌, ◌≤◌, ◌<◌, ◌≡◌, refl, sym, subst, ◌⊎◌, inl, inr, Bool, true, false, not, ◌&&◌, Option,
  none, some, List, arith, if◌then◌else◌,
}
use gocb.Go.Word.{lt_int64}
use gocb.KvOps.Level.{DurabilityLevel, MemdLevel, is_above_zero, memd, no_memd, to_memd}
use gocb.KvOps.Expiry.{duration_to_expiry}
use gocb.KvOps.Manager.{
  Manager, OpError, Parent, check_ready, durability_timeout, durability_timeout_floor, get_deadline,
  new_manager, observes, or_none, set_dura_options, set_preserve_expiry, set_timeout, store_level,
}
use gocb.KvOps.Timeouts.{IsConfigured, durability_timeout-le, get_deadline_stable}
use gocb.Subdoc.Specs.{MutateSpec}
use gocb.Subdoc.Mutate.{
  DocFlags, MutateError, MutateOptions, MutateRequest, Mutation, StoreSemantics, doc_flags,
  insert_semantics, internal_mutate_in, mutate_in, mutate_manager, mutate_ready, mutations_of,
  other_semantics, preserve_with_expiry, replace_semantics, request_of, upsert_semantics,
  with_flags, with_ops,
}
use gocb.Subdoc.Implements.{mutations_of-AllImplement, Accepted, AllImplement}

-- The flags of a request, against whether it preserves the expiry and the expiry it sets.
pub record IsCoherent (f : DocFlags) (preserve : Bool) (expiry : ℕ) : Type 0 where
  pub one_semantics : f.mk_doc && f.add_doc_flag ≡ false
  pub no_insert : preserve ≡ true → f.add_doc_flag ≡ false
  pub no_expiry : preserve ≡ true → f.mk_doc ≡ false → expiry ≡ 0

doc_flags-IsCoherent :
    (E : Type 0) (now expiry : ℕ) (preserve : Bool) (action : StoreSemantics) (f : DocFlags)
    → f.mk_doc ≡ false
    → f.add_doc_flag ≡ false
    → expiry < 2 ^ 63
    → Accepted
        (λ g. IsCoherent g preserve (duration_to_expiry now expiry))
        (doc_flags {E = E} action expiry preserve f)
unfolding doc_flags duration_to_expiry
doc_flags-IsCoherent E now expiry preserve upsert_semantics f a b lt = record {
  one_semantics = b;
  no_insert = λ p. b;
  no_expiry = λ p q. cc;
}
doc_flags-IsCoherent E now expiry true insert_semantics f a b lt = tt
doc_flags-IsCoherent E now expiry false insert_semantics f a b lt = record {
  one_semantics = rw a refl;
  no_insert = λ p. cc;
  no_expiry = λ p. cc;
}
doc_flags-IsCoherent E now expiry preserve other_semantics f a b lt = tt
doc_flags-IsCoherent E now expiry preserve replace_semantics f a b lt =
    by_test (lt_int64 0 expiry && preserve) (λ p. record {
      one_semantics = rw a refl;
      no_insert = λ q. b;
      no_expiry = λ q r. ground (arith, p, q, lt);
    })
  where
    by_test :
        (t : Bool)
        → (t ≡ false → IsCoherent f preserve (duration_to_expiry now expiry))
        → Accepted {E = MutateError E}
            (λ g. IsCoherent g preserve (duration_to_expiry now expiry))
            (if t then inl preserve_with_expiry else inr f)
    by_test true h = tt
    by_test false h = h refl

-- What holds of a request at the time `now`; the server's time for durability ends before the deadline.
pub record IsValidRequest (V : Type 0) (now : ℕ) (specs : List (MutateSpec V)) (q : MutateRequest)
    : Type 0 where
  pub implemented : AllImplement specs q.ops
  pub coherent : IsCoherent q.flags q.preserve_expiry q.expiry
  pub bounded :
      ((q.durability_level ≡ 0) × (q.durability_timeout_of ≡ 0))
      ⊎ ((durability_timeout_floor ≤ q.durability_timeout_of)
          × (now + q.durability_timeout_of ≤ q.deadline))

-- What the durability options leave alone.
abbrev SameBut : Manager → Manager → Type 0
SameBut m n = (n.parent ≡ m.parent) × (n.timeout ≡ m.timeout) × (n.deadline ≡ m.deadline)

set_dura_options-SameBut :
    (p r : ℕ) (l : DurabilityLevel) (m : Manager) → SameBut m (set_dura_options p r l m)
unfolding set_dura_options store_level
set_dura_options-SameBut p r l m =
    branch _ _ (observes p r && not m.parent.use_mutation_tokens) (refl, refl, refl)
      (branch _ _ (observes p r && is_above_zero l) (refl, refl, refl)
        (stored (to_memd (or_none l))))
  where
    branch : (x y : Manager) (b : Bool) → SameBut m x → SameBut m y → SameBut m (if b then x else y)
    branch x y true h k = h
    branch x y false h k = k

    stored : (x : MemdLevel) → SameBut m (store_level p r x m)
    stored (memd n) = (refl, refl, refl)
    stored (no_memd e) = (refl, refl, refl)

module _ (now : ℕ) (scale : ℕ → ℕ) (scale_le : (t : ℕ) → t < 2 ^ 63 → scale t ≤ t) where
  durability_timeout-deadline :
      (m : Manager)
      → m.deadline ≡ none
      → IsConfigured m.parent
      → m.timeout < 2 ^ 64
      → ((m.durability_level ≡ 0) × (durability_timeout scale m ≡ 0))
        ⊎ ((durability_timeout_floor ≤ durability_timeout scale m)
            × (now + durability_timeout scale m ≤ (get_deadline now m).0))
  durability_timeout-deadline m d c w =
      let e = (get_deadline_stable now now m d).0 in
      elim (durability_timeout-le scale m scale_le c w) [
        | inl h ↦ inl h
        | inr (a, b) ↦ inr (a, omega (arith, b, e))
      ]

  internal_mutate_in-IsValidRequest :
      {V E : Type 0} (marshal : V → E ⊎ List ℕ) (specs : List (MutateSpec V)) (m : Manager)
      (o : MutateOptions)
      → m.deadline ≡ none
      → IsConfigured m.parent
      → m.timeout < 2 ^ 64
      → o.doc_flags_given.mk_doc ≡ false
      → o.doc_flags_given.add_doc_flag ≡ false
      → o.expiry < 2 ^ 63
      → Accepted (IsValidRequest V now specs) (internal_mutate_in now scale m o marshal specs)
  unfolding internal_mutate_in request_of
  internal_mutate_in-IsValidRequest {V} {E} marshal specs m o d c w mk add lt =
      with_f _ (doc_flags-IsCoherent E now o.expiry m.preserve_ttl o.store_semantic _ mk add lt)
    where
      with_os :
          (f : DocFlags) (r : MutateError E ⊎ List Mutation)
          → IsCoherent f m.preserve_ttl (duration_to_expiry now o.expiry)
          → Accepted (AllImplement specs) r
          → Accepted (IsValidRequest V now specs) (with_ops now scale m o marshal specs f r)
      with_os f (inl e) h k = tt
      with_os f (inr os) h k = record {
        implemented = k;
        coherent = h;
        bounded = durability_timeout-deadline m d c w;
      }

      with_f :
          (r : MutateError E ⊎ DocFlags)
          → Accepted (λ f. IsCoherent f m.preserve_ttl (duration_to_expiry now o.expiry)) r
          → Accepted (IsValidRequest V now specs) (with_flags now scale m o marshal specs r)
      with_f (inl e) h = tt
      with_f (inr f) h =
          with_os f (mutations_of marshal specs) h (mutations_of-AllImplement marshal specs)

  -- If 0.9 times a duration is no more than it, the configured timeouts and the expiry are not negative,
  -- and the caller sets none of the two flags itself, then a request of MutateIn has one mutation for
  -- each spec, in their order, none of which inserts, upserts, replaces or removes at a blank path; it
  -- does not ask for both an upsert and an insert of the document, preserves an expiry neither with an
  -- insert nor, unless it is an upsert, with another expiry; and a durable one gives the server at least
  -- 1.5 s and no time beyond the deadline.
  pub mutate_in-IsValidRequest :
      {V E : Type 0} (marshal : V → E ⊎ List ℕ) (parent : Parent) (specs : List (MutateSpec V))
      (o : MutateOptions) (q : MutateRequest)
      → IsConfigured parent
      → o.timeout < 2 ^ 64
      → o.doc_flags_given.mk_doc ≡ false
      → o.doc_flags_given.add_doc_flag ≡ false
      → o.expiry < 2 ^ 63
      → mutate_in now scale marshal parent specs o ≡ inr q
      → IsValidRequest V now specs q
  unfolding mutate_in mutate_ready mutate_manager new_manager set_timeout set_preserve_expiry
  mutate_in-IsValidRequest {V} {E} marshal parent specs o q c w mk add lt e =
      subst (Accepted (IsValidRequest V now specs)) e
        (ready (check_ready (mutate_manager parent o)))
    where
      same : SameBut (set_timeout o.timeout (new_manager parent)) (mutate_manager parent o)
      same =
          set_dura_options-SameBut o.persist_to o.replicate_to o.durability_level
            (set_preserve_expiry o.preserve_expiry (set_timeout o.timeout (new_manager parent)))

      ready :
          (r : Option OpError)
          → Accepted
              (IsValidRequest V now specs)
              (mutate_ready now scale (mutate_manager parent o) o marshal specs r)
      ready (some x) = tt
      ready none =
          internal_mutate_in-IsValidRequest marshal specs (mutate_manager parent o) o same.2
            (subst IsConfigured (sym same.0) c) (omega (arith, same.1, w)) mk add lt

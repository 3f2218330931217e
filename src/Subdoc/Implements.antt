-- ===== src/Subdoc/Implements.antt =====
-- The mutations of a request are those of its specs (the loop of internalMutateIn in
-- kvprovider_coresubdoc.go).
use gocb.Base.{
  ℕ, String, ◌≡◌, refl, ◌⊎◌, inl, inr, Bool, true, false, List, [], ◌∷◌, arith, str_eq,
  if◌then◌else◌,
}
use gocb.Subdoc.Specs.{MutateSpec, Op, delete, dict_add, dict_set, get, replace}
use gocb.Subdoc.Mutate.{
  MutateError, Mutation, blank_path_op, cons_mutation, flags_of, marshal_spec, mutation_at,
  mutation_of, mutation_with, mutations_of, path_op,
}

-- A predicate of what was accepted; an error satisfies it.
abbrev pub Accepted {ℓ} : {E A : Type 0} → (A → Type ℓ) → E ⊎ A → Type ℓ
Accepted P (inl e) = Unit
Accepted P (inr a) = P a

-- Does the operation make no sense for the document itself?
pub needs_path : Op → Bool
needs_path dict_add = true
needs_path dict_set = true
needs_path delete = true
needs_path replace = true
needs_path _ = false

-- The mutation of a spec: it is at the spec's path, it is the spec's operation unless the path is blank,
-- and then it is one on the document.
pub record Implements {V : Type 0} (s : MutateSpec V) (o : Mutation) : Type 0 where
  pub path_kept : o.path ≡ s.path
  pub creates : o.flags.mkdir_p ≡ s.create_path
  pub xattr_kept : s.is_xattr ≡ true → o.flags.xattr_path ≡ true
  pub op_kept : str_eq s.path "" ≡ false → o.op ≡ s.op
  pub whole_kept : str_eq s.path "" ≡ true → needs_path o.op ≡ false

abbrev pub AllImplement : {V : Type 0} → List (MutateSpec V) → List Mutation → Type 0
AllImplement [] [] = Unit
AllImplement (s ∷ ss) (o ∷ os) = Implements s o × AllImplement ss os
AllImplement _ _ = ⊥

abbrev OpFor : String → Op → Op → Type 0
OpFor path op op' =
    (str_eq path "" ≡ false → op' ≡ op) × (str_eq path "" ≡ true → needs_path op' ≡ false)

module _ {V E : Type 0} (marshal : V → E ⊎ List ℕ) where
  path_op-OpFor : (path : String) (op : Op) → Accepted (OpFor path op) (path_op {E = E} path op)
  unfolding path_op blank_path_op needs_path
  path_op-OpFor path op = by_op (str_eq path "") op
    where
      by_op :
          (b : Bool) (op : Op)
          → Accepted
              (λ op'. (b ≡ false → op' ≡ op) × (b ≡ true → needs_path op' ≡ false))
              (if b then blank_path_op {E = E} op else inr op)
      by_op false op = (λ p. refl, λ p. cc)
      by_op true dict_add = tt
      by_op true dict_set = tt
      by_op true delete = (λ p. cc, λ p. refl)
      by_op true replace = (λ p. cc, λ p. refl)
      by_op true get = (λ p. refl, λ p. refl)
      by_op true _ = (λ p. refl, λ p. refl)

  mutation_of-Implements : (s : MutateSpec V) → Accepted (Implements s) (mutation_of marshal s)
  unfolding mutation_of flags_of
  mutation_of-Implements s = with_op (path_op s.path s.op) (path_op-OpFor s.path s.op)
    where
      with_text :
          (op : Op) (r : MutateError E ⊎ List ℕ)
          → OpFor s.path s.op op
          → Accepted (Implements s) (mutation_with marshal s op r)
      with_text op (inl e) h = tt
      with_text op (inr b) h = record {
        path_kept = refl;
        creates = refl;
        xattr_kept = λ p. ground (arith, p);
        op_kept = h.0;
        whole_kept = h.1;
      }

      with_op :
          (r : MutateError E ⊎ Op)
          → Accepted (OpFor s.path s.op) r
          → Accepted (Implements s) (mutation_at marshal s r)
      with_op (inl e) h = tt
      with_op (inr op) h = with_text op (marshal_spec marshal op s.multi_value s.value) h

  pub mutations_of-AllImplement :
      (ss : List (MutateSpec V)) → Accepted (AllImplement ss) (mutations_of marshal ss)
  unfolding mutations_of
  mutations_of-AllImplement [] = tt
  mutations_of-AllImplement (s ∷ ss) =
      both (mutation_of marshal s) (mutations_of marshal ss) (mutation_of-Implements s)
        (mutations_of-AllImplement ss)
    where
      both :
          (r : MutateError E ⊎ Mutation) (rs : MutateError E ⊎ List Mutation)
          → Accepted (Implements s) r
          → Accepted (AllImplement ss) rs
          → Accepted (AllImplement (s ∷ ss)) (cons_mutation marshal r rs)
      both (inl e) rs h k = tt
      both (inr o) (inl e) h k = tt
      both (inr o) (inr os) h k = (h, k)

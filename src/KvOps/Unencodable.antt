-- ===== src/KvOps/Unencodable.antt =====
-- Mutations whose value cannot be encoded (SetValue in kvopmanager_core.go, kvprovider_core.go).
use gocb.Base.{◌≡◌, refl, ap, ◌∙◌, inl, inr, Option, none, some, Option-cases}
use gocb.KvOps.Promises.{inserts, mutate, replaces, set_dura_options-Counts, upserts}
use gocb.Transcoding.Defs.{Error, err}
use gocb.KvOps.Manager.{
  OpError, Parent, check_ready, encoding, new_manager, set_preserve_expiry, set_timeout, set_value,
  store_encoded,
}
use gocb.KvOps.Requests.{MutationOptions, value_manager}
use gocb.KvOps.Operations.{
  Setting, bad_options, insert, replace, returned, run_mutation, upsert, when_ready,
}

-- A manager whose value could not be encoded has an error, whatever options follow.
value_manager_error :
    (parent : Parent) (o : MutationOptions) (e : Error)
    → (f : OpError) × ((value_manager parent o (err e)).error ≡ some f)
unfolding value_manager set_timeout set_value store_encoded new_manager
value_manager_error parent o e = elim (Option-cases (value_manager parent o (err e)).error) [
  | inl h ↦
      absurd (clash (set_dura_options-Counts o.persist_to o.replicate_to o.durability_level _ h).2)
  | inr h ↦ h
]
  where
    clash : ◌≡◌ {A = Option OpError} (some (encoding e)) none → ⊥
    clash h = cc

-- An insert, an upsert or a replacement whose value cannot be encoded returns an error of its options,
-- and nothing that depends on what a server would answer, so that no request is sent.
pub mutate_unencodable :
    {E : Type 0} (parent : Parent) (o : MutationOptions) (e : Error)
    → (f : OpError) × ((x : Setting E)
        → x.parent ≡ parent
        → (mutate x (inserts (err e)) o ≡ returned none (some (bad_options f)))
          × (mutate x (upserts (err e)) o ≡ returned none (some (bad_options f)))
          × (mutate x (replaces (err e)) o ≡ returned none (some (bad_options f))))
unfolding mutate insert upsert replace run_mutation when_ready check_ready set_preserve_expiry
mutate_unencodable parent o e =
    let (f, h) = value_manager_error parent o e in
    (
      f,
      λ x p.
          let k = ap (λ q. (value_manager q o (err e)).error) p ∙ h in
          (
            rw (k, run_mutation, when_ready, check_ready) refl,
            rw (k, run_mutation, when_ready, check_ready) refl,
            rw (k, run_mutation, when_ready, check_ready) refl,
          ),
    )

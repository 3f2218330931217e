-- ===== src/Subdoc/Examples.antt =====
-- Concrete subdocument operations (kvprovider_coresubdoc.go, results.go).
use gocb.Base.{
  ℕ, ◌*◌, ◌/◌, ◌^◌, ◌≤◌, ◌<◌, ◌≡◌, refl, ◌⊎◌, inl, inr, Bool, true, false, ◌&&◌, Option, none, some,
  List, [], ◌∷◌, arith, ◌==◌, if◌then◌else◌, length,
}
use gocb.KvOps.Level.{is_above_zero, majority, to_memd}
use gocb.KvOps.Manager.{
  Parent, check_ready, durability_timeout, get_deadline, get_timeout, new_manager, set_deadline,
  set_dura_options, set_preserve_expiry, set_timeout, store_level,
}
use gocb.KvOps.Expiry.{duration_to_expiry}
use gocb.Subdoc.Specs.{LookupSpec, MutateSpec, array_push_last, exists, get, given}
use gocb.Subdoc.Lookup.{Answer, contents_of, exists_at, found, path_not_found}
use gocb.Subdoc.Found.{exists_at-found_at, found_at}
use gocb.Subdoc.Mutate.{
  MutateOptions, MutateRequest, all_but_last, doc_flags, flags_of, internal_mutate_in,
  marshal_multi_array, marshal_spec, mutate_in, mutate_manager, mutate_ready, mutation_of,
  mutations_of, path_op, request_of, strip_brackets, upsert_semantics,
}
use gocb.Subdoc.Accepted.{IsValidRequest, mutate_in-IsValidRequest}
use gocb.Subdoc.Writable.{all_writable, is_allowed, is_inr, is_none, mutate_in-is_writable}

-- Reads the two texts by their length.
abbrev by_length : List ℕ → Option Bool
by_length xs = if length xs == 4 then some true else some false

abbrev two_lookups : List LookupSpec
two_lookups =
    record { op = exists; path = "a"; is_xattr = false }
    ∷ record { op = get; path = "b"; is_xattr = false }
    ∷ []

abbrev two_answers : List (Answer ℕ)
two_answers = path_not_found 3 ∷ found (b'7' ∷ []) ∷ []

exists_at-found_at_example :
    exists_at by_length 0 (contents_of two_lookups two_answers) ≡ found_at 0 two_answers
exists_at-found_at_example = exists_at-found_at by_length refl refl 0 two_lookups two_answers refl

-- The bytes that stand for a value, or an error.
abbrev a_marshal : Option (List ℕ) → ℕ ⊎ List ℕ
a_marshal none = inl 1
a_marshal (some b) = inr b

abbrev a_parent : Parent
a_parent = record {
  kv_timeout = 2_500_000_000;
  kv_durable_timeout = 10_000_000_000;
  use_mutation_tokens = true;
}

abbrev a_spec : MutateSpec (Option (List ℕ))
a_spec = record {
  op = array_push_last;
  create_path = true;
  is_xattr = false;
  path = "tags";
  value = given (some (b'[' ∷ b'1' ∷ b',' ∷ b'2' ∷ b']' ∷ []));
  multi_value = true;
}

abbrev some_options : MutateOptions
some_options = record {
  timeout = 2_000_000_000;
  expiry = 0;
  cas = 5;
  persist_to = 0;
  replicate_to = 0;
  durability_level = majority;
  store_semantic = upsert_semantics;
  preserve_expiry = true;
  doc_flags_given = record { mk_doc = false; add_doc_flag = false; others = 0 };
}

abbrev nine_tenths : ℕ → ℕ
nine_tenths t = 9 * t / 10

nine_tenths-le : (t : ℕ) → t < 2 ^ 63 → nine_tenths t ≤ t
nine_tenths-le t lt = omega arith

abbrev a_request : MutateRequest
a_request = record {
  flags = record { mk_doc = true; add_doc_flag = false; others = 0 };
  cas = 5;
  ops =
      record {
        op = array_push_last;
        flags = record { mkdir_p = true; xattr_path = false; expand_macros = false };
        path = "tags";
        value = b'1' ∷ b',' ∷ b'2' ∷ [];
      }
      ∷ [];
  expiry = 0;
  durability_level = 1;
  durability_timeout_of = 1_800_000_000;
  deadline = 2_000_000_009;
  preserve_expiry = true;
}

a_request-made :
    mutate_in 9 nine_tenths a_marshal a_parent (a_spec ∷ []) some_options ≡ inr a_request
unfolding mutate_in mutate_ready internal_mutate_in mutate_manager new_manager set_timeout
    set_preserve_expiry set_dura_options store_level to_memd is_above_zero check_ready get_timeout
    doc_flags mutations_of mutation_of path_op marshal_spec marshal_multi_array strip_brackets
    all_but_last flags_of request_of duration_to_expiry durability_timeout get_deadline set_deadline
a_request-made = refl

mutate_in-IsValidRequest_example : IsValidRequest (Option (List ℕ)) 9 (a_spec ∷ []) a_request
mutate_in-IsValidRequest_example =
    mutate_in-IsValidRequest 9 nine_tenths nine_tenths-le a_marshal a_parent (a_spec ∷ [])
      some_options a_request (omega arith, omega arith) (omega arith) refl refl (omega arith)
      a_request-made

mutate_in-is_writable_example :
    is_inr (mutate_in 9 nine_tenths a_marshal a_parent (a_spec ∷ []) some_options) ≡ (
      is_none (check_ready (mutate_manager a_parent some_options))
      && is_allowed upsert_semantics 0 (mutate_manager a_parent some_options).preserve_ttl
      && all_writable a_marshal (a_spec ∷ []))
mutate_in-is_writable_example =
    mutate_in-is_writable a_marshal 9 nine_tenths a_parent (a_spec ∷ []) some_options

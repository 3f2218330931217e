-- ===== src/Retry/Timeouts.antt =====
-- Which statuses are timeouts (error_ps.go).
use gocb.Base.{
  String, ◌≡◌, refl, ◌↔◌, Bool, true, false, not, Option, none, some, arith, if◌then◌else◌,
}
use gocb.Retry.Errors.{
  Code, canceled, internal, invalid_code, deadline_exceeded, unauthenticated, permission_denied,
  unimplemented, unavailable, not_found, already_exists, other_code, Detail, precondition, resource,
  reason, other_detail, Status, Error, unambiguous_timeout, ambiguous_timeout, precondition_error,
  not_found_error, exists_error, resource_error, detail_error, code_error, or_else, map_status,
  is_timeout,
}

-- An error that is not there, or is no timeout.
abbrev untimely : Option Error → Bool
untimely none = true
untimely (some e) = not (is_timeout e)

abbrev Untimely : Option Error → Type 0
Untimely o = untimely o ≡ true

precondition_error-Untimely : (s : String) → Untimely (precondition_error s)
unfolding precondition_error
precondition_error-Untimely s = ground arith

not_found_error-Untimely : (s : String) → Untimely (not_found_error s)
unfolding not_found_error
not_found_error-Untimely s = ground arith

exists_error-Untimely : (s : String) → Untimely (exists_error s)
unfolding exists_error
exists_error-Untimely s = ground arith

detail_error-Untimely : (c : Code) (d : Option Detail) → Untimely (detail_error c d)
unfolding detail_error resource_error
detail_error-Untimely c none = refl
detail_error-Untimely c (some (precondition none)) = refl
detail_error-Untimely c (some (precondition (some s))) = precondition_error-Untimely s
detail_error-Untimely not_found (some (resource s)) = not_found_error-Untimely s
detail_error-Untimely already_exists (some (resource s)) = exists_error-Untimely s
detail_error-Untimely _ (some (resource s)) = refl
detail_error-Untimely c (some (reason s)) = ground arith
detail_error-Untimely c (some other_detail) = refl

-- A status is mapped to a timeout exactly if its deadline was exceeded and its details name no other
-- error; the timeout is ambiguous unless the request only reads.
pub map_status-is_timeout :
    (st : Status) (read_only : Bool)
    → ((is_timeout (map_status st read_only) ≡ true)
        ↔ ((st.code ≡ deadline_exceeded) × (detail_error st.code st.detail ≡ none)))
      × (is_timeout (map_status st read_only) ≡ true
          → map_status st read_only
            ≡ (if read_only then unambiguous_timeout else ambiguous_timeout))
unfolding map_status
map_status-is_timeout st read_only =
    table st.code read_only (detail_error st.code st.detail)
      (detail_error-Untimely st.code st.detail)
  where
    clash : (e : Error) → not (is_timeout e) ≡ true → is_timeout e ≡ true → ⊥
    clash e h p = ground arith

    table :
        (c : Code) (b : Bool) (o : Option Error)
        → Untimely o
        → ((is_timeout (or_else (code_error b c) o) ≡ true)
            ↔ ((c ≡ deadline_exceeded) × (o ≡ none)))
          × (is_timeout (or_else (code_error b c) o) ≡ true
              → or_else (code_error b c) o ≡ (if b then unambiguous_timeout else ambiguous_timeout))
    table c b (some e) h =
        (((λ p. absurd (clash e h p)), (λ (p, q). cc)), (λ p. absurd (clash e h p)))
    table deadline_exceeded true none h =
        unfold code_error in (((λ p. (refl, refl)), (λ p. refl)), (λ p. refl))
    table deadline_exceeded false none h =
        unfold code_error in (((λ p. (refl, refl)), (λ p. refl)), (λ p. refl))
    table canceled b none h = unfold code_error in (((λ p. absurd cc), (λ (p, q). cc)), (λ p. cc))
    table internal b none h = unfold code_error in (((λ p. absurd cc), (λ (p, q). cc)), (λ p. cc))
    table invalid_code b none h =
        unfold code_error in (((λ p. absurd cc), (λ (p, q). cc)), (λ p. cc))
    table unauthenticated b none h =
        unfold code_error in (((λ p. absurd cc), (λ (p, q). cc)), (λ p. cc))
    table permission_denied b none h =
        unfold code_error in (((λ p. absurd cc), (λ (p, q). cc)), (λ p. cc))
    table unimplemented b none h =
        unfold code_error in (((λ p. absurd cc), (λ (p, q). cc)), (λ p. cc))
    table unavailable b none h =
        unfold code_error in (((λ p. absurd cc), (λ (p, q). cc)), (λ p. cc))
    table not_found b none h = unfold code_error in (((λ p. absurd cc), (λ (p, q). cc)), (λ p. cc))
    table already_exists b none h =
        unfold code_error in (((λ p. absurd cc), (λ (p, q). cc)), (λ p. cc))
    table other_code b none h = unfold code_error in (((λ p. absurd cc), (λ (p, q). cc)), (λ p. cc))

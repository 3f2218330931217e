-- ===== src/Threshold/Lifetime.antt =====
-- The references that clusters hold to a tracer, and the routine that logs while there are any
-- (AddRef and DecRef in thresholdlogtracer.go).
use gocb.Base.{
  ℕ, ◌+◌, ◌-◌, ◌^◌, ◌<◌, ◌≡◌, inl, inr, true, false, not, Option, none, some, List, [], ◌∷◌, arith,
  ltb, ◌==◌, if◌then◌else◌, Bool-cases,
}
use gocb.Threshold.Tracer.{Tracer, add_ref, dec_ref}

pub data RefCall : Type 0 where
  add drop_ref : RefCall

unfoldable pub apply : Tracer → List RefCall → Tracer
apply t [] = t
apply t (add ∷ es) = apply (add_ref t) es
apply t (drop_ref ∷ es) = apply (dec_ref t) es

-- The references held after the calls; `none` if one is dropped that nobody holds, or more are held
-- than an int32 counts.
unfoldable pub held : ℕ → List RefCall → Option ℕ
held n [] = some n
held n (add ∷ es) = if ltb (n + 1) (2 ^ 31) then held (n + 1) es else none
held n (drop_ref ∷ es) = if n == 0 then none else held (n - 1) es

-- If a tracer's routine runs exactly while its references are not 0, then calls that drop no
-- reference too many, and hold fewer than 2 ^ 31, leave it counting those that are held, and its
-- routine runs exactly while there is one.
pub apply-held :
    (t : Tracer) (es : List RefCall) (n : ℕ)
    → t.ref_count < 2 ^ 31
    → t.logging ≡ not (t.ref_count == 0)
    → held t.ref_count es ≡ some n
    → ((apply t es).ref_count ≡ n) × ((apply t es).logging ≡ not (n == 0))
unfolding apply held
apply-held t [] n b l h = ground arith
apply-held t (add ∷ es) n b l h = elim (Bool-cases (ltb (t.ref_count + 1) (2 ^ 31))) [
  | inl e ↦ apply-held (add_ref t) es n (grown e).0 (grown e).1 (rw ((grown e).2) (rw e at h))
  | inr e ↦ cc (rw e at h)
]
  where
    grown :
        ltb (t.ref_count + 1) (2 ^ 31) ≡ true
        → ((add_ref t).ref_count < 2 ^ 31)
          × ((add_ref t).logging ≡ not ((add_ref t).ref_count == 0))
          × ((add_ref t).ref_count ≡ t.ref_count + 1)
    grown e = unfold add_ref in (ground arith, ground arith, ground arith)
apply-held t (drop_ref ∷ es) n b l h = elim (Bool-cases (t.ref_count == 0)) [
  | inl e ↦ cc (rw e at h)
  | inr e ↦ apply-held (dec_ref t) es n (fewer e).0 (fewer e).1 (rw ((fewer e).2) (rw e at h))
]
  where
    fewer :
        (t.ref_count == 0) ≡ false
        → ((dec_ref t).ref_count < 2 ^ 31)
          × ((dec_ref t).logging ≡ not ((dec_ref t).ref_count == 0))
          × ((dec_ref t).ref_count ≡ t.ref_count - 1)
    fewer e = unfold dec_ref in (ground arith, ground arith, ground arith)

-- ===== src/Retry/Records.antt =====
-- The reasons and the attempts that a request has recorded (retry.go).
use gocb.Base.{
  ◌+◌, ◌^◌, ◌≤◌, ◌<◌, ◌≡◌, refl, inl, inr, true, false, List, [], ◌∷◌, arith, ◌==◌, Bool-cases,
  length, snoc,
}
use gocb.Retry.Request.{Reason, Request, has_reason, record_retry}

-- No reason is recorded twice.
abbrev pub Distinct : List Reason → Type 0
Distinct [] = Unit
Distinct (r ∷ rs) = (has_reason r rs ≡ false) × Distinct rs

has_reason-snoc :
    (x y : Reason) (rs : List Reason)
    → has_reason x rs ≡ false
    → (y.id == x.id) ≡ false
    → has_reason x (snoc rs y) ≡ false
unfolding has_reason
has_reason-snoc x y [] h e = rw e refl
has_reason-snoc x y (r ∷ rs) h e = elim (Bool-cases (r.id == x.id)) [
  | inl p ↦ cc (rw p at h)
  | inr p ↦ rw (p, has_reason) (has_reason-snoc x y rs (rw p at h) e)
]

snoc-Distinct :
    (y : Reason) (rs : List Reason) → has_reason y rs ≡ false → Distinct rs → Distinct (snoc rs y)
unfolding has_reason
snoc-Distinct y [] h d = (refl, tt)
snoc-Distinct y (r ∷ rs) h d = elim (Bool-cases (r.id == y.id)) [
  | inl p ↦ absurd (clash (rw p at h))
  | inr p ↦ (has_reason-snoc r y rs d.0 (flipped p), snoc-Distinct y rs (rw p at h) d.1)
]
  where
    clash : true ≡ false → ⊥
    clash q = cc

    flipped : (r.id == y.id) ≡ false → (y.id == r.id) ≡ false
    flipped p = ground arith

-- The state of the records: as many reasons as retries at most, and each once.
pub record Recorded (req : Request) : Type 0 where
  pub distinct : Distinct req.reasons
  pub fewer : length req.reasons ≤ req.attempts

length-snoc : (rs : List Reason) (y : Reason) → length (snoc rs y) ≡ length rs + 1
length-snoc [] y = refl
length-snoc (r ∷ rs) y = omega (arith, length-snoc rs y)

pub record_retry-Recorded :
    (why : Reason) (req : Request)
    → req.attempts + 1 < 2 ^ 32
    → Recorded req
    → Recorded (record_retry why req)
unfolding record_retry
record_retry-Recorded why req lt h = elim (Bool-cases (has_reason why req.reasons)) [
  | inl e ↦ record { distinct = rw e (h.distinct); fewer = rw e (omega (arith, h.fewer)) }
  | inr e ↦ record {
    distinct = rw e (snoc-Distinct why req.reasons e h.distinct);
    fewer = rw e (omega (arith, h.fewer, length-snoc req.reasons why));
  }
]

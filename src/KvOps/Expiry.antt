-- ===== src/KvOps/Expiry.antt =====
-- Expiry times (durationToExpiry in kvopmanager_core.go): 0 is never, less than 30 days is a number of
-- seconds from now, anything else a Unix timestamp. `now` is the time in nanoseconds since 1970.
use gocb.Base.{
  ℕ, ◌+◌, ◌*◌, ◌/◌, ◌%◌, ◌^◌, ◌≤◌, ◌<◌, ◌≡◌, refl, ◌⊎◌, inl, inr, Option, none, some, arith, ltb,
  ◌==◌, if◌then◌else◌, ltb→lt, Bool-cases,
}
use gocb.Go.Word.{lt_int64}

abbrev pub second : ℕ
second = 1_000_000_000

abbrev pub thirty_days : ℕ
thirty_days = 2_592_000

unfoldable pub duration_to_expiry : ℕ → ℕ → ℕ
duration_to_expiry now dura =
    if dura == 0
    then 0
    else if lt_int64 dura second
    then 1
    else if lt_int64 dura (thirty_days * second)
    then dura / second % 2 ^ 32
    else (now + dura) / second % 2 ^ 32

-- The time, in seconds, that the server makes of an expiry which it reads at the second `at`.
abbrev pub expires_at : ℕ → ℕ → Option ℕ
expires_at at e = if e == 0 then none else some (if ltb e (thirty_days + 1) then at + e else e)

-- For a duration that is not negative, a time later than 30 days after 1970 and an end before 2106,
-- a document expires exactly if the duration is not 0, and then less than two seconds too early and
-- never too late, but that a duration below one second counts as one second.
pub duration_to_expiry-expires_at :
    (now dura : ℕ)
    → dura < 2 ^ 63
    → (now + dura) / second < 2 ^ 32
    → thirty_days * second < now
    → ((dura ≡ 0) × (expires_at (now / second) (duration_to_expiry now dura) ≡ none))
      ⊎ ((t : ℕ) × (expires_at (now / second) (duration_to_expiry now dura) ≡ some t)
          × (now + dura < (t + 2) * second)
          × ((t * second ≤ now + dura) ⊎ ((dura < second) × (t ≡ now / second + 1))))
unfolding duration_to_expiry
duration_to_expiry-expires_at now dura small fits late = elim (Bool-cases (dura == 0)) [
  | inl e ↦ inl (ground arith)
  | inr e ↦ elim (Bool-cases (ltb dura second)) [
    | inl f ↦
        let lt = ltb→lt _ _ f in
        inr (now / second + 1, ground arith, omega (arith, lt), inr (lt, refl))
    | inr f ↦ elim (Bool-cases (ltb dura (thirty_days * second))) [
      | inl g ↦ inr (now / second + dura / second, ground arith, omega arith, inl (omega arith))
      | inr g ↦ inr ((now + dura) / second, ground arith, omega arith, inl (omega arith))
    ]
  ]
]

-- ===== src/RangeScan/Tally.antt =====
-- Sums over the workers of a scan, and the active scans of a server as such a sum.
use gocb.Base.{
  ℕ, zero, suc, ◌+◌, ◌≤◌, ◌<◌, ◌≡◌, refl, ap, ◌≢◌, inl, inr, arith, ◌==◌, if◌then◌else◌, ==_iff,
  Bool-cases,
}
use gocb.RangeScan.Balancer.{update}
use gocb.RangeScan.Workers.{Worker, idle, stopped, scanning}

pub update_same {ℓ} : {A : Type ℓ} (f : ℕ → A) (k : ℕ) (v : A) → update f k v k ≡ v
unfolding update
update_same f k v = ground (arith, (==_iff k k).1 refl)

pub update_other {ℓ} : {A : Type ℓ} (f : ℕ → A) (k i : ℕ) (v : A) → k ≢ i → update f k v i ≡ f i
unfolding update
update_other f k i v ne = ground arith

unfoldable pub tally : ℕ → (ℕ → ℕ) → ℕ
tally zero f = 0
tally (suc n) f = f n + tally n f

pub tally_ext : (n : ℕ) (f g : ℕ → ℕ) → ((i : ℕ) → i < n → f i ≡ g i) → tally n f ≡ tally n g
unfolding tally
tally_ext zero f g h = refl
tally_ext (suc n) f g h =
    omega (arith, h n (omega arith), tally_ext n f g (λ i lt. h i (omega arith)))

-- A change of one worker changes the sum by that worker's part.
pub tally-update :
    (n : ℕ) (g : Worker → ℕ) (f : ℕ → Worker) (i : ℕ) (w : Worker)
    → i < n
    → tally n (λ j. g (update f i w j)) + g (f i) ≡ tally n (λ j. g (f j)) + g w
unfolding tally
tally-update zero g f i w lt = elim lt [ ]
tally-update (suc n) g f i w lt = elim (Bool-cases (i == n)) [
  | inl e ↦
      let q : i ≡ n = (==_iff i n).0 e in
      let same : update f i w n ≡ w = rw q (update_same f n w) in
      let rest : tally n (λ j. g (update f i w j)) ≡ tally n (λ j. g (f j)) =
        tally_ext n _ _ λ j l. ap g (update_other f i j w (λ p. omega arith)) in
      omega (arith, ap g same, ap (λ k. g (f k)) q, rest)
  | inr e ↦
      let ne : i ≢ n = ground arith in
      omega (arith, ap g (update_other f i n w ne), tally-update n g f i w (omega arith))
]

pub tally-le : (n : ℕ) (f : ℕ → ℕ) → ((i : ℕ) → f i ≤ 1) → tally n f ≤ n
unfolding tally
tally-le zero f h = omega arith
tally-le (suc n) f h = omega (arith, h n, tally-le n f h)

pub tally_ge : (n : ℕ) (f : ℕ → ℕ) (i : ℕ) → i < n → f i ≤ tally n f
unfolding tally
tally_ge zero f i lt = elim lt [ ]
tally_ge (suc n) f i lt = elim (Bool-cases (i == n)) [
  | inl e ↦ omega (arith, ap f ((==_iff i n).0 e))
  | inr e ↦ let ne : i ≢ n = ground arith in omega (arith, tally_ge n f i (omega arith))
]

-- Does the worker scan a partition of server `s`?
abbrev pub busy_at : ℕ → Worker → ℕ
busy_at s idle = 0
busy_at s stopped = 0
busy_at s (scanning v) = if v.server == s then 1 else 0

pub busy_at-le : (s : ℕ) (w : Worker) → busy_at s w ≤ 1
busy_at-le s idle = omega arith
busy_at-le s stopped = omega arith
busy_at-le s (scanning v) = ground arith

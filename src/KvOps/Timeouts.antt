-- ===== src/KvOps/Timeouts.antt =====
-- The timeouts of durable operations (getTimeout, DurabilityTimeout and Deadline in
-- kvopmanager_core.go).
use gocb.Base.{ℕ, ◌+◌, ◌^◌, ◌≤◌, ◌<◌, ◌≡◌, refl, ◌⊎◌, inl, inr, none, arith, ◌==◌, Bool-cases}
use gocb.KvOps.Manager.{
  Parent, Manager, durability_timeout_floor, default_timeout, get_timeout, durability_timeout,
  set_deadline, get_deadline,
}

-- The configured timeouts are not negative.
abbrev pub IsConfigured : Parent → Type 0
IsConfigured p = (p.kv_timeout < 2 ^ 63) × (p.kv_durable_timeout < 2 ^ 63)

default_timeout-lt : (m : Manager) → IsConfigured m.parent → default_timeout m < 2 ^ 63
unfolding default_timeout
default_timeout-lt m h = ground arith

default_timeout-floor :
    (m : Manager)
    → IsConfigured m.parent
    → 0 < m.durability_level
    → durability_timeout_floor ≤ default_timeout m
unfolding default_timeout
default_timeout-floor m h d = ground arith

get_timeout-lt :
    (m : Manager) → IsConfigured m.parent → m.timeout < 2 ^ 64 → (get_timeout m).0 < 2 ^ 63
unfolding get_timeout
get_timeout-lt m h w = ground (arith, default_timeout-lt m h)

get_timeout-floor :
    (m : Manager)
    → IsConfigured m.parent
    → m.timeout < 2 ^ 64
    → 0 < m.durability_level
    → durability_timeout_floor ≤ (get_timeout m).0
unfolding get_timeout
get_timeout-floor m h w d = ground (arith, default_timeout-floor m h d)

-- If the configured timeouts are not negative, and 0.9 times a duration is no more than it, then a
-- durable operation gives the server at least the floor of 1.5 s, and at most the operation's own
-- timeout, whatever timeout was set; without durability it gives the server no timeout.
pub durability_timeout-le :
    (scale : ℕ → ℕ) (m : Manager)
    → ((t : ℕ) → t < 2 ^ 63 → scale t ≤ t)
    → IsConfigured m.parent
    → m.timeout < 2 ^ 64
    → ((m.durability_level ≡ 0) × (durability_timeout scale m ≡ 0))
      ⊎ ((durability_timeout_floor ≤ durability_timeout scale m)
          × (durability_timeout scale m ≤ (get_timeout m).0))
unfolding durability_timeout
durability_timeout-le scale m le h w = elim (Bool-cases (m.durability_level == 0)) [
  | inl e ↦ inl (ground arith)
  | inr e ↦
      let lt = get_timeout-lt m h w in
      let floor = get_timeout-floor m h w (ground arith) in
      let less = le (get_timeout m).0 lt in inr (ground arith)
]

get_timeout_again : (m : Manager) → (get_timeout (get_timeout m).1).0 ≡ (get_timeout m).0
unfolding get_timeout default_timeout
get_timeout_again m = ground arith

-- The first deadline that an operation asks for is its time with the timeout added; every later one, at
-- any time, is the same.
pub get_deadline_stable :
    (now later : ℕ) (m : Manager)
    → m.deadline ≡ none
    → ((get_deadline now m).0 ≡ now + (get_timeout m).0)
      × ((get_deadline later (get_deadline now m).1).0 ≡ (get_deadline now m).0)
unfolding get_deadline set_deadline
get_deadline_stable now later m e = rw (e, set_deadline) (refl, refl)

-- ===== src/Go/Decimal.antt =====
-- Decimal numbers as texts of bytes: `%d` of fmt for an unsigned number below 10 ^ 20, and strconv.Atoi,
-- whose result is an int64 pattern.
use gocb.Base.{
  ℕ, zero, suc, ◌+◌, ◌-◌, ◌*◌, ◌/◌, ◌%◌, ◌^◌, ◌≤◌, ◌<◌, ◌≡◌, sym, ap, ◌∙◌, inl, inr, Bool, true,
  false, ◌&&◌, Option, none, some, List, [], ◌∷◌, arith, ltb, leb, ◌==◌, if◌then◌else◌, ltb→lt,
  ltb→ge, Bool-cases, some-inj,
}

unfoldable pub digits_on : ℕ → ℕ → List ℕ → List ℕ
digits_on zero n acc = acc
digits_on (suc f) n acc = elim (ltb n 10) [
  | true ↦ (b'0' + n) ∷ acc
  | false ↦ digits_on f (n / 10) ((b'0' + n % 10) ∷ acc)
]

unfoldable pub sprint_d : ℕ → List ℕ
sprint_d n = digits_on 20 n []

abbrev is_digit : ℕ → Bool
is_digit c = leb b'0' c && leb c b'9'

unfoldable pub digits_value : ℕ → List ℕ → Option ℕ
digits_value acc [] = some acc
digits_value acc (c ∷ cs) = elim (is_digit c) [
  | true ↦ digits_value (acc * 10 + (c - b'0')) cs
  | false ↦ none
]

-- A number without its sign; there must be digits, and it must fit.
abbrev unsigned : List ℕ → Option ℕ
unsigned [] = none
unsigned (c ∷ cs) = digits_value 0 (c ∷ cs)

abbrev positive : Option ℕ → Option ℕ
positive none = none
positive (some n) = if ltb n (2 ^ 63) then some n else none

abbrev negative : Option ℕ → Option ℕ
negative none = none
negative (some n) = if leb n (2 ^ 63) then some ((2 ^ 64 - n) % 2 ^ 64) else none

unfoldable pub atoi : List ℕ → Option ℕ
atoi [] = none
atoi (c ∷ cs) =
    if c == b'-'
    then negative (unsigned cs)
    else if c == b'+'
    then positive (unsigned cs)
    else positive (unsigned (c ∷ cs))

-- 10 ^ f, with the factor in front.
abbrev power_of_ten : ℕ → ℕ
power_of_ten zero = 1
power_of_ten (suc f) = 10 * power_of_ten f

digits_value-digits_on :
    (f n : ℕ) (acc : List ℕ)
    → n < power_of_ten f
    → 0 < f
    → digits_value 0 (digits_on f n acc) ≡ digits_value n acc
unfolding digits_on digits_value
digits_value-digits_on zero n acc lt pos = absurd (omega (arith, pos))
digits_value-digits_on (suc f) n acc lt pos = elim (Bool-cases (ltb n 10)) [
  | inl e ↦ rw (e, digits_on) (last (ltb→lt n 10 e))
  | inr e ↦
      rw (e, digits_on)
        (digits_value-digits_on f (n / 10) ((b'0' + n % 10) ∷ acc) (omega arith)
            (more f lt (ltb→ge n 10 e))
          ∙ next)
]
  where
    last : n < 10 → digits_value 0 ((b'0' + n) ∷ acc) ≡ digits_value n acc
    last l = ground arith

    next : digits_value (n / 10) ((b'0' + n % 10) ∷ acc) ≡ digits_value n acc
    next = ground arith

    more : (k : ℕ) → n < power_of_ten (suc k) → 10 ≤ n → 0 < k
    more zero l g = absurd (omega (arith, l, g))
    more (suc k) l g = omega arith

pub sprint_d_value : (n : ℕ) → n < 2 ^ 64 → digits_value 0 (sprint_d n) ≡ some n
unfolding sprint_d digits_value
sprint_d_value n lt = digits_value-digits_on 20 n [] (omega arith) (omega arith)

-- The first byte is a digit.
abbrev Starts : List ℕ → Type 0
Starts [] = ⊥
Starts (c ∷ cs) = is_digit c ≡ true

digits_on-Starts : (f n : ℕ) (acc : List ℕ) → Starts acc → Starts (digits_on f n acc)
unfolding digits_on
digits_on-Starts zero n acc h = h
digits_on-Starts (suc f) n acc h = elim (Bool-cases (ltb n 10)) [
  | inl e ↦ rw (e, digits_on) (ground arith)
  | inr e ↦ rw (e, digits_on) (digits_on-Starts f (n / 10) _ (ground arith))
]

atoi-Starts : (s : List ℕ) → Starts s → atoi s ≡ positive (digits_value 0 s)
unfolding atoi
atoi-Starts [] h = absurd h
atoi-Starts (c ∷ cs) h = ground (arith, h)

sprint_d-Starts : (n : ℕ) → Starts (sprint_d n)
unfolding sprint_d digits_on
sprint_d-Starts n = elim (Bool-cases (ltb n 10)) [
  | inl e ↦ rw (e, digits_on) (ground arith)
  | inr e ↦ rw (e, digits_on) (digits_on-Starts 19 (n / 10) _ (ground arith))
]

-- What is printed is read back, unless an int64 cannot hold it.
pub atoi-sprint_d :
    (n : ℕ) → n < 2 ^ 64 → atoi (sprint_d n) ≡ (if ltb n (2 ^ 63) then some n else none)
atoi-sprint_d n lt =
    atoi-Starts (sprint_d n) (sprint_d-Starts n) ∙ ap positive (sprint_d_value n lt)

pub sprint_d-inj : (m n : ℕ) → m < 2 ^ 64 → n < 2 ^ 64 → sprint_d m ≡ sprint_d n → m ≡ n
sprint_d-inj m n lm ln e =
    some-inj (sym (sprint_d_value m lm) ∙ ap (digits_value 0) e ∙ sprint_d_value n ln)

-- ===== src/RangeScan/Resume.antt =====
-- What the scan of a partition delivers when its stream is interrupted and created again
-- (scanPartition in rangescanopmanager.go).
use mathlib.Core.List.{append_assoc, append-nil}
use gocb.Base.{
  ℕ, suc, String, ◌≡◌, refl, sym, ap, subst, ◌∙◌, ◌≢◌, ◌⊎◌, inl, inr, true, false, Option, List, [],
  ◌∷◌, ◌++◌, ◌==◌, if◌then◌else◌, length,
}
use gocb.RangeScan.Partition.{
  RangeConfig, Continue, batch, cut, lost, continue_error, Create, create_error, created, StreamEnd,
  finished, resumes, pending, failed, Progress, last_of, deliver, continue_loop, resumed,
}

-- A stream over the remaining keys: batches come in order, and the last one says that it is.
abbrev pub Serves : List String → List Continue → Type 0
Serves rem [] = Unit
Serves rem (batch items complete ∷ cs) =
    (rest : List String) × (rem ≡ items ++ rest) × (complete ≡ true → rest ≡ []) × Serves rest cs
Serves rem (cut items ∷ cs) = ⊥
Serves rem (lost cancelled ∷ cs) = cancelled ≡ false
Serves rem (continue_error e ∷ cs) = Unit

-- The progress of a stream that has delivered `got` of the keys and has `rem` before it.
pub data Reads (p : Progress) (rem : List String) : Progress × StreamEnd → Type 0 where
  reads :
      (got rest : List String) (e : StreamEnd)
      → rem ≡ got ++ rest
      → (e ≡ finished → rest ≡ [])
      → Reads p rem (deliver p got, e)

last_of-append :
    (k : String) (xs ys : List String) → last_of k (xs ++ ys) ≡ last_of (last_of k xs) ys
last_of-append k [] ys = refl
last_of-append k (x ∷ xs) ys = last_of-append x xs ys

deliver_twice :
    (p : Progress) (xs ys : List String) → deliver (deliver p xs) ys ≡ deliver p (xs ++ ys)
deliver_twice p xs ys = λ i. record {
  delivered = append_assoc p.delivered xs ys i;
  last_term = sym (last_of-append p.last_term xs ys) i;
}

Reads-more :
    (p : Progress) (items rem : List String) (r : Progress × StreamEnd)
    → Reads (deliver p items) rem r
    → Reads p (items ++ rem) r
Reads-more p items rem _ (reads got rest e split fin) =
    subst (λ q. Reads p (items ++ rem) (q, e)) (sym (deliver_twice p items got))
      (reads (items ++ got) rest e (ap (◌++◌ items) split ∙ sym (append_assoc items got rest)) fin)

pub deliver-nil : (p : Progress) → deliver p [] ≡ p
deliver-nil p = λ i. record { delivered = append-nil p.delivered i; last_term = p.last_term }

nothing_read :
    (p : Progress) (rem : List String) (e : StreamEnd) → e ≢ finished → Reads p rem (p, e)
nothing_read p rem e ne =
    subst (λ q. Reads p rem (q, e)) (deliver-nil p) (reads [] rem e refl (λ h. absurd (ne h)))

-- Reading a stream delivers the keys before it in order, and all of them if it is finished.
pub continue_loop-Reads :
    (p : Progress) (rem : List String) (cs : List Continue)
    → Serves rem cs
    → Reads p rem (continue_loop p cs)
unfolding continue_loop
continue_loop-Reads p rem [] h = nothing_read p rem pending (λ e. cc)
continue_loop-Reads p rem (batch items true ∷ cs) (rest, split, last_one, more) =
    reads items rest finished split (λ _. last_one refl)
continue_loop-Reads p rem (batch items false ∷ cs) (rest, split, last_one, more) =
    subst (λ r. Reads p r (continue_loop (deliver p items) cs)) (sym split)
      (Reads-more p items rest _ (continue_loop-Reads (deliver p items) rest cs more))
continue_loop-Reads p rem (cut items ∷ cs) h = absurd h
continue_loop-Reads p rem (lost true ∷ cs) h = absurd (clash h)
  where
    clash : true ≡ false → ⊥
    clash e = cc
continue_loop-Reads p rem (lost false ∷ cs) h = nothing_read p rem resumes (λ e. cc)
continue_loop-Reads p rem (continue_error e ∷ cs) h = nothing_read p rem (failed e) (λ q. cc)

-- A list is empty or has a last element.
pub last_cases :
    (xs : List String)
    → (xs ≡ [])
      ⊎ ((ys : List String) × (k : String) × (xs ≡ ys ++ k ∷ [])
          × ((l : String) → last_of l xs ≡ k))
last_cases [] = inl refl
last_cases (x ∷ xs) = elim (last_cases xs) [
  | inl e ↦ inr ([], x, ap (◌∷◌ x) e, λ l. ap (last_of x) e)
  | inr (ys, k, e, h) ↦ inr (x ∷ ys, k, ap (◌∷◌ x) e, λ l. h x)
]

-- The scan was not at an end, had delivered keys from this stream, and so asks for the last one again.
abbrev pub repeats_last : Progress → Progress → StreamEnd → ℕ → ℕ
repeats_last p q resumes n = if length q.delivered == length p.delivered then n else suc n
repeats_last p q _ n = 0

-- How often the scan creates its stream again after one that delivered something.
unfoldable pub repeats : Option RangeConfig → Progress → List Create → ℕ
repeats opts p [] = 0
repeats opts p (create_error e ∷ rest) = 0
repeats opts p (created cs ∷ rest) =
    let q = (continue_loop p cs).0 in
    let n = repeats (resumed opts q.last_term) q rest in repeats_last p q (continue_loop p cs).1 n

-- ===== src/RangeScan/Covers.antt =====
-- A partition's scan against the keys that the server holds (scanPartition in rangescanopmanager.go).
use mathlib.Core.List.{Memᴰ, append_assoc, append-nil}
use mathlib.Core.List.Memᴰ
use gocb.Base.{
  ℕ, suc, ◌+◌, String, ◌≡◌, refl, sym, ap, subst, ◌∙◌, ◌⊎◌, inl, inr, false, some, List, [], ◌∷◌,
  ◌++◌, arith, str_eq, ◌==◌, if◌then◌else◌, length, length-append,
}
use gocb.RangeScan.Partition.{
  RangeConfig, Create, create_error, created, StreamEnd, finished, resumes, pending, failed, ok,
  Progress, last_of, deliver, continue_loop, resume, after_stream, scan_partition,
}
use gocb.RangeScan.Resume.{
  Serves, Reads, reads, deliver-nil, continue_loop-Reads, last_cases, repeats_last, repeats,
}

-- The server's side of range scans, which is not part of this program: the keys that a stream with a
-- given range goes through, in their order. A stream that starts at a key of another goes through the
-- rest of it, that key included; no key is empty.
pub record Server : Type 0 where
  pub keys : RangeConfig → List String
  pub keys_from :
      (c : RangeConfig) (pre : List String) (k : String) (post : List String)
      → keys c ≡ pre ++ k ∷ post
      → keys (record c { start_term = k }) ≡ k ∷ post
  pub nonempty :
      (c : RangeConfig) (pre : List String) (k : String) (post : List String)
      → keys c ≡ pre ++ k ∷ post
      → str_eq k "" ≡ false

abbrev pub none_yet : Progress
none_yet = record { delivered = []; last_term = "" }

module _ (server : Server) where
  open server use {keys, keys_from, nonempty}

  -- Each stream is one of the server's, and is not cut by a cancellation of the scan.
  abbrev pub Obeys : RangeConfig → Progress → List Create → Type 0
  Obeys c p [] = Unit
  Obeys c p (create_error e ∷ rest) = Unit
  Obeys c p (created cs ∷ rest) =
      Serves (keys c) cs
      × Obeys (resume c (continue_loop p cs).0.last_term) (continue_loop p cs).0 rest

  -- Nothing was seen yet, or the stream begins with the last key seen.
  abbrev Aligned : RangeConfig → Progress → Type 0
  Aligned c p = (p.last_term ≡ "") ⊎ ((post : List String) × (keys c ≡ p.last_term ∷ post))

  abbrev Covered : RangeConfig → Progress → ℕ → Progress → Type 0
  Covered c p n q =
      ((k : String) → Memᴰ k p.delivered ⊎ Memᴰ k (keys c) → Memᴰ k q.delivered)
      × (length q.delivered ≡ length p.delivered + length (keys c) + n)

  resume-empty : (c : RangeConfig) (k : String) → k ≡ "" → resume c k ≡ c
  unfolding resume
  resume-empty c k e = rw e refl

  resume-key :
      (c : RangeConfig) (k : String)
      → str_eq k "" ≡ false
      → resume c k ≡ record c { start_term = k }
  unfolding resume
  resume-key c k e = rw e refl

  -- A stream that delivered nothing is created again over the same keys.
  resume-same :
      (c : RangeConfig) (p : Progress) → Aligned c p → keys (resume c p.last_term) ≡ keys c
  resume-same c p (inl e) = ap keys (resume-empty c p.last_term e)
  resume-same c p (inr (post, e)) =
      ap keys (resume-key c p.last_term (nonempty c [] p.last_term post e))
      ∙ keys_from c [] p.last_term post e
      ∙ sym e

  -- One that delivered keys up to `k` is created again from `k`.
  resume-last :
      (c : RangeConfig) (ys : List String) (k : String) (rest : List String)
      → keys c ≡ (ys ++ k ∷ []) ++ rest
      → keys (resume c k) ≡ k ∷ rest
  resume-last c ys k rest e =
      let e' : keys c ≡ ys ++ k ∷ rest = e ∙ append_assoc ys (k ∷ []) rest in
      ap keys (resume-key c k (nonempty c ys k rest e')) ∙ keys_from c ys k rest e'

  finished-Covered :
      (c : RangeConfig) (p : Progress) (got rest : List String)
      → keys c ≡ got ++ rest
      → rest ≡ []
      → Covered c p 0 (deliver p got)
  finished-Covered c p got rest split none_left =
      let all : keys c ≡ got = split ∙ ap (◌++◌ got) none_left ∙ append-nil got in
      (λ k. member all k, omega (arith, length-append p.delivered got, ap length all))
    where
      member :
          keys c ≡ got
          → (k : String) → Memᴰ k p.delivered ⊎ Memᴰ k (keys c)
          → Memᴰ k (p.delivered ++ got)
      member all k (inl m) = Memᴰ.append_left got m
      member all k (inr m) = Memᴰ.append_right p.delivered (subst (Memᴰ k) all m)

  abbrev count_repeat : Progress → Progress → ℕ → ℕ
  count_repeat p q n = if length q.delivered == length p.delivered then n else suc n

  abbrev Resumes : RangeConfig → Progress → Progress → Type 0
  Resumes c p q =
      Aligned (resume c q.last_term) q
      × ((r : Progress) (n : ℕ)
          → Covered (resume c q.last_term) q n r
          → Covered c p (count_repeat p q n) r)

  Resumes-nothing : (c : RangeConfig) (p : Progress) → Aligned c p → Resumes c p p
  Resumes-nothing c p al =
      (aligned al, λ r n h. (λ k m. h.0 k (moved k m), ground (arith, h.1, ap length same)))
    where
      same : keys (resume c p.last_term) ≡ keys c
      same = resume-same c p al

      aligned : Aligned c p → Aligned (resume c p.last_term) p
      aligned (inl e) = inl e
      aligned (inr (post, e)) = inr (post, same ∙ e)

      moved :
          (k : String)
          → Memᴰ k p.delivered ⊎ Memᴰ k (keys c)
          → Memᴰ k p.delivered ⊎ Memᴰ k (keys (resume c p.last_term))
      moved k (inl m) = inl m
      moved k (inr m) = inr (subst (Memᴰ k) (sym same) m)

  Resumes-some :
      (c : RangeConfig) (p : Progress) (ys : List String) (k : String) (rest : List String)
      → keys c ≡ (ys ++ k ∷ []) ++ rest
      → last_of p.last_term (ys ++ k ∷ []) ≡ k
      → Resumes c p (deliver p (ys ++ k ∷ []))
  Resumes-some c p ys k rest split last = (
    inr (rest, again ∙ ap (λ z. z ∷ rest) (sym last)),
    λ r n h. (λ j m. h.0 j (moved j m), counted r n h.1),
  )
    where
      got : List String
      got = ys ++ k ∷ []

      again : keys (resume c (last_of p.last_term got)) ≡ k ∷ rest
      again = ap (λ z. keys (resume c z)) last ∙ resume-last c ys k rest split

      moved :
          (j : String)
          → Memᴰ j p.delivered ⊎ Memᴰ j (keys c)
          → Memᴰ j (p.delivered ++ got) ⊎ Memᴰ j (keys (resume c (last_of p.last_term got)))
      moved j (inl m) = inl (Memᴰ.append_left got m)
      moved j (inr m) = elim (Memᴰ.append_cases got (subst (Memᴰ j) split m)) [
        | inl m' ↦ inl (Memᴰ.append_right p.delivered m')
        | inr m' ↦ inr (subst (Memᴰ j) (sym again) (Memᴰ.tail m'))
      ]

      counted :
          (r : Progress) (n : ℕ)
          → length r.delivered
            ≡ length (p.delivered ++ got) + length (keys (resume c (last_of p.last_term got))) + n
          → length r.delivered
            ≡ length p.delivered + length (keys c) + count_repeat p (deliver p got) n
      counted r n h = ground (
        arith,
        h,
        ap length again,
        ap length split,
        length-append p.delivered got,
        length-append got rest,
        length-append ys (k ∷ []),
      )

  round-Resumes :
      (c : RangeConfig) (p : Progress) (got rest : List String)
      → Aligned c p
      → keys c ≡ got ++ rest
      → Resumes c p (deliver p got)
  round-Resumes c p got rest al split = elim (last_cases got) [
    | inl e ↦
        subst (λ g. Resumes c p (deliver p g)) (sym e)
          (subst (Resumes c p) (sym (deliver-nil p)) (Resumes-nothing c p al))
    | inr (ys, k, e, h) ↦
        subst (λ g. Resumes c p (deliver p g)) (sym e)
          (Resumes-some c p ys k rest (split ∙ ap (λ g. g ++ rest) e)
            (ap (last_of p.last_term) (sym e) ∙ h p.last_term))
  ]

  covers :
      (c : RangeConfig) (p : Progress) (as' : List Create)
      → Aligned c p
      → Obeys c p as'
      → (scan_partition (some c) p as').1 ≡ ok
      → Covered c p (repeats (some c) p as') (scan_partition (some c) p as').0
  unfolding scan_partition repeats
  covers c p [] al ob e = cc
  covers c p (create_error x ∷ rest) al ob e = cc
  covers c p (created cs ∷ rest) al ob e =
      stream (continue_loop p cs) (continue_loop-Reads p (keys c) cs ob.0)
        (λ al'.
          covers (resume c (continue_loop p cs).0.last_term) (continue_loop p cs).0 rest al' ob.1)
        e
    where
      stream :
          (r : Progress × StreamEnd)
          → Reads p (keys c) r
          → (Aligned (resume c r.0.last_term) r.0
              → (scan_partition (some (resume c r.0.last_term)) r.0 rest).1 ≡ ok
              → Covered
                  (resume c r.0.last_term)
                  r.0
                  (repeats (some (resume c r.0.last_term)) r.0 rest)
                  (scan_partition (some (resume c r.0.last_term)) r.0 rest).0)
          → (after_stream r.0 r.1 (scan_partition (some (resume c r.0.last_term)) r.0 rest)).1 ≡ ok
          → Covered c p
              (repeats_last p r.0 r.1 (repeats (some (resume c r.0.last_term)) r.0 rest))
              (after_stream r.0 r.1 (scan_partition (some (resume c r.0.last_term)) r.0 rest)).0
      stream _ (reads got rem finished split fin) next h =
          finished-Covered c p got rem split (fin refl)
      stream _ (reads got rem pending split fin) next h = cc h
      stream _ (reads got rem (failed x) split fin) next h = cc h
      stream _ (reads got rem resumes split fin) next h =
          let (al', back) = round-Resumes c p got rem al split in
          let q = deliver p got in
          let c' = resume c q.last_term in
          back (scan_partition (some c') q rest).0 (repeats (some c') q rest) (next al' h)

  -- Suppose that a server answers each stream with the keys of its range in order, that a stream
  -- which starts at a key of another goes through the rest of it, and that no key is empty. If the
  -- scan of a partition's range ends without error and without cancellation, then every key of the
  -- range was delivered, however often the partition moved; but each time the stream was created
  -- again after delivering something, the last key was delivered twice, so the number of items is
  -- that of the keys and of those times together.
  pub scan_partition-covers :
      (c : RangeConfig) (as' : List Create)
      → Obeys c none_yet as'
      → (scan_partition (some c) none_yet as').1 ≡ ok
      → ((k : String) → Memᴰ k (keys c) → Memᴰ k (scan_partition (some c) none_yet as').0.delivered)
        × (length (scan_partition (some c) none_yet as').0.delivered
            ≡ length (keys c) + repeats (some c) none_yet as')
  scan_partition-covers c as' ob e =
      let (all, count) = covers c _ as' (inl refl) ob e in
      (λ k m. all k (inr m), omega (arith, count))

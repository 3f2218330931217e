-- ===== src/Threshold/Totals.antt =====
-- What a request's span has added up when it ends, over all the spans below it (thresholdLogSpan.End
-- in thresholdlogtracer.go).
use gocb.Base.{ℕ, ◌+◌, ◌%◌, ◌^◌, ◌≡◌, refl, ◌∙◌, Bool, arith, str_eq, if◌then◌else◌}
use gocb.Threshold.Span.{Span, span_name_dispatch, span_name_encoding, finish, absorb}

-- A request: a span, how long it took, and its children in the order in which they end.
mutual
  pub data Request : Type 0 where
    request : (n : Span) (since : ℕ) → Children → Request

  pub data Children : Type 0 where
    nil : Children
    cons : Request → Children → Children

-- The span after its children have ended and then the span itself.
mutual
  pub ended : Request → Span
  ended (request n since cs) = finish since (with_children cs n)

  pub with_children : Children → Span → Span
  with_children nil p = p
  with_children (cons r cs) p = with_children cs (absorb (ended r) p)

abbrev pub counts_if : Bool → ℕ → ℕ
counts_if b d = if b then d else 0

abbrev pub own_dispatch : Span → ℕ → ℕ
own_dispatch n since =
    n.total_dispatch_duration + counts_if (str_eq n.op_name span_name_dispatch) since

abbrev pub own_encode : Span → ℕ → ℕ
own_encode n since = n.total_encode_duration + counts_if (str_eq n.op_name span_name_encoding) since

abbrev pub own_server : Span → ℕ → ℕ
own_server n since = n.total_server_duration + n.server_duration

-- The sum of a quantity over every span of a request.
mutual
  pub sum_request : (Span → ℕ → ℕ) → Request → ℕ
  sum_request own (request n since cs) = own n since + sum_children own cs

  pub sum_children : (Span → ℕ → ℕ) → Children → ℕ
  sum_children own nil = 0
  sum_children own (cons r cs) = sum_request own r + sum_children own cs

-- The three totals of a span, modulo 2 ^ 64.
pub record Adds (s : Span) (dispatch encode server : ℕ) : Type 0 where
  pub dispatch_total : s.total_dispatch_duration % 2 ^ 64 ≡ dispatch % 2 ^ 64
  pub encode_total : s.total_encode_duration % 2 ^ 64 ≡ encode % 2 ^ 64
  pub server_total : s.total_server_duration % 2 ^ 64 ≡ server % 2 ^ 64

record Keeps (s p : Span) : Type 0 where
  same_name : s.op_name ≡ p.op_name
  same_server : s.server_duration ≡ p.server_duration

absorb-Adds :
    (n p : Span) (a b c : ℕ)
    → Adds n a b c
    → Adds
        (absorb n p)
        (p.total_dispatch_duration + a)
        (p.total_encode_duration + b)
        (p.total_server_duration + c)
unfolding absorb
absorb-Adds n p a b c h = omega arith

absorb-Keeps : (n p : Span) → Keeps (absorb n p) p
unfolding absorb
absorb-Keeps n p = record { same_name = refl; same_server = refl }

finish-Adds :
    (since : ℕ) (m : Span)
    → Adds (finish since m) (own_dispatch m since) (own_encode m since) (own_server m since)
unfolding finish
finish-Adds since m = record {
  dispatch_total = ground arith;
  encode_total = ground arith;
  server_total = ground arith;
}

Adds-from :
    (s : Span) (a b c a' b' c' : ℕ)
    → Adds s a b c
    → a % 2 ^ 64 ≡ a' % 2 ^ 64
    → b % 2 ^ 64 ≡ b' % 2 ^ 64
    → c % 2 ^ 64 ≡ c' % 2 ^ 64
    → Adds s a' b' c'
Adds-from s a b c a' b' c' h p q r = record {
  dispatch_total = h.dispatch_total ∙ p;
  encode_total = h.encode_total ∙ q;
  server_total = h.server_total ∙ r;
}

Keeps-trans : (s t u : Span) → Keeps s t → Keeps t u → Keeps s u
Keeps-trans s t u h k = record {
  same_name = h.same_name ∙ k.same_name;
  same_server = h.same_server ∙ k.same_server;
}

with_children-Keeps : (cs : Children) (p : Span) → Keeps (with_children cs p) p
unfolding with_children
with_children-Keeps nil p = record { same_name = refl; same_server = refl }
with_children-Keeps (cons r cs) p =
    Keeps-trans _ (absorb (ended r) p) p (with_children-Keeps cs (absorb (ended r) p))
      (absorb-Keeps (ended r) p)

-- The sums of a request, in the form that the recursion needs.
mutual
  unfolding ended with_children sum_request sum_children

  ended-sums :
      (r : Request)
      → Adds
          (ended r)
          (sum_request own_dispatch r)
          (sum_request own_encode r)
          (sum_request own_server r)
  ended-sums (request n since cs) =
      let k = with_children-Keeps cs n in
      let h = with_children-sums cs n in
      let m = with_children cs n in
      Adds-from (finish since m) _ _ _ _ _ _ (finish-Adds since m)
        (rw (k.same_name) (omega (arith, h.dispatch_total)))
        (rw (k.same_name) (omega (arith, h.encode_total)))
        (omega (arith, h.server_total, k.same_server))

  with_children-sums :
      (cs : Children) (p : Span)
      → Adds
          (with_children cs p)
          (p.total_dispatch_duration + sum_children own_dispatch cs)
          (p.total_encode_duration + sum_children own_encode cs)
          (p.total_server_duration + sum_children own_server cs)
  with_children-sums nil p = omega arith
  with_children-sums (cons r cs) p =
      let h = absorb-Adds (ended r) p _ _ _ (ended-sums r) in
      let k = with_children-sums cs (absorb (ended r) p) in
      Adds-from (with_children cs (absorb (ended r) p)) _ _ _ _ _ _ k
        (omega (arith, h.dispatch_total)) (omega (arith, h.encode_total))
        (omega (arith, h.server_total))

-- When a request's span ends it carries, modulo 2 ^ 64, the sums over its own and all spans below
-- it: the time of those named for the dispatch to a server, the time of those named for an encoding,
-- and the server's time, each added to what the spans began with.
pub ended-Adds :
    (r : Request)
    → Adds
        (ended r)
        (sum_request own_dispatch r)
        (sum_request own_encode r)
        (sum_request own_server r)
ended-Adds r = ended-sums r

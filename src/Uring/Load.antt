-- ===== src/Uring/Load.antt =====
-- How the calls of the crate change what a ring holds: the entries queued, the requests in flight and
-- the completions posted, in all and for one user data.
use liburing_rs.Base.{
  ℕ, ◌+◌, ◌≡◌, refl, ap, List, [], ◌∷◌, map, arith, length, length-append, length-map, occurs,
  occurs-append, occurs-map, ◌==◌, if◌then◌else◌,
}
use liburing_rs.Base.Outcome.{StdResult, ok, err}
use liburing_rs.Sys.{Sys, IoUringCqe}
use liburing_rs.Sys.Documented.{Documented, key_of}
use liburing_rs.Sys.Progress.{held, IsQuiet, Posts-count, Posts-total}
use liburing_rs.Error.{Error}
use liburing_rs.Queue.Cqe as CqeOps
use liburing_rs.Queue.Cqe.{Cqe}
use liburing_rs.Queue.Fill.{Fills}
use liburing_rs.Queue.Delivery.{Keeps, IsGuard, drop_lem}
use liburing_rs.Uring.Laws.{Submits, refused, took}
use liburing_rs.Uring.Lone.{nil_of_length}

module _ (sys : Sys) (doc : Documented sys) where
  open sys use {Ring, Sqe}
  open doc use {sq, cq, inflight, user_data}

  abbrev pub load : Ring → ℕ
  load r = length (sq r) + length (inflight r) + length (cq r)

  pub Keeps-load : {r r' : Ring} → Keeps sys doc r r' → load r' ≡ load r
  Keeps-load keeps = omega (arith, Posts-total keeps.posts, ap length keeps.same)

  pub Keeps-held : {r r' : Ring} (k : ℕ) → Keeps sys doc r r' → held sys doc k r' ≡ held sys doc k r
  Keeps-held k keeps = omega (arith, Posts-count k keeps.posts, ap (occurs user_data k) keeps.same)

  pub same_load :
      {r r' : Ring} → sq r' ≡ sq r → cq r' ≡ cq r → inflight r' ≡ inflight r → load r' ≡ load r
  same_load queue done flight = rw (queue, done, flight) refl

  pub same_held :
      {r r' : Ring} (k : ℕ)
      → sq r' ≡ sq r
      → cq r' ≡ cq r
      → inflight r' ≡ inflight r
      → held sys doc k r' ≡ held sys doc k r
  same_held k queue done flight = rw (queue, done, flight) refl

  module _ {prepare : Sqe → Sqe} {r r' : Ring} {j : ℕ} {t : Sqe}
      (h : Fills sys doc prepare r r' j t) where
    pub filled_load : load r' ≡ load r + 1
    filled_load = omega (
      arith,
      ap length h.queue,
      length-append (sq r) (t ∷ []),
      ap length h.done,
      ap length h.flight,
    )

    pub filled_held : (k : ℕ) → held sys doc k r' ≡ held sys doc k r + (if j == k then 1 else 0)
    filled_held k = ground (
      arith,
      h.tag,
      ap (occurs user_data k) h.queue,
      occurs-append user_data k (sq r) (t ∷ []),
      ap (occurs key_of k) h.done,
      ap (occurs (λ x. x) k) h.flight,
    )

  pub submit_load :
      (r r' : Ring) (n : StdResult ℕ Error) → Submits sys doc r r' n → load r' ≡ load r
  submit_load r r' (err _) (refused e kept posts) = omega (arith, Posts-total posts, ap length kept)
  submit_load r r' (ok _) (took n taken split _ posts) = omega (
    arith,
    Posts-total posts,
    ap length split,
    length-append taken (sq r'),
    length-append (inflight r) (map user_data taken),
    length-map user_data taken,
  )

  pub submit_held :
      (k : ℕ) (r r' : Ring) (n : StdResult ℕ Error)
      → Submits sys doc r r' n
      → held sys doc k r' ≡ held sys doc k r
  submit_held k r r' (err _) (refused e kept posts) =
      omega (arith, Posts-count k posts, ap (occurs user_data k) kept)
  submit_held k r r' (ok _) (took n taken split _ posts) = omega (
    arith,
    Posts-count k posts,
    ap (occurs user_data k) split,
    occurs-append user_data k taken (sq r'),
    occurs-append (λ x. x) k (inflight r) (map user_data taken),
    occurs-map (λ x. x) user_data k taken,
  )

  module _ (r r' : Ring) (c : Cqe) (x : IoUringCqe) (rest : List IoUringCqe)
      (keeps : Keeps sys doc r r') (g : IsGuard sys doc r' c x rest) where
    pub read_load : load (CqeOps.drop sys r' c) + 1 ≡ load r
    read_load =
        let (drops, same) = drop_lem sys doc r' c x rest g in
        omega (arith, Keeps-load keeps, Posts-total drops, ap length same, ap length g.oldest)

    pub read_held :
        (k : ℕ)
        → held sys doc k (CqeOps.drop sys r' c) + (if CqeOps.user_data sys r' c == k then 1 else 0)
          ≡ held sys doc k r
    read_held k =
        let (drops, same) = drop_lem sys doc r' c x rest g in
        ground (
          arith,
          g.user_data,
          Keeps-held k keeps,
          Posts-count k drops,
          ap (occurs user_data k) same,
          ap (occurs key_of k) g.oldest,
        )

  -- A ring that holds nothing is quiet.
  pub load-IsQuiet : (r : Ring) → load r ≡ 0 → IsQuiet sys doc r
  load-IsQuiet r h = record {
    queue = nil_of_length (sq r) (omega arith);
    done = nil_of_length (cq r) (omega arith);
    flight = nil_of_length (inflight r) (omega arith);
  }

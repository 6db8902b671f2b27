-- ===== src/AsyncIo/Tokio/Held.antt =====
-- src/async_io/tokio_impl.rs: how many requests with one user data there are, before and behind a
-- poll, with however much fuel.
use liburing_rs.Base.{
  ℕ, zero, suc, ◌+◌, ◌≤◌, ◌≡◌, refl, ap, inl, inr, Option, none, some, some-inj, List, [], ◌∷◌, map,
  occurs, occurs-append, occurs-map, arith, Option-cases, Bool-cases, ◌==◌, if◌then◌else◌,
}
use liburing_rs.Base.Int.{ℤ}
use liburing_rs.Base.Outcome.{StdResult, ok, err}
use liburing_rs.Sys.{Sys}
use liburing_rs.Sys.Documented.{Documented, key_of}
use liburing_rs.Sys.Progress.{held, Posts-count}
use liburing_rs.Error.{Error}
use liburing_rs.Ops.Traits.{PrepareOp}
use liburing_rs.Queue.Cqe as CqeOps
use liburing_rs.Queue.Cqe.{Cqe}
use liburing_rs.Queue.Delivery.{Peeks, empty, found, peek_cqe-Peeks, drop_lem}
use liburing_rs.AsyncIo.Runtime.{Runtime, Readiness, readable, failed, not_ready}
use liburing_rs.AsyncIo.Tokio.Defs.{
  SubmitFuture, Inner, Checked, Polled, check, check_round, match_readiness, await_fd, finish,
  poll_completion, poll_started, poll_fields, poll, start,
}
use liburing_rs.AsyncIo.Tokio.Start.{Starts, full, stuck, sent, start-Starts}
use liburing_rs.AsyncIo.Tokio.Counter.{Tagged}

module _ (sys : Sys) (doc : Documented sys) (rt : Runtime) (j : ℕ) where
  open sys use {Ring}
  open rt use {Waker, AsyncFd}
  open doc use {sq, cq, inflight, user_data}

  -- The requests and completions of `j` in the shared state.
  abbrev pub holds : Inner sys rt → ℕ
  holds s = held sys doc j s.ring.ring

  -- The loop of `poll` makes none.
  check_round-holds :
      (again : Inner sys rt → List Waker → Option (Checked sys rt)) (k : ℕ) (s : Inner sys rt)
      (woken : List Waker) (o : Option Cqe) (r : Ring) {c : Checked sys rt}
      → ((s' : Inner sys rt) (woken' : List Waker) (c' : Checked sys rt)
          → again s' woken' ≡ some c'
          → holds c'.inner ≤ holds s')
      → Peeks sys doc s.ring.ring r o
      → check_round sys rt again k s woken o r ≡ some c
      → holds c.inner ≤ holds s
  unfolding check_round
  check_round-holds again k s woken none r h (empty keeps _) e = omega (
    arith,
    ap (λ c. holds c.inner) (some-inj e),
    Posts-count j keeps.posts,
    ap (occurs user_data j) keeps.same,
  )
  check_round-holds again k s woken (some g) r {c} h (found _ x rest keeps guard) e =
      elim (Bool-cases (CqeOps.user_data sys r g == k)) [
        | inl hit ↦
            omega (arith, fewer, ap (λ c. holds c.inner) (some-inj (rw (hit, check_round) at e)))
        | inr miss ↦ omega (arith, fewer, h _ _ _ (rw (miss, check_round) at e))
      ]
    where
      fewer : held sys doc j (CqeOps.drop sys r g) ≤ holds s
      fewer =
          let (drops, same) = drop_lem sys doc r g x rest guard in
          ground (
            arith,
            Posts-count j keeps.posts,
            Posts-count j drops,
            ap (occurs user_data j) keeps.same,
            ap (occurs user_data j) same,
            ap (occurs key_of j) guard.oldest,
          )

  check-holds :
      (fuel k : ℕ) (s : Inner sys rt) (woken : List Waker) (c : Checked sys rt)
      → check sys rt fuel k s woken ≡ some c
      → holds c.inner ≤ holds s
  unfolding check
  check-holds zero k s woken c e = cc
  check-holds (suc fuel) k s woken c e =
      check_round-holds (check sys rt fuel k) k s woken _ _ (check-holds fuel k)
        (peek_cqe-Peeks sys doc s.ring.ring) e

  readiness-ring :
      (k : ℕ) (w : Waker) (i : Inner sys rt) (rd : Readiness) (fd : AsyncFd)
      → (match_readiness sys rt k w i rd fd).1.ring ≡ i.ring
  unfolding match_readiness
  readiness-ring k w i readable fd = refl
  readiness-ring k w i not_ready fd = refl
  readiness-ring k w i (failed x) fd = refl

  finish-ring :
      (Op : Type 0) (k : ℕ) (w : Waker) (a : Option ℤ) (i : Inner sys rt) (woken : List Waker)
      → let p : Polled sys rt Op =
          finish sys rt k w (record { answer = a; inner = i; woken = woken }) in
        p.inner.ring ≡ i.ring
  unfolding finish await_fd
  finish-ring Op k w (some res) i woken = refl
  finish-ring Op k w none i woken = readiness-ring k w i _ _

  completion-holds :
      (Op : Type 0) (fuel k : ℕ) (w : Waker) (s : Inner sys rt) {p : Polled sys rt Op}
      → poll_completion sys rt fuel k w s ≡ some p
      → holds p.inner ≤ holds s
  unfolding poll_completion
  completion-holds Op fuel k w s {p} e = elim (Option-cases (check sys rt fuel k s [])) [
    | inl out ↦ let x : none ≡ some _ = (rw out at e) in cc
    | inr (c, q) ↦ omega (
      arith,
      check-holds fuel k s [] c q,
      ap (λ r. held sys doc j r.ring) (finish-ring Op k w c.answer c.inner c.woken),
      ap (λ p. holds p.inner) (some-inj (rw q at e)),
    )
  ]

  -- A submission makes one, if it is that of `j`.
  Starts-holds :
      (w : Waker) (s s' : Inner sys rt) (r : StdResult ℕ Error)
      → Starts sys doc rt w s s' r
      → holds s' ≤ holds s + (if s.next_user_data == j then 1 else 0)
  Starts-holds w s s' (err _) (full _ queue done flight _ _) = ground (
    arith,
    ap (occurs user_data j) queue,
    ap (occurs key_of j) done,
    ap (occurs (λ x. x) j) flight,
  )
  Starts-holds w s s' (err _) (stuck _ sqe tag queue posts _ _ _ _) = ground (
    arith,
    tag,
    ap (occurs user_data j) queue,
    occurs-append user_data j (sq s.ring.ring) (sqe ∷ []),
    Posts-count j posts,
  )
  Starts-holds w s s' (ok _) (sent sqe taken tag split posts _ _ _ _ _ _) = ground (
    arith,
    tag,
    ap (occurs user_data j) split,
    occurs-append user_data j (sq s.ring.ring) (sqe ∷ []),
    occurs-append user_data j taken (sq s'.ring.ring),
    occurs-append (λ x. x) j (inflight s.ring.ring) (map user_data taken),
    occurs-map (λ x. x) user_data j taken,
    Posts-count j posts,
  )

  started-holds :
      (Op : Type 0) (fuel : ℕ) (w : Waker) (own : ℕ) (r : StdResult ℕ Error) (s : Inner sys rt)
      {p : Polled sys rt Op}
      → poll_started sys rt fuel w own r s ≡ some p
      → holds p.inner ≤ holds s
  unfolding poll_started
  started-holds Op fuel w own (err x) s e = omega (arith, ap (λ p. holds p.inner) (some-inj e))
  started-holds Op fuel w own (ok k) s e = completion-holds Op fuel k w s e

  -- What a poll may add: the request of a future that has not been submitted.
  abbrev pub adds : {Op : Type 0} → Inner sys rt → Option Op → ℕ
  adds s none = 0
  adds s (some op) = if s.next_user_data == j then 1 else 0

  fields-holds :
      {Op : Type 0} ⦃o : PrepareOp sys Op⦄ (fuel : ℕ) (w : Waker) (s : Inner sys rt)
      (op : Option Op) (u : Option ℕ) {p : Polled sys rt Op}
      → Tagged s.next_user_data op u
      → poll_fields sys rt fuel w s op u ≡ some p
      → holds p.inner ≤ holds s + adds s op
  unfolding poll_fields
  fields-holds {Op} fuel w s (some op) none t e = omega (
    arith,
    Starts-holds w s (start sys rt op w s).1 (start sys rt op w s).0
        (start-Starts sys doc rt op w s),
    started-holds Op fuel w s.next_user_data (start sys rt op w s).0 (start sys rt op w s).1 e,
  )
  fields-holds fuel w s (some op) (some k) t e = absurd t
  fields-holds fuel w s none none t e = absurd t
  fields-holds {Op} fuel w s none (some k) t e = omega (arith, completion-holds Op fuel k w s e)

  pub poll-holds :
      {Op : Type 0} ⦃o : PrepareOp sys Op⦄ (fuel : ℕ) (w : Waker) (s : Inner sys rt)
      (f : SubmitFuture Op) {p : Polled sys rt Op}
      → Tagged s.next_user_data f.op f.user_data
      → poll sys rt fuel w s f ≡ some p
      → holds p.inner ≤ holds s + adds s f.op
  unfolding poll
  poll-holds fuel w s f t e = fields-holds fuel w s f.op f.user_data t e

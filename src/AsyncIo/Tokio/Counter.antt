-- ===== src/AsyncIo/Tokio/Counter.antt =====
-- src/async_io/tokio_impl.rs: what a poll does to the future's user data and to the
-- counter, with however much fuel.
use liburing_rs.Base.{
  ℕ, zero, suc, ◌+◌, ◌%◌, ◌^◌, ◌<◌, ◌≡◌, refl, sym, ap, subst, ◌≢◌, inl, inr, Option, none, some,
  some-inj, List, [], Option-cases, Bool-cases, ◌==◌,
}
use liburing_rs.Base.Int.{ℤ}
use liburing_rs.Base.Outcome.{StdResult, ok, err}
use liburing_rs.Sys.{Sys}
use liburing_rs.Sys.Documented.{Documented}
use liburing_rs.Error.{Error}
use liburing_rs.Ops.Traits.{PrepareOp}
use liburing_rs.Queue.Cqe as CqeOps
use liburing_rs.Queue.Cqe.{Cqe}
use liburing_rs.AsyncIo.Runtime.{Runtime, Readiness, readable, failed, not_ready}
use liburing_rs.AsyncIo.Tokio.Defs.{
  panicked, SubmitFuture, submitted, Inner, Checked, Polled, check, check_round, match_readiness,
  await_fd, finish, poll_completion, poll_started, poll_fields, poll, start,
}
use liburing_rs.AsyncIo.Tokio.Start.{Starts, full, stuck, sent, next_of, start-Starts}

-- A future that `submit_op` made, or that has been polled, with its user data below the counter.
abbrev pub Tagged : {Op : Type 0} → ℕ → Option Op → Option ℕ → Type 0
Tagged n (some op) none = Unit
Tagged n (some op) (some k) = ⊥
Tagged n none none = ⊥
Tagged n none (some k) = k < n

module _ (sys : Sys) (rt : Runtime) where
  open sys use {Ring}
  open rt use {Waker, AsyncFd}

  -- The loop of `poll` leaves the counter alone.
  check_round-next :
      (again : Inner sys rt → List Waker → Option (Checked sys rt)) (k : ℕ) (s : Inner sys rt)
      (woken : List Waker) (o : Option Cqe) (r : Ring) {c : Checked sys rt}
      → ((s' : Inner sys rt) (woken' : List Waker) (c' : Checked sys rt)
          → again s' woken' ≡ some c'
          → c'.inner.next_user_data ≡ s'.next_user_data)
      → check_round sys rt again k s woken o r ≡ some c
      → c.inner.next_user_data ≡ s.next_user_data
  unfolding check_round
  check_round-next again k s woken none r h e = ap (λ c. c.inner.next_user_data) (sym (some-inj e))
  check_round-next again k s woken (some g) r h e =
      elim (Bool-cases (CqeOps.user_data sys r g == k)) [
        | inl hit ↦ ap (λ c. c.inner.next_user_data) (sym (some-inj (rw (hit, check_round) at e)))
        | inr miss ↦ h _ _ _ (rw (miss, check_round) at e)
      ]

  check-next :
      (fuel k : ℕ) (s : Inner sys rt) (woken : List Waker) (c : Checked sys rt)
      → check sys rt fuel k s woken ≡ some c
      → c.inner.next_user_data ≡ s.next_user_data
  unfolding check
  check-next zero k s woken c e = cc
  check-next (suc fuel) k s woken c e =
      check_round-next (check sys rt fuel k) k s woken _ _ (check-next fuel k) e

  module _ {Op : Type 0} where
    -- A poll that ended as that of the future `k`, with the counter at `n`.
    pub record IsPollOf (k n : ℕ) (p : Polled sys rt Op) : Type 0 where
      pub no_panic : p.out ≢ panicked
      pub future : p.future ≡ submitted k
      pub counter : p.inner.next_user_data ≡ n

    readiness-IsPollOf :
        (k : ℕ) (w : Waker) (i : Inner sys rt) (woken : List Waker) (rd : Readiness) (fd : AsyncFd)
        → let (out, i') = match_readiness sys rt k w i rd fd in
          IsPollOf k i.next_user_data
            (record { out = out; inner = i'; future = submitted k; woken = woken })
    unfolding match_readiness
    readiness-IsPollOf k w i woken readable fd = record {
      no_panic = λ e. cc;
      future = refl;
      counter = refl;
    }
    readiness-IsPollOf k w i woken not_ready fd = record {
      no_panic = λ e. cc;
      future = refl;
      counter = refl;
    }
    readiness-IsPollOf k w i woken (failed x) fd = record {
      no_panic = λ e. cc;
      future = refl;
      counter = refl;
    }

    finish-IsPollOf :
        (k : ℕ) (w : Waker) (a : Option ℤ) (i : Inner sys rt) (woken : List Waker)
        → IsPollOf k i.next_user_data
            (finish sys rt k w (record { answer = a; inner = i; woken = woken }))
    unfolding finish await_fd
    finish-IsPollOf k w (some res) i woken = record {
      no_panic = λ e. cc;
      future = refl;
      counter = refl;
    }
    finish-IsPollOf k w none i woken = readiness-IsPollOf k w i woken _ _

    completion-IsPollOf :
        (fuel k : ℕ) (w : Waker) (s : Inner sys rt) {p : Polled sys rt Op}
        → poll_completion sys rt fuel k w s ≡ some p
        → IsPollOf k s.next_user_data p
    unfolding poll_completion
    completion-IsPollOf fuel k w s e = elim (Option-cases (check sys rt fuel k s [])) [
      | inl out ↦ let x : none ≡ some _ = (rw out at e) in cc
      | inr (c, q) ↦ subst (IsPollOf k s.next_user_data) (some-inj (rw q at e)) (
          subst (λ n. IsPollOf k n (finish sys rt k w c)) (check-next fuel k s [] c q)
            (finish-IsPollOf k w c.answer c.inner c.woken))
    ]

  -- The user data that a poll gives the future or finds there, and the counter behind the poll.
  abbrev pub tag_of : Inner sys rt → Option ℕ → ℕ
  tag_of s none = s.next_user_data
  tag_of s (some k) = k

  abbrev pub counter_of : Inner sys rt → Option ℕ → ℕ
  counter_of s none = (s.next_user_data + 1) % 2 ^ 64
  counter_of s (some k) = s.next_user_data

  module _ (doc : Documented sys) {Op : Type 0} ⦃o : PrepareOp sys Op⦄ where
    started-IsPollOf :
        (fuel : ℕ) (w : Waker) (s s' : Inner sys rt) (r : StdResult ℕ Error) {p : Polled sys rt Op}
        → Starts sys doc rt w s s' r
        → poll_started sys rt fuel w s.next_user_data r s' ≡ some p
        → IsPollOf s.next_user_data (next_of sys doc rt s) p
    unfolding poll_started
    started-IsPollOf fuel w s s' (err _) (full _ _ _ _ _ nx) e =
        subst (IsPollOf s.next_user_data _) (some-inj e)
          (record { no_panic = λ q. cc; future = refl; counter = nx })
    started-IsPollOf fuel w s s' (err _) (stuck x t _ _ _ _ nx _ _) e =
        subst (IsPollOf s.next_user_data _) (some-inj e)
          (record { no_panic = λ q. cc; future = refl; counter = nx })
    started-IsPollOf fuel w s s' (ok _) {p} (sent t taken _ _ _ _ nx _ _ _ _) e =
        subst (λ n. IsPollOf s.next_user_data n p) nx
          (completion-IsPollOf fuel s.next_user_data w s' e)

    fields-IsPollOf :
        (fuel : ℕ) (w : Waker) (s : Inner sys rt) (op : Option Op) (u : Option ℕ)
        {p : Polled sys rt Op}
        → Tagged s.next_user_data op u
        → poll_fields sys rt fuel w s op u ≡ some p
        → IsPollOf (tag_of s u) (counter_of s u) p
    unfolding poll_fields
    fields-IsPollOf fuel w s (some op) none t e =
        started-IsPollOf fuel w s (start sys rt op w s).1 (start sys rt op w s).0
          (start-Starts sys doc rt op w s) e
    fields-IsPollOf fuel w s (some op) (some k) t e = absurd t
    fields-IsPollOf fuel w s none none t e = absurd t
    fields-IsPollOf fuel w s none (some k) t e = completion-IsPollOf fuel k w s e

    pub poll-IsPollOf :
        (fuel : ℕ) (w : Waker) (s : Inner sys rt) (f : SubmitFuture Op) {p : Polled sys rt Op}
        → Tagged s.next_user_data f.op f.user_data
        → poll sys rt fuel w s f ≡ some p
        → IsPollOf (tag_of s f.user_data) (counter_of s f.user_data) p
    unfolding poll
    poll-IsPollOf fuel w s f t e = fields-IsPollOf fuel w s f.op f.user_data t e

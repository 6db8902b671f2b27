-- ===== src/AsyncIo/Tokio/Poll.antt =====
-- src/async_io/tokio_impl.rs: `poll` of a future that has been submitted.
use liburing_rs.Base.{
  some-inj, ℕ, ◌<◌, ◌≡◌, refl, sym, ap, ◌∙◌, subst, ◌≢◌, Option, none, some, List, [], ◌∷◌, ◌++◌,
  All, arith,
}
use mathlib.Core.Option
use liburing_rs.Base.Int.{ℤ}
use liburing_rs.Base.Map.{lookup, lookup-insert}
use liburing_rs.Base.Outcome.{ok, err}
use liburing_rs.Sys.{Sys, IoUringCqe}
use liburing_rs.Sys.Documented.{Documented, Posts}
use liburing_rs.Error.{Error, io}
use liburing_rs.Ops.Traits.{PrepareOp}
use liburing_rs.AsyncIo.Runtime.{Runtime, Readiness, readable, failed, not_ready}
use liburing_rs.AsyncIo.Tokio.Defs.{
  Poll, ready, pending, panicked, submitted, Inner, Checked, Polled, await_fd, match_readiness,
  finish, poll_completion, poll,
}
use liburing_rs.AsyncIo.Tokio.Check.{wakes, Checks, Takes, load, check-Checks}

-- How a poll of the future `k` ended: at its completion `x`, or with the completion queue drained.
abbrev pub Delivers : ℕ → Poll → List IoUringCqe → List IoUringCqe → Type 0
Delivers k (ready (ok res)) tail left =
    (x : IoUringCqe) × (tail ≡ x ∷ left) × (x.user_data ≡ k) × (x.res ≡ res)
Delivers k (ready (err e)) tail left = (tail ≡ []) × (left ≡ [])
Delivers k pending tail left = (tail ≡ []) × (left ≡ [])
Delivers k panicked tail left = ⊥

code_of : {a b : ℤ} → ready (ok a) ≡ ready (ok b) → a ≡ b
code_of e = cc

-- What a pending poll makes of the descriptor after `poll_read_ready`.
abbrev pub settled : (rt : Runtime) → Readiness × rt.AsyncFd → rt.AsyncFd
settled rt (readable, fd) = rt.clear_ready fd
settled rt (not_ready, fd) = fd
settled rt (failed e, fd) = fd

abbrev pub IsFailed : Readiness → Type 0
IsFailed (failed e) = Unit
IsFailed readable = ⊥
IsFailed not_ready = ⊥

module _ (sys : Sys) (doc : Documented sys) (rt : Runtime) {Op : Type 0} where
  open sys use {Ring}
  open rt use {Waker}
  open doc use {sq, cq, inflight}

  pub record Polls (k : ℕ) (w : Waker) (s : Inner sys rt) (p : Polled sys rt Op) : Type 0 where
    -- the completions of other futures that the poll took out, oldest first
    pub seen : List IoUringCqe
    pub tail : List IoUringCqe
    pub others : All (λ x. x.user_data ≢ k) seen
    pub delivers : Delivers k p.out tail (cq p.inner.ring.ring)
    pub posts :
        Posts (cq s.ring.ring) (inflight s.ring.ring) (seen ++ tail) (inflight p.inner.ring.ring)
    pub same : sq p.inner.ring.ring ≡ sq s.ring.ring
    pub wakened : p.woken ≡ wakes seen s.wakers
    pub waits : p.out ≡ pending → lookup k p.inner.wakers ≡ some w
    pub descriptor :
        p.out ≡ pending → p.inner.async_fd ≡ settled rt (rt.poll_read_ready s.async_fd w)
    pub takes :
        (res : ℤ) → p.out ≡ ready (ok res) → Takes sys doc rt k res p.inner.ring.ring s.ring.ring
    pub future : p.future ≡ submitted k
    pub faulty : (e : Error) → p.out ≡ ready (err e) → IsFailed (rt.poll_read_ready s.async_fd w).0

  -- A poll that ends as `out`, with the loop's ring and any descriptor and wakers that fit.
  Checks-Polls :
      (k : ℕ) (w : Waker) (s i : Inner sys rt) (a : Option ℤ) (woken : List Waker) (out : Poll)
      (fd : rt.AsyncFd) (m : List (ℕ × Waker))
      (h : Checks sys doc rt k s [] (record { answer = a; inner = i; woken = woken }))
      → Delivers k out h.tail (cq i.ring.ring)
      → (out ≡ pending → lookup k m ≡ some w)
      → (out ≡ pending → fd ≡ settled rt (rt.poll_read_ready s.async_fd w))
      → ((res : ℤ) → out ≡ ready (ok res) → Takes sys doc rt k res i.ring.ring s.ring.ring)
      → ((e : Error) → out ≡ ready (err e) → IsFailed (rt.poll_read_ready s.async_fd w).0)
      → Polls k w s (record {
        out = out;
        inner = record i { async_fd = fd; wakers = m };
        future = submitted k;
        woken = woken;
      })
  Checks-Polls k w s i a woken out fd m h delivers waits descriptor takes faulty = record {
    seen = h.seen;
    tail = h.tail;
    others = h.others;
    delivers = delivers;
    posts = h.posts;
    same = h.same;
    wakened = h.wakened;
    waits = waits;
    descriptor = descriptor;
    takes = takes;
    future = refl;
    faulty = faulty;
  }

  -- With no completion, the poll ends as the descriptor says.
  drained-Polls :
      (k : ℕ) (w : Waker) (s i : Inner sys rt) (woken : List Waker) (rd : Readiness)
      (fd : rt.AsyncFd)
      → Checks sys doc rt k s [] (record { answer = none; inner = i; woken = woken })
      → rt.poll_read_ready s.async_fd w ≡ (rd, fd)
      → let (out, i') = match_readiness sys rt k w i rd fd in
        Polls k w s (record { out = out; inner = i'; future = submitted k; woken = woken })
  unfolding match_readiness
  drained-Polls k w s i woken readable fd h e =
      Checks-Polls k w s i none woken pending _ _ h h.ends
        (λ _. ground (arith, lookup-insert k k w i.wakers)) (λ _. ap (settled rt) (sym e))
        (λ x h. cc) (λ x h. cc)
  drained-Polls k w s i woken not_ready fd h e =
      Checks-Polls k w s i none woken pending _ _ h h.ends
        (λ _. ground (arith, lookup-insert k k w i.wakers)) (λ _. ap (settled rt) (sym e))
        (λ x h. cc) (λ x h. cc)
  drained-Polls k w s i woken (failed x) fd h q =
      Checks-Polls k w s i none woken (ready (err (io x))) _ _ h h.ends (λ e. cc) (λ e. cc)
        (λ x h. cc) (λ y _. subst (λ r. IsFailed r.0) (sym q) tt)

  finish-Polls :
      (k : ℕ) (w : Waker) (s i : Inner sys rt) (a : Option ℤ) (woken : List Waker)
      → let c : Checked sys rt = record { answer = a; inner = i; woken = woken } in
        Checks sys doc rt k s [] c → Polls k w s (finish sys rt k w c)
  finish-Polls k w s i (some res) woken h =
      unfold finish in
      Checks-Polls k w s i _ woken (ready (ok res)) _ _ h h.ends (λ e. cc) (λ e. cc)
        (λ r e. h.takes r (ap some (code_of e))) (λ e h. cc)
  finish-Polls k w s i none woken h =
      unfold finish await_fd in
      drained-Polls k w s i woken _ _ h (ap (λ fd. rt.poll_read_ready fd w) (sym h.descriptor))

  -- A poll of a submitted future, with more fuel than completions posted and owed, returns, and never
  -- panics. It is ready with a result code only by taking out a completion with the future's own user
  -- data and that code; otherwise it has drained the completion queue. Either way it first takes out
  -- the completions of other futures that stand before, and wakes the wakers registered for them; it
  -- leaves the submission queue alone; and if it is pending, its waker is registered under its user
  -- data.
  pub poll-Polls :
      ⦃o : PrepareOp sys Op⦄ (fuel k : ℕ) (w : Waker) (s : Inner sys rt)
      → load sys doc rt s.ring.ring < fuel
      → (p : Polled sys rt Op) × (poll sys rt fuel w s (submitted k) ≡ some p) × Polls k w s p
  unfolding poll poll_completion
  poll-Polls fuel k w s h =
      let (c, e, checks) = check-Checks sys doc rt fuel k s [] h in
      (
        finish sys rt k w c,
        ap (Option.map (finish sys rt k w)) e,
        finish-Polls k w s c.inner c.answer c.woken checks,
      )

  -- The same of a poll whose result is at hand.
  pub eq-Polls :
      ⦃o : PrepareOp sys Op⦄ (fuel k : ℕ) (w : Waker) (s : Inner sys rt) {p : Polled sys rt Op}
      → load sys doc rt s.ring.ring < fuel
      → poll sys rt fuel w s (submitted k) ≡ some p
      → Polls k w s p
  eq-Polls fuel k w s h e =
      let (q, eq, polls) = poll-Polls fuel k w s h in
      subst (Polls k w s) (some-inj (sym eq ∙ e)) polls

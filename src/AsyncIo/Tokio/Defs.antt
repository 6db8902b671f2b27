-- ===== src/AsyncIo/Tokio/Defs.antt =====
-- src/async_io/tokio_impl.rs: the shared state, the future and its `poll`.
use liburing_rs.Base.{
  ℕ, zero, suc, ◌+◌, ◌%◌, ◌^◌, true, false, Option, none, some, List, [], ◌∷◌, ◌++◌, ◌==◌,
}
use mathlib.Core.Option
use liburing_rs.Base.Int.{ℤ}
use liburing_rs.Base.Map.{lookup, erase, insert}
use liburing_rs.Base.Outcome.{ok, err, Step, ◌>>=◌, ◌>>◌}
use liburing_rs.Sys.{Sys}
use liburing_rs.Error.{Error, Result, io}
use liburing_rs.Ops.Traits.{PrepareOp, set_user_data}
use liburing_rs.Queue.Cqe
use liburing_rs.Queue.Cqe.{Cqe}
use liburing_rs.Queue.Submission.{get_sqe_or_err}
use liburing_rs.Queue.Completion.{peek_cqe}
use liburing_rs.Uring
use liburing_rs.Uring.{IoUring}
use liburing_rs.AsyncIo.Runtime.{Runtime, Readiness, readable, failed, not_ready}

-- `Poll<Result<i32>>`, and the panic of `future.user_data.unwrap()`.
pub data Poll : Type 0 where
  ready : Result ℤ → Poll
  pending : Poll
  panicked : Poll

pub record SubmitFuture (Op : Type 0) : Type 0 where
  pub op : Option Op
  pub user_data : Option ℕ

-- The future behind its submission.
abbrev pub submitted : {Op : Type 0} → ℕ → SubmitFuture Op
submitted k = record { op = none; user_data = some k }

-- `if let Some(waker) = .. { waker.wake(); }`
abbrev pub to_list : {W : Type 0} → Option W → List W
to_list none = []
to_list (some w) = w ∷ []

module _ (sys : Sys) (rt : Runtime) where
  open sys use {Ring, Sqe, Kernel}
  open rt use {Waker, AsyncFd}

  -- `AsyncIoUringInner`
  pub record Inner : Type 0 where
    pub ring : IoUring sys
    pub async_fd : AsyncFd
    pub wakers : List (ℕ × Waker)
    pub next_user_data : ℕ

  -- `AsyncFd::with_interest(..).map_err(Error::Io)?` drops the ring if it fails.
  unfoldable pub attach : Result (IoUring sys) → Kernel → Result Inner × Kernel
  attach (err e) k = (err e, k)
  attach (ok ring) k = elim (rt.with_interest (Uring.as_raw_fd sys ring)) [
    | err e ↦ (err (io e), Uring.drop sys ring k)
    | ok fd ↦ (ok (record { ring = ring; async_fd = fd; wakers = []; next_user_data = 1 }), k)
  ]

  unfoldable pub new : ℕ → Kernel → Result Inner × Kernel
  unfolding attach
  new entries k = let (ring, k') = Uring.new sys entries k in attach ring k'

  -- What a call on the ring inside the shared state does to it.
  abbrev pub on_ring : {A : Type 0} → (Ring → Result A × Ring) → Step Inner Error A
  on_ring f s = let (a, r) = f s.ring.ring in (a, record s { ring = record { ring = r } })

  -- A method call on a `&mut io_uring_sqe`.
  abbrev pub on_sqe : ℕ → (Sqe → Sqe) → Step Inner Error (Unit {0})
  on_sqe p f = on_ring (λ r. (ok tt, sys.set_sqe r p (f (sys.sqe_at r p))))

  unfoldable pub take_user_data : Step Inner Error ℕ
  take_user_data s =
      (ok s.next_user_data, record s { next_user_data = (s.next_user_data + 1) % 2 ^ 64 })

  abbrev pub submit_ring : Step Inner Error ℕ
  submit_ring s = let (n, u) = Uring.submit sys s.ring in (n, record s { ring = u })

  abbrev pub register : ℕ → Waker → Step Inner Error (Unit {0})
  register k w s = (ok tt, record s { wakers = insert k w s.wakers })

  -- The block of `poll` for a future that has not been submitted. It gives the new user data; each
  -- of its errors is a `return Poll::Ready(Err(e))`.
  unfoldable pub start : {Op : Type 0} ⦃p : PrepareOp sys Op⦄ → Op → Waker → Step Inner Error ℕ
  start ⦃p⦄ op w = do
    user_data ← take_user_data
    sqe ← on_ring (get_sqe_or_err sys)
    on_sqe sqe (p.prepare op)
    on_sqe sqe (λ s. set_user_data sys s user_data)
    submit_ring
    register user_data w
    λ s. (ok user_data, s)

  -- What the loop over the completions leaves: this future's result code if it was there, the shared
  -- state and the wakers woken, oldest first.
  pub record Checked : Type 0 where
    pub answer : Option ℤ
    pub inner : Inner
    pub woken : List Waker

  -- A round of the loop of `poll` behind its peek: the match on `cqe_data`. The completion is read
  -- and its guard dropped before the match, and `again` is the next round.
  unfoldable pub check_round :
      (Inner → List Waker → Option Checked)
      → ℕ
      → Inner
      → List Waker
      → Option Cqe
      → Ring
      → Option Checked
  check_round again user_data s woken none r =
      some
        (record { answer = none; inner = record s { ring = record { ring = r } }; woken = woken })
  check_round again user_data s woken (some c) r =
      let k = Cqe.user_data sys r c in
      let result = Cqe.result sys r c in
      let s' : Inner = record s {
        ring = record { ring = Cqe.drop sys r c };
        wakers = erase k s.wakers;
      } in
      elim (k == user_data) [
        | true ↦ some (record { answer = some result; inner = s'; woken = woken })
        | false ↦ again s' (woken ++ to_list (lookup k s.wakers))
      ]

  -- The loop of `poll`; `none` says that the fuel ran out.
  unfoldable pub check : ℕ → ℕ → Inner → List Waker → Option Checked
  check zero user_data s woken = none
  check (suc fuel) user_data s woken =
      let (cqe, r) = peek_cqe sys s.ring.ring in
      check_round (check fuel user_data) user_data s woken cqe r

  -- The last part of `poll`: wait for the descriptor. First the match on what it says.
  unfoldable pub match_readiness : ℕ → Waker → Inner → Readiness → AsyncFd → Poll × Inner
  match_readiness user_data w s readable fd =
      (pending, record s { async_fd = rt.clear_ready fd; wakers = insert user_data w s.wakers })
  match_readiness user_data w s (failed e) fd = (ready (err (io e)), record s { async_fd = fd })
  match_readiness user_data w s not_ready fd =
      (pending, record s { async_fd = fd; wakers = insert user_data w s.wakers })

  unfoldable pub await_fd : ℕ → Waker → Inner → Poll × Inner
  await_fd user_data w s =
      let (readiness, fd) = rt.poll_read_ready s.async_fd w in
      match_readiness user_data w s readiness fd

  pub record Polled (Op : Type 0) : Type 0 where
    pub out : Poll
    pub inner : Inner
    pub future : SubmitFuture Op
    pub woken : List Waker

  module _ {Op : Type 0} where
    unfoldable pub finish : ℕ → Waker → Checked → Polled Op
    finish user_data w c = elim c.answer [
      | some result ↦ record {
        out = ready (ok result);
        inner = c.inner;
        future = submitted user_data;
        woken = c.woken;
      }
      | none ↦
          let (out, s) = await_fd user_data w c.inner in
          record { out = out; inner = s; future = submitted user_data; woken = c.woken }
    ]

    -- `poll` from the loop on.
    unfoldable pub poll_completion : ℕ → ℕ → Waker → Inner → Option (Polled Op)
    poll_completion fuel user_data w s = Option.map (finish user_data w) (check fuel user_data s [])

    -- `poll` behind its submission, whose errors are ready at once.
    unfoldable pub poll_started : ℕ → Waker → ℕ → Result ℕ → Inner → Option (Polled Op)
    poll_started fuel w own (ok k) s = poll_completion fuel k w s
    poll_started fuel w own (err e) s =
        some (record { out = ready (err e); inner = s; future = submitted own; woken = [] })

    -- `poll` on the fields of the future. The loop runs on fuel, and `none` says that it ran out.
    unfoldable pub poll_fields :
        ⦃p : PrepareOp sys Op⦄ → ℕ → Waker → Inner → Option Op → Option ℕ → Option (Polled Op)
    unfolding poll_started
    poll_fields fuel w s (some op) user_data =
        let (started, s') = start op w s in poll_started fuel w s.next_user_data started s'
    poll_fields fuel w s none (some k) = poll_completion fuel k w s
    poll_fields fuel w s none none = some (record {
      out = panicked;
      inner = s;
      future = record { op = none; user_data = none };
      woken = [];
    })

    unfoldable pub poll :
        ⦃p : PrepareOp sys Op⦄ → ℕ → Waker → Inner → SubmitFuture Op → Option (Polled Op)
    unfolding poll_fields
    poll fuel w s f = poll_fields fuel w s f.op f.user_data

  -- `submit_op`: nothing happens before the first poll.
  unfoldable pub submit_op : {Op : Type 0} → Op → SubmitFuture Op
  submit_op op = record { op = some op; user_data = none }

-- ===== src/AsyncIo/Runtime.antt =====
-- What src/async_io/tokio_impl.rs uses of the tokio runtime: wakers and `AsyncFd`. They are no code
-- of the repository, so they are a parameter, and the runtime's documentation is a hypothesis.
use liburing_rs.Base.{◌≡◌, Bool, true, false, Option, some}
use liburing_rs.Base.Int.{ℤ}
use liburing_rs.Base.Outcome.{StdResult}
use liburing_rs.Error.{IoError}

-- `Poll<io::Result<AsyncFdReadyGuard>>`. The guard is a reference to the `AsyncFd`.
pub data Readiness : Type 0 where
  readable : Readiness
  failed : IoError → Readiness
  not_ready : Readiness

pub record Runtime : Type 1 where
  pub Waker : Type 0
  pub AsyncFd : Type 0
  -- with `Interest::READABLE`
  pub with_interest : ℤ → StdResult AsyncFd IoError
  pub poll_read_ready : AsyncFd → Waker → Readiness × AsyncFd
  pub clear_ready : AsyncFd → AsyncFd

-- The documented contract of `AsyncFd`: a readiness flag that is kept until it is cleared, and one
-- place for the waker that the next readiness event wakes. Only a poll that finds the flag down
-- stores its waker there, over an earlier one.
module _ (rt : Runtime) where
  open rt use {Waker, AsyncFd}

  pub record Reactor : Type 0 where
    pub is_ready : AsyncFd → Bool
    pub registered : AsyncFd → Option Waker
    pub poll_not_ready :
        (fd : AsyncFd) (w : Waker)
        → is_ready fd ≡ false
        → let (out, fd') = rt.poll_read_ready fd w in
          (out ≡ not_ready) × (registered fd' ≡ some w) × (is_ready fd' ≡ false)
    pub poll_ready :
        (fd : AsyncFd) (w : Waker)
        → is_ready fd ≡ true
        → let (out, fd') = rt.poll_read_ready fd w in
          (out ≡ readable) × (registered fd' ≡ registered fd) × (is_ready fd' ≡ true)
    pub clear :
        (fd : AsyncFd)
        → (registered (rt.clear_ready fd) ≡ registered fd) × (is_ready (rt.clear_ready fd) ≡ false)

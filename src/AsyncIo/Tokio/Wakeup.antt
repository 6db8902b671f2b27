-- ===== src/AsyncIo/Tokio/Wakeup.antt =====
-- src/async_io/tokio_impl.rs: whether the reactor knows of a pending future.
use liburing_rs.Base.{ℕ, ◌<◌, ◌≡◌, refl, ap, ◌∙◌, true, false, some}
use liburing_rs.Sys.{Sys}
use liburing_rs.Sys.Documented.{Documented}
use liburing_rs.Ops.Traits.{PrepareOp}
use liburing_rs.AsyncIo.Runtime.{Runtime, Readiness, readable, failed, not_ready, Reactor}
use liburing_rs.AsyncIo.Tokio.Defs.{pending, submitted, Inner, Polled, poll}
use liburing_rs.AsyncIo.Tokio.Check.{load}
use liburing_rs.AsyncIo.Tokio.Poll.{settled, eq-Polls}

module _ (rt : Runtime) (react : Reactor rt) where
  open rt use {Waker, AsyncFd}
  open react use {is_ready, registered}

  settled_not_ready : (rd : Readiness) (fd : AsyncFd) → rd ≡ not_ready → settled rt (rd, fd) ≡ fd
  settled_not_ready readable fd e = cc
  settled_not_ready not_ready fd e = refl
  settled_not_ready (failed x) fd e = refl

  settled-readable :
      (rd : Readiness) (fd : AsyncFd) → rd ≡ readable → settled rt (rd, fd) ≡ rt.clear_ready fd
  settled-readable readable fd e = refl
  settled-readable not_ready fd e = cc
  settled-readable (failed x) fd e = cc

  waits_registered :
      (fd : AsyncFd) (w : Waker)
      → is_ready fd ≡ false
      → registered (settled rt (rt.poll_read_ready fd w)) ≡ some w
  waits_registered fd w h =
      let (out, reg, flag) = react.poll_not_ready fd w h in
      ap registered (settled_not_ready _ _ out) ∙ reg

  cleared_unchanged :
      (fd : AsyncFd) (w : Waker)
      → is_ready fd ≡ true
      → let fd' = settled rt (rt.poll_read_ready fd w) in
        (registered fd' ≡ registered fd) × (is_ready fd' ≡ false)
  cleared_unchanged fd w h =
      let (out, reg, flag) = react.poll_ready fd w h in
      let fd' : AsyncFd = (rt.poll_read_ready fd w).1 in
      let e : settled rt (rt.poll_read_ready fd w) ≡ rt.clear_ready fd' =
        settled-readable _ _ out in
      let (kept, down) = react.clear fd' in (ap registered e ∙ kept ∙ reg, ap is_ready e ∙ down)

  module _ (sys : Sys) (doc : Documented sys) (Op : Type 0) ⦃o : PrepareOp sys Op⦄ where
    -- A poll of a submitted future that stays pending leaves its waker with the reactor, if the
    -- descriptor's readiness flag was down.
    pub pending_registers :
        (fuel k : ℕ) (w : Waker) (s : Inner sys rt) {p : Polled sys rt Op}
        → load sys doc rt s.ring.ring < fuel
        → is_ready s.async_fd ≡ false
        → poll sys rt fuel w s (submitted k) ≡ some p
        → p.out ≡ pending
        → registered p.inner.async_fd ≡ some w
    pending_registers fuel k w s h down e pend =
        ap registered ((eq-Polls sys doc rt fuel k w s h e).descriptor pend)
        ∙ waits_registered s.async_fd w down

    -- If the readiness flag was up, a poll of a submitted future that stays pending takes the flag
    -- down and does not hand its waker to the reactor: the waker that was registered before, or none,
    -- still is.
    pub stale_readiness_sleeps :
        (fuel k : ℕ) (w : Waker) (s : Inner sys rt) {p : Polled sys rt Op}
        → load sys doc rt s.ring.ring < fuel
        → is_ready s.async_fd ≡ true
        → poll sys rt fuel w s (submitted k) ≡ some p
        → p.out ≡ pending
        → (registered p.inner.async_fd ≡ registered s.async_fd)
          × (is_ready p.inner.async_fd ≡ false)
    stale_readiness_sleeps fuel k w s h up e pend =
        let d = (eq-Polls sys doc rt fuel k w s h e).descriptor pend in
        let (kept, down) = cleared_unchanged s.async_fd w up in
        (ap registered d ∙ kept, ap is_ready d ∙ down)

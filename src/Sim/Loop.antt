-- ===== src/Sim/Loop.antt =====
-- A simulated event loop, in which a waker is a number, with the contract of the runtime.
use liburing_rs.Base.{ℕ, ◌≡◌, refl, Bool, true, false, Option, none, some}
use liburing_rs.Base.Outcome.{ok}
use liburing_rs.AsyncIo.Runtime.{Runtime, Readiness, readable, not_ready, Reactor}

pub record SimFd : Type 0 where
  pub flag : Bool
  pub waker : Option ℕ

abbrev pub poll_flag : Bool → SimFd → ℕ → Readiness × SimFd
poll_flag true fd w = (readable, fd)
poll_flag false fd w = (not_ready, record fd { waker = some w })

abbrev pub sim_runtime : Runtime
sim_runtime = record {
  Waker = ℕ;
  AsyncFd = SimFd;
  with_interest = λ fd. ok (record { flag = false; waker = none });
  poll_read_ready = λ fd w. poll_flag fd.flag fd w;
  clear_ready = λ fd. record fd { flag = false };
}

pub poll_flag_down :
    (b : Bool) (fd : SimFd) (w : ℕ)
    → fd.flag ≡ b
    → b ≡ false
    → let (out, fd') = poll_flag b fd w in
      (out ≡ not_ready) × (fd'.waker ≡ some w) × (fd'.flag ≡ false)
poll_flag_down true fd w e h = cc
poll_flag_down false fd w e h = (refl, refl, e)

pub poll_flag_up :
    (b : Bool) (fd : SimFd) (w : ℕ)
    → fd.flag ≡ b
    → b ≡ true
    → let (out, fd') = poll_flag b fd w in
      (out ≡ readable) × (fd'.waker ≡ fd.waker) × (fd'.flag ≡ true)
poll_flag_up true fd w e h = (refl, refl, e)
poll_flag_up false fd w e h = cc

abbrev pub sim_reactor : Reactor sim_runtime
sim_reactor = record {
  is_ready = λ fd. fd.flag;
  registered = λ fd. fd.waker;
  poll_not_ready = λ fd w h. poll_flag_down fd.flag fd w refl h;
  poll_ready = λ fd w h. poll_flag_up fd.flag fd w refl h;
  clear = λ fd. (refl, refl);
}

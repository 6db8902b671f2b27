-- ===== src/AsyncIo/Tokio/Tests.antt =====
-- Tests of src/async_io/tokio_impl.rs, and the instances of its theorems, on the simulated ring.
use liburing_rs.Base.{ℕ, ◌≡◌, refl, ◌≢◌, true, false, none, some, [], ◌∷◌, arith}
use liburing_rs.Base.Int.{ℤ, pos}
use liburing_rs.Base.Map.{lookup, erase, insert}
use liburing_rs.Base.Outcome.{ok}
use liburing_rs.Error.{Result}
use liburing_rs.Ops.Nop
use liburing_rs.Ops.Nop.{Nop, nop}
use liburing_rs.Ops.Traits.{PrepareOp}
use liburing_rs.Queue.Cqe
use liburing_rs.Queue.Completion.{peek_cqe}
use liburing_rs.Sim.{sim, sim_documented, sim_runtime, sim_reactor, empty_ring}
use liburing_rs.AsyncIo.Tokio.Defs.{
  ready, pending, poll_fields, submitted, Inner, Checked, Polled, check, await_fd, poll,
  poll_completion, submit_op, match_readiness, check_round, finish,
}
use liburing_rs.AsyncIo.Tokio.Check.{Checks, check-Checks}
use liburing_rs.AsyncIo.Tokio.Poll.{Polls, poll-Polls}
use liburing_rs.AsyncIo.Tokio.Lost.{poll_finds, poll_answered, poll_loses_others, now}
use liburing_rs.AsyncIo.Tokio.Wakeup.{pending_registers, stale_readiness_sleeps}
use liburing_rs.AsyncIo.Tokio.Start.{Starts, first_poll, continues}

instance abbrev sim_nop : PrepareOp sim Nop
sim_nop = Nop.nop_op sim

-- A ring on which the completion of the future 2 is posted and that of the future 1 is owed.
abbrev shared : Inner sim sim_runtime
shared = record {
  ring = record {
    ring = record empty_ring {
      flight = 1 ∷ [];
      done = record { user_data = 2; res = pos 5; flags = 0 } ∷ [];
    };
  };
  async_fd = record { flag = false; waker = none };
  wakers = (2, 20) ∷ [];
  next_user_data = 3;
}

-- What the poll of the future 1 makes of it.
abbrev stolen : Polled sim sim_runtime Nop
stolen = record {
  out = pending;
  inner = record shared {
    ring = record { ring = record empty_ring { flight = 1 ∷ [] } };
    async_fd = record { flag = false; waker = some 10 };
    wakers = (1, 10) ∷ [];
  };
  future = submitted 1;
  woken = 20 ∷ [];
}

poll_steals : poll sim sim_runtime 5 10 shared (submitted 1) ≡ some stolen
unfolding poll poll_completion check check_round finish await_fd match_readiness peek_cqe
    Cqe.user_data Cqe.result Cqe.drop lookup erase insert
poll_steals = refl

poll_loses_others_example :
    (q : Polled sim sim_runtime Nop) × (poll sim sim_runtime 5 20 stolen.inner (submitted 2)
      ≡ some q)
    × ((res : ℤ) → q.out ≢ ready (ok res))
poll_loses_others_example =
    poll_loses_others sim sim_documented sim_runtime Nop 5 1 2 10 shared (omega arith) poll_steals
      refl refl now 5 20 (omega arith)

check-Checks_example :
    (c : Checked sim sim_runtime) × (check sim sim_runtime 5 1 shared [] ≡ some c)
    × Checks sim sim_documented sim_runtime 1 shared [] c
check-Checks_example = check-Checks sim sim_documented sim_runtime 5 1 shared [] (omega arith)

poll-Polls_example :
    (p : Polled sim sim_runtime Nop) × (poll sim sim_runtime 5 10 shared (submitted 1) ≡ some p)
    × Polls sim sim_documented sim_runtime 1 10 shared p
poll-Polls_example = poll-Polls sim sim_documented sim_runtime 5 1 10 shared (omega arith)

-- The completion of the future 1 stands before that of the future 2, which gets its own result.
abbrev both : Inner sim sim_runtime
both = record shared {
  ring = record {
    ring = record empty_ring {
      done =
          record { user_data = 1; res = pos 3; flags = 0 }
          ∷ record { user_data = 2; res = pos 5; flags = 0 }
          ∷ [];
    };
  };
}

poll_finds_example :
    (p : Polled sim sim_runtime Nop) × (poll sim sim_runtime 5 20 both (submitted 2) ≡ some p)
    × (p.out ≡ ready (ok (pos 5)))
poll_finds_example =
    poll_finds sim sim_documented sim_runtime Nop 5 2 20 both
      (record { user_data = 1; res = pos 3; flags = 0 } ∷ []) []
      (record { user_data = 2; res = pos 5; flags = 0 }) (omega arith) refl
      (λ e. omega (arith, e), tt) refl

pending_registers_example : stolen.inner.async_fd.waker ≡ some 10
pending_registers_example =
    pending_registers sim_runtime sim_reactor sim sim_documented Nop 5 1 10 shared (omega arith)
      refl poll_steals refl

-- The same, with the readiness flag still up.
abbrev stale : Inner sim sim_runtime
stale = record shared { async_fd = record { flag = true; waker = none } }

abbrev asleep : Polled sim sim_runtime Nop
asleep = record stolen {
  inner = record stolen.inner { async_fd = record { flag = false; waker = none } };
}

poll_sleeps : poll sim sim_runtime 5 10 stale (submitted 1) ≡ some asleep
unfolding poll poll_completion check check_round finish await_fd match_readiness peek_cqe
    Cqe.user_data Cqe.result Cqe.drop lookup erase insert
poll_sleeps = refl

stale_readiness_sleeps_example :
    (asleep.inner.async_fd.waker ≡ none) × (asleep.inner.async_fd.flag ≡ false)
stale_readiness_sleeps_example =
    stale_readiness_sleeps sim_runtime sim_reactor sim sim_documented Nop 5 1 10 stale (omega arith)
      refl poll_sleeps refl

first_poll_example :
    (r : Result ℕ) × (s' : Inner sim sim_runtime) × Starts sim sim_documented sim_runtime 30 shared
      s' r
    × (poll sim sim_runtime 5 30 shared (submit_op sim sim_runtime nop)
        ≡ continues sim sim_documented sim_runtime 5 30 s' r 3)
first_poll_example = first_poll sim sim_documented sim_runtime 5 nop 30 shared

-- The poll of the future 2, whose completion is posted.
abbrev found : Polled sim sim_runtime Nop
found = record {
  out = ready (ok (pos 5));
  inner = record shared {
    ring = record { ring = record empty_ring { flight = 1 ∷ [] } };
    wakers = [];
  };
  future = submitted 2;
  woken = [];
}

poll_delivers : poll sim sim_runtime 5 20 shared (submitted 2) ≡ some found
unfolding poll poll_fields poll_completion check check_round finish peek_cqe Cqe.user_data
    Cqe.result Cqe.drop lookup erase
poll_delivers = refl

poll_answered_example : (res : ℤ) × (found.out ≡ ready (ok res))
poll_answered_example =
    poll_answered sim sim_documented sim_runtime Nop 5 2 20 shared (omega arith) poll_delivers
      (omega arith)

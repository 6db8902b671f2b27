-- ===== src/AsyncIo/Tokio/SystemTests.antt =====
-- Tests of src/async_io/tokio_impl.rs on a new ring: two futures that share it, and one that has it
-- alone, with the instances of the theorems on them.
use liburing_rs.Base.{◌≤◌, ℕ, ◌≡◌, refl, ◌≢◌, false, none, some, [], ◌∷◌, arith}
use liburing_rs.Base.Int.{ℤ, pos}
use liburing_rs.Base.Map.{lookup, erase, insert}
use liburing_rs.Base.Outcome.{ok}
use liburing_rs.Error.{check_ret}
use liburing_rs.Ops.Accept
use liburing_rs.Ops.Accept.{Accept}
use liburing_rs.Ops.Nop
use liburing_rs.Ops.Nop.{Nop, nop}
use liburing_rs.Ops.Traits.{PrepareOp, set_user_data}
use liburing_rs.Queue.Cqe
use liburing_rs.Queue.Submission.{get_sqe_or_err, get_sqe}
use liburing_rs.Queue.Completion.{peek_cqe}
use liburing_rs.Uring
use liburing_rs.Sim.{sim, sim_documented, sim_runtime, empty_ring}
use liburing_rs.AsyncIo.Tokio.Defs.{
  ready, pending, panicked, new, attach, poll_fields, poll_started, submitted, Inner, Polled, check,
  await_fd, poll, poll_completion, start, take_user_data, submit_op, match_readiness, check_round,
  finish,
}
use liburing_rs.AsyncIo.Tokio.Futures.{
  System, Reach, fresh, make, polls, user_data_distinct, poll_no_panic,
}
use liburing_rs.Sys.Progress.{held}
use liburing_rs.AsyncIo.Tokio.Gone.{Further, stay, poll_more, lost_for_good}
use liburing_rs.AsyncIo.Tokio.Requests.{requests_distinct}
use liburing_rs.AsyncIo.Tokio.Alone.{Waits, Settled, poll-Settled}

instance abbrev sim_nop : PrepareOp sim Nop
sim_nop = Nop.nop_op sim

-- A new ring.
abbrev begun : Inner sim sim_runtime
begun = record {
  ring = record { ring = empty_ring };
  async_fd = record { flag = false; waker = none };
  wakers = [];
  next_user_data = 1;
}

-- It comes with the counter 1, whatever number of entries it is asked for.
new_counts : (new sim sim_runtime 8 (record { live = 0; room = 1 })).0 ≡ ok begun
unfolding new attach Uring.new Uring.with_flags check_ret Uring.as_raw_fd
new_counts = refl

-- Two futures, and what a poll of the first of them leaves.
abbrev two_futures : System sim sim_documented sim_runtime Nop
two_futures = record {
  inner = begun;
  futures = submit_op sim sim_runtime nop ∷ submit_op sim sim_runtime nop ∷ [];
}

two_futures_reached : Reach sim sim_documented sim_runtime Nop begun 0 two_futures
two_futures_reached = make nop (make nop fresh)

abbrev polled : Polled sim sim_runtime Nop
polled = record {
  out = ready (ok (pos 0));
  inner = record begun { next_user_data = 2 };
  future = submitted 1;
  woken = [];
}

abbrev one_polled : System sim sim_documented sim_runtime Nop
one_polled = record {
  inner = polled.inner;
  futures = submitted 1 ∷ submit_op sim sim_runtime nop ∷ [];
}

poll_nop : poll sim sim_runtime 5 10 begun (submit_op sim sim_runtime nop) ≡ some polled
unfolding poll poll_fields poll_started start take_user_data submit_op get_sqe_or_err get_sqe
    set_user_data Nop.prepare Uring.submit check_ret poll_completion check check_round finish
    await_fd match_readiness peek_cqe Cqe.user_data Cqe.result Cqe.drop lookup erase insert
poll_nop = refl

one_polled_reached : Reach sim sim_documented sim_runtime Nop begun 1 one_polled
unfolding submit_op
one_polled_reached =
    polls 0 5 10 (submit_op sim sim_runtime nop) polled two_futures_reached refl poll_nop

user_data_distinct_example : ◌≡◌ {A = ℕ} 0 0
user_data_distinct_example =
    user_data_distinct sim sim_documented sim_runtime Nop begun 1 one_polled 0 0 1 (submitted 1)
      (submitted 1) refl (omega arith) one_polled_reached refl refl refl refl

poll_no_panic_example :
    (p : Polled sim sim_runtime Nop) × (poll sim sim_runtime 5 10 one_polled.inner
        (submit_op sim sim_runtime nop)
      ≡ some p)
    × (p.out ≢ panicked)
poll_no_panic_example =
    poll_no_panic sim sim_documented sim_runtime Nop begun 1 one_polled 1 5 10
      (submit_op sim sim_runtime nop) refl (omega arith) one_polled_reached refl (omega arith)

requests_distinct_example :
    (held sim sim_documented 1 one_polled.inner.ring.ring ≤ 1)
    × (one_polled.inner.next_user_data ≤ 1
        → held sim sim_documented 1 one_polled.inner.ring.ring ≡ 0)
requests_distinct_example =
    requests_distinct sim sim_documented sim_runtime 1 Nop begun 1 one_polled refl
      (record { queue = refl; done = refl; flight = refl }) (omega arith) one_polled_reached

-- A future that waits for a connection on a ring of its own, at its second poll.
abbrev own_ring : Inner sim sim_runtime
own_ring = record {
  ring = record { ring = empty_ring };
  async_fd = record { flag = false; waker = none };
  wakers = [];
  next_user_data = 1;
}

instance abbrev sim_accept : PrepareOp sim Accept
sim_accept = Accept.accept_op sim

abbrev listen : Accept
listen = record { fd = pos 3; addr = 0; addrlen = 0; flags = pos 0 }

-- It is in flight.
abbrev listening : Polled sim sim_runtime Accept
listening = record {
  out = pending;
  inner = record {
    ring = record { ring = record empty_ring { flight = 1 ∷ [] } };
    async_fd = record { flag = false; waker = some 10 };
    wakers = (1, 10) ∷ [];
    next_user_data = 2;
  };
  future = submitted 1;
  woken = [];
}

poll_listens :
    poll sim sim_runtime 5 10 own_ring (submit_op sim sim_runtime listen) ≡ some listening
unfolding poll start take_user_data submit_op get_sqe_or_err get_sqe set_user_data Accept.prepare
    Uring.submit check_ret poll_completion check check_round finish await_fd match_readiness
    peek_cqe Cqe.user_data Cqe.result Cqe.drop lookup erase insert
poll_listens = refl

poll-Settled_example :
    Settled sim sim_documented sim_runtime 1 20 listening.inner.ring.ring
      (poll sim sim_runtime 5 20 listening.inner listening.future)
poll-Settled_example =
    poll-Settled sim sim_documented sim_runtime {u = own_ring} {op = listen} 5 20
      (record { queue = refl; done = refl; flight = refl }) (omega arith)
      (Waits.polled 5 10 listening Waits.made (omega arith) poll_listens refl)

-- The poll of the second future, behind that of the first.
abbrev polled_next : Polled sim sim_runtime Nop
polled_next = record polled { inner = record begun { next_user_data = 3 }; future = submitted 2 }

poll_next :
    poll sim sim_runtime 5 10 polled.inner (submit_op sim sim_runtime nop) ≡ some polled_next
unfolding poll poll_fields poll_started start take_user_data submit_op get_sqe_or_err get_sqe
    set_user_data Nop.prepare Uring.submit check_ret poll_completion check check_round finish
    await_fd match_readiness peek_cqe Cqe.user_data Cqe.result Cqe.drop lookup erase insert
poll_next = refl

abbrev both_polled : System sim sim_documented sim_runtime Nop
both_polled = record { inner = polled_next.inner; futures = submitted 1 ∷ submitted 2 ∷ [] }

both_polled_reached : Further sim sim_documented sim_runtime Nop one_polled 1 both_polled
both_polled_reached =
    poll_more 1 5 10 (submit_op sim sim_runtime nop) polled_next stay refl poll_next

lost_for_good_example :
    (p : Polled sim sim_runtime Nop) × (poll sim sim_runtime 5 10 both_polled.inner (submitted 1)
      ≡ some p)
    × ((res : ℤ) → p.out ≢ ready (ok res))
lost_for_good_example =
    lost_for_good sim sim_documented sim_runtime Nop begun 1 1 1 one_polled both_polled refl
      (omega arith) one_polled_reached (omega arith) refl both_polled_reached 0 5 10 (submitted 1)
      refl refl (omega arith)

-- ===== src/Queue/Tests.antt =====
-- Tests of src/queue.rs, and the instances of its theorems, on the simulated ring.
use liburing_rs.Base.{◌+◌, ◌≡◌, refl, true, none, [], ◌∷◌, length, arith}
use liburing_rs.Base.Int.{negsuc}
use liburing_rs.Base.Outcome.{err}
use liburing_rs.Sys.{IoUringCqe}
use liburing_rs.Error.{submission_queue_full}
use liburing_rs.Queue.Submission.{get_sqe, get_sqe_or_err, space_left, is_full}
use liburing_rs.Queue.Cqe
use liburing_rs.Queue.Completion.{peek_cqe, wait_cqe}
use liburing_rs.Queue.Space.{Gets, get_sqe_or_err-Gets, space_left-add-length}
use liburing_rs.Queue.Delivery.{IsGuard, Peeks, Gives, peek_cqe-Peeks, wait_cqe-Gives}
use liburing_rs.Sim.{sim, sim_documented, SimRing, two, queued, blank, empty_ring}

-- A full ring, with a completion of the user data 7 and the error 2 posted.
abbrev failure : IoUringCqe
failure = record { user_data = 7; res = negsuc 1; flags = 0 }

abbrev ring : SimRing
ring = record empty_ring { slots = two blank blank; done = failure ∷ [] }

ring_is_full : is_full sim ring ≡ true
unfolding is_full space_left
ring_is_full = refl

get_sqe_or_err_refused : (get_sqe_or_err sim ring).0 ≡ err submission_queue_full
unfolding get_sqe_or_err get_sqe
get_sqe_or_err_refused = refl

peek_cqe_empty : (peek_cqe sim empty_ring).0 ≡ none
unfolding peek_cqe
peek_cqe_empty = refl

space_left-add-length_example : space_left sim ring + length (queued ring.slots) ≡ 2
space_left-add-length_example = space_left-add-length sim sim_documented ring

get_sqe_or_err-Gets_example :
    Gets sim sim_documented ring (get_sqe_or_err sim ring).0 (get_sqe_or_err sim ring).1
get_sqe_or_err-Gets_example = get_sqe_or_err-Gets sim sim_documented ring

peek_cqe-Peeks_example : Peeks sim sim_documented ring (peek_cqe sim ring).1 (peek_cqe sim ring).0
peek_cqe-Peeks_example = peek_cqe-Peeks sim sim_documented ring

wait_cqe-Gives_example : Gives sim sim_documented ring (wait_cqe sim ring).1 (wait_cqe sim ring).0
wait_cqe-Gives_example = wait_cqe-Gives sim sim_documented ring

-- The guard of that completion.
abbrev pub guard : Cqe.Cqe
guard = record { cqe = 1 }

guard-IsGuard : IsGuard sim sim_documented ring guard failure []
unfolding Cqe.user_data Cqe.result Cqe.flags
guard-IsGuard = record {
  oldest = refl;
  user_data = refl;
  result = refl;
  flags = refl;
  valid = omega arith;
}

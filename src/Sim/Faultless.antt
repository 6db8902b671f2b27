-- ===== src/Sim/Faultless.antt =====
-- On the simulated ring that answers each submission at once, nothing fails.
use liburing_rs.Base.{◌≤◌, ◌≡◌, refl, sym, ap, ◌∙◌, true, List, [], ◌∷◌, length, arith}
use liburing_rs.Base.Int.{ℤ}
use liburing_rs.Base.Outcome.{StdResult, ok, err}
use liburing_rs.Sys.{IoUringCqe}
use liburing_rs.Sys.Progress.{IsQuiet}
use liburing_rs.Error.{Error, check_ret}
use liburing_rs.Queue.Submission.{is_full, space_left}
use liburing_rs.Queue.Completion.{wait_cqe}
use liburing_rs.Uring
use liburing_rs.Uring.{IoUring}
use liburing_rs.Uring.Laws.{submit-Submits}
use liburing_rs.Uring.Load.{submit_load}
use liburing_rs.Uring.Faults.{Faults, Silent}
use liburing_rs.Sim.Defs.{SimSqe, SimRing, queued}
use liburing_rs.Sim.Laws.{length-queued}
use liburing_rs.Sim.Eager.{eager, eager_documented}

pub ok-inj : {A E : Type 0} {a b : A} → ◌≡◌ {A = StdResult A E} (ok a) (ok b) → a ≡ b
ok-inj e = cc

module _ (code : SimSqe → ℤ) where
  sends :
      (u : IoUring (eager code))
      → (Uring.submit (eager code) u).0 ≡ ok (length (queued u.ring.slots))
  unfolding Uring.submit check_ret
  sends u = ap ok (sym (length-queued u.ring.slots))

  pub sends_waiting :
      (u : IoUring (eager code))
      → (Uring.submit_and_wait (eager code) u 1).0 ≡ ok (length (queued u.ring.slots))
  unfolding Uring.submit_and_wait check_ret
  sends_waiting u = ap ok (sym (length-queued u.ring.slots))

  pub has_room :
      (r : SimRing)
      → IsQuiet (eager code) (eager_documented code) r
      → is_full (eager code) r ≡ true
      → ⊥
  unfolding is_full space_left
  has_room r q full = ground (arith, length-queued r.slots, ap length q.queue, full)

  waits :
      (r : SimRing) (x : IoUringCqe) (xs : List IoUringCqe)
      → r.done ≡ x ∷ xs
      → (wait_cqe (eager code) r).0 ≡ ok (record { cqe = 1 })
  unfolding wait_cqe
  waits r x xs e = rw e refl

  waits_some :
      (r : SimRing) (e : Error) (done : List IoUringCqe)
      → r.done ≡ done
      → 1 ≤ length done
      → (wait_cqe (eager code) r).0 ≡ err e
      → ⊥
  waits_some r e [] same one h = omega (arith, one)
  waits_some r e (x ∷ xs) same one h = cc (waits r x xs same)

  -- The answer to the one request is there.
  answered_one :
      (u : IoUring (eager code)) (s : SimSqe)
      → queued u.ring.slots ≡ s ∷ []
      → 1 ≤ length (Uring.submit (eager code) u).1.ring.done
  unfolding Uring.submit
  answered_one u s one = omega (
    arith,
    ap length one,
    submit_load (eager code) (eager_documented code) u.ring _ _
        (submit-Submits (eager code) (eager_documented code) u),
  )

  pub eager_faults : Faults (eager code) (eager_documented code) ⊥
  eager_faults = record {
    room = has_room;
    refused = λ u e h. cc (sends u);
    partial = λ u n h ne. ne (ok-inj (sym h ∙ sends u));
  }

  pub eager_silent : Silent (eager code) (eager_documented code) ⊥
  eager_silent u s e one sub h =
      waits_some (Uring.submit (eager code) u).1.ring e _ refl (answered_one u s one) h

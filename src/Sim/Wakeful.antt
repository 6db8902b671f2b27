-- ===== src/Sim/Wakeful.antt =====
-- An executor that polls each task again once the ring has answered every request in flight, on the
-- ring that answers each submission at once.
use liburing_rs.Base.{
  ap, ℕ, ◌≤◌, ◌≡◌, refl, subst, some-inj, [], Bool, true, false, Option, some, ◌++◌, map, length,
  length-append, length-map, occurs-map, arith,
}
use liburing_rs.Base.Int.{ℤ}
use liburing_rs.Sys.Documented.{key_of}
use liburing_rs.Queue.Delivery.{Keeps}
use liburing_rs.AsyncIo.Tokio.{Inner}
use liburing_rs.AsyncIo.Tokio.Poll.{IsFailed}
use liburing_rs.AsyncIo.Tokio.Awaited.{Runs}
use liburing_rs.Sim.Defs.{SimSqe, SimRing}
use liburing_rs.Sim.Loop.{SimFd, poll_flag, sim_runtime}
use liburing_rs.Sim.Eager.{eager, eager_documented, late}
use liburing_rs.Sim.Faultless.{eager_faults}

module _ (code : SimSqe → ℤ) where
  abbrev pub answer_flight : SimRing → SimRing
  answer_flight r = record r { flight = []; done = r.done ++ map (late code) r.flight }

  abbrev pub eager_resume : Inner (eager code) sim_runtime → Option (Inner (eager code) sim_runtime)
  eager_resume s = some (record s { ring = record { ring = answer_flight s.ring.ring } })

  answer_flight-Keeps :
      (r : SimRing) → Keeps (eager code) (eager_documented code) r (answer_flight r)
  answer_flight-Keeps r = record {
    posts = record {
      posted = map (late code) r.flight;
      queued = refl;
      owed = λ k. omega (arith, occurs-map key_of (late code) k r.flight);
      total = omega (arith, length-map (late code) r.flight);
    };
    same = refl;
  }

  goes_on :
      (s t : Inner (eager code) sim_runtime)
      → 1 ≤ length s.ring.ring.flight
      → eager_resume s ≡ some t
      → Keeps (eager code) (eager_documented code) s.ring.ring t.ring.ring
  goes_on s t one e =
      subst (λ t. Keeps (eager code) (eager_documented code) s.ring.ring t.ring.ring) (some-inj e)
        (answer_flight-Keeps s.ring.ring)

  not_spurious :
      (s t : Inner (eager code) sim_runtime)
      → 1 ≤ length s.ring.ring.flight
      → eager_resume s ≡ some t
      → t.ring.ring.done ≡ []
      → ⊥
  not_spurious s t one e none_done = omega (
    arith,
    one,
    ap (λ t. length t.ring.ring.done) (some-inj e),
    ap length none_done,
    length-append s.ring.ring.done (map (late code) s.ring.ring.flight),
    length-map (late code) s.ring.ring.flight,
  )

  unfailing : (b : Bool) (fd : SimFd) (w : ℕ) → IsFailed (poll_flag b fd w).0 → ⊥
  unfailing true fd w h = h
  unfailing false fd w h = h

  pub eager_runs : Runs (eager code) (eager_documented code) sim_runtime eager_resume ⊥
  eager_runs = record {
    faults = eager_faults code;
    unready = λ fd w h. unfailing fd.flag fd w h;
    asleep = λ s none_done some_in e. cc;
    spurious = not_spurious;
    goes_on = goes_on;
  }

-- ===== src/Uring/Session.antt =====
-- src/uring.rs, src/queue.rs, src/ops.rs together: a program that drives one ring by the crate's
-- calls, in any order, as the README shows it.
use liburing_rs.Base.{ℕ, ◌+◌, ◌≡◌, Option, none, some, List, [], ◌∷◌, occurs, arith}
use liburing_rs.Base.Outcome.{StdResult, ok, err}
use liburing_rs.Sys.{Sys, IoUringCqe}
use liburing_rs.Sys.Documented.{Documented, key_of}
use liburing_rs.Error.{Error}
use liburing_rs.Queue.Cqe as CqeOps
use liburing_rs.Queue.Cqe.{Cqe}
use liburing_rs.Queue.Submission.{get_sqe_or_err}
use liburing_rs.Queue.Completion.{peek_cqe, wait_cqe}
use liburing_rs.Queue.Space.{Gets, get_sqe_or_err-Gets}
use liburing_rs.Queue.Fill.{filled, filled-Fills}
use liburing_rs.Queue.Delivery.{
  IsGuard, Keeps, Peeks, empty, found, Gives, failed, nothing, given, peek_cqe-Peeks,
  wait_cqe-Gives,
}
use liburing_rs.Uring.{submit, submit_and_wait}
use liburing_rs.Sys.Progress.{held}
use liburing_rs.Uring.Load.{Keeps-held, filled_held, submit_held, read_held}
use liburing_rs.Uring.Laws.{Submits, submit-Submits, submit_and_wait-Submits}

module _ (sys : Sys) where
  open sys use {Ring, Sqe}

  -- What the program calls: fill an entry, with its user data; submit, by
  -- either call; take a completion that is
  -- there; wait for one and take it.
  pub data Call : Type 0 where
    request : (Sqe → Sqe) → ℕ → Call
    submits : Call
    submits_and_waits : ℕ → Call
    reap : Call
    wait : Call

  -- The ring, the user data of each entry that the program filled, and the completions that it took.
  pub record Session : Type 0 where
    pub ring : Ring
    pub accepted : List ℕ
    pub delivered : List IoUringCqe

  abbrev pub fill : (Sqe → Sqe) → ℕ → Session → StdResult ℕ Error → Ring → Session
  fill prepare k s (err e) r = record s { ring = r }
  fill prepare k s (ok p) r = record s {
    ring = filled sys prepare k r p;
    accepted = k ∷ s.accepted;
  }

  -- Read a completion behind its guard, and drop the guard.
  abbrev pub read : Session → Ring → Cqe → Session
  read s r c = record s {
    ring = CqeOps.drop sys r c;
    delivered =
        record {
          user_data = CqeOps.user_data sys r c;
          res = CqeOps.result sys r c;
          flags = CqeOps.flags sys r c;
        }
        ∷ s.delivered;
  }

  abbrev pub reaped : Session → Option Cqe → Ring → Session
  reaped s none r = record s { ring = r }
  reaped s (some c) r = read s r c

  abbrev pub awaited : Session → StdResult Cqe Error → Ring → Session
  awaited s (err e) r = record s { ring = r }
  awaited s (ok c) r = read s r c

  unfoldable pub step : Session → Call → Session
  step s (request prepare k) = let (got, r) = get_sqe_or_err sys s.ring in fill prepare k s got r
  step s submits = record s { ring = (submit sys (record { ring = s.ring })).1.ring }
  step s (submits_and_waits n) = record s {
    ring = (submit_and_wait sys (record { ring = s.ring }) n).1.ring;
  }
  step s reap = let (got, r) = peek_cqe sys s.ring in reaped s got r
  step s wait = let (got, r) = wait_cqe sys s.ring in awaited s got r

  unfoldable pub run : Session → List Call → Session
  run s [] = s
  run s (c ∷ cs) = run (step s c) cs

  module _ (doc : Documented sys) where
    open doc use {sq, cq, inflight, user_data}

    -- For each user data, the entries that were filled are those queued, in flight, posted or taken.
    abbrev pub IsBalanced : Session → Type 0
    IsBalanced s =
        (k : ℕ) → occurs (λ x. x) k s.accepted ≡ held sys doc k s.ring + occurs key_of k s.delivered

    keep-IsBalanced :
        (s : Session) (r : Ring)
        → Keeps sys doc s.ring r
        → IsBalanced s
        → IsBalanced (record s { ring = r })
    keep-IsBalanced s r keeps b k = omega (arith, b k, Keeps-held sys doc k keeps)

    read-IsBalanced :
        (s : Session) (r : Ring) (c : Cqe) (x : IoUringCqe) (rest : List IoUringCqe)
        → Keeps sys doc s.ring r
        → IsGuard sys doc r c x rest
        → IsBalanced s
        → IsBalanced (read s r c)
    read-IsBalanced s r c x rest keeps g b k =
        ground (arith, b k, read_held sys doc s.ring r c x rest keeps g k)

    fill-IsBalanced :
        (prepare : Sqe → Sqe) (j : ℕ) (s : Session) (got : StdResult ℕ Error) (r : Ring)
        → Gets sys doc s.ring got r
        → IsBalanced s
        → IsBalanced (fill prepare j s got r)
    fill-IsBalanced prepare j s (err _) r (Gets.full _ queue done flight) b k =
        rw (queue, done, flight) (b k)
    fill-IsBalanced prepare j s (ok p) r got b k =
        ground (arith, b k, filled_held sys doc (filled-Fills sys doc prepare j s.ring r p got) k)

    submit-IsBalanced :
        (s : Session) (r : Ring) (n : StdResult ℕ Error)
        → Submits sys doc s.ring r n
        → IsBalanced s
        → IsBalanced (record s { ring = r })
    submit-IsBalanced s r n h b k = omega (arith, b k, submit_held sys doc k s.ring r n h)

    reaped-IsBalanced :
        (s : Session) (got : Option Cqe) (r : Ring)
        → Peeks sys doc s.ring r got
        → IsBalanced s
        → IsBalanced (reaped s got r)
    reaped-IsBalanced s none r (empty keeps _) b = keep-IsBalanced s r keeps b
    reaped-IsBalanced s (some c) r (found _ x rest keeps g) b =
        read-IsBalanced s r c x rest keeps g b

    awaited-IsBalanced :
        (s : Session) (got : StdResult Cqe Error) (r : Ring)
        → Gives sys doc s.ring r got
        → IsBalanced s
        → IsBalanced (awaited s got r)
    awaited-IsBalanced s (err _) r (failed e _ keeps) b = keep-IsBalanced s r keeps b
    awaited-IsBalanced s (err _) r (nothing _ keeps _) b = keep-IsBalanced s r keeps b
    awaited-IsBalanced s (ok c) r (given _ x rest keeps g) b =
        read-IsBalanced s r c x rest keeps g b

    step-IsBalanced : (s : Session) (c : Call) → IsBalanced s → IsBalanced (step s c)
    unfolding step
    step-IsBalanced s (request prepare j) b =
        fill-IsBalanced prepare j s _ _ (get_sqe_or_err-Gets sys doc s.ring) b
    step-IsBalanced s submits b =
        submit-IsBalanced s _ _ (submit-Submits sys doc (record { ring = s.ring })) b
    step-IsBalanced s (submits_and_waits n) b =
        submit-IsBalanced s _ _ (submit_and_wait-Submits sys doc (record { ring = s.ring }) n) b
    step-IsBalanced s reap b = reaped-IsBalanced s _ _ (peek_cqe-Peeks sys doc s.ring) b
    step-IsBalanced s wait b = awaited-IsBalanced s _ _ (wait_cqe-Gives sys doc s.ring) b

    -- From a session whose accounts balance, whatever calls a program makes, in whatever order,
    -- and whatever fails, they balance again: for each user data, the entries that it has filled
    -- are, in number, those still queued, those that the kernel holds, the completions posted and
    -- the completions taken.
    pub run-IsBalanced : (cs : List Call) (s : Session) → IsBalanced s → IsBalanced (run s cs)
    unfolding run
    run-IsBalanced [] s b = b
    run-IsBalanced (c ∷ cs) s b = run-IsBalanced cs (step s c) (step-IsBalanced s c b)

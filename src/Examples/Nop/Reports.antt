-- ===== src/Examples/Nop/Reports.antt =====
-- examples/nop.rs: the report is of the program's own request, and the ring is given back.
use liburing_rs.Base.{◌≡◌, refl, ◌∙◌, arith}
use liburing_rs.Base.Outcome.{StdResult, ok, err}
use liburing_rs.Sys.{Sys}
use liburing_rs.Sys.Documented.{Documented, Counted}
use liburing_rs.Sys.Progress.{IsQuiet}
use liburing_rs.Error.{Error, Result}
use liburing_rs.Ops.Nop
use liburing_rs.Ops.Nop.{nop}
use liburing_rs.Queue.Cqe as CqeOps
use liburing_rs.Queue.Cqe.{Cqe}
use liburing_rs.Uring
use liburing_rs.Uring.{IoUring}
use liburing_rs.Uring.Laws.{submit-Submits, Makes, made, denied, new-Makes}
use liburing_rs.Uring.Exchange.{exchange-Ends}
use liburing_rs.Uring.Faults.{Faults, Silent, lone_ind}
use liburing_rs.Examples.Nop.Defs.{Report, run_nop, with_ring, main}

module _ (sys : Sys) (doc : Documented sys) where
  open sys use {Ring, Kernel, Sqe}
  open doc use {sq, cq, inflight}

  -- What a call may refuse to a program that starts in the system `k`, and what follows from that:
  -- with `⊥` for `F`, no call fails.
  pub record Blames (F : Type 0) (k : Kernel) : Type 0 where
    pub unmade : (e : Error) → (Uring.new sys 8 k).0 ≡ err e → F
    pub faults : Faults sys doc F
    pub silent : Silent sys doc F

  -- The report is of the request that the program made, or a call failed.
  abbrev pub Reports : Type 0 → StdResult Report Error → Type 0
  Reports F (ok report) = report.user_data ≡ 4660
  Reports F (err e) = F

  module _ (F : Type 0) (k : Kernel) (blames : Blames F k) where
    -- The report of a completion.
    abbrev report_of : Ring → Cqe → Result Report
    report_of r c =
        let report : Report = record {
          user_data = CqeOps.user_data sys r c;
          result = CqeOps.result sys r c;
          success = CqeOps.is_success sys r c;
        } in
        ok report

    run-Reports : (u : IoUring sys) → IsQuiet sys doc u.ring → Reports F (run_nop sys u).0
    unfolding run_nop
    run-Reports u q =
        lone_ind sys doc blames.faults blames.silent (Nop.prepare sys nop) 4660 report_of
          (Reports F) u.ring _ _ q
          (exchange-Ends sys doc (Nop.prepare sys nop) 4660 (Uring.submit sys)
            (submit-Submits sys doc) report_of u)
          (λ e f. f) (λ v c x h. h.guard.user_data ∙ h.own)

    module _ (count : Counted sys) where
      open count use {live}

      with_ring_lem :
          (k' : Kernel) (got : StdResult (IoUring sys) Error)
          → ((e : Error) → got ≡ err e → F)
          → ((u : IoUring sys) → got ≡ ok u → IsQuiet sys doc u.ring)
          → Makes sys count k k' got
          → (live (with_ring sys got k').1 ≡ live k) × Reports F (with_ring sys got k').0
      unfolding Uring.drop
      with_ring_lem k' (err e) unmade fresh (denied n same) = (same, unmade e refl)
      with_ring_lem k' (ok u) unmade fresh (made _ more) =
          (omega (arith, count.exit (run_nop sys u).1.ring k', more), run-Reports u (fresh u refl))

      -- When a new ring comes with nothing on it, then at the end of the program the system holds as
      -- many rings as before, on every path. Either the completion that the program reports has the
      -- user data 0x1234 of its own request, or a call failed, and what follows from that is the
      -- case. So if no call fails, the program reports its own request.
      pub main-Reports :
          ((u : IoUring sys) → (Uring.new sys 8 k).0 ≡ ok u → IsQuiet sys doc u.ring)
          → (live (main sys k).1 ≡ live k) × Reports F (main sys k).0
      unfolding main
      main-Reports fresh =
          with_ring_lem (Uring.new sys 8 k).1 (Uring.new sys 8 k).0 blames.unmade fresh
            (new-Makes sys count 8 k)

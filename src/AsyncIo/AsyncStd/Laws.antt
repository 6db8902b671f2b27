-- ===== src/AsyncIo/AsyncStd/Laws.antt =====
-- src/async_io/async_std_impl.rs: whose result `submit_op` returns.
use liburing_rs.Base.Int.{ℤ}
use liburing_rs.Base.Outcome.{StdResult, ok}
use liburing_rs.Sys.{Sys}
use liburing_rs.Sys.Documented.{Documented}
use liburing_rs.Error.{Error, Result}
use liburing_rs.Queue.Cqe as CqeOps
use liburing_rs.Queue.Cqe.{Cqe}
use liburing_rs.Ops.Traits.{PrepareOp}
use liburing_rs.Uring
use liburing_rs.Uring.Laws.{submit-Submits}
use liburing_rs.Uring.Exchange
use liburing_rs.Uring.Exchange.{exchange-Ends}
use liburing_rs.AsyncIo.AsyncStd.Defs.{AsyncIoUring, submit_op}

-- `Ok(cqe.result())`
abbrev pub code : (sys : Sys) → sys.Ring → Cqe → Result ℤ
code sys r c = ok (CqeOps.result sys r c)

module _ (sys : Sys) (doc : Documented sys) {Op : Type 0} ⦃o : PrepareOp sys Op⦄ where
  -- How a call ended: an exchange with the user data 1, whose result is the code.
  abbrev pub Ends : Op → sys.Ring → sys.Ring → StdResult ℤ Error → Type 0
  Ends op =
      Exchange.Ends sys doc (o.prepare op) 1 (Uring.submit sys) (submit-Submits sys doc) (code sys)

  -- `submit_op` refuses a full queue and changes nothing, or fails at the submission with its entry
  -- left in the queue, or fails at the wait with its completion still to come, or takes out the
  -- oldest completion of the ring and returns that one's code, whether or not it answers this
  -- operation.
  pub submit_op-Ends :
      (op : Op) (s : AsyncIoUring sys)
      → Ends op s.ring.ring (submit_op sys op s).1.ring.ring (submit_op sys op s).0
  unfolding submit_op
  submit_op-Ends op s =
      exchange-Ends sys doc (o.prepare op) 1 (Uring.submit sys) (submit-Submits sys doc) (code sys)
        s.ring

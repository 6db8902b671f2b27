-- ===== src/Examples/AsyncNop/Defs.antt =====
-- examples/async_nop_tokio.rs and examples/async_nop_async_std.rs: `main`. What it prints of the result
-- is its value; it has none if the await never ends.
use liburing_rs.Base.{ℕ, Bool, Option, none, some}
use liburing_rs.Base.Int.{ℤ, pos, int_eq}
use liburing_rs.Base.Outcome.{StdResult, ok, err}
use liburing_rs.Sys.{Sys}
use liburing_rs.Error.{Error, Result}
use liburing_rs.Ops.Nop.{Nop, nop, nop_op}
use liburing_rs.AsyncIo.Runtime.{Runtime}
use liburing_rs.AsyncIo.AsyncStd as Std
use liburing_rs.AsyncIo.Tokio as Tok
use liburing_rs.AsyncIo.Tokio.Executor.{await_op}

pub record Completed : Type 0 where
  pub result : ℤ
  pub success : Bool

abbrev pub completed : {S : Type 0} → Option (StdResult ℤ Error × S) → Option (Result Completed)
completed none = none
completed (some (err e, s)) = some (err e)
completed (some (ok result, s)) =
    some (ok (record { result = result; success = int_eq result (pos 0) }))

module _ (AsyncIoUring : Type 0)
    (submit_op : Nop → AsyncIoUring → Option (StdResult ℤ Error × AsyncIoUring)) where
  -- The ring comes from `AsyncIoUring::new(8)?`.
  abbrev pub submit_nop : Result AsyncIoUring → Option (Result Completed)
  submit_nop (err e) = some (err e)
  submit_nop (ok ring) = completed (submit_op nop ring)

module _ (sys : Sys) where
  -- `ring.submit_op(Nop).await`
  abbrev pub await_std :
      Nop → Std.AsyncIoUring sys → Option (StdResult ℤ Error × Std.AsyncIoUring sys)
  await_std op s = some (Std.submit_op sys ⦃p = nop_op sys⦄ op s)

  unfoldable pub main_async_std : sys.Kernel → Option (Result Completed)
  main_async_std k = submit_nop (Std.AsyncIoUring sys) await_std (Std.new sys 8 k).0

  -- When the runtime polls again, and the bound on the polls, are parameters.
  module _ (rt : Runtime) (resume : Tok.Inner sys rt → Option (Tok.Inner sys rt)) (polls fuel : ℕ)
      (w : rt.Waker) where
    abbrev pub await_tokio : Nop → Tok.Inner sys rt → Option (StdResult ℤ Error × Tok.Inner sys rt)
    await_tokio op s = await_op sys rt resume ⦃o = nop_op sys⦄ polls fuel w op s

    unfoldable pub main_tokio : sys.Kernel → Option (Result Completed)
    main_tokio k = submit_nop (Tok.Inner sys rt) await_tokio (Tok.new sys rt 8 k).0

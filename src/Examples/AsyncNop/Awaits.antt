-- ===== src/Examples/AsyncNop/Awaits.antt =====
-- examples/async_nop_tokio.rs and examples/async_nop_async_std.rs: the program comes to its end.
use liburing_rs.Base.{ℕ, ◌≤◌, ◌≡◌, refl, ap, ◌⊎◌, inl, inr, Option, some}
use liburing_rs.Base.Int.{ℤ, pos, int_eq}
use liburing_rs.Base.Outcome.{StdResult, ok, err}
use liburing_rs.Sys.{Sys}
use liburing_rs.Sys.Documented.{Documented}
use liburing_rs.Sys.Progress.{IsQuiet}
use liburing_rs.Error.{Error, Result}
use liburing_rs.Ops.Nop
use liburing_rs.Ops.Nop.{nop, Nop, nop_op}
use liburing_rs.Uring.Faults.{Faults, Silent, lone_ind}
use liburing_rs.AsyncIo.Runtime.{Runtime}
use liburing_rs.AsyncIo.AsyncStd as Std
use liburing_rs.AsyncIo.AsyncStd.Laws.{code, submit_op-Ends}
use liburing_rs.AsyncIo.Tokio as Tok
use liburing_rs.AsyncIo.Tokio.Awaited.{Runs, await_op-Answers}
use liburing_rs.Examples.AsyncNop.Defs.{
  Completed, completed, submit_nop, await_std, await_tokio, main_async_std, main_tokio,
}

-- The program printed a code, and whether that is 0; or the other is the case.
abbrev pub Tells : Type 0 → Option (Result Completed) → Type 0
Tells F o = F ⊎ ((z : ℤ) × (o ≡ some (ok (record { result = z; success = int_eq z (pos 0) }))))

module _ (F S : Type 0) (submit_op : Nop → S → Option (StdResult ℤ Error × S))
    (Idle : S → Type 0) where
  submit_nop-Tells :
      (got : Result S)
      → ((e : Error) → got ≡ err e → F)
      → ((s : S) → got ≡ ok s → Idle s)
      → ((s : S) → Idle s → F ⊎ ((z : ℤ) × (t : S) × (submit_op nop s ≡ some (ok z, t))))
      → Tells F (submit_nop S submit_op got)
  submit_nop-Tells (err e) unmade fresh answers = inl (unmade e refl)
  submit_nop-Tells (ok s) unmade fresh answers = elim (answers s (fresh s refl)) [
    | inl f ↦ inl f
    | inr (z, t, e) ↦ inr (z, ap completed e)
  ]

module _ (sys : Sys) (doc : Documented sys) (F : Type 0) (k : sys.Kernel) where
  -- When a new ring comes with nothing on it, the program on async-std prints the code of the no-op,
  -- and whether it is 0; or a call failed, and what follows from that is the case.
  main_async_std-Tells :
      (faults : Faults sys doc F)
      → Silent sys doc F
      → ((e : Error) → (Std.new sys 8 k).0 ≡ err e → F)
      → ((s : Std.AsyncIoUring sys) → (Std.new sys 8 k).0 ≡ ok s → IsQuiet sys doc s.ring.ring)
      → Tells F (main_async_std sys k)
  unfolding main_async_std
  main_async_std-Tells faults silent unmade fresh =
      submit_nop-Tells F (Std.AsyncIoUring sys) (await_std sys) (λ s. IsQuiet sys doc s.ring.ring)
        (Std.new sys 8 k).0 unmade fresh
        (λ s q.
          let t = (Std.submit_op sys ⦃p = nop_op sys⦄ nop s).1 in
          lone_ind sys doc faults silent (Nop.prepare sys nop) 1 (code sys)
            (λ o.
              F
              ⊎ ((z : ℤ) × (t' : Std.AsyncIoUring sys) × (◌≡◌
                    {A = Option (StdResult ℤ Error × Std.AsyncIoUring sys)} (some (o, t))
                    (some (ok z, t')))))
            s.ring.ring t.ring.ring _ q (submit_op-Ends sys doc ⦃o = nop_op sys⦄ nop s)
            (λ e f. inl f) (λ u c x h. inr (_, t, refl)))

  -- When a new ring comes with nothing on it, and each poll has fuel for two rounds, the program on
  -- tokio prints the code of the no-op, and whether it is 0, with at most two polls of the future; or
  -- a call failed, or the runtime never polls the task again, and what follows from that is the case.
  main_tokio-Tells :
      (rt : Runtime) (resume : Tok.Inner sys rt → Option (Tok.Inner sys rt)) (polls fuel : ℕ)
      (w : rt.Waker)
      → Runs sys doc rt resume F
      → 2 ≤ polls
      → 2 ≤ fuel
      → ((e : Error) → (Tok.new sys rt 8 k).0 ≡ err e → F)
      → ((s : Tok.Inner sys rt) → (Tok.new sys rt 8 k).0 ≡ ok s → IsQuiet sys doc s.ring.ring)
      → Tells F (main_tokio sys rt resume polls fuel w k)
  unfolding main_tokio
  main_tokio-Tells rt resume polls fuel w runs some_polls enough unmade fresh =
      submit_nop-Tells F (Tok.Inner sys rt) (await_tokio sys rt resume polls fuel w)
        (λ s. IsQuiet sys doc s.ring.ring) (Tok.new sys rt 8 k).0 unmade fresh
        (λ s q.
          elim (await_op-Answers sys doc rt resume runs w Nop ⦃o = nop_op sys⦄ polls fuel nop s
            some_polls enough q) [
              | inl f ↦ inl f
              | inr (z, from, t, e, takes, quiet) ↦ inr (z, t, e)
            ])

-- ===== src/Examples/Copy/Short.antt =====
-- examples/io_uring-cp.rs: what a short read does to the copy.
use liburing_rs.Base.{
  ℕ, ◌+◌, ◌-◌, ◌<◌, ◌≡◌, refl, subst, ◌≢◌, true, false, some, List, ◌∷◌, All, arith,
}
use liburing_rs.Base.Int.{ℤ, is_neg, as_usize}
use liburing_rs.Examples.Outcome.{Outcome, done, Good, Good-mono, and_then-Good}
use liburing_rs.Sys.{Sys}
use liburing_rs.Examples.Copy.Defs.{IoData, take_op, Copy}
use liburing_rs.Examples.Copy.Loop.{complete, process, copying, copy_loop}
use liburing_rs.Examples.Copy.Accounts.{Accounts}
use liburing_rs.Examples.Copy.Outcomes.{Grows}
use liburing_rs.Examples.Copy.Completions.{Fits, read-Good, process-Good}
use liburing_rs.Examples.Copy.Ending.{Honest, Stops, stopped, loop-Good}

done_Good : {A : Type 0} (P : A → Type 0) {o : Outcome A} {a : A} → o ≡ done a → Good P o → P a
done_Good P e h = subst (Good P) e h

module _ (sys : Sys) (address : ℕ → ℕ) (infd outfd : ℤ) (n : ℕ) (honest : Honest sys n) where
  short-Grows :
      (d k : ℕ) (res : ℤ) (cs : List (ℤ × ℕ)) (s : Copy sys) {op : IoData} {rest : List IoData}
      → Accounts sys n d s
      → is_neg res ≡ false
      → take_op k s.pending_operations ≡ some (op, rest)
      → op.is_read ≡ true
      → as_usize res < op.len
      → All (Fits n) cs
      → Good (Grows sys n 1) (process sys address infd outfd ((res, k) ∷ cs) s)
  unfolding process
  short-Grows d k res cs s {op} v p e is short fits =
      and_then-Good (Accounts sys n (d + (op.len - as_usize res))) (Grows sys n 1)
        (complete sys address infd outfd (res, k) s) _
        (read-Good sys address infd outfd n d k res s v p e is (omega arith))
        (λ t w.
          Good-mono (Grows sys n (d + (op.len - as_usize res))) (Grows sys n 1)
            (process sys address infd outfd cs t) (λ a (e', le', w'). (e', omega arith, w'))
            (process-Good sys address infd outfd n _ cs t w fits))

  -- Suppose that no completion gives more bytes than its block has. In a state whose accounts are
  -- right, let a read come back with fewer bytes than asked for, and let the loop over the
  -- completions go on from it to its end. Then the outer loop of the copy never ends normally from
  -- there, whatever the fuel and however the kernel answers.
  pub short_read_hangs :
      (d k : ℕ) (res : ℤ) (cs : List (ℤ × ℕ)) (s t : Copy sys) {op : IoData} {rest : List IoData}
      → Accounts sys n d s
      → is_neg res ≡ false
      → take_op k s.pending_operations ≡ some (op, rest)
      → op.is_read ≡ true
      → as_usize res < op.len
      → All (Fits n) cs
      → process sys address infd outfd ((res, k) ∷ cs) s ≡ done t
      → (fuel drained : ℕ) (x : Copy sys) → copy_loop sys address infd outfd fuel drained t ≢ done x
  short_read_hangs d k res cs s t v p e is short fits ends fuel drained x q =
      let (d', le, w) =
        done_Good (Grows sys n 1) ends (short-Grows d k res cs s v p e is short fits) in
      let ((d'', le', w'), over) =
        done_Good (Stops sys address infd outfd n honest d') q
          (loop-Good sys address infd outfd n honest fuel drained d' t w) in
      let (none_lost, _, _) = stopped sys n d'' x (copying sys address infd outfd x) over w' refl in
      absurd (omega (arith, le, le', none_lost))

-- ===== src/Examples/Copy/Outcomes.antt =====
-- examples/io_uring-cp.rs: how a part of `copy_file` may end, and its submissions.
use liburing_rs.Base.{ℕ, ◌≤◌, inl, inr, ltb, Bool-cases}
use liburing_rs.Base.Outcome.{StdResult, ok, err}
use liburing_rs.Sys.{Sys}
use liburing_rs.Examples.Words.{add64}
use liburing_rs.Examples.Outcome.{done, fails, Good}
use liburing_rs.Error.{Error}
use liburing_rs.Uring
use liburing_rs.Uring.{IoUring}
use liburing_rs.Examples.Copy.Defs.{Copy, submit_ring, submit_pending}
use liburing_rs.Examples.Copy.Accounts.{Accounts, ring-Accounts}

module _ (sys : Sys) where
  -- The accounts of a copy of `n` bytes with a shortfall of at least `d`.
  abbrev pub Grows : ℕ → ℕ → Copy sys → Type 0
  Grows n d t = (e : ℕ) × (d ≤ e) × Accounts sys n e t

  pub submit_ring-Good :
      (n d : ℕ) (s : Copy sys) → Accounts sys n d s → Good (Accounts sys n d) (submit_ring sys s)
  submit_ring-Good n d s v = go (Uring.submit sys s.ring).0 (Uring.submit sys s.ring).1
    where
      go :
          (r : StdResult ℕ Error) (u : IoUring sys)
          → Good
              (Accounts sys n d)
              (elim r [ ok _ ↦ done (record s { ring = u }) | err e ↦ fails e ])
      go (ok _) u = ring-Accounts sys n d s u v
      go (err e) u = tt

  pub submit_pending-Good :
      (n d : ℕ) (s : Copy sys) → Accounts sys n d s → Good (Accounts sys n d) (submit_pending sys s)
  unfolding submit_pending
  submit_pending-Good n d s v =
      elim (Bool-cases (ltb 0 (add64 s.reads_in_flight s.writes_in_flight))) [
        | inl some_in ↦ rw some_in (submit_ring-Good n d s v)
        | inr none_in ↦ rw none_in v
      ]

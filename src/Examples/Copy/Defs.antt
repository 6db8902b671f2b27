-- ===== src/Examples/Copy/Defs.antt =====
-- examples/io_uring-cp.rs: `copy_file`. The contents of the buffers are the kernel's business; a buffer is
-- its address and its length, and the allocator is a parameter. An error drops the state.
use liburing_rs.Base.{
  ℕ, zero, suc, ◌*◌, Bool, true, false, Option, none, some, List, [], ◌∷◌, ◌++◌, ltb, ◌==◌,
  if◌then◌else◌,
}
use liburing_rs.Base.Int.{ℤ, is_neg, neg_i32}
use liburing_rs.Base.Outcome.{StdResult, ok, err}
use liburing_rs.Sys.{Sys}
use liburing_rs.Examples.Words.{add64}
use liburing_rs.Examples.Outcome.{Outcome, done, fails}
use liburing_rs.Error.{Error, io, from_raw_os_error}
use liburing_rs.Ops.Traits.{Slice}
use liburing_rs.Queue.Cqe as CqeOps
use liburing_rs.Queue.Cqe.{Cqe}
use liburing_rs.Queue.Completion.{peek_cqe, wait_cqe}
use liburing_rs.Uring
use liburing_rs.Uring.{IoUring}

abbrev pub queue_depth : ℕ
queue_depth = 64

abbrev pub block_size : ℕ
block_size = 32 * 1024

pub record IoData : Type 0 where
  pub buffer : Slice
  pub offset : ℕ
  pub len : ℕ
  pub is_read : Bool

-- `position` and `remove`: the first operation at that offset, and the others.
abbrev pub keep : IoData → Option (IoData × List IoData) → Option (IoData × List IoData)
keep op none = none
keep op (some (found, rest)) = some (found, op ∷ rest)

unfoldable pub take_op : ℕ → List IoData → Option (IoData × List IoData)
take_op k [] = none
take_op k (op ∷ ops) =
    let later = take_op k ops in if op.offset == k then some (op, ops) else keep op later

module _ (sys : Sys) where
  open sys use {Ring}

  -- The variables of `copy_file`.
  pub record Copy : Type 0 where
    pub ring : IoUring sys
    pub offset : ℕ
    pub pending_operations : List IoData
    pub reads_in_flight : ℕ
    pub writes_in_flight : ℕ
    pub bytes_to_read : ℕ
    pub bytes_to_write : ℕ

  abbrev pub begin : ℕ → IoUring sys → Copy
  begin file_size u = record {
    ring = u;
    offset = 0;
    pending_operations = [];
    reads_in_flight = 0;
    writes_in_flight = 0;
    bytes_to_read = file_size;
    bytes_to_write = file_size;
  }

  -- `ring.submit()?`
  abbrev pub submit_ring : Copy → Outcome Copy
  submit_ring s =
      let (n, u) = Uring.submit sys s.ring in
      elim n [ ok _ ↦ done (record s { ring = u }) | err e ↦ fails e ]

  unfoldable pub submit_pending : Copy → Outcome Copy
  submit_pending s =
      if ltb 0 (add64 s.reads_in_flight s.writes_in_flight) then submit_ring s else done s

  -- `while let Some(cqe) = cq.peek_cqe()`, on fuel. The guard is dropped at the end of each round.
  abbrev pub drain_round :
      (Ring → List (ℤ × ℕ) → Option (List (ℤ × ℕ) × Ring))
      → List (ℤ × ℕ)
      → Option Cqe
      → Ring
      → Option (List (ℤ × ℕ) × Ring)
  drain_round again results none r = some (results, r)
  drain_round again results (some c) r =
      again (CqeOps.drop sys r c)
        (results ++ (CqeOps.result sys r c, CqeOps.user_data sys r c) ∷ [])

  unfoldable pub drain : ℕ → Ring → List (ℤ × ℕ) → Option (List (ℤ × ℕ) × Ring)
  drain zero r results = none
  drain (suc fuel) r results =
      let (cqe, r') = peek_cqe sys r in drain_round (drain fuel) results cqe r'

  -- The last loop: `while writes_in_flight > 0`.
  abbrev pub finish_round : (Ring → Outcome Ring) → StdResult Cqe Error → Ring → Outcome Ring
  finish_round again (err e) r = fails e
  finish_round again (ok c) r =
      let result = CqeOps.result sys r c in
      elim (is_neg result) [
        | true ↦ fails (io (from_raw_os_error (neg_i32 result)))
        | false ↦ again (CqeOps.drop sys r c)
      ]

  unfoldable pub finish_writes : ℕ → Ring → Outcome Ring
  finish_writes zero r = done r
  finish_writes (suc n) r = let (cqe, r') = wait_cqe sys r in finish_round (finish_writes n) cqe r'

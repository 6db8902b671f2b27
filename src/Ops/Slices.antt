-- ===== src/Ops/Slices.antt =====
-- src/ops.rs: the transfers that are built from a byte slice.
use liburing_rs.Base.{ℕ, ◌^◌, ◌≤◌, ◌<◌, ◌≡◌, ◌+◌, arith}
use liburing_rs.Base.Int.{ℤ, as_u32}
use liburing_rs.Sys.{Sys}
use liburing_rs.Sys.Documented.{SqeFields}
use liburing_rs.Ops.Traits.{Slice, set_user_data, set_flags}
use liburing_rs.Ops.Read
use liburing_rs.Ops.Write

module _ (sys : Sys) (doc : SqeFields sys) where
  open sys use {Sqe}
  open doc use {fd, addr, len, off, flags, data64}

  -- What an entry `t` asks for: a transfer of descriptor `d` at offset `o` over a part of the slice
  -- that begins at its first byte, over all of it if its length fits 32 bits, with the flags `f`
  -- and the user data `k`.
  pub record Transfers (t : Sqe) (d : ℤ) (buf : Slice) (o f k : ℕ) : Type 0 where
    pub descriptor : fd t ≡ d
    pub offset : off t ≡ o
    pub start : addr t ≡ buf.as_ptr
    pub inside : addr t + len t ≤ buf.as_ptr + buf.len
    pub whole : buf.len < 2 ^ 32 → len t ≡ buf.len
    pub flagged : flags t ≡ f
    pub tagged : data64 t ≡ k

  -- The setters after a preparation, whichever transfer it is.
  configure-Transfers :
      (t : Sqe) (d : ℤ) (buf : Slice) (o f k : ℕ)
      → (fd t ≡ d) × (addr t ≡ buf.as_ptr) × (len t ≡ as_u32 buf.len) × (off t ≡ o) × (flags t ≡ 0)
      → Transfers (set_user_data sys (set_flags sys t f) k) d buf o f k
  unfolding set_user_data set_flags
  configure-Transfers t d buf o f k h =
      ground (arith, doc.set_flags t f, doc.set_data64 (sys.io_uring_sqe_set_flags t f) k)

  read-Transfers :
      (s : Sqe) (d : ℤ) (buf : Slice) (o f k : ℕ)
      → let t = Read.prepare sys (Read.from_slice d buf o) s in
        Transfers (set_user_data sys (set_flags sys t f) k) d buf o f k
  unfolding Read.prepare Read.from_slice
  read-Transfers s d buf o f k =
      configure-Transfers _ d buf o f k (doc.prep_read s d buf.as_ptr (as_u32 buf.len) o)

  write-Transfers :
      (s : Sqe) (d : ℤ) (buf : Slice) (o f k : ℕ)
      → let t = Write.prepare sys (Write.from_slice d buf o) s in
        Transfers (set_user_data sys (set_flags sys t f) k) d buf o f k
  unfolding Write.prepare Write.from_slice
  write-Transfers s d buf o f k =
      configure-Transfers _ d buf o f k (doc.prep_write s d buf.as_ptr (as_u32 buf.len) o)

  -- A read from a slice, prepared on any entry and then given flags and user data, transfers into
  -- the slice and never past its end, into all of it if the length is below 2 ^ 32, and carries the
  -- flags and the user data, whatever the entry held before. So does a write from a slice.
  pub slices-Transfer :
      (s : Sqe) (d : ℤ) (buf : Slice) (o f k : ℕ)
      → let r = Read.prepare sys (Read.from_slice d buf o) s in
        let w = Write.prepare sys (Write.from_slice d buf o) s in
        Transfers (set_user_data sys (set_flags sys r f) k) d buf o f k
        × Transfers (set_user_data sys (set_flags sys w f) k) d buf o f k
  slices-Transfer s d buf o f k = (read-Transfers s d buf o f k, write-Transfers s d buf o f k)

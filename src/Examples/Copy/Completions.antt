-- ===== src/Examples/Copy/Completions.antt =====
-- examples/io_uring-cp.rs: the loop over the completions keeps the accounts.
use liburing_rs.Base.{
  ℕ, ◌+◌, ◌-◌, ◌^◌, ◌≤◌, ◌<◌, ◌≡◌, refl, ap, inl, inr, true, false, Option, none, some, List, [],
  ◌∷◌, All, All-append, All-map_of, ltb, Bool-cases, Option-cases, arith,
}
use liburing_rs.Base.Int.{ℤ, pos, is_neg, as_usize}
use liburing_rs.Examples.Outcome.{done, Good, Good-mono, and_then-Good}
use liburing_rs.Sys.{Sys}
use liburing_rs.Examples.Copy.Defs.{IoData, take_op, Copy}
use liburing_rs.Examples.Copy.Loop.{moved, push_write, wrote, complete, process}
use liburing_rs.Examples.Copy.Accounts.{
  sum_by-append, one_read, one_write, length_of, take_op-sum_by, take_op-All, cap, IsSound,
  IsSound-mono, Accounts,
}
use liburing_rs.Examples.Copy.Outcomes.{Grows, submit_ring-Good}

-- A completion with at most the bytes of its block.
abbrev pub Fits : ℕ → ℤ × ℕ → Type 0
Fits n (res, k) = is_neg res ≡ false → as_usize res ≤ cap n k

module _ (sys : Sys) (address : ℕ → ℕ) (infd outfd : ℤ) where
  open sys use {Ring}

  -- A read that gave `len` bytes.
  moved-Accounts :
      (n d k len : ℕ) (s : Copy sys) {op : IoData} {rest : List IoData} (r : Ring)
      → Accounts sys n d s
      → take_op k s.pending_operations ≡ some (op, rest)
      → op.is_read ≡ true
      → len ≤ op.len
      → Accounts sys n (d + (op.len - len)) (moved sys address infd outfd len op rest s r)
  moved-Accounts n d k len s {op} {rest} r v e is h = record {
    small = v.small;
    covered = v.covered;
    reading = ground (
      arith,
      v.reading,
      v.depth,
      take_op-sum_by one_read k s.pending_operations e,
      sum_by-append one_read rest (op' ∷ []),
    );
    writing = ground (
      arith,
      v.writing,
      v.depth,
      take_op-sum_by one_write k s.pending_operations e,
      sum_by-append one_write rest (op' ∷ []),
    );
    depth = ground (arith, v.reading, v.depth, take_op-sum_by one_read k s.pending_operations e);
    budget = omega (
      arith,
      h,
      v.budget,
      take_op-sum_by length_of k s.pending_operations e,
      sum_by-append length_of rest (op' ∷ []),
    );
    bounded = v.bounded;
    sound =
        All-append (IsSound n (d + (op.len - len))) rest (op' ∷ [])
          (All-map_of (IsSound n d) _ (IsSound-mono n d _ (omega arith)) rest found.2)
          (record { reads = λ q. cc; empty = λ z. omega (arith, z, (found.1.reads is).1) }, tt);
  }
    where
      op' : IoData
      op' = record op { len = len; is_read = false }

      found : (op.offset ≡ k) × IsSound n d op × All (IsSound n d) rest
      found = take_op-All (IsSound n d) k s.pending_operations e v.sound

  wrote-Accounts :
      (n d k : ℕ) (s : Copy sys) {op : IoData} {rest : List IoData}
      → Accounts sys n d s
      → take_op k s.pending_operations ≡ some (op, rest)
      → op.is_read ≡ false
      → Accounts sys n d (wrote sys address infd outfd op rest s)
  wrote-Accounts n d k s {op} {rest} v e is = record {
    small = v.small;
    covered = v.covered;
    reading = ground (arith, v.reading, take_op-sum_by one_read k s.pending_operations e);
    writing = ground (arith, v.writing, v.depth, take_op-sum_by one_write k s.pending_operations e);
    depth = ground (arith, v.writing, v.depth, take_op-sum_by one_write k s.pending_operations e);
    budget =
        omega
          (arith, v.budget, v.small, v.bounded, take_op-sum_by length_of k s.pending_operations e);
    bounded =
        omega
          (arith, v.budget, v.small, v.bounded, take_op-sum_by length_of k s.pending_operations e);
    sound = (take_op-All (IsSound n d) k s.pending_operations e v.sound).2;
  }

  -- The read with user data `k` gave `len` bytes; the write of them is queued or not.
  push_write-Good :
      (n d k len : ℕ) (s : Copy sys) {op : IoData} {rest : List IoData} (p : Option ℕ) (r : Ring)
      → Accounts sys n d s
      → take_op k s.pending_operations ≡ some (op, rest)
      → op.is_read ≡ true
      → len ≤ op.len
      → Good
          (Accounts sys n (d + (op.len - len)))
          (push_write sys address infd outfd len op rest s p r)
  push_write-Good n d k len s none r v e is h =
      submit_ring-Good sys n _ _ (moved-Accounts n d k len s r v e is h)
  push_write-Good n d k len s {op} {rest} (some p) r v e is h =
      rw fits (submit_ring-Good sys n _ _ (moved-Accounts n d k len s _ v e is h))
    where
      fits : ltb op.buffer.len len ≡ false
      fits =
          let found = take_op-All (IsSound n d) k s.pending_operations e v.sound in
          ground (arith, h, (found.1.reads is).2)

  pub read-Good :
      (n d k : ℕ) (res : ℤ) (s : Copy sys) {op : IoData} {rest : List IoData}
      → Accounts sys n d s
      → is_neg res ≡ false
      → take_op k s.pending_operations ≡ some (op, rest)
      → op.is_read ≡ true
      → as_usize res ≤ op.len
      → Good
          (Accounts sys n (d + (op.len - as_usize res)))
          (complete sys address infd outfd (res, k) s)
  unfolding complete
  read-Good n d k res s v p e is h =
      rw (p, e, is) (push_write-Good n d k (as_usize res) s _ _ v e is h)

  write-Good :
      (n d k : ℕ) (res : ℤ) (s : Copy sys) {op : IoData} {rest : List IoData}
      → Accounts sys n d s
      → is_neg res ≡ false
      → take_op k s.pending_operations ≡ some (op, rest)
      → op.is_read ≡ false
      → Good (Accounts sys n d) (complete sys address infd outfd (res, k) s)
  unfolding complete
  write-Good n d k res s v p e is = rw (p, e, is) (wrote-Accounts n d k s v e is)

  other-Good :
      (n d k : ℕ) (res : ℤ) (s : Copy sys)
      → Accounts sys n d s
      → is_neg res ≡ false
      → take_op k s.pending_operations ≡ none
      → Good (Accounts sys n d) (complete sys address infd outfd (res, k) s)
  unfolding complete
  other-Good n d k res s v p e = rw (p, e) v

  failed-Good :
      (P : Copy sys → Type 0) (k : ℕ) (res : ℤ) (s : Copy sys)
      → is_neg res ≡ true
      → Good P (complete sys address infd outfd (res, k) s)
  unfolding complete
  failed-Good P k res s p = rw p tt

  pub complete-Good :
      (n d k : ℕ) (res : ℤ) (s : Copy sys)
      → Accounts sys n d s
      → Fits n (res, k)
      → Good (Grows sys n d) (complete sys address infd outfd (res, k) s)
  complete-Good n d k res s v fits = elim (Bool-cases (is_neg res)) [
    | inl p ↦ failed-Good (Grows sys n d) k res s p
    | inr p ↦ elim (Option-cases (take_op k s.pending_operations)) [
      | inl e ↦
          Good-mono (Accounts sys n d) (Grows sys n d) _ (λ t w. (d, omega arith, w))
            (other-Good n d k res s v p e)
      | inr ((op, rest), e) ↦ elim (Bool-cases op.is_read) [
        | inl is ↦
            let found = take_op-All (IsSound n d) k s.pending_operations e v.sound in
            Good-mono (Accounts sys n (d + (op.len - as_usize res))) (Grows sys n d) _
              (λ t w. (d + (op.len - as_usize res), omega arith, w))
              (read-Good n d k res s v p e is
                (omega (arith, fits p, (found.1.reads is).0, ap (cap n) found.0)))
        | inr is ↦
            Good-mono (Accounts sys n d) (Grows sys n d) _ (λ t w. (d, omega arith, w))
              (write-Good n d k res s v p e is)
      ]
    ]
  ]

  pub process-Good :
      (n d : ℕ) (cs : List (ℤ × ℕ)) (s : Copy sys)
      → Accounts sys n d s
      → All (Fits n) cs
      → Good (Grows sys n d) (process sys address infd outfd cs s)
  unfolding process
  process-Good n d [] s v h = (d, omega arith, v)
  process-Good n d ((res, k) ∷ cs) s v h =
      and_then-Good (Grows sys n d) (Grows sys n d) (complete sys address infd outfd (res, k) s) _
        (complete-Good n d k res s v h.0)
        (λ t (e, le, w).
          Good-mono (Grows sys n e) (Grows sys n d) _ (λ a (e', le', w'). (e', omega arith, w'))
            (process-Good n e cs t w h.1))

  -- A write that comes back with fewer bytes than were asked for is counted as the whole: the bytes
  -- still to write go down by all that were asked for, the write is no longer in flight or pending,
  -- and the ring is as before, so nothing writes the rest. The counters are not below what is taken
  -- from them.
  pub short_write_counts_whole :
      (k got : ℕ) (s : Copy sys) {op : IoData} {rest : List IoData}
      → take_op k s.pending_operations ≡ some (op, rest)
      → op.is_read ≡ false
      → got < op.len
      → op.len ≤ s.bytes_to_write
      → s.bytes_to_write < 2 ^ 64
      → 1 ≤ s.writes_in_flight
      → s.writes_in_flight < 2 ^ 64
      → (t : Copy sys) × (complete sys address infd outfd (pos got, k) s ≡ done t)
        × (t.bytes_to_write + op.len ≡ s.bytes_to_write)
        × (t.writes_in_flight + 1 ≡ s.writes_in_flight)
        × (t.bytes_to_read ≡ s.bytes_to_read)
        × (t.pending_operations ≡ rest)
        × (t.ring ≡ s.ring)
  unfolding complete
  short_write_counts_whole k got s {op} {rest} found is short enough small one few = (
    wrote sys address infd outfd op rest s,
    rw (found, is) refl,
    omega arith,
    omega arith,
    refl,
    refl,
    refl,
  )

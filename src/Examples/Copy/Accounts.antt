-- ===== src/Examples/Copy/Accounts.antt =====
-- examples/io_uring-cp.rs: what the variables of `copy_file` count.
use liburing_rs.Base.{
  ℕ, ◌+◌, ◌-◌, ◌^◌, ◌≤◌, ◌<◌, ◌≡◌, refl, ap, subst, inl, inr, true, Option, none, some, some-inj,
  List, [], ◌∷◌, ◌++◌, All, ◌==◌, Bool-cases, Option-cases, if◌then◌else◌, arith,
}
use liburing_rs.Sys.{Sys}
use liburing_rs.Uring.{IoUring}
use liburing_rs.Examples.Words.{min}
use liburing_rs.Examples.Copy.Defs.{IoData, take_op, Copy, begin, block_size, queue_depth}

-- A sum over the pending operations.
abbrev pub sum_by : (IoData → ℕ) → List IoData → ℕ
sum_by f [] = 0
sum_by f (op ∷ ops) = f op + sum_by f ops

pub sum_by-append :
    (f : IoData → ℕ) (xs ys : List IoData) → sum_by f (xs ++ ys) ≡ sum_by f xs + sum_by f ys
sum_by-append f [] ys = omega arith
sum_by-append f (x ∷ xs) ys = omega (arith, sum_by-append f xs ys)

abbrev pub one_read : IoData → ℕ
one_read op = if op.is_read then 1 else 0

abbrev pub one_write : IoData → ℕ
one_write op = if op.is_read then 0 else 1

abbrev pub length_of : IoData → ℕ
length_of op = op.len

-- The operation that `take_op` finds is one of the list, and the others are left.
pub take_op-sum_by :
    (f : IoData → ℕ) (k : ℕ) (ops : List IoData) {op : IoData} {rest : List IoData}
    → take_op k ops ≡ some (op, rest)
    → sum_by f ops ≡ f op + sum_by f rest
unfolding take_op
take_op-sum_by f k [] e = cc
take_op-sum_by f k (x ∷ xs) {op} {rest} e = elim (Bool-cases (x.offset == k)) [
  | inl hit ↦
      let q : (x, xs) ≡ (op, rest) = some-inj (rw hit at e) in
      omega (arith, ap (λ p. f p.0 + sum_by f p.1) q)
  | inr miss ↦ elim (Option-cases (take_op k xs)) [
    | inl out ↦
        let x : ◌≡◌ {A = Option (IoData × List IoData)} none (some (op, rest)) =
          (rw (miss, out) at e) in
        cc
    | inr ((found, left), e') ↦
        let q : (found, x ∷ left) ≡ (op, rest) = some-inj (rw (miss, e') at e) in
        omega (arith, take_op-sum_by f k xs e', ap (λ p. f p.0 + sum_by f p.1) q)
  ]
]

pub take_op-All :
    (P : IoData → Type 0) (k : ℕ) (ops : List IoData) {op : IoData} {rest : List IoData}
    → take_op k ops ≡ some (op, rest)
    → All P ops
    → (op.offset ≡ k) × P op × All P rest
unfolding take_op
take_op-All P k [] e h = cc
take_op-All P k (x ∷ xs) {op} {rest} e h = elim (Bool-cases (x.offset == k)) [
  | inl hit ↦
      let q : (x, xs) ≡ (op, rest) = some-inj (rw hit at e) in
      subst (λ p. (p.0.offset ≡ k) × P p.0 × All P p.1) q (ground arith, h.0, h.1)
  | inr miss ↦ elim (Option-cases (take_op k xs)) [
    | inl out ↦
        let x : ◌≡◌ {A = Option (IoData × List IoData)} none (some (op, rest)) =
          (rw (miss, out) at e) in
        cc
    | inr ((found, left), e') ↦
        let q : (found, x ∷ left) ≡ (op, rest) = some-inj (rw (miss, e') at e) in
        let (at, p, ps) = take_op-All P k xs e' h.1 in
        subst (λ p. (p.0.offset ≡ k) × P p.0 × All P p.1) q (at, p, (h.0, ps))
  ]
]

-- The length of the block at an offset of a file of `n` bytes.
abbrev pub cap : ℕ → ℕ → ℕ
cap n offset = min (n - offset) block_size

-- A read is that of its whole block, and an operation of length 0 is part of a shortfall `d`.
pub record IsSound (n d : ℕ) (op : IoData) : Type 0 where
  pub reads :
      op.is_read ≡ true → (op.len ≡ cap n op.offset) × (1 ≤ op.len) × (op.buffer.len ≡ op.len)
  pub empty : op.len ≡ 0 → 1 ≤ d

pub IsSound-mono : (n d e : ℕ) → d ≤ e → (op : IoData) → IsSound n d op → IsSound n e op
IsSound-mono n d e h op v = record { reads = v.reads; empty = λ z. omega (arith, v.empty z) }

module _ (sys : Sys) where
  -- The accounts of a copy of `n` bytes, `d` of which will never be counted as written.
  pub record Accounts (n d : ℕ) (s : Copy sys) : Type 0 where
    pub small : n < 2 ^ 64
    pub covered : s.offset + s.bytes_to_read ≡ n
    pub reading : s.reads_in_flight ≡ sum_by one_read s.pending_operations
    pub writing : s.writes_in_flight ≡ sum_by one_write s.pending_operations
    pub depth : s.reads_in_flight + s.writes_in_flight ≤ queue_depth
    pub budget : sum_by length_of s.pending_operations + s.bytes_to_read + d ≡ s.bytes_to_write
    pub bounded : s.bytes_to_write ≤ n
    pub sound : All (IsSound n d) s.pending_operations

  pub begin-Accounts : (n : ℕ) (u : IoUring sys) → n < 2 ^ 64 → Accounts n 0 (begin sys n u)
  begin-Accounts n u h = record {
    small = h;
    covered = omega arith;
    reading = refl;
    writing = refl;
    depth = omega arith;
    budget = omega arith;
    bounded = omega arith;
    sound = tt;
  }

  -- They do not depend on the ring.
  pub ring-Accounts :
      (n d : ℕ) (s : Copy sys) (u : IoUring sys)
      → Accounts n d s
      → Accounts n d (record s { ring = u })
  ring-Accounts n d s u v = record {
    small = v.small;
    covered = v.covered;
    reading = v.reading;
    writing = v.writing;
    depth = v.depth;
    budget = v.budget;
    bounded = v.bounded;
    sound = v.sound;
  }

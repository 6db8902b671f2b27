-- ===== src/Examples/LinkCp/Counting.antt =====
-- examples/link-cp.rs: the counts of a pair's completions in `operations`, and the arithmetic of
-- one completion counted and of one pair queued.
use liburing_rs.Base.{
  ℕ, zero, suc, ◌+◌, ◌*◌, ◌/◌, ◌%◌, ◌^◌, ◌<◌, ◌≡◌, refl, Bool, List, [], ◌∷◌, ◌++◌, length, arith,
  ltb, ◌==◌, if◌then◌else◌,
}
use liburing_rs.Base.Int.{ℤ}
use liburing_rs.Examples.LinkCp.Defs.{IoData, modify, bump}

-- The completions counted for the pair at an index.
abbrev pub completed : List IoData → ℕ → ℕ
completed [] i = 0
completed (op ∷ ops) zero = op.completed_ops
completed (op ∷ ops) (suc i) = completed ops i

pub completed_push :
    (ops : List IoData) (op : IoData) (i : ℕ)
    → op.completed_ops ≡ 0
    → completed (ops ++ op ∷ []) i ≡ completed ops i
completed_push [] op zero h = h
completed_push [] op (suc i) h = refl
completed_push (o ∷ ops) op zero h = refl
completed_push (o ∷ ops) op (suc i) h = completed_push ops op i h

pub length-modify :
    (f : IoData → IoData) (ops : List IoData) (i : ℕ) → length (modify f ops i) ≡ length ops
unfolding modify
length-modify f [] i = refl
length-modify f (op ∷ ops) zero = refl
length-modify f (op ∷ ops) (suc i) = omega (arith, length-modify f ops i)

pub completed-modify :
    (b : Bool) (z : ℤ) (ops : List IoData) (j i : ℕ)
    → completed (modify (bump b z) ops j) i ≡ (
        if j == i
        then if ltb i (length ops) then (completed ops i + 1) % 2 ^ 64 else 0
        else completed ops i)
unfolding modify
completed-modify b z [] j i = ground arith
completed-modify b z (op ∷ ops) zero zero = ground arith
completed-modify b z (op ∷ ops) zero (suc i) = ground arith
completed-modify b z (op ∷ ops) (suc j) zero = ground arith
completed-modify b z (op ∷ ops) (suc j) (suc i) = ground (arith, completed-modify b z ops j i)

-- One completion with the user data `ud` leaves the ring and is counted: for the pair at `i`, `a` and
-- `b` are what the ring held, `a'` and `b'` what it holds, and `c` what was counted.
pub count_one :
    (a b a' b' c ud i len : ℕ)
    → a' + (if ud == 2 * i then 1 else 0) ≡ a
    → b' + (if ud == 2 * i + 1 then 1 else 0) ≡ b
    → a + b + c ≡ (if ltb i len then 2 else 0)
    → a' + b' + (if ud / 2 == i then if ltb i len then (c + 1) % 2 ^ 64 else 0 else c)
      ≡ (if ltb i len then 2 else 0)
count_one a b a' b' c ud i len p q h = ground arith

-- Two entries with the keys of the pair at `len` come onto the ring.
pub push_two :
    (a b a' b' c i len : ℕ)
    → len < 2 ^ 63
    → a'
      ≡ a
        + (if (len * 2) % 2 ^ 64 == 2 * i then 1 else 0)
        + (if ((len * 2) % 2 ^ 64 + 1) % 2 ^ 64 == 2 * i then 1 else 0)
    → b'
      ≡ b
        + (if (len * 2) % 2 ^ 64 == 2 * i + 1 then 1 else 0)
        + (if ((len * 2) % 2 ^ 64 + 1) % 2 ^ 64 == 2 * i + 1 then 1 else 0)
    → a + b + c ≡ (if ltb i len then 2 else 0)
    → a' + b' + c ≡ (if ltb i (len + 1) then 2 else 0)
push_two a b a' b' c i len small p q h = ground arith

-- ===== src/Examples/AsyncBench/Loop.antt =====
-- examples/async_poll_bench.rs and examples/async_poll_bench_async_std.rs: what the loop counts, when
-- each await leaves the ring as it found it.
use liburing_rs.Base.{
  ℕ, zero, suc, ◌+◌, ◌*◌, ◌^◌, ◌≤◌, ◌<◌, ◌≡◌, refl, sym, subst, inl, inr, ◌⊎◌, true, false, Bool,
  Bool-cases, Option, some, List, [], ◌∷◌, length, ltb, arith,
}
use liburing_rs.Base.Int.{ℤ, pos, negsuc, is_neg, int_eq}
use liburing_rs.Base.Outcome.{StdResult, ok, err}
use liburing_rs.Error.{Error}
use liburing_rs.Examples.PollBench.{Pipe}
use liburing_rs.Examples.PollBench.Rounds.{rounds}
use liburing_rs.Examples.AsyncBench.Defs.{
  batch_size, PollOp, Run, ended, and_then, count_reply, Bench, read_then, replied, write_then,
  poll_once, batch, bench_loop, run, run,
}

-- The part of the program ended with a value that has the property, or the other is the case.
abbrev pub Ends : {A : Type 0} → Type 0 → (A → Type 0) → Run A → Type 0
Ends {A} F P o = F ⊎ ((a : A) × (o ≡ ended a) × P a)

module _ {A B : Type 0} (F : Type 0) (P : A → Type 0) (Q : B → Type 0) where
  pub and_then-Ends :
      (o : Run A) (f : A → Run B)
      → Ends F P o
      → ((a : A) → P a → Ends F Q (f a))
      → Ends F Q (and_then o f)
  and_then-Ends o f (inl x) next = inl x
  and_then-Ends o f (inr (a, e, p)) next = subst (λ o. Ends F Q (and_then o f)) (sym e) (next a p)

module _ {A : Type 0} (F : Type 0) (P Q : A → Type 0) where
  pub Ends-mono : (o : Run A) → ((a : A) → P a → Q a) → Ends F P o → Ends F Q o
  Ends-mono o weaken (inl x) = inl x
  Ends-mono o weaken (inr (a, e, p)) = inr (a, e, weaken a p)

-- The requests that are counted for certain, of `n`.
abbrev pub least : Bool → ℕ → ℕ
least true n = n
least false n = 0

least-add : (sure : Bool) (m n : ℕ) → least sure (m + n) ≡ least sure m + least sure n
least-add true m n = refl
least-add false m n = refl

count_reply_bounds :
    (sure : Bool) (z : ℤ) (n : ℕ)
    → (sure ≡ true → is_neg z ≡ false)
    → n + 1 < 2 ^ 64
    → (n + least sure 1 ≤ count_reply (ok z) n) × (count_reply (ok z) n ≤ n + 1)
count_reply_bounds true z n h small = rw (h refl) (omega arith)
count_reply_bounds false (pos m) n h small = omega arith
count_reply_bounds false (negsuc m) n h small = omega arith

module _ (AsyncIoUring : Type 0)
    (submit_op : PollOp → AsyncIoUring → Option (StdResult ℤ Error × AsyncIoUring)) (pipes : Pipe)
    (read_fd : ℤ) (pollin : ℕ) (F : Type 0) (Idle : AsyncIoUring → Type 0) (sure : Bool) where
  open pipes use {State, write_one, read_one}

  abbrev Replies : Option (StdResult ℤ Error × AsyncIoUring) → Type 0
  Replies out =
      F
      ⊎ ((z : ℤ) × (t : AsyncIoUring) × (out ≡ some (ok z, t))
          × Idle t
          × (sure ≡ true → is_neg z ≡ false))

  -- An await on an idle ring ends with a code and leaves the ring idle, and the pipe takes and gives
  -- its byte, or `F` is the case. The code is not negative, where that is `sure`.
  pub record Serves : Type 0 where
    pub replies :
        (s : AsyncIoUring)
        → Idle s
        → Replies (submit_op (record { fd = read_fd; poll_mask = pollin }) s)
    pub unwritten : (p : State) → int_eq (write_one p).0 (pos 1) ≡ false → F
    pub unread : (p : State) → int_eq (read_one p).0 (pos 1) ≡ false → F

  -- The counter went up from `m` by at most `n`, and by `n` where that is sure, and the ring is idle.
  abbrev pub Counts : ℕ → ℕ → Bench AsyncIoUring submit_op pipes read_fd pollin → Type 0
  Counts m n t = (m + least sure n ≤ t.nr_reqs) × (t.nr_reqs ≤ m + n) × Idle t.ring

  module _ (serves : Serves) where
    abbrev B : Type 0
    B = Bench AsyncIoUring submit_op pipes read_fd pollin

    read-Ends :
        (m n : ℕ) (s : B) (x : ℤ × State)
        → (int_eq x.0 (pos 1) ≡ false → F)
        → Counts m n s
        → Ends F (Counts m n) (read_then AsyncIoUring submit_op pipes read_fd pollin s x)
    read-Ends m n s (ret, p) unread c = elim (Bool-cases (int_eq ret (pos 1))) [
      | inl one ↦ inr (record s { pipe = p }, rw one, c)
      | inr none_read ↦ inl (unread none_read)
    ]

    replied-Ends :
        (s : B) (out : Option (StdResult ℤ Error × AsyncIoUring))
        → Replies out
        → s.nr_reqs + 1 < 2 ^ 64
        → Ends F (Counts s.nr_reqs 1) (replied AsyncIoUring submit_op pipes read_fd pollin s out)
    replied-Ends s out (inl x) small = inl x
    replied-Ends s out (inr (z, t, e, idle, h)) small =
        let (low, high) = count_reply_bounds sure z s.nr_reqs h small in
        subst
          (λ o.
            Ends F (Counts s.nr_reqs 1) (replied AsyncIoUring submit_op pipes read_fd pollin s o))
          (sym e)
          (read-Ends s.nr_reqs 1 (record s { ring = t; nr_reqs = count_reply (ok z) s.nr_reqs })
            (read_one s.pipe) (serves.unread s.pipe) (low, high, idle))

    write-Ends :
        (s : B) (x : ℤ × State)
        → (int_eq x.0 (pos 1) ≡ false → F)
        → Idle s.ring
        → s.nr_reqs + 1 < 2 ^ 64
        → Ends F (Counts s.nr_reqs 1) (write_then AsyncIoUring submit_op pipes read_fd pollin s x)
    write-Ends s (ret, p) unwritten idle small = elim (Bool-cases (int_eq ret (pos 1))) [
      | inl one ↦ rw one (
          replied-Ends (record s { pipe = p })
            (submit_op (record { fd = read_fd; poll_mask = pollin }) s.ring)
            (serves.replies s.ring idle) small)
      | inr none_written ↦ inl (unwritten none_written)
    ]

    -- One part of the program after another.
    then-Ends :
        (m n : ℕ) (s : B) (o : Run B) (f : B → Run B)
        → Ends F (Counts s.nr_reqs m) o
        → ((t : B) → Idle t.ring → t.nr_reqs ≤ s.nr_reqs + m → Ends F (Counts t.nr_reqs n) (f t))
        → Ends F (Counts s.nr_reqs (m + n)) (and_then o f)
    then-Ends m n s o f h next =
        and_then-Ends F (Counts s.nr_reqs m) (Counts s.nr_reqs (m + n)) o f h
          (λ t (low, high, idle).
            Ends-mono F (Counts t.nr_reqs n) (Counts s.nr_reqs (m + n)) (f t)
              (λ u (low', high', idle').
                (omega (arith, low, low', least-add sure m n), omega (arith, high, high'), idle'))
              (next t idle high))

    nothing : (s : B) → Idle s.ring → Counts s.nr_reqs 0 s
    nothing s idle = (ground (arith, Bool-cases sure), omega arith, idle)

    batch-Ends :
        (n : ℕ) (s : B)
        → Idle s.ring
        → s.nr_reqs + n < 2 ^ 64
        → Ends F (Counts s.nr_reqs n) (batch AsyncIoUring submit_op pipes read_fd pollin n s)
    unfolding batch poll_once
    batch-Ends zero s idle small = inr (s, refl, nothing s idle)
    batch-Ends (suc n) s idle small =
        let all : Ends F (Counts s.nr_reqs (1 + n))
            (batch AsyncIoUring submit_op pipes read_fd pollin (suc n) s) =
          then-Ends 1 n s
            (write_then AsyncIoUring submit_op pipes read_fd pollin s (write_one s.pipe))
            (batch AsyncIoUring submit_op pipes read_fd pollin n)
            (write-Ends s (write_one s.pipe) (serves.unwritten s.pipe) idle (omega (arith, small)))
            (λ t q most. batch-Ends n t q (omega (arith, most, small))) in
        subst
          (λ k.
            Ends F (Counts s.nr_reqs k)
              (batch AsyncIoUring submit_op pipes read_fd pollin (suc n) s))
          (omega arith) all

    -- Where a reading of the clock is not below the deadline, the loop comes to its end, and the counter has gone up by 32 for each reading of the clock
    -- before the first one that is not below the deadline; or the other is the case.
    pub bench_loop-Ends :
        (deadline : ℕ) (times : List ℕ) (s : B)
        → Idle s.ring
        → rounds deadline times < length times
        → s.nr_reqs + batch_size * rounds deadline times < 2 ^ 64
        → Ends F
            (Counts s.nr_reqs (batch_size * rounds deadline times))
            (bench_loop AsyncIoUring submit_op pipes read_fd pollin deadline times s)
    unfolding bench_loop
    bench_loop-Ends deadline [] s idle over small = absurd (omega (arith, over))
    bench_loop-Ends deadline (now ∷ later) s idle over small =
        elim (Bool-cases (ltb now deadline)) [
          | inl early ↦
              let r = rounds deadline later in
              let ends : r < length later = ground (arith, over, early) in
              let total : s.nr_reqs + batch_size * suc r < 2 ^ 64 = ground (arith, small, early) in
              let both : Ends F (Counts s.nr_reqs (batch_size + batch_size * r)) (
                  and_then (batch AsyncIoUring submit_op pipes read_fd pollin batch_size s)
                    (bench_loop AsyncIoUring submit_op pipes read_fd pollin deadline later)) =
                then-Ends batch_size (batch_size * r) s
                  (batch AsyncIoUring submit_op pipes read_fd pollin batch_size s)
                  (bench_loop AsyncIoUring submit_op pipes read_fd pollin deadline later)
                  (batch-Ends batch_size s idle (omega (arith, total)))
                  (λ t q most.
                    bench_loop-Ends deadline later t q ends (omega (arith, most, total))) in
              rw (early, bench_loop)
                (subst
                  (λ k. Ends F (Counts s.nr_reqs k) (
                    and_then (batch AsyncIoUring submit_op pipes read_fd pollin batch_size s)
                      (bench_loop AsyncIoUring submit_op pipes read_fd pollin deadline later)))
                  (omega arith) both)
          | inr late ↦ rw (late, bench_loop) (inr (s, refl, nothing s idle))
        ]

    -- The whole program on a ring that may not have been made.
    pub run-Ends :
        (deadline : ℕ) (times : List ℕ) (p : State) (ring : StdResult AsyncIoUring Error)
        → ((e : Error) → ring ≡ err e → F)
        → ((s : AsyncIoUring) → ring ≡ ok s → Idle s)
        → rounds deadline times < length times
        → batch_size * rounds deadline times < 2 ^ 64
        → Ends F
            (Counts 0 (batch_size * rounds deadline times))
            (run AsyncIoUring submit_op pipes read_fd pollin deadline times p ring)
    unfolding run
    run-Ends deadline times p (err e) unmade fresh over small = inl (unmade e refl)
    run-Ends deadline times p (ok s) unmade fresh over small =
        bench_loop-Ends deadline times (record { ring = s; pipe = p; nr_reqs = 0 }) (fresh s refl)
          over (omega (arith, small))

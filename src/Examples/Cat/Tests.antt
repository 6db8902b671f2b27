-- ===== src/Examples/Cat/Tests.antt =====
-- Tests of examples/cat.rs, and the instance of its theorem, on a simulated ring that serves a file.
use liburing_rs.Base.{
  ℕ, ◌+◌, ◌-◌, ◌≡◌, refl, sym, ap, ◌∙◌, subst, false, List, [], ◌∷◌, ◌++◌, length, take, drop, ltb,
  if◌then◌else◌, arith,
}
use liburing_rs.Base.Int.{pos}
use liburing_rs.Base.Outcome.{StdResult, ok, err}
use liburing_rs.Sys.{Sys, IoUringCqe}
use liburing_rs.Sys.Documented.{Documented}
use liburing_rs.Error.{IoError, check_ret}
use liburing_rs.Ops.Read
use liburing_rs.Ops.Traits.{Slice, set_user_data}
use liburing_rs.Queue.Cqe as CqeOps
use liburing_rs.Queue.Submission.{get_sqe_or_err, get_sqe, is_full, space_left}
use liburing_rs.Queue.Completion.{wait_cqe}
use liburing_rs.Uring
use liburing_rs.Uring.{IoUring}
use liburing_rs.Examples.Outcome.{done, Ensures}
use liburing_rs.Examples.Cat.Defs.{Stdout, read_block, write_block, cat_loop, cat_file}
use liburing_rs.Examples.Cat.Reads.{Blames, ReadsTo, Serves}
use liburing_rs.Examples.Cat.Total.{Writes, Whole, cat_file_total}
use liburing_rs.Sim.{
  SimSqe, SimRing, Slots, queued, answered, count_slots, sim_with, sim_with_documented, empty_ring,
}

-- "hi" and a line feed
abbrev file : List ℕ
file = 104 ∷ 105 ∷ 10 ∷ []

-- The bytes that a read of `len` bytes at `off` gives.
abbrev given : ℕ → ℕ → ℕ
given len off = if ltb len (length file - off) then len else length file - off

abbrev disk : Sys
disk = sim_with (λ s. pos (given s.len s.off)) (λ r. false)

abbrev disk_documented : Documented disk
disk_documented = sim_with_documented (λ s. pos (given s.len s.off)) (λ r. false)

-- A buffer lies at the address for its offset, and the file is mapped there.
abbrev place : ℕ → ℕ
place offset = 4096 + offset

abbrev mapped : SimRing → Slice → List ℕ
mapped r b = take b.len (drop (b.as_ptr - 4096) file)

abbrev terminal : Stdout
terminal = record { Handle = List ℕ; write_all = λ bs h. (ok tt, h ++ bs) }

never_fails : (e : IoError) → ◌≡◌ {A = StdResult (Unit {0}) IoError} (ok tt) (err e) → ⊥
never_fails e q = cc

abbrev on_screen : Writes ⊥ terminal
on_screen = record {
  bytes = λ h. h;
  appends = λ bs h e. refl;
  blames = λ bs h e q. never_fails e q;
}

abbrev idle : IoUring disk
idle = record { ring = empty_ring }

cat_prints :
    cat_file disk mapped place terminal (pos 3) 4 idle []
    ≡ done (record { ring = idle; offset = 3; handle = file })
unfolding cat_file cat_loop read_block write_block get_sqe_or_err get_sqe set_user_data Read.prepare
    Read.from_slice Uring.submit_and_wait check_ret wait_cqe CqeOps.result CqeOps.drop
cat_prints = refl

ok-inj : {E : Type 0} {a b : ℕ} → ◌≡◌ {A = StdResult ℕ E} (ok a) (ok b) → a ≡ b
ok-inj e = cc

quiet_room : (s : Slots) → queued s ≡ [] → count_slots s ≡ 0
quiet_room Slots.free e = refl
quiet_room (Slots.one a) e = cc
quiet_room (Slots.two a b) e = cc

count_queued : (s : Slots) → count_slots s ≡ length (queued s)
count_queued Slots.free = refl
count_queued (Slots.one a) = refl
count_queued (Slots.two a b) = refl

abbrev answer : SimSqe → IoUringCqe
answer t = record { user_data = t.data64; res = pos (given t.len t.off); flags = 0 }

-- The one request is answered at once.
arrives :
    (u : IoUring disk) (t : SimSqe)
    → queued u.ring.slots ≡ t ∷ []
    → u.ring.done ≡ []
    → t.poll ≡ false
    → (wait_cqe disk (Uring.submit_and_wait disk u 1).1.ring).1.done ≡ answer t ∷ []
unfolding Uring.submit_and_wait wait_cqe
arrives u t one none_done transfer =
    ap (λ d. d ++ answered (λ s. pos (given s.len s.off)) (queued u.ring.slots)) none_done
    ∙ ap (answered (λ s. pos (given s.len s.off))) one
    ∙ rw (transfer, if◌then◌else◌) refl

waits :
    (r : SimRing) (x : IoUringCqe) → r.done ≡ x ∷ [] → (wait_cqe disk r).0 ≡ ok (record { cqe = 1 })
unfolding wait_cqe
waits r x e = rw (e) refl

sends : (u : IoUring disk) → (Uring.submit_and_wait disk u 1).0 ≡ ok (length (queued u.ring.slots))
unfolding Uring.submit_and_wait check_ret
sends u = ap ok (count_queued u.ring.slots)

-- Nothing fails on it.
disk-Blames : Blames disk disk_documented ⊥
unfolding is_full space_left wait_cqe
disk-Blames = record {
  room = λ r q full. ground (arith, quiet_room r.slots q.queue, full);
  refused = λ u e h. cc (sends u);
  partial = λ u n h ne. ne (ok-inj (sym h ∙ sends u));
  unanswered = λ u s fd buf len offset k e one none_done none_in sub h.
      cc (waits (Uring.submit_and_wait disk u 1).1.ring _ (arrives u _ one none_done refl));
}

disk-ReadsTo :
    (r : SimRing) (len offset : ℕ)
    → ReadsTo disk disk_documented mapped file ⊥ r
        (record { as_ptr = place offset; len = len })
        offset
        (pos (given len offset))
disk-ReadsTo r len offset = (ground arith, ground arith, ground arith, rw back refl)
  where
    back : 4096 + offset - 4096 ≡ offset
    back = omega arith

disk-Serves : Serves disk disk_documented mapped file ⊥ place (pos 3)
disk-Serves u s len offset k c x rest one none_done none_in got w =
    subst
      (ReadsTo disk disk_documented mapped file ⊥ u.ring
        (record { as_ptr = place offset; len = len }) offset)
      (ap (λ y. y.res) (first (sym (arrives u _ one none_done refl) ∙ got)))
      (disk-ReadsTo u.ring len offset)
  where
    first : {a b : IoUringCqe} {xs ys : List IoUringCqe} → a ∷ xs ≡ b ∷ ys → a ≡ b
    first e = cc

cat_file_total_example :
    Ensures
      (Whole disk disk_documented mapped place terminal
        (pos 3)
        file
        ⊥
        disk-Blames
        disk-Serves
        on_screen
        (omega arith)
        [])
      ⊥
      (cat_file disk mapped place terminal (pos 3) 4 idle [])
cat_file_total_example =
    cat_file_total disk disk_documented mapped place terminal (pos 3) file ⊥ disk-Blames disk-Serves
      on_screen (omega arith) 4 idle [] (record { queue = refl; done = refl; flight = refl })
      (omega arith)

-- ===== src/Examples/ReadFile/Tests.antt =====
-- Tests of examples/read_file.rs, and the instance of its theorem, on the simulated ring that answers
-- each submission at once.
use liburing_rs.Base.{
  ℕ, ◌≡◌, refl, sym, ap, ◌∙◌, subst, some, List, [], ◌∷◌, length, take, ltb, if◌then◌else◌, arith,
}
use liburing_rs.Base.Int.{pos}
use liburing_rs.Base.Outcome.{ok}
use liburing_rs.Sys.{Sys, IoUringCqe}
use liburing_rs.Sys.Documented.{Documented, Counted}
use liburing_rs.Sys.Progress.{IsQuiet}
use liburing_rs.Error.{check_ret}
use liburing_rs.Ops.Read
use liburing_rs.Ops.Traits.{Slice, set_user_data}
use liburing_rs.Queue.Cqe as CqeOps
use liburing_rs.Queue.Cqe.{Cqe}
use liburing_rs.Queue.Submission.{get_sqe_or_err, get_sqe}
use liburing_rs.Queue.Completion.{peek_cqe}
use liburing_rs.Uring
use liburing_rs.Uring.{IoUring}
use liburing_rs.Examples.Cat.Reads.{ReadsTo}
use liburing_rs.Examples.ReadFile.Defs.{buffer, content, run_read, main}
use liburing_rs.Examples.ReadFile.Reads.{Blames, Serves, Prints, main-Prints}
use liburing_rs.Sim.{SimSqe, SimRing, SimKernel, queued, sim_counted}
use liburing_rs.Sim.Faultless.{ok-inj, has_room, sends_waiting}
use liburing_rs.Sim.Eager.{eager, eager_documented, prompt_answer}

-- "Hello" and a full stop
abbrev file : List ℕ
file = 72 ∷ 101 ∷ 108 ∷ 108 ∷ 111 ∷ 46 ∷ []

-- The bytes that a read of the entry gives, from the start of the file.
abbrev given : SimSqe → ℕ
given s = if ltb s.len (length file) then s.len else length file

abbrev disk : Sys
disk = eager (λ s. pos (given s))

abbrev disk_documented : Documented disk
disk_documented = eager_documented (λ s. pos (given s))

abbrev disk_counted : Counted disk
disk_counted = record {
  live = sim_counted.live;
  init = sim_counted.init;
  init_params = sim_counted.init_params;
  exit = sim_counted.exit;
}

-- The file is mapped at each address.
abbrev mapped : SimRing → Slice → List ℕ
mapped r b = take b.len file

abbrev kernel : SimKernel
kernel = record { live = 0; room = 1 }

prints : main disk mapped (pos 3) 4096 kernel ≡ (ok (content (pos 6) file), kernel)
unfolding main run_read Uring.new Uring.with_flags Uring.drop Uring.submit_and_wait get_sqe_or_err
    get_sqe set_user_data Read.prepare Read.from_slice check_ret peek_cqe CqeOps.result CqeOps.drop
prints = refl

-- The one request is answered at once.
arrives :
    (u : IoUring disk) (t : SimSqe)
    → queued u.ring.slots ≡ t ∷ []
    → u.ring.done ≡ []
    → u.ring.flight ≡ []
    → (Uring.submit_and_wait disk u 1).1.ring.done ≡ prompt_answer (λ s. pos (given s)) t ∷ []
unfolding Uring.submit_and_wait
arrives u t one none_done none_in = rw (one, none_done, none_in) refl

shows :
    (r : SimRing) (x : IoUringCqe)
    → r.done ≡ x ∷ []
    → (peek_cqe disk r).0 ≡ some (record { cqe = 1 })
unfolding peek_cqe
shows r x e = rw (e) refl

-- Nothing fails on it.
disk-Blames : Blames disk disk_documented mapped (pos 3) 4096 file ⊥ kernel
unfolding Uring.new Uring.with_flags check_ret
disk-Blames = record {
  unmade = λ e h. cc h;
  room = has_room (λ s. pos (given s));
  rejected = λ u e h. cc (sends_waiting (λ s. pos (given s)) u);
  partial = λ u n h ne. ne (ok-inj (sym h ∙ sends_waiting (λ s. pos (given s)) u));
  silent = λ u s one none_done none_in sub h.
      cc (shows (Uring.submit_and_wait disk u 1).1.ring _ (arrives u s one none_done none_in));
}

-- A read of 1024 bytes gives the six of the file.
disk-ReadsTo :
    (r : SimRing)
    → ReadsTo disk disk_documented mapped file ⊥ r (buffer disk mapped (pos 3) 4096) 0 (pos 6)
disk-ReadsTo r = (omega arith, omega arith, λ z. absurd (omega (arith, z)), refl)

disk-Serves : Serves disk disk_documented mapped (pos 3) 4096 file ⊥
unfolding Read.prepare Read.from_slice peek_cqe
disk-Serves u s x rest one none_done none_in got =
    subst (ReadsTo disk disk_documented mapped file ⊥ u.ring (buffer disk mapped (pos 3) 4096) 0)
      (ap (λ y. y.res) (first (sym (arrives u _ one none_done none_in) ∙ got)))
      (disk-ReadsTo u.ring)
  where
    first : {a b : IoUringCqe} {xs ys : List IoUringCqe} → a ∷ xs ≡ b ∷ ys → a ≡ b
    first e = cc

fresh :
    (u : IoUring disk) → (Uring.new disk 8 kernel).0 ≡ ok u → IsQuiet disk disk_documented u.ring
unfolding Uring.new Uring.with_flags check_ret
fresh u made =
    subst (λ v. IsQuiet disk disk_documented v.ring) (ok-inj made)
      (record { queue = refl; done = refl; flight = refl })

main-Prints_example :
    ((main disk mapped (pos 3) 4096 kernel).1.live ≡ 0)
    × Prints disk disk_documented mapped
        (pos 3)
        4096
        file
        ⊥
        (main disk mapped (pos 3) 4096 kernel).0
main-Prints_example =
    main-Prints disk disk_documented mapped (pos 3) 4096 file ⊥ kernel disk-Blames disk-Serves
      disk_counted fresh

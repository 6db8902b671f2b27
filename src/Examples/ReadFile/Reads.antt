-- ===== src/Examples/ReadFile/Reads.antt =====
-- examples/read_file.rs: what is printed is the beginning of the file, and the ring is given back.
use liburing_rs.Base.{
  ℕ, zero, suc, ◌≤◌, ◌≡◌, refl, sym, ap, ◌∙◌, subst, ◌≢◌, true, false, Option, none, some, List, [],
  ◌∷◌, ◌++◌, length, length-append, length-map, map, take, ltb, arith,
}
use liburing_rs.Base.Int.{ℤ, pos, negsuc}
use liburing_rs.Base.Outcome.{StdResult, ok, err, Step, ◌>>=◌, ◌>>◌}
use native.Mathlib.Decide.{ℕ_discrete}
use liburing_rs.Sys.{Sys, IoUringCqe}
use liburing_rs.Sys.Documented.{Documented, Counted}
use liburing_rs.Sys.Progress.{IsQuiet, Posts-total}
use liburing_rs.Error.{Error}
use liburing_rs.Ops.Traits.{Slice, set_user_data}
use liburing_rs.Ops.Read
use liburing_rs.Queue.Cqe as CqeOps
use liburing_rs.Queue.Cqe.{Cqe}
use liburing_rs.Queue.Submission.{is_full}
use liburing_rs.Queue.Completion.{peek_cqe}
use liburing_rs.Queue.Space.{Gets, get_sqe_or_err-Gets}
use liburing_rs.Queue.Fill.{tagged, filled, filled-Fills}
use liburing_rs.Queue.Delivery.{Peeks, empty, found, peek_cqe-Peeks}
use liburing_rs.Uring
use liburing_rs.Uring.{IoUring}
use liburing_rs.Uring.Laws.{Submits, took, submit_and_wait-Submits, Makes, made, denied, new-Makes}
use liburing_rs.Uring.Exchange.{on_ring, on_sqe}
use liburing_rs.Examples.Cat.Reads.{ReadsTo, sent}
use liburing_rs.Examples.ReadFile.Defs.{
  Print, no_completion, bytes_read, content, out_of_bounds, buffer, print, print_peeked, run_read,
  with_ring, main,
}

module _ (sys : Sys) (doc : Documented sys) (contents : sys.Ring → Slice → List ℕ) (fd : ℤ)
    (address : ℕ) (file : List ℕ) where
  open sys use {Ring, Sqe, Kernel}
  open doc use {sq, cq, inflight}

  -- The ring behind the peek.
  abbrev pub peeked : IoUring sys → Ring
  peeked u = (peek_cqe sys (sent sys doc u)).1

  abbrev pub read_entry : Sqe → Sqe
  read_entry s =
      sys.io_uring_sqe_set_data64
        (Read.prepare sys (Read.from_slice fd (buffer sys contents fd address) 0) s) 66

  -- What a call may refuse to a program that starts in the system `k`, and what follows from that:
  -- with `⊥` for `F`, no call fails, and the completion is there once `submit_and_wait` returns.
  pub record Blames (F : Type 0) (k : Kernel) : Type 0 where
    pub unmade : (e : Error) → (Uring.new sys 8 k).0 ≡ err e → F
    pub room : (r : Ring) → IsQuiet sys doc r → is_full sys r ≡ true → F
    pub rejected : (u : IoUring sys) (e : Error) → (Uring.submit_and_wait sys u 1).0 ≡ err e → F
    pub partial :
        (u : IoUring sys) (n : ℕ)
        → (Uring.submit_and_wait sys u 1).0 ≡ ok n
        → n ≢ length (sq u.ring)
        → F
    pub silent :
        (u : IoUring sys) (s : Sqe)
        → sq u.ring ≡ s ∷ []
        → cq u.ring ≡ []
        → inflight u.ring ≡ []
        → (Uring.submit_and_wait sys u 1).0 ≡ ok 1
        → (peek_cqe sys (sent sys doc u)).0 ≡ none
        → F

  -- The kernel serves the read: it is alone on its ring, and when its completion is there, the bytes
  -- of the file are in the buffer.
  abbrev pub Serves : Type 0 → Type 0
  Serves F =
      (u : IoUring sys) (s : Sqe) (x : IoUringCqe) (rest : List IoUringCqe)
      → sq u.ring ≡ read_entry s ∷ []
      → cq u.ring ≡ []
      → inflight u.ring ≡ []
      → cq (peeked u) ≡ x ∷ rest
      → ReadsTo sys doc contents file F (peeked u) (buffer sys contents fd address) 0 x.res

  -- The code is the number of bytes printed, at least one, and they are the first ones of the file;
  -- or the file is empty, and the code is 0; or a call failed.
  abbrev pub Prints : Type 0 → StdResult Print Error → Type 0
  Prints F (err e) = F
  Prints F (ok no_completion) = F
  Prints F (ok out_of_bounds) = ⊥
  Prints F (ok (bytes_read (pos n))) = (n ≡ 0) × (file ≡ [])
  Prints F (ok (bytes_read (negsuc e))) = F
  Prints F (ok (content z bytes)) =
      (n : ℕ) × (z ≡ pos (suc n)) × (suc n ≤ length file) × (bytes ≡ take (suc n) file)

  nil_of : (xs : List ℕ) → length xs ≤ 0 → xs ≡ []
  nil_of [] h = refl
  nil_of (x ∷ xs) h = absurd (omega arith)

  print-Prints :
      (F : Type 0) (r : Ring) (z : ℤ)
      → ReadsTo sys doc contents file F r (buffer sys contents fd address) 0 z
      → Prints F (ok (print sys contents fd address z r))
  print-Prints F r (negsuc e) h = h
  print-Prints F r (pos zero) (_, _, last, _) = (refl, nil_of file (last refl (omega arith)))
  print-Prints F r (pos (suc n)) (short, fits, _, same) =
      let inside : ltb 1024 (suc n) ≡ false = ground arith in
      rw inside (n, refl, omega (arith, fits), same)

  module _ (F : Type 0) (k : Kernel) (blames : Blames F k) (serves : Serves F) where
    peek-Prints :
        (u : IoUring sys) (s : Sqe) (got : Option Cqe)
        → sq u.ring ≡ read_entry s ∷ []
        → cq u.ring ≡ []
        → inflight u.ring ≡ []
        → (Uring.submit_and_wait sys u 1).0 ≡ ok 1
        → (peek_cqe sys (sent sys doc u)).0 ≡ got
        → Peeks sys doc (sent sys doc u) (peeked u) got
        → Prints F (ok (print_peeked sys contents fd address got (peeked u)).0)
    peek-Prints u s none one none_done none_in sub p (empty _ _) =
        blames.silent u _ one none_done none_in sub p
    peek-Prints u s (some c) one none_done none_in sub p (found _ x rest _ guard) =
        print-Prints F (peeked u) (CqeOps.result sys (peeked u) c) (
          subst (ReadsTo sys doc contents file F (peeked u) (buffer sys contents fd address) 0)
            (sym guard.result) (serves u s x rest one none_done none_in guard.oldest))

    -- Nothing is found on a ring that held one entry, if the kernel did not take that one.
    partial-Prints :
        (u : IoUring sys) (s : Sqe) (n : ℕ) (got : Option Cqe)
        → sq u.ring ≡ s ∷ []
        → cq u.ring ≡ []
        → inflight u.ring ≡ []
        → n ≢ 1
        → F
        → Submits sys doc u.ring (sent sys doc u) (ok n)
        → Peeks sys doc (sent sys doc u) (peeked u) got
        → Prints F (ok (print_peeked sys contents fd address got (peeked u)).0)
    partial-Prints u s n none one none_done none_in part f (took _ taken split count posts) p = f
    partial-Prints u s n (some c) one none_done none_in part f (took _ taken split count posts)
          (found _ x rest keeps guard) =
        absurd (
          omega (
            arith,
            part,
            count,
            Posts-total posts,
            Posts-total keeps.posts,
            ap length one,
            ap length none_done,
            ap length none_in,
            ap length split,
            ap length guard.oldest,
            length-append taken (sq (sent sys doc u)),
            length-append (inflight u.ring) (map doc.user_data taken),
            length-map doc.user_data taken,
          ))

    -- The part behind the submission, and behind the call of `get_sqe_or_err`.
    abbrev peek_then : StdResult ℕ Error → Step (IoUring sys) Error Print
    peek_then n = do
      λ u. (n, u)
      on_ring sys (λ r.
          let (cqe, r') = peek_cqe sys r in
          let (printed, r'') = print_peeked sys contents fd address cqe r' in (ok printed, r''))

    abbrev fill_then : StdResult ℕ Error → Step (IoUring sys) Error Print
    fill_then got = do
      sqe ← λ u. (got, u)
      on_sqe sys sqe (Read.prepare sys (Read.from_slice fd (buffer sys contents fd address) 0))
      on_sqe sys sqe (λ s. set_user_data sys s 66)
      λ u. Uring.submit_and_wait sys u 1
      on_ring sys (λ r.
          let (cqe, r') = peek_cqe sys r in
          let (printed, r'') = print_peeked sys contents fd address cqe r' in (ok printed, r''))

    submit-Prints :
        (u : IoUring sys) (s : Sqe) (n : StdResult ℕ Error)
        → sq u.ring ≡ read_entry s ∷ []
        → cq u.ring ≡ []
        → inflight u.ring ≡ []
        → (Uring.submit_and_wait sys u 1).0 ≡ n
        → Prints F (peek_then n (Uring.submit_and_wait sys u 1).1).0
    submit-Prints u s (err e) one none_done none_in sub = blames.rejected u e sub
    submit-Prints u s (ok n) one none_done none_in sub = elim (ℕ_discrete n 1) [
      | yes all ↦
          peek-Prints u s _ one none_done none_in (sub ∙ ap ok all) refl
            (peek_cqe-Peeks sys doc (sent sys doc u))
      | no part ↦
          partial-Prints u (read_entry s) n (peek_cqe sys (sent sys doc u)).0 one none_done none_in
            part (blames.partial u n sub (λ e. part (e ∙ ap length one)))
            (subst (Submits sys doc u.ring (sent sys doc u)) sub
              (submit_and_wait-Submits sys doc u 1))
            (peek_cqe-Peeks sys doc (sent sys doc u))
    ]

    fill-Prints :
        (r r' : Ring) (got : StdResult ℕ Error)
        → IsQuiet sys doc r
        → Gets sys doc r got r'
        → Prints F (fill_then got (record { ring = r' })).0
    fill-Prints r r' (err _) q (Gets.full isfull _ _ _) = blames.room r q isfull
    fill-Prints r r' (ok p) q got =
        let prepare = Read.prepare sys (Read.from_slice fd (buffer sys contents fd address) 0) in
        let h = filled-Fills sys doc prepare 66 r r' p got in
        submit-Prints (record { ring = filled sys prepare 66 r' p }) h.was _
          (h.queue
            ∙ ap (λ s. s ++ tagged sys prepare 66 r' p ∷ []) q.queue
            ∙ ap (λ s. s ∷ []) h.made)
          (h.done ∙ q.done) (h.flight ∙ q.flight) refl

    run-Prints :
        (u : IoUring sys) → IsQuiet sys doc u.ring → Prints F (run_read sys contents fd address u).0
    unfolding run_read
    run-Prints u q = fill-Prints u.ring _ _ q (get_sqe_or_err-Gets sys doc u.ring)

    module _ (count : Counted sys) where
      open count use {live}

      with_ring_lem :
          (k' : Kernel) (got : StdResult (IoUring sys) Error)
          → ((e : Error) → got ≡ err e → F)
          → ((u : IoUring sys) → got ≡ ok u → IsQuiet sys doc u.ring)
          → Makes sys count k k' got
          → let (o, k'') = with_ring sys contents fd address got k' in
            (live k'' ≡ live k) × Prints F o
      unfolding Uring.drop
      with_ring_lem k' (err e) unmade fresh (denied n same) = (same, unmade e refl)
      with_ring_lem k' (ok u) unmade fresh (made _ more) = (
        omega (arith, count.exit (run_read sys contents fd address u).1.ring k', more),
        run-Prints u (fresh u refl),
      )

      -- When a new ring comes with nothing on it, and the bytes of the file are in the buffer once
      -- the completion is there, then at the end of the program the system holds as many rings as
      -- before, on every path, and the slice of the buffer never panics. Either the program prints a
      -- code `n` above 0 and the first `n` bytes of the file, or the code 0 for an empty file, or a
      -- call failed, and what follows from that is the case. So if no call fails, and the file has a
      -- byte, the program prints the beginning of the file.
      pub main-Prints :
          ((u : IoUring sys) → (Uring.new sys 8 k).0 ≡ ok u → IsQuiet sys doc u.ring)
          → let (o, k'') = main sys contents fd address k in (live k'' ≡ live k) × Prints F o
      unfolding main
      main-Prints fresh =
          with_ring_lem (Uring.new sys 8 k).1 (Uring.new sys 8 k).0 blames.unmade fresh
            (new-Makes sys count 8 k)

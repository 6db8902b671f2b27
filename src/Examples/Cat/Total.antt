-- ===== src/Examples/Cat/Total.antt =====
-- examples/cat.rs: `cat_file` ends, and has printed the file.
use liburing_rs.Base.{
  ℕ, zero, suc, ◌+◌, ◌-◌, ◌%◌, ◌^◌, ◌≤◌, ◌<◌, ◌≡◌, refl, sym, ap, ◌∙◌, subst, ◌≢◌, inl, inr, false,
  List, ◌++◌, append-nil, append_assoc, length, take, drop, take_all, take_add, ltb, ◌==◌,
  Bool-cases, arith,
}
use liburing_rs.Base.Int.{ℤ, pos}
use liburing_rs.Base.Outcome.{StdResult, ok, err}
use liburing_rs.Sys.{Sys}
use liburing_rs.Sys.Documented.{Documented}
use liburing_rs.Sys.Progress.{IsQuiet}
use liburing_rs.Error.{Error, IoError}
use liburing_rs.Ops.Traits.{Slice}
use liburing_rs.Uring.{IoUring}
use liburing_rs.Examples.Outcome.{Outcome, Ensures, and_then-Ensures}
use liburing_rs.Examples.Cat.Defs.{
  Stdout, Cat, buffer, block_size, read_block, written, write_block, cat_round, cat_loop, cat_file,
}
use liburing_rs.Examples.Cat.Reads.{Blames, ReadsTo, Serves, Block, read_block-Block}

-- `write_all` appends all the bytes, or it fails, and what follows from that is `F`.
pub record Writes (F : Type 0) (out : Stdout) : Type 0 where
  pub bytes : out.Handle → List ℕ
  pub appends :
      (bs : List ℕ) (h : out.Handle)
      → (out.write_all bs h).0 ≡ ok tt
      → bytes (out.write_all bs h).1 ≡ bytes h ++ bs
  pub blames : (bs : List ℕ) (h : out.Handle) (e : IoError) → (out.write_all bs h).0 ≡ err e → F

module _ (sys : Sys) (doc : Documented sys) (contents : sys.Ring → Slice → List ℕ) (address : ℕ → ℕ)
    (out : Stdout) (fd : ℤ) (file : List ℕ) (F : Type 0) (blames : Blames sys doc F)
    (serves : Serves sys doc contents file F address fd) (writes : Writes F out)
    (small : length file < 2 ^ 64) where
  open out use {Handle, write_all}

  -- What is printed is the file up to the offset, behind what was printed before.
  pub record Printed (before : List ℕ) (s : Cat sys contents address out fd) : Type 0 where
    pub quiet : IsQuiet sys doc s.ring.ring
    pub within : s.offset ≤ length file
    pub printed : writes.bytes s.handle ≡ before ++ take s.offset file

  abbrev pub Whole : List ℕ → Cat sys contents address out fd → Type 0
  Whole before s = IsQuiet sys doc s.ring.ring × (writes.bytes s.handle ≡ before ++ file)

  module _ (before : List ℕ) where
    module _ (s : Cat sys contents address out fd) (n : ℕ) (v : Printed before s) where
      abbrev part : List ℕ
      part = contents s.ring.ring (record { as_ptr = address s.offset; len = n })

      written-Ensures :
          (w : StdResult (Unit {0}) IoError × Handle)
          → write_all part s.handle ≡ w
          → n ≤ length file - s.offset
          → part ≡ take n (drop s.offset file)
          → Ensures
              (λ t. Printed before t × (t.offset ≡ s.offset + n))
              F
              (written sys contents address out fd s n w)
      written-Ensures (ok u, h) e fits same =
          let moved : (s.offset + n) % 2 ^ 64 ≡ s.offset + n = omega (arith, v.within, small) in
          (
            record {
              quiet = v.quiet;
              within = omega (arith, moved, v.within, fits);
              printed =
                  subst (λ r. writes.bytes r.1 ≡ writes.bytes s.handle ++ part) e
                    (writes.appends part s.handle (ap (λ r. r.0) e))
                  ∙ ap (λ bs. bs ++ part) v.printed
                  ∙ append_assoc before (take s.offset file) part
                  ∙ ap (λ bs. before ++ (take s.offset file ++ bs)) same
                  ∙ ap (λ bs. before ++ bs) (sym (take_add s.offset n file))
                  ∙ ap (λ k. before ++ take k file) (sym moved);
            },
            moved,
          )
      written-Ensures (err x, h) e fits same = writes.blames part s.handle x (ap (λ r. r.0) e)

      write_block-Ensures :
          ReadsTo sys doc contents file F s.ring.ring
            (buffer sys contents address out fd s)
            s.offset
            (pos n)
          → Ensures
              (λ t. Printed before t × (t.offset ≡ s.offset + n))
              F
              (write_block sys contents address out fd n s)
      unfolding write_block
      write_block-Ensures (short, fits, _, same) =
          let inside : ltb block_size n ≡ false = ground arith in
          rw inside (written-Ensures (write_all part s.handle) refl fits same)

    abbrev Continues :
        ℕ → (Cat sys contents address out fd → Outcome (Cat sys contents address out fd)) → Type 0
    Continues fuel again =
        (t : Cat sys contents address out fd)
        → Printed before t
        → length file - t.offset < fuel
        → Ensures (Whole before) F (again t)

    round-Ensures :
        (fuel : ℕ)
        (again : Cat sys contents address out fd → Outcome (Cat sys contents address out fd))
        (s : Cat sys contents address out fd) (u : IoUring sys) (o : StdResult ℕ Error)
        → Continues fuel again
        → Printed before s
        → length file - s.offset < suc fuel
        → Block sys doc contents file F blames address fd serves s.offset u.ring o
        → Ensures
            (Whole before)
            F
            (cat_round sys contents address out fd again o (record s { ring = u }))
    round-Ensures fuel again s u (err e) next v enough b = b
    round-Ensures fuel again s u (ok n) next v enough (quiet, reads) = elim (Bool-cases (n == 0)) [
      | inl over ↦
          rw (over, cat_round)
            (
              quiet,
              v.printed
                  ∙ ap (λ bs. before ++ bs)
                      (take_all s.offset file (reads.2 (ground arith) (omega arith))),
            )
      | inr more ↦
          let positive : n ≢ 0 = ground arith in
          rw (more, cat_round)
            (and_then-Ensures (λ t. Printed before t × (t.offset ≡ s.offset + n)) (Whole before) F
              (write_block sys contents address out fd n (record s { ring = u })) again
              (write_block-Ensures (record s { ring = u }) n
                (record { quiet = quiet; within = v.within; printed = v.printed }) reads)
              (λ t (w, moved). next t w (omega (arith, moved, reads.1, enough, positive))))
    ]

    loop-Ensures : (fuel : ℕ) → Continues fuel (cat_loop sys contents address out fd fuel)
    unfolding cat_loop
    loop-Ensures zero s v enough = absurd (omega arith)
    loop-Ensures (suc fuel) s v enough =
        round-Ensures fuel (cat_loop sys contents address out fd fuel) s
          (read_block sys fd (buffer sys contents address out fd s) s.offset s.ring).1
          (read_block sys fd (buffer sys contents address out fd s) s.offset s.ring).0
          (loop-Ensures fuel) v enough
          (read_block-Block sys doc contents file F blames address fd serves s.offset s.ring
            v.quiet)

  -- On a ring with nothing left over, and with more fuel than the file has bytes, fewer than
  -- 2 ^ 64, `cat_file` ends and does not panic. Either the output is what was printed before and
  -- then the whole file, and nothing is left over on the ring; or it returned an error, and what
  -- follows from the failure of a call is the case. So if no call fails, it prints the file.
  pub cat_file_total :
      (fuel : ℕ) (u : IoUring sys) (h : Handle)
      → IsQuiet sys doc u.ring
      → length file < fuel
      → Ensures (Whole (writes.bytes h)) F (cat_file sys contents address out fd fuel u h)
  unfolding cat_file
  cat_file_total fuel u h q enough =
      loop-Ensures (writes.bytes h) fuel (record { ring = u; offset = 0; handle = h })
        (record { quiet = q; within = omega arith; printed = sym (append-nil (writes.bytes h)) })
        (omega arith)

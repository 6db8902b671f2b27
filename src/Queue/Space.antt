-- ===== src/Queue/Space.antt =====
-- src/queue.rs: the room in the submission queue, and what a new entry does to it.
use liburing_rs.Base.{
  ℕ, ◌+◌, ◌≤◌, ◌<◌, ◌≡◌, ◌≢◌, ◌↔◌, true, false, [], ◌∷◌, ◌++◌, arith, length, length-append, ◌==◌,
}
use native.Mathlib.Decide.{dec_lt}
use liburing_rs.Base.Outcome.{StdResult, ok, err}
use liburing_rs.Sys.{Sys}
use liburing_rs.Sys.Documented.{Documented}
use liburing_rs.Error.{Error, submission_queue_full}
use liburing_rs.Queue.Submission.{get_sqe, get_sqe_or_err, space_left, is_full}

==_of_ne : {a b : ℕ} → a ≢ b → (a == b) ≡ false
==_of_ne h = ground arith

==_of_eq : {a b : ℕ} → a ≡ b → (a == b) ≡ true
==_of_eq h = ground arith

module _ (sys : Sys) (doc : Documented sys) where
  open sys use {Ring, Sqe}
  open doc use {sq, cq, inflight}

  -- The room that `space_left` reports and the entries in the queue make up the size of the ring:
  -- neither subtraction of `space_left` goes wrong.
  pub space_left-add-length : (r : Ring) → space_left sys r + length (sq r) ≡ sys.ring_entries r
  unfolding space_left
  space_left-add-length r = omega (arith, doc.window r, doc.words r, doc.bounded r)

  -- What `get_sqe_or_err` did: it refused a full queue and left the queues as they were, or handed
  -- out an address, through which any entry that is written becomes the newest of the queue.
  pub data Gets (r : Ring) : StdResult ℕ Error → Ring → Type 0 where
    full :
        {r' : Ring}
        → is_full sys r ≡ true
        → sq r' ≡ sq r
        → cq r' ≡ cq r
        → inflight r' ≡ inflight r
        → Gets r (err submission_queue_full) r'
    handed :
        {r' : Ring} (p : ℕ)
        → is_full sys r ≡ false
        → ((s : Sqe)
            → (sq (sys.set_sqe r' p s) ≡ sq r ++ s ∷ [])
              × (cq (sys.set_sqe r' p s) ≡ cq r)
              × (inflight (sys.set_sqe r' p s) ≡ inflight r)
              × (space_left sys (sys.set_sqe r' p s) + 1 ≡ space_left sys r)
              × ((t : Sqe) → sys.set_sqe (sys.set_sqe r' p s) p t ≡ sys.set_sqe r' p t)
              × (sys.sqe_at (sys.set_sqe r' p s) p ≡ s))
        → Gets r (ok p) r'

  full_iff : (r : Ring) → (is_full sys r ≡ true) ↔ (sys.ring_entries r ≤ length (sq r))
  unfolding is_full
  full_iff r = ground (arith, space_left-add-length r)

  not-full : (r : Ring) → length (sq r) < sys.ring_entries r → is_full sys r ≡ false
  unfolding is_full
  not-full r h = ground (arith, space_left-add-length r)

  room-Gets :
      (r : Ring)
      → length (sq r) < sys.ring_entries r
      → Gets r (get_sqe_or_err sys r).0 (get_sqe_or_err sys r).1
  unfolding get_sqe_or_err get_sqe
  room-Gets r h =
      let (p_ne, writes) = doc.get_sqe_room r h in
      rw (==_of_ne p_ne) (
        handed p (not-full r h) λ s.
          let w = writes s in
          (
            w.0,
            w.1,
            w.2,
            ground (
              arith,
              w.0,
              w.3,
              length-append (sq r) (s ∷ []),
              space_left-add-length r,
              space_left-add-length (sys.set_sqe r' p s),
            ),
            w.5,
            w.4,
          ))
    where
      p : ℕ
      p = (sys.io_uring_get_sqe r).0

      r' : Ring
      r' = (sys.io_uring_get_sqe r).1

  full-Gets :
      (r : Ring)
      → sys.ring_entries r ≤ length (sq r)
      → Gets r (get_sqe_or_err sys r).0 (get_sqe_or_err sys r).1
  unfolding get_sqe_or_err get_sqe
  full-Gets r h =
      let d = doc.get_sqe_full r h in rw (==_of_eq d.0) (full ((full_iff r).1 h) d.1 d.2 d.3)

  -- `get_sqe_or_err` answers `SubmissionQueueFull` exactly when `is_full` holds, and then changes
  -- neither queue. Otherwise it hands out an address such that any entry written through it is
  -- appended to the queue, takes one unit of `space_left`, touches no completion, can be read back
  -- there, and is replaced by a second write.
  pub get_sqe_or_err-Gets : (r : Ring) → Gets r (get_sqe_or_err sys r).0 (get_sqe_or_err sys r).1
  get_sqe_or_err-Gets r = elim (dec_lt (length (sq r)) (sys.ring_entries r)) [
    | yes h ↦ room-Gets r h
    | no h ↦ full-Gets r (omega arith)
  ]

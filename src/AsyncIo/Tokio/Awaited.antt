-- ===== src/AsyncIo/Tokio/Awaited.antt =====
-- src/async_io/tokio_impl.rs: an await of `submit_op` on a ring with nothing left over.
use liburing_rs.Base.{
  ℕ, zero, suc, ◌≤◌, ◌≡◌, refl, sym, ap, ◌∙◌, subst, ◌⊎◌, inl, inr, Option, none, some, List, [],
  ◌∷◌, length, arith,
}
use liburing_rs.Base.Int.{ℤ}
use liburing_rs.Base.Outcome.{StdResult, ok, err}
use liburing_rs.Sys.{Sys}
use liburing_rs.Sys.Documented.{Documented}
use liburing_rs.Sys.Progress.{IsQuiet}
use liburing_rs.Error.{Error}
use liburing_rs.Ops.Traits.{PrepareOp}
use liburing_rs.Queue.Delivery.{Keeps}
use liburing_rs.Uring.Load.{Keeps-load, Keeps-held}
use liburing_rs.Uring.Faults.{Faults, takes_all}
use liburing_rs.AsyncIo.Runtime.{Runtime}
use liburing_rs.AsyncIo.Tokio.Defs.{
  Poll, ready, pending, panicked, SubmitFuture, submitted, Inner, Polled, poll,
}
use liburing_rs.AsyncIo.Tokio.Check.{Takes}
use liburing_rs.AsyncIo.Tokio.Poll.{IsFailed, Polls, poll-Polls}
use liburing_rs.AsyncIo.Tokio.Start.{Starts, full, stuck, sent, continues, first_poll}
use liburing_rs.AsyncIo.Tokio.Alone.{Alone, Settles, Polls-Settles, answered-ne-pending, sent-Alone}
use liburing_rs.AsyncIo.Tokio.Executor.{Answer, resumed, polled_to, drive_on, drive, await_op}

Nil-cases : {A : Type 0} (xs : List A) → (xs ≡ []) ⊎ (1 ≤ length xs)
Nil-cases [] = inl refl
Nil-cases (x ∷ xs) = inr (omega arith)

module _ (sys : Sys) (doc : Documented sys) (rt : Runtime)
    (resume : Inner sys rt → Option (Inner sys rt)) where
  open sys use {Ring}
  open doc use {sq, cq, inflight}

  -- What the runtime and the kernel may refuse, and what follows from that: with `⊥` for `F`, the
  -- descriptor does not fail, and a task whose request is in flight is polled again, once a completion
  -- is there and not before. Until then the kernel has only gone on with what it has.
  pub record Runs (F : Type 0) : Type 0 where
    pub faults : Faults sys doc F
    pub unready : (fd : rt.AsyncFd) (w : rt.Waker) → IsFailed (rt.poll_read_ready fd w).0 → F
    pub asleep :
        (s : Inner sys rt)
        → cq s.ring.ring ≡ []
        → 1 ≤ length (inflight s.ring.ring)
        → resume s ≡ none
        → F
    pub spurious :
        (s t : Inner sys rt)
        → 1 ≤ length (inflight s.ring.ring)
        → resume s ≡ some t
        → cq t.ring.ring ≡ []
        → F
    pub goes_on :
        (s t : Inner sys rt)
        → 1 ≤ length (inflight s.ring.ring)
        → resume s ≡ some t
        → Keeps sys doc s.ring.ring t.ring.ring

  -- The await ended with the code of a completion with the user data `k`, which the last poll found on
  -- the ring `from` and took out, and left nothing on the ring.
  abbrev pub Answers : ℕ → Answer sys rt → Type 0
  Answers k out =
      (res : ℤ) × (from : Ring) × (t : Inner sys rt) × (out ≡ some (ok res, t))
      × Takes sys doc rt k res t.ring.ring from
      × IsQuiet sys doc t.ring.ring

  module _ {F : Type 0} (runs : Runs F) (w : rt.Waker) (Op : Type 0) ⦃o : PrepareOp sys Op⦄ where
    -- The end of an await at a poll that is not pending.
    last_Answers :
        (k : ℕ) (s : Inner sys rt) (again : SubmitFuture Op → Inner sys rt → Answer sys rt)
        (p : Polled sys rt Op) (out : Poll)
        → p.out ≡ out
        → Alone sys doc rt k s.ring.ring
        → Polls sys doc rt k w s p
        → (out ≡ pending → F ⊎ Answers k (polled_to sys rt resume again pending p))
        → F ⊎ Answers k (polled_to sys rt resume again out p)
    last_Answers k s again p (ready (ok res)) e alone h wait =
        let (quiet, takes) =
          subst (λ out. Settles sys doc rt k w s.ring.ring out p.inner) e
            (Polls-Settles sys doc rt k w s alone h) in
        inr (res, s.ring.ring, p.inner, refl, takes, quiet)
    last_Answers k s again p (ready (err x)) e alone h wait =
        inl (runs.unready s.async_fd w (h.faulty x e))
    last_Answers k s again p pending e alone h wait = wait refl
    last_Answers k s again p panicked e alone h wait = absurd (
        subst (λ out. Settles sys doc rt k w s.ring.ring out p.inner) e
          (Polls-Settles sys doc rt k w s alone h))

    -- A poll with the completion there ends the await.
    second_Answers :
        (polls fuel k : ℕ) (s : Inner sys rt)
        → 2 ≤ fuel
        → Alone sys doc rt k s.ring.ring
        → 1 ≤ length (cq s.ring.ring)
        → F ⊎ Answers k (drive sys rt resume (suc polls) fuel w (submitted {Op = Op} k) s)
    unfolding drive
    second_Answers polls fuel k s enough alone one =
        let (p, e, h) = poll-Polls sys doc rt fuel k w s (omega (arith, alone.0)) in
        let answers : F
            ⊎ Answers k (polled_to sys rt resume (drive sys rt resume polls fuel w) p.out p) =
          last_Answers k s (drive sys rt resume polls fuel w) p p.out refl alone h
            (λ e. absurd (answered-ne-pending sys doc rt k w s alone one h e)) in
        subst (λ q. F ⊎ Answers k (drive_on sys rt resume (drive sys rt resume polls fuel w) q))
          (sym e) answers

    -- A task that waits for a request in flight is polled again with the completion there.
    resumed-Answers :
        (polls fuel k : ℕ) (s : Inner sys rt) (f : SubmitFuture Op) (out : Option (Inner sys rt))
        → 2 ≤ fuel
        → resume s ≡ out
        → f ≡ submitted k
        → Alone sys doc rt k s.ring.ring
        → cq s.ring.ring ≡ []
        → 1 ≤ length (inflight s.ring.ring)
        → F ⊎ Answers k (resumed sys rt (drive sys rt resume (suc polls) fuel w f) out)
    resumed-Answers polls fuel k s f none enough e own alone none_done some_in =
        inl (runs.asleep s none_done some_in e)
    resumed-Answers polls fuel k s f (some t) enough e own alone none_done some_in =
        let keeps = runs.goes_on s t some_in e in
        elim (Nil-cases (cq t.ring.ring)) [
          | inl none_yet ↦ inl (runs.spurious s t some_in e none_yet)
          | inr one ↦
              subst (λ g. F ⊎ Answers k (drive sys rt resume (suc polls) fuel w g t)) (sym own)
                (second_Answers polls fuel k t enough
                  (Keeps-load sys doc keeps ∙ alone.0, Keeps-held sys doc k keeps ∙ alone.1) one)
        ]

    -- A poll of a request that is in flight ends the await, or the next one does.
    first_Answers :
        (polls fuel k : ℕ) (s : Inner sys rt)
        → 2 ≤ fuel
        → Alone sys doc rt k s.ring.ring
        → sq s.ring.ring ≡ []
        → F
          ⊎ Answers k (
              drive_on sys rt resume
                (drive sys rt resume (suc polls) fuel w)
                (poll sys rt fuel w s (submitted {Op = Op} k)))
    first_Answers polls fuel k s enough alone none_queued =
        let (p, e, h) = poll-Polls sys doc rt fuel k w s (omega (arith, alone.0)) in
        let answers : F
            ⊎ Answers k (polled_to sys rt resume (drive sys rt resume (suc polls) fuel w) p.out p) =
          last_Answers k s (drive sys rt resume (suc polls) fuel w) p p.out refl alone h (λ waits.
            let (still, none_left, _) : Settles sys doc rt k w s.ring.ring pending p.inner =
              subst (λ out. Settles sys doc rt k w s.ring.ring out p.inner) waits
                (Polls-Settles sys doc rt k w s alone h) in
            resumed-Answers polls fuel k p.inner p.future (resume p.inner) enough refl h.future
              still none_left
              (omega
                (arith, still.0, ap length none_left, ap length h.same, ap length none_queued))) in
        subst
          (λ q. F ⊎ Answers k (drive_on sys rt resume (drive sys rt resume (suc polls) fuel w) q))
          (sym e) answers

    started_Answers :
        (polls fuel : ℕ) (s s' : Inner sys rt) (r : StdResult ℕ Error)
        → 2 ≤ fuel
        → IsQuiet sys doc s.ring.ring
        → Starts sys doc rt w s s' r
        → F
          ⊎ Answers s.next_user_data (
              drive_on sys rt resume
                (drive sys rt resume (suc polls) fuel w)
                (continues sys doc rt {Op = Op} fuel w s' r s.next_user_data))
    started_Answers polls fuel s s' (err _) enough q (full isfull _ _ _ _ _) =
        inl (runs.faults.room s.ring.ring q isfull)
    started_Answers polls fuel s s' (err _) enough q (stuck e _ _ _ _ _ _ u sub) =
        inl (runs.faults.refused u _ sub)
    started_Answers polls fuel s s' (ok k) enough q
          (sent sqe taken tag split posts _ _ u n sub on) =
        elim (takes_all sys doc runs.faults u n sub) [
          | inl empty ↦
              first_Answers polls fuel k s' enough
                (sent-Alone sys doc rt k s.ring.ring s'.ring.ring sqe taken q tag split posts)
                (ap (λ v. sq v.ring) on ∙ empty)
          | inr fault ↦ inl fault
        ]

    -- An await of `submit_op` on a quiet ring, with at least two polls, and fuel of at least 2 for
    -- each, where until a task is polled again the kernel only goes on with the requests in flight. It
    -- ends with the code of a completion with the future's own user data, which its last poll found
    -- and took out, and nothing is left over on the ring; or a call failed, the descriptor failed, the
    -- runtime never polled the task again, or it polled it again with no completion there, and what
    -- follows from that is the case.
    pub await_op-Answers :
        (polls fuel : ℕ) (op : Op) (s : Inner sys rt)
        → 2 ≤ polls
        → 2 ≤ fuel
        → IsQuiet sys doc s.ring.ring
        → F ⊎ Answers s.next_user_data (await_op sys rt resume polls fuel w op s)
    unfolding await_op drive
    await_op-Answers zero fuel op s some_polls enough q = absurd (omega arith)
    await_op-Answers (suc zero) fuel op s some_polls enough q = absurd (omega arith)
    await_op-Answers (suc (suc polls)) fuel op s some_polls enough q =
        let (r, s', starts, e) = first_poll sys doc rt fuel op w s in
        subst
          (λ out.
            F
            ⊎ Answers s.next_user_data
                (drive_on sys rt resume (drive sys rt resume (suc polls) fuel w) out))
          (sym e) (started_Answers polls fuel s s' r enough q starts)

-- ===== src/AsyncIo/Tokio/Alone.antt =====
-- src/async_io/tokio_impl.rs: a future that has the ring to itself, from its first poll to its result.
use liburing_rs.Base.{
  ℕ, ◌+◌, ◌≤◌, ◌≡◌, refl, sym, ap, ◌∙◌, subst, none, some, Option, List, [], ◌∷◌, ◌++◌, map, length,
  length-append, length-map, occurs, occurs-append, occurs-map, occurs-le-length, occurs_none, All,
  some-inj, arith, ◌≢◌,
}
use liburing_rs.Base.Int.{ℤ}
use liburing_rs.Base.Map.{lookup}
use liburing_rs.Base.Outcome.{StdResult, ok, err}
use liburing_rs.Sys.{Sys, IoUringCqe}
use liburing_rs.Sys.Documented.{Documented, Posts, key_of}
use liburing_rs.Sys.Progress.{held, IsQuiet, Posts-count, Posts-total}
use liburing_rs.Error.{Error}
use liburing_rs.Ops.Traits.{PrepareOp}
use liburing_rs.Uring.Load.{load, load-IsQuiet}
use liburing_rs.AsyncIo.Runtime.{Runtime}
use liburing_rs.AsyncIo.Tokio.Defs.{
  Poll, ready, pending, panicked, SubmitFuture, submitted, submit_op, Inner, Polled, poll, start,
}
use liburing_rs.AsyncIo.Tokio.Poll.{Delivers, Polls, poll-Polls}
use liburing_rs.AsyncIo.Tokio.Check.{Takes}
use liburing_rs.AsyncIo.Tokio.Start.{
  Starts, full, stuck, sent, continues, start-Starts, started_poll,
}

module _ (sys : Sys) (doc : Documented sys) (rt : Runtime) where
  open sys use {Ring, Sqe}
  open rt use {Waker}
  open doc use {sq, cq, inflight, user_data}

  -- The ring holds the request or the completion of `k`, and nothing else.
  abbrev pub Alone : ℕ → Ring → Type 0
  Alone k r = (load sys doc r ≡ 1) × (held sys doc k r ≡ 1)

  -- After a poll of the future `k` with the waker `w`, whose loop started on the ring `from`.
  abbrev pub Settles : ℕ → Waker → Ring → Poll → Inner sys rt → Type 0
  Settles k w from (ready (ok res)) s =
      IsQuiet sys doc s.ring.ring × Takes sys doc rt k res s.ring.ring from
  Settles k w from (ready (err e)) s = Unit
  Settles k w from pending s =
      Alone k s.ring.ring × (cq s.ring.ring ≡ []) × (lookup k s.wakers ≡ some w)
  Settles k w from panicked s = ⊥

  -- The completions that the poll takes out of the queue are the future's own.
  module _ (k : ℕ) (r : Ring) (s : Inner sys rt) (seen tail : List IoUringCqe) (alone : Alone k r)
      (others : All (λ x. x.user_data ≢ k) seen)
      (posts : Posts (cq r) (inflight r) (seen ++ tail) (inflight s.ring.ring)) where
    own_only :
        (length seen ≡ 0)
        × (length (sq r) + length tail + length (inflight s.ring.ring) ≡ 1)
        × (occurs user_data k (sq r)
              + occurs key_of k tail
              + occurs (λ x. x) k (inflight s.ring.ring)
            ≡ 1)
    own_only = omega (
      arith,
      alone.0,
      alone.1,
      Posts-total posts,
      Posts-count k posts,
      length-append seen tail,
      occurs-append key_of k seen tail,
      occurs_none key_of k seen others,
      occurs-le-length user_data k (sq r),
      occurs-le-length key_of k tail,
      occurs-le-length (λ (x : ℕ). x) k (inflight s.ring.ring),
    )

    settled :
        (w : Waker) (out : Poll)
        → sq s.ring.ring ≡ sq r
        → Delivers k out tail (cq s.ring.ring)
        → (out ≡ pending → lookup k s.wakers ≡ some w)
        → ((res : ℤ) → out ≡ ready (ok res) → Takes sys doc rt k res s.ring.ring r)
        → Settles k w r out s
    settled w (ready (ok res)) same (x, split, own, code) waits takes = (
      load-IsQuiet sys doc s.ring.ring (omega (arith, own_only.1, ap length same, ap length split)),
      takes res refl,
    )
    settled w (ready (err e)) same d waits takes = tt
    settled w pending same (none_tail, none_left) waits takes = (
      (
        omega (arith, own_only.1, ap length same, ap length none_tail, ap length none_left),
        omega (
          arith,
          own_only.2,
          ap (occurs user_data k) same,
          ap (occurs key_of k) none_tail,
          ap (occurs key_of k) none_left,
        ),
      ),
      none_left,
      waits refl,
    )
    settled w panicked same d waits takes = d

  pub sent-Alone :
      (k : ℕ) (r r' : Ring) (sqe : Sqe) (taken : List Sqe)
      → IsQuiet sys doc r
      → user_data sqe ≡ k
      → sq r ++ sqe ∷ [] ≡ taken ++ sq r'
      → Posts (cq r) (inflight r ++ map user_data taken) (cq r') (inflight r')
      → Alone k r'
  sent-Alone k r r' sqe taken q tag split posts = (
    omega (
      arith,
      Posts-total posts,
      ap length split,
      length-append (sq r) (sqe ∷ []),
      length-append taken (sq r'),
      length-append (inflight r) (map user_data taken),
      length-map user_data taken,
      ap length q.queue,
      ap length q.done,
      ap length q.flight,
    ),
    ground (
      arith,
      tag,
      Posts-count k posts,
      ap (occurs user_data k) split,
      occurs-append user_data k (sq r) (sqe ∷ []),
      occurs-append user_data k taken (sq r'),
      occurs-append (λ x. x) k (inflight r) (map user_data taken),
      occurs-map (λ x. x) user_data k taken,
      ap (occurs user_data k) q.queue,
      ap (occurs key_of k) q.done,
      ap (occurs (λ x. x) k) q.flight,
    ),
  )

  module _ {Op : Type 0} ⦃o : PrepareOp sys Op⦄ where
    abbrev pub Settled : ℕ → Waker → Ring → Option (Polled sys rt Op) → Type 0
    Settled k w from out =
        (p : Polled sys rt Op) × (out ≡ some p)
        × Settles k w from p.out p.inner
        × (p.future ≡ submitted k)

    pub Polls-Settles :
        (k : ℕ) (w : Waker) (s : Inner sys rt) {p : Polled sys rt Op}
        → Alone k s.ring.ring
        → Polls sys doc rt k w s p
        → Settles k w s.ring.ring p.out p.inner
    Polls-Settles k w s {p} alone h =
        settled k s.ring.ring p.inner h.seen h.tail alone h.others h.posts w p.out h.same h.delivers
          h.waits h.takes

    -- With its completion there, a poll is not pending.
    pub answered-ne-pending :
        (k : ℕ) (w : Waker) (s : Inner sys rt) {p : Polled sys rt Op}
        → Alone k s.ring.ring
        → 1 ≤ length (cq s.ring.ring)
        → Polls sys doc rt k w s p
        → p.out ≢ pending
    answered-ne-pending k w s {p} alone one h e =
        let none_tail : h.tail ≡ [] =
          (subst (λ o. Delivers k o h.tail (cq p.inner.ring.ring)) e h.delivers).0 in
        omega (
          arith,
          one,
          (own_only k s.ring.ring p.inner h.seen h.tail alone h.others h.posts).0,
          ap length none_tail,
          ap length h.posts.queued,
          length-append h.seen h.tail,
          length-append (cq s.ring.ring) h.posts.posted,
        )

    Alone-Settled :
        (fuel k : ℕ) (w : Waker) (s : Inner sys rt)
        → 2 ≤ fuel
        → Alone k s.ring.ring
        → Settled k w s.ring.ring (poll sys rt fuel w s (submitted k))
    Alone-Settled fuel k w s enough alone =
        let (p, e, h) = poll-Polls sys doc rt fuel k w s (omega (arith, alone.0)) in
        (p, e, Polls-Settles k w s alone h, h.future)

    continues-Settled :
        (fuel : ℕ) (w : Waker) (s s' : Inner sys rt) (r : StdResult ℕ Error)
        → 2 ≤ fuel
        → IsQuiet sys doc s.ring.ring
        → Starts sys doc rt w s s' r
        → Settled s.next_user_data w s'.ring.ring
            (continues sys doc rt fuel w s' r s.next_user_data)
    continues-Settled fuel w s s' (err _) enough q (full _ _ _ _ _ _) = (_, refl, tt, refl)
    continues-Settled fuel w s s' (err _) enough q (stuck _ _ _ _ _ _ _ _ _) = (_, refl, tt, refl)
    continues-Settled fuel w s s' (ok k) enough q (sent sqe taken tag split posts _ _ _ _ _ _) =
        Alone-Settled fuel k w s' enough
          (sent-Alone k s.ring.ring s'.ring.ring sqe taken q tag split posts)

    -- The ring on which the loop over the completions starts: the state that is polled, or at the first
    -- poll what the submission left.
    abbrev pub loop_ring : Waker → Inner sys rt → Option Op → Ring
    loop_ring w s none = s.ring.ring
    loop_ring w s (some op) = (start sys rt op w s).1.ring.ring

    -- The future of `op`, made on the state `u` and then polled, with any wakers, while it is pending
    -- and no other future is polled.
    pub data Waits (u : Inner sys rt) (op : Op) : Inner sys rt → SubmitFuture Op → Type 0 where
      made : Waits u op u (submit_op sys rt op)
      polled :
          {s : Inner sys rt} {f : SubmitFuture Op} (fuel : ℕ) (w : Waker) (p : Polled sys rt Op)
          → Waits u op s f
          → 2 ≤ fuel
          → poll sys rt fuel w s f ≡ some p
          → p.out ≡ pending
          → Waits u op p.inner p.future

    -- A future is made on a quiet ring and polled any number of times, with any wakers, while no other
    -- future is. With fuel of at least 2, each of its polls returns and does not panic. If it is
    -- ready with a result code, that is the code of a completion with the future's own user data,
    -- which the poll found and took out: the peeks of its loop, from the ring that it was polled on,
    -- or at the first poll from the one behind the submission, lead to that completion, and its drop
    -- to the ring that the poll leaves. Nothing is left over on that ring. If it is pending, its request is queued or in flight, with
    -- nothing else on the ring and no completion unseen, and its latest waker is registered.
    pub poll-Settled :
        {u : Inner sys rt} {op : Op} {s : Inner sys rt} {f : SubmitFuture Op} (fuel : ℕ) (w : Waker)
        → IsQuiet sys doc u.ring.ring
        → 2 ≤ fuel
        → Waits u op s f
        → Settled u.next_user_data w (loop_ring w s f.op) (poll sys rt fuel w s f)
    unfolding submit_op
    poll-Settled {u} {op} fuel w q enough made =
        let (r, s') = start sys rt op w u in
        let starts = start-Starts sys doc rt op w u in
        let e = started_poll sys doc rt fuel op w u in
        let (p, e', h, f) = continues-Settled fuel w u s' r enough q starts in (p, e ∙ e', h, f)
    poll-Settled {u} fuel w q enough (polled {s} {f} fuel' w' p waits enough' e out) =
        let (p', e', h, own) = poll-Settled fuel' w' q enough' waits in
        let same : p' ≡ p = some-inj (sym e' ∙ e) in
        let from = loop_ring w' s f.op in
        let alone : Settles u.next_user_data w' from pending p.inner =
          subst (λ x. Settles u.next_user_data w' from x p.inner) out
            (subst (λ x. Settles u.next_user_data w' from x.out x.inner) same h) in
        subst
          (λ x.
            Settled u.next_user_data w (loop_ring w p.inner x.op) (poll sys rt fuel w p.inner x))
          (sym (sym (ap (λ x. x.future) same) ∙ own))
          (Alone-Settled fuel u.next_user_data w p.inner enough alone.0)

-- ===== src/AsyncIo/Tokio/Lost.antt =====
-- src/async_io/tokio_impl.rs: when a future gets its result, and how one future's poll loses the
-- result of another.
use liburing_rs.Base.{
  ℕ, ◌+◌, ◌≤◌, ◌<◌, ◌≡◌, refl, sym, ap, ◌∙◌, ◌++◌, append_assoc, ◌≢◌, ◌⊎◌, inl, inr, some, List, [],
  ◌∷◌, All, arith, occurs, occurs-append,
}
use liburing_rs.Base.Int.{ℤ}
use liburing_rs.Base.Outcome.{ok, err}
use liburing_rs.Sys.{Sys, IoUringCqe}
use liburing_rs.Sys.Documented.{Documented, key_of}
use liburing_rs.Sys.Progress.{Posts-count}
use liburing_rs.Ops.Traits.{PrepareOp}
use liburing_rs.AsyncIo.Runtime.{Runtime}
use liburing_rs.AsyncIo.Tokio.Defs.{Poll, ready, pending, panicked, submitted, Inner, Polled, poll}
use liburing_rs.AsyncIo.Tokio.Check.{load}
use liburing_rs.AsyncIo.Tokio.Poll.{Delivers, Polls, poll-Polls, eq-Polls}

occurs-others :
    (k : ℕ) (xs : List IoUringCqe) → All (λ x. x.user_data ≢ k) xs → occurs key_of k xs ≡ 0
occurs-others k [] h = refl
occurs-others k (x ∷ xs) h = ground (arith, occurs-others k xs h.1)

-- A poll that is not ready with a code has left nothing in the queue.
Delivers-cases :
    (k : ℕ) (out : Poll) (tail left : List IoUringCqe)
    → Delivers k out tail left
    → ((res : ℤ) × (out ≡ ready (ok res)) × (occurs key_of k tail ≡ occurs key_of k left + 1))
      ⊎ ((tail ≡ []) × (left ≡ []) × ((res : ℤ) → out ≢ ready (ok res)))
Delivers-cases k (ready (ok res)) tail left (x, e, key, code) =
    inl (res, refl, ground (arith, ap (occurs key_of k) e))
Delivers-cases k (ready (err e)) tail left d = inr (d.0, d.1, λ res q. cc)
Delivers-cases k pending tail left d = inr (d.0, d.1, λ res q. cc)
Delivers-cases k panicked tail left d = absurd d

cons-tail : {x y : IoUringCqe} {xs ys : List IoUringCqe} → x ∷ xs ≡ y ∷ ys → (x ≡ y) × (xs ≡ ys)
cons-tail e = (cc, cc)

-- A poll that passed over completions of others delivers the first one of its own.
Delivers-first :
    (k : ℕ) (out : Poll) (before seen tail after left : List IoUringCqe) (x : IoUringCqe)
    → All (λ y. y.user_data ≢ k) before
    → All (λ y. y.user_data ≢ k) seen
    → x.user_data ≡ k
    → seen ++ tail ≡ before ++ x ∷ after
    → Delivers k out tail left
    → out ≡ ready (ok x.res)
Delivers-first k (ready (ok res)) [] [] tail after left x _ _ own e (y, split, _, code) =
    ap (λ z. ready (ok z)) (sym code ∙ ap (λ z. z.res) (cons-tail (sym split ∙ e)).0)
Delivers-first k (ready (err _)) [] [] tail after left x _ _ own e (none_tail, _) = cc (none_tail)
Delivers-first k pending [] [] tail after left x _ _ own e (none_tail, _) = cc (none_tail)
Delivers-first k panicked [] [] tail after left x _ _ own e d = absurd d
Delivers-first k out [] (z ∷ seen) tail after left x _ (ne, _) own e d =
    absurd (ne (ap (λ c. c.user_data) (cons-tail e).0 ∙ own))
Delivers-first k (ready (ok res)) (z ∷ before) [] tail after left x (ne, _) _ own e
      (y, split, key, code) =
    absurd (ne (sym (ap (λ c. c.user_data) (cons-tail (sym split ∙ e)).0) ∙ key))
Delivers-first k (ready (err _)) (z ∷ before) [] tail after left x _ _ own e (none_tail, _) =
    cc (none_tail)
Delivers-first k pending (z ∷ before) [] tail after left x _ _ own e (none_tail, _) = cc (none_tail)
Delivers-first k panicked (z ∷ before) [] tail after left x _ _ own e d = absurd d
Delivers-first k out (z ∷ before) (y ∷ seen) tail after left x (_, bs) (_, ss) own e d =
    Delivers-first k out before seen tail after left x bs ss own (cons-tail e).1 d

-- What is left in the queue was there before, at each user data.
Delivers-left :
    (j k : ℕ) (out : Poll) (tail left : List IoUringCqe)
    → Delivers j out tail left
    → occurs key_of k left ≤ occurs key_of k tail
Delivers-left j k (ready (ok res)) tail left (x, e, _, _) = ground (arith, ap (occurs key_of k) e)
Delivers-left j k (ready (err e)) tail left d = omega (arith, ap (occurs key_of k) d.1)
Delivers-left j k pending tail left d = omega (arith, ap (occurs key_of k) d.1)
Delivers-left j k panicked tail left d = absurd d

module _ (sys : Sys) (doc : Documented sys) (rt : Runtime) where
  open doc use {cq, inflight}

  -- The completions with user data `k` that are posted, and those that the kernel owes.
  abbrev pub posted : ℕ → Inner sys rt → ℕ
  posted k s = occurs key_of k (cq s.ring.ring)

  abbrev pub owed : ℕ → Inner sys rt → ℕ
  owed k s = occurs (λ x. x) k (inflight s.ring.ring)

  -- No completion of `k` is posted, and the kernel owes none.
  abbrev pub IsGone : ℕ → Inner sys rt → Type 0
  IsGone k s = posted k s + owed k s ≡ 0

module _ (sys : Sys) (doc : Documented sys) (rt : Runtime) (Op : Type 0)
    ⦃o : PrepareOp sys Op⦄ where
  open rt use {Waker}
  open doc use {cq, inflight}

  -- A submitted future whose completion stands in the queue, whatever stands before it, gets that
  -- completion's code at its next poll, if the fuel exceeds the completions posted and owed: the code
  -- of the first one in the queue with the future's user data.
  pub poll_finds :
      (fuel k : ℕ) (w : Waker) (s : Inner sys rt) (before after : List IoUringCqe) (x : IoUringCqe)
      → load sys doc rt s.ring.ring < fuel
      → cq s.ring.ring ≡ before ++ x ∷ after
      → All (λ y. y.user_data ≢ k) before
      → x.user_data ≡ k
      → (p : Polled sys rt Op) × (poll sys rt fuel w s (submitted k) ≡ some p)
        × (p.out ≡ ready (ok x.res))
  poll_finds fuel k w s before after x h there others own =
      let (p, e, polls) = poll-Polls sys doc rt fuel k w s h in
      (
        p,
        e,
        Delivers-first k p.out before polls.seen polls.tail (after ++ polls.posts.posted) _ x others
            polls.others own
            (polls.posts.queued
              ∙ ap (λ c. c ++ polls.posts.posted) there
              ∙ append_assoc before (x ∷ after) polls.posts.posted)
            polls.delivers,
      )

  -- If at the end of a poll of a submitted future the kernel owes fewer completions with its user data
  -- than were posted or owed at the start, as when it has answered the future's request by then, then
  -- the poll is ready with a code.
  pub poll_answered :
      (fuel k : ℕ) (w : Waker) (s : Inner sys rt) {p : Polled sys rt Op}
      → load sys doc rt s.ring.ring < fuel
      → poll sys rt fuel w s (submitted k) ≡ some p
      → owed sys doc rt k p.inner < posted sys doc rt k s + owed sys doc rt k s
      → (res : ℤ) × (p.out ≡ ready (ok res))
  poll_answered fuel k w s {p} enough e fewer =
      let h = eq-Polls sys doc rt fuel k w s enough e in
      elim (Delivers-cases k p.out h.tail _ h.delivers) [
        | inl (res, q, _) ↦ (res, q)
        | inr (none_left, _, _) ↦ absurd (
            omega (
              arith,
              fewer,
              Posts-count k h.posts,
              occurs-others k h.seen h.others,
              occurs-append key_of k h.seen h.tail,
              ap (occurs key_of k) none_left,
            ))
      ]

  -- Whatever future is polled, a completion that is gone does not come back.
  Polls-IsGone :
      (j k : ℕ) (w : Waker) (s : Inner sys rt) (p : Polled sys rt Op)
      → Polls sys doc rt j w s p
      → IsGone sys doc rt k s
      → IsGone sys doc rt k p.inner
  Polls-IsGone j k w s p h gone = omega (
    arith,
    Posts-count k h.posts,
    occurs-append key_of k h.seen h.tail,
    Delivers-left j k p.out h.tail (cq p.inner.ring.ring) h.delivers,
  )

  Polls-pending-IsGone :
      (j k : ℕ) (w : Waker) (s : Inner sys rt) (p : Polled sys rt Op)
      → Polls sys doc rt j w s p
      → p.out ≡ pending
      → owed sys doc rt k s ≡ 0
      → IsGone sys doc rt k p.inner
  Polls-pending-IsGone j k w s p h pend answered =
      elim (Delivers-cases j p.out h.tail _ h.delivers) [
        | inl (_, e, _) ↦ cc
        | inr (_, e, _) ↦ omega (arith, ap (occurs key_of k) e, h.posts.owed k)
      ]

  pub Polls-IsGone_not_ready :
      (k : ℕ) (w : Waker) (s : Inner sys rt) (p : Polled sys rt Op)
      → Polls sys doc rt k w s p
      → IsGone sys doc rt k s
      → (res : ℤ) → p.out ≢ ready (ok res)
  Polls-IsGone_not_ready k w s p h gone = elim (Delivers-cases k p.out h.tail _ h.delivers) [
    | inl (_, _, e) ↦
        absurd (omega (arith, e, Posts-count k h.posts, occurs-append key_of k h.seen h.tail))
    | inr (_, _, ne) ↦ ne
  ]

  -- Polls of submitted futures, one after another.
  pub data Later (s : Inner sys rt) : Inner sys rt → Type 0 where
    now : Later s s
    after :
        {t : Inner sys rt} (fuel j : ℕ) (w : Waker) (p : Polled sys rt Op)
        → Later s t
        → load sys doc rt t.ring.ring < fuel
        → poll sys rt fuel w t (submitted j) ≡ some p
        → Later s p.inner

  Later-IsGone :
      (k : ℕ) {s t : Inner sys rt} → Later s t → IsGone sys doc rt k s → IsGone sys doc rt k t
  Later-IsGone k now gone = gone
  Later-IsGone k (after {t} fuel j w p l h e) gone =
      Polls-IsGone j k w t p (eq-Polls sys doc rt fuel j w t h e) (Later-IsGone k l gone)

  -- The poll of a future `j` that stays pending loses every completion that is in the queue: if the
  -- kernel owes none to the future `k` any more, because it has posted the completion of `k`, then
  -- after any later polls of submitted futures a poll of `k` returns and is not ready with a code.
  pub poll_loses_others :
      (fuel j k : ℕ) (w : Waker) (s : Inner sys rt) {p : Polled sys rt Op} {t : Inner sys rt}
      → load sys doc rt s.ring.ring < fuel
      → poll sys rt fuel w s (submitted j) ≡ some p
      → p.out ≡ pending
      → owed sys doc rt k s ≡ 0
      → Later p.inner t
      → (n : ℕ) (v : Waker) → load sys doc rt t.ring.ring < n
      → (q : Polled sys rt Op) × (poll sys rt n v t (submitted k) ≡ some q)
        × ((res : ℤ) → q.out ≢ ready (ok res))
  poll_loses_others fuel j k w s {p} {t} h e pend answered later n v h' =
      let (q, eq, polls) = poll-Polls sys doc rt n k v t h' in
      (
        q,
        eq,
        Polls-IsGone_not_ready k v t q polls (
            Later-IsGone k later
              (Polls-pending-IsGone j k w s p (eq-Polls sys doc rt fuel j w s h e) pend answered)),
      )

-- ===== src/Queue/Delivery.antt =====
-- src/queue.rs: which completion a peek or a wait shows, and what dropping its guard does.
use liburing_rs.Base.{
  ℕ, ◌≡◌, refl, ap, ◌≢◌, inl, inr, false, Option, none, some, List, [], ◌∷◌, arith, Bool-cases,
  ◌==◌, ◌||◌, if◌then◌else◌,
}
use liburing_rs.Base.Int.{ℤ, pos, negsuc, is_neg, neg_i32}
use liburing_rs.Base.Outcome.{StdResult, ok, err}
use liburing_rs.Sys.{Sys, IoUringCqe, null}
use liburing_rs.Sys.Documented.{Documented, Posts, Shows, Waits}
use liburing_rs.Error.{from_raw_os_error, Error, io, completion_queue_empty, from_ret_code}
use liburing_rs.Queue.Cqe
use liburing_rs.Queue.Cqe.{Cqe}
use liburing_rs.Queue.Completion.{peek_cqe, wait_cqe}

module _ (sys : Sys) (doc : Documented sys) where
  open sys use {Ring}
  open doc use {sq, cq, inflight}

  -- The guard `c` shows the completion `x`, the oldest of the queue of `r`.
  pub record IsGuard (r : Ring) (c : Cqe) (x : IoUringCqe) (rest : List IoUringCqe) : Type 0 where
    pub oldest : cq r ≡ x ∷ rest
    pub user_data : Cqe.user_data sys r c ≡ x.user_data
    pub result : Cqe.result sys r c ≡ x.res
    pub flags : Cqe.flags sys r c ≡ x.flags
    pub valid : c.cqe ≢ null

  -- What the kernel did during a call that leaves the completions and the submissions alone.
  pub record Keeps (r r' : Ring) : Type 0 where
    pub posts : Posts (cq r) (inflight r) (cq r') (inflight r')
    pub same : sq r' ≡ sq r

  pub data Peeks (r r' : Ring) : Option Cqe → Type 0 where
    empty : Keeps r r' → cq r' ≡ [] → Peeks r r' none
    found :
        (c : Cqe) (x : IoUringCqe) (rest : List IoUringCqe)
        → Keeps r r'
        → IsGuard r' c x rest
        → Peeks r r' (some c)

  pub data Gives (r r' : Ring) : StdResult Cqe Error → Type 0 where
    failed :
        (e : ℕ)
        → (sys.io_uring_wait_cqe_timeout r null).0 ≡ negsuc e
        → Keeps r r'
        → Gives r r' (err (io (from_raw_os_error (neg_i32 (negsuc e)))))
    nothing :
        is_neg (sys.io_uring_wait_cqe_timeout r null).0 ≡ false
        → Keeps r r'
        → cq r' ≡ []
        → Gives r r' (err completion_queue_empty)
    given :
        (c : Cqe) (x : IoUringCqe) (rest : List IoUringCqe)
        → Keeps r r'
        → IsGuard r' c x rest
        → Gives r r' (ok c)

  address-IsGuard :
      (r : Ring) (p : ℕ) (x : IoUringCqe) (rest : List IoUringCqe)
      → cq r ≡ x ∷ rest
      → p ≢ null
      → sys.cqe_at r p ≡ x
      → IsGuard r (record { cqe = p }) x rest
  unfolding Cqe.user_data Cqe.result Cqe.flags
  address-IsGuard r p x rest e ne at = record {
    oldest = e;
    user_data = ap (λ c. c.user_data) at;
    result = ap (λ c. c.res) at;
    flags = ap (λ c. c.flags) at;
    valid = ne;
  }

  abbrev peeked : ℤ → ℕ → Option Cqe
  peeked ret p = if is_neg ret || p == null then none else some (record { cqe = p })

  Shows-Peeks :
      (r r' : Ring) (ret : ℤ) (p : ℕ) (cs : List IoUringCqe)
      → cq r' ≡ cs
      → Keeps r r'
      → Shows sys r' ret p cs
      → Peeks r r' (peeked ret p)
  Shows-Peeks r r' (pos n) p [] e k h = cc
  Shows-Peeks r r' (negsuc n) p [] e k h = empty k e
  Shows-Peeks r r' (negsuc n) p (x ∷ rest) e k h = cc (h.0)
  Shows-Peeks r r' (pos n) p (x ∷ rest) e k h = elim (Bool-cases (p == null)) [
    | inl z ↦ absurd (h.1 (ground arith))
    | inr z ↦ rw z (found (record { cqe = p }) x rest k (address-IsGuard r' p x rest e h.1 h.2))
  ]

  -- `peek_cqe` finds nothing exactly when the completion queue stands empty at its return, and
  -- otherwise guards the oldest completion, with that one's user data, result and flags. It takes
  -- none out, and leaves the submission queue alone.
  pub peek_cqe-Peeks : (r : Ring) → Peeks r (peek_cqe sys r).1 (peek_cqe sys r).0
  unfolding peek_cqe
  peek_cqe-Peeks r =
      let (posts, same, shows) = doc.peek r in
      Shows-Peeks r _ _ _ _ refl (record { posts = posts; same = same }) shows

  abbrev waited : ℤ → ℕ → StdResult Cqe Error
  waited ret p =
      if is_neg ret
      then err (io (from_raw_os_error (neg_i32 ret)))
      else if p == null
      then err completion_queue_empty
      else ok (record { cqe = p })

  Waits-Gives :
      (r r' : Ring) (ret : ℤ) (p : ℕ) (cs : List IoUringCqe)
      → (sys.io_uring_wait_cqe_timeout r null).0 ≡ ret
      → cq r' ≡ cs
      → Keeps r r'
      → Waits sys r' ret p cs
      → Gives r r' (waited ret p)
  Waits-Gives r r' (negsuc e) p cs code q k h = failed e code k
  Waits-Gives r r' (pos n) p [] code q k h = rw h (nothing (ap is_neg code) k q)
  Waits-Gives r r' (pos n) p (x ∷ rest) code q k h = elim (Bool-cases (p == null)) [
    | inl z ↦ absurd (h.0 (ground arith))
    | inr z ↦ rw z (given (record { cqe = p }) x rest k (address-IsGuard r' p x rest q h.0 h.1))
  ]

  -- `wait_cqe` returns the OS error of the wait only if the wait failed with its return code; or the
  -- wait did not fail and the queue is empty, which is reported; or it guards the oldest completion,
  -- with that one's user data, result and flags. In each case it takes no completion out and leaves
  -- the submission queue alone.
  pub wait_cqe-Gives : (r : Ring) → Gives r (wait_cqe sys r).1 (wait_cqe sys r).0
  unfolding wait_cqe from_ret_code
  wait_cqe-Gives r =
      let (posts, same, waits) = doc.wait r in
      Waits-Gives r _ _ _ _ refl refl (record { posts = posts; same = same }) waits

  -- Dropping a guard takes out the completion that it shows and no other.
  pub drop_lem :
      (r : Ring) (c : Cqe) (x : IoUringCqe) (rest : List IoUringCqe)
      → IsGuard r c x rest
      → Posts rest (inflight r) (cq (Cqe.drop sys r c)) (inflight (Cqe.drop sys r c))
        × (sq (Cqe.drop sys r c) ≡ sq r)
  unfolding Cqe.drop
  drop_lem r c x rest g = doc.seen r c.cqe x rest g.valid g.oldest

  -- `into_result` gives the completion's code if `is_success` holds of it and its OS error if not,
  -- and takes out that completion and no other.
  pub into_result_lem :
      (r : Ring) (c : Cqe) (x : IoUringCqe) (rest : List IoUringCqe)
      → IsGuard r c x rest
      → let (res, r') = Cqe.into_result sys r c in
        (res
          ≡ (if Cqe.is_success sys r c then ok x.res else err (from_raw_os_error (neg_i32 x.res))))
        × Posts rest (inflight r) (cq r') (inflight r')
        × (sq r' ≡ sq r)
  unfolding Cqe.into_result Cqe.is_success from_ret_code
  into_result_lem r c x rest g =
      let (posts, same) = drop_lem r c x rest g in (ground (arith, g.result), posts, same)

-- ===== src/Sys/Documented.antt =====
-- What the manual pages of liburing say of its calls, as hypotheses: two queues and the requests in
-- between. A request posts one completion (no multishot request, and none that skips its
-- completion), and submission-queue polling is off. The kernel may post at any call on the
-- completion side and at a submission.
use liburing_rs.Base.{
  ℕ, suc, if◌then◌else◌, ◌+◌, ◌-◌, ◌%◌, ◌^◌, ◌≤◌, ◌<◌, ◌≡◌, ◌≢◌, true, List, [], ◌∷◌, ◌++◌, map,
  length, occurs,
}
use liburing_rs.Base.Int.{ℤ, pos, negsuc, is_neg}
use liburing_rs.Sys.Defs.{Sys, IoUringCqe, null}

abbrev pub key_of : IoUringCqe → ℕ
key_of c = c.user_data

-- From completions `c` and requests in flight `f`, the kernel posts some completions and comes to
-- `c'` and `f'`. Each completion answers one request in flight, by its `user_data`.
pub record Posts (c : List IoUringCqe) (f : List ℕ) (c' : List IoUringCqe) (f' : List ℕ)
    : Type 0 where
  pub posted : List IoUringCqe
  pub queued : c' ≡ c ++ posted
  pub owed : (k : ℕ) → occurs key_of k posted + occurs (λ x. x) k f' ≡ occurs (λ x. x) k f
  pub total : length posted + length f' ≡ length f

module _ (sys : Sys) where
  open sys use {Ring, Sqe, Kernel, Params}

  -- What a peek returns, by the completion queue that it leaves.
  abbrev pub Shows : Ring → ℤ → ℕ → List IoUringCqe → Type 0
  Shows r ret p [] = is_neg ret ≡ true
  Shows r ret p (c ∷ rest) = (ret ≡ pos 0) × (p ≢ null) × (sys.cqe_at r p ≡ c)

  -- A wait that succeeds shows the oldest completion.
  abbrev pub Waits : Ring → ℤ → ℕ → List IoUringCqe → Type 0
  Waits r (negsuc e) p cs = Unit
  Waits r (pos n) p [] = p ≡ null
  Waits r (pos n) p (c ∷ rest) = (p ≢ null) × (sys.cqe_at r p ≡ c)

  pub record Documented : Type 0 where
    -- entries that are handed out and not yet taken by the kernel, oldest first
    pub sq : Ring → List Sqe
    -- completions that are posted and not yet marked as seen, oldest first
    pub cq : Ring → List IoUringCqe
    -- the `user_data` of each request that the kernel has taken and not yet answered
    pub inflight : Ring → List ℕ
    pub user_data : Sqe → ℕ
    pub set_data : (s : Sqe) (k : ℕ) → user_data (sys.io_uring_sqe_set_data64 s k) ≡ k
    pub window : (r : Ring) → (sys.sqe_tail r + 2 ^ 32 - sys.khead r) % 2 ^ 32 ≡ length (sq r)
    pub words : (r : Ring) → (sys.sqe_tail r < 2 ^ 32) × (sys.khead r < 2 ^ 32)
    pub bounded : (r : Ring) → (length (sq r) ≤ sys.ring_entries r) × (sys.ring_entries r < 2 ^ 32)
    pub get_sqe_full :
        (r : Ring)
        → sys.ring_entries r ≤ length (sq r)
        → let (p, r') = sys.io_uring_get_sqe r in
          (p ≡ null) × (sq r' ≡ sq r) × (cq r' ≡ cq r) × (inflight r' ≡ inflight r)
    pub get_sqe_room :
        (r : Ring)
        → length (sq r) < sys.ring_entries r
        → let (p, r') = sys.io_uring_get_sqe r in
          (p ≢ null)
          × ((s : Sqe)
              → (sq (sys.set_sqe r' p s) ≡ sq r ++ s ∷ [])
                × (cq (sys.set_sqe r' p s) ≡ cq r)
                × (inflight (sys.set_sqe r' p s) ≡ inflight r)
                × (sys.ring_entries (sys.set_sqe r' p s) ≡ sys.ring_entries r)
                × (sys.sqe_at (sys.set_sqe r' p s) p ≡ s)
                × ((t : Sqe) → sys.set_sqe (sys.set_sqe r' p s) p t ≡ sys.set_sqe r' p t))
    pub submit_fails :
        (r : Ring)
        → let (ret, r') = sys.io_uring_submit r in
          is_neg ret ≡ true → (sq r' ≡ sq r) × Posts (cq r) (inflight r) (cq r') (inflight r')
    pub submit_takes :
        (r : Ring) (n : ℕ)
        → let (ret, r') = sys.io_uring_submit r in
          ret ≡ pos n
          → (taken : List Sqe) × (sq r ≡ taken ++ sq r')
            × (length taken ≡ n)
            × Posts (cq r) (inflight r ++ map user_data taken) (cq r') (inflight r')
    pub submit_and_wait_fails :
        (r : Ring) (wait_nr : ℕ)
        → let (ret, r') = sys.io_uring_submit_and_wait r wait_nr in
          is_neg ret ≡ true → (sq r' ≡ sq r) × Posts (cq r) (inflight r) (cq r') (inflight r')
    pub submit_and_wait_takes :
        (r : Ring) (wait_nr n : ℕ)
        → let (ret, r') = sys.io_uring_submit_and_wait r wait_nr in
          ret ≡ pos n
          → (taken : List Sqe) × (sq r ≡ taken ++ sq r')
            × (length taken ≡ n)
            × Posts (cq r) (inflight r ++ map user_data taken) (cq r') (inflight r')
    pub peek :
        (r : Ring)
        → let (ret, p, r') = sys.io_uring_peek_cqe r null in
          Posts (cq r) (inflight r) (cq r') (inflight r') × (sq r' ≡ sq r) × Shows r' ret p (cq r')
    pub wait :
        (r : Ring)
        → let (ret, p, r') = sys.io_uring_wait_cqe_timeout r null in
          Posts (cq r) (inflight r) (cq r') (inflight r') × (sq r' ≡ sq r) × Waits r' ret p (cq r')
    pub seen :
        (r : Ring) (p : ℕ) (c : IoUringCqe) (rest : List IoUringCqe)
        → p ≢ null
        → cq r ≡ c ∷ rest
        → Posts rest
            (inflight r)
            (cq (sys.io_uring_cqe_seen r p))
            (inflight (sys.io_uring_cqe_seen r p))
          × (sq (sys.io_uring_cqe_seen r p) ≡ sq r)

  -- The fields of an entry. A preparation of a transfer fills in the descriptor, the address, the
  -- length and the offset, and clears the flags; a setter changes its own field only.
  pub record SqeFields : Type 0 where
    pub fd : Sqe → ℤ
    pub addr : Sqe → ℕ
    pub len : Sqe → ℕ
    pub off : Sqe → ℕ
    pub flags : Sqe → ℕ
    pub data64 : Sqe → ℕ
    pub prep_read :
        (s : Sqe) (d : ℤ) (a n o : ℕ)
        → let t = sys.io_uring_prep_read s d a n o in
          (fd t ≡ d) × (addr t ≡ a) × (len t ≡ n) × (off t ≡ o) × (flags t ≡ 0)
    pub prep_write :
        (s : Sqe) (d : ℤ) (a n o : ℕ)
        → let t = sys.io_uring_prep_write s d a n o in
          (fd t ≡ d) × (addr t ≡ a) × (len t ≡ n) × (off t ≡ o) × (flags t ≡ 0)
    pub set_data64 :
        (s : Sqe) (k : ℕ)
        → let t = sys.io_uring_sqe_set_data64 s k in
          (fd t ≡ fd s)
          × (addr t ≡ addr s)
          × (len t ≡ len s)
          × (off t ≡ off s)
          × (flags t ≡ flags s)
          × (data64 t ≡ k)
    pub set_flags :
        (s : Sqe) (k : ℕ)
        → let t = sys.io_uring_sqe_set_flags s k in
          (fd t ≡ fd s)
          × (addr t ≡ addr s)
          × (len t ≡ len s)
          × (off t ≡ off s)
          × (flags t ≡ k)
          × (data64 t ≡ data64 s)

  -- The rings that the system holds: a setup that succeeds adds one, a failed one adds none, and
  -- an exit takes one away. The return code of a setup is 0 or negative.
  pub record Counted : Type 0 where
    pub live : Kernel → ℕ
    pub init :
        (entries flags : ℕ) (k : Kernel)
        → let (ret, ring, k') = sys.io_uring_queue_init entries flags k in
          live k' ≡ (if is_neg ret then live k else suc (live k))
    pub init_params :
        (entries : ℕ) (p : Params) (k : Kernel)
        → let (ret, p', ring, k') = sys.io_uring_queue_init_params entries p k in
          live k' ≡ (if is_neg ret then live k else suc (live k))
    pub exit : (r : Ring) (k : Kernel) → live (sys.io_uring_queue_exit r k) ≡ live k - 1

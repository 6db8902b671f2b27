-- ===== src/Uring/Laws.antt =====
-- src/uring.rs: submission by either of its two paths, and who owns a ring.
use liburing_rs.Base.{
  true, ℕ, suc, ◌+◌, ◌≡◌, refl, subst, List, ◌++◌, map, length, arith, if◌then◌else◌,
}
use liburing_rs.Base.Int.{ℤ, pos, negsuc, is_neg, neg_i32, as_usize}
use liburing_rs.Base.Outcome.{StdResult, ok, err, map_ok, map_err}
use liburing_rs.Sys.{Sys}
use liburing_rs.Sys.Documented.{Documented, Posts, Counted}
use liburing_rs.Error.{Error, from_raw_os_error, io, setup, check_ret, from_ret_code}
use liburing_rs.Queue.Submission as Submission
use liburing_rs.Uring.{IoUring, submit, submit_and_wait, with_flags, with_params, new, drop}

module _ (sys : Sys) where
  open sys use {Ring, Kernel, Params}

  codes_agree :
      (ret : ℤ)
      → map_err io (map_ok as_usize (check_ret ret))
        ≡ (if is_neg ret then err (io (from_ret_code ret)) else ok (as_usize ret))
  unfolding check_ret
  codes_agree ret = ground arith

  module _ (doc : Documented sys) where
    open doc use {sq, cq, inflight, user_data}

    -- What a submission did: it failed with the OS error of the return code and left the entries in
    -- the queue, or took the oldest `n` of them.
    pub data Submits (r r' : Ring) : StdResult ℕ Error → Type 0 where
      refused :
          (e : ℕ)
          → sq r' ≡ sq r
          → Posts (cq r) (inflight r) (cq r') (inflight r')
          → Submits r r' (err (io (from_raw_os_error (neg_i32 (negsuc e)))))
      took :
          (n : ℕ) (taken : List sys.Sqe)
          → sq r ≡ taken ++ sq r'
          → length taken ≡ n
          → Posts (cq r) (inflight r ++ map user_data taken) (cq r') (inflight r')
          → Submits r r' (ok n)

    code-Submits :
        (r r' : Ring) (ret : ℤ)
        → (is_neg ret ≡ true → (sq r' ≡ sq r) × Posts (cq r) (inflight r) (cq r') (inflight r'))
        → ((n : ℕ)
            → ret ≡ pos n
            → (taken : List sys.Sqe) × (sq r ≡ taken ++ sq r')
              × (length taken ≡ n)
              × Posts (cq r) (inflight r ++ map user_data taken) (cq r') (inflight r'))
        → Submits r r' (map_err io (map_ok as_usize (check_ret ret)))
    unfolding check_ret from_ret_code
    code-Submits r r' (pos n) fails takes =
        let (taken, split, count, posts) = takes n refl in took n taken split count posts
    code-Submits r r' (negsuc n) fails takes =
        let (same, posts) = fails refl in refused n same posts

    pub submit-Submits : (u : IoUring sys) → Submits u.ring (submit sys u).1.ring (submit sys u).0
    unfolding submit
    submit-Submits u = code-Submits u.ring _ _ (doc.submit_fails u.ring) (doc.submit_takes u.ring)

    pub submit_and_wait-Submits :
        (u : IoUring sys) (wait_nr : ℕ)
        → Submits u.ring (submit_and_wait sys u wait_nr).1.ring (submit_and_wait sys u wait_nr).0
    unfolding submit_and_wait
    submit_and_wait-Submits u wait_nr =
        code-Submits u.ring _ _ (doc.submit_and_wait_fails u.ring wait_nr)
          (doc.submit_and_wait_takes u.ring wait_nr)

    -- What a submission says for the return code of the call.
    abbrev pub Reports : ℤ → StdResult ℕ Error → Type 0
    Reports (pos n) o = o ≡ ok n
    Reports (negsuc e) o = o ≡ err (io (from_raw_os_error (neg_i32 (negsuc e))))

    code-Reports : (ret : ℤ) → Reports ret (map_err io (map_ok as_usize (check_ret ret)))
    unfolding check_ret from_ret_code
    code-Reports (pos n) = refl
    code-Reports (negsuc e) = refl

    -- A submission on the ring `r`, whose call is `call`, from its result to its ring.
    abbrev pub Did : (Ring → ℤ × Ring) → Ring → StdResult ℕ Error → Ring → Type 0
    Did call r o r' = Reports (call r).0 o × Submits r r' o

    -- `IoUring::submit` returns the OS error of the return code if that is negative, and then keeps
    -- every entry; or else the code, as the number of entries that the kernel took, which are the
    -- oldest of the queue, in order. So does
    -- `IoUring::submit_and_wait`, whatever number of completions it is to wait for. The methods of the
    -- same names of `SubmissionQueue`, which make their error in another way, do the same.
    pub submissions-Submit :
        (u : IoUring sys) (wait_nr : ℕ)
        → let waiting = λ (r : Ring). sys.io_uring_submit_and_wait r wait_nr in
          let (own, own') = submit sys u in
          let (own_wait, own_wait') = submit_and_wait sys u wait_nr in
          let (queued, queued') = Submission.submit sys u.ring in
          let (queued_wait, queued_wait') = Submission.submit_and_wait sys u.ring wait_nr in
          Did sys.io_uring_submit u.ring own own'.ring
          × Did waiting u.ring own_wait own_wait'.ring
          × Did sys.io_uring_submit u.ring queued queued'
          × Did waiting u.ring queued_wait queued_wait'
    unfolding submit submit_and_wait Submission.submit Submission.submit_and_wait
    submissions-Submit u wait_nr =
        let (own, own') = submit sys u in
        let (own_wait, own_wait') = submit_and_wait sys u wait_nr in
        let one : Did sys.io_uring_submit u.ring own own'.ring =
          (code-Reports _, submit-Submits u) in
        let many : Did (λ r. sys.io_uring_submit_and_wait r wait_nr) u.ring own_wait
            own_wait'.ring =
          (code-Reports _, submit_and_wait-Submits u wait_nr) in
        (
          one,
          many,
          subst (λ o. Did sys.io_uring_submit u.ring o own'.ring) (codes_agree _) one,
          subst (λ o. Did (λ r. sys.io_uring_submit_and_wait r wait_nr) u.ring o own_wait'.ring)
              (codes_agree _) many,
        )

  module _ (count : Counted sys) where
    open count use {live}

    -- The rings alive when the result of a setup has gone out of scope again.
    abbrev pub released : StdResult (IoUring sys) Error → Kernel → Kernel
    released (ok u) k = drop sys u k
    released (err e) k = k

    -- What a setup gave: a ring, and the system holds one more; or the OS error of the setup, and the
    -- system holds as many as before.
    pub data Makes (k k' : Kernel) : StdResult (IoUring sys) Error → Type 0 where
      made : (u : IoUring sys) → live k' ≡ live k + 1 → Makes k k' (ok u)
      denied :
          (e : ℕ)
          → live k' ≡ live k
          → Makes k k' (err (setup (from_raw_os_error (neg_i32 (negsuc e)))))

    code-Makes :
        (ret : ℤ) (ring : Ring) (k k' : Kernel)
        → live k' ≡ (if is_neg ret then live k else suc (live k))
        → Makes k k' (map_ok (λ _. record { ring = ring }) (map_err setup (check_ret ret)))
    unfolding check_ret from_ret_code
    code-Makes (pos n) ring k k' h = made (record { ring = ring }) (omega arith)
    code-Makes (negsuc n) ring k k' h = denied n h

    pub new-Makes : (entries : ℕ) (k : Kernel) → Makes k (new sys entries k).1 (new sys entries k).0
    unfolding with_flags new
    new-Makes entries k = code-Makes _ _ k _ (count.init entries 0 k)

    -- `with_flags`, `new` and `with_params` give a ring, and the system then holds one more, or the
    -- error `Setup` with the OS error of a negative code, and the system then holds as many as before.
    pub setup-Makes :
        (entries flags : ℕ) (params : Params) (k : Kernel)
        → Makes k (with_flags sys entries flags k).1 (with_flags sys entries flags k).0
          × Makes k (new sys entries k).1 (new sys entries k).0
          × Makes k (with_params sys entries params k).2 (with_params sys entries params k).0
    unfolding with_flags new with_params
    setup-Makes entries flags params k = (
      code-Makes _ _ k _ (count.init entries flags k),
      new-Makes entries k,
      code-Makes _ _ k _ (count.init_params entries params k),
    )

    Makes-balanced :
        {k k' : Kernel} (r : StdResult (IoUring sys) Error)
        → Makes k k' r
        → live (released r k') ≡ live k
    unfolding drop
    Makes-balanced {k'} (ok u) (made _ h) = omega (arith, count.exit u.ring k')
    Makes-balanced (err e) (denied n h) = h

    -- Whatever `with_flags` or `with_params` returned, once that has gone out of scope the system holds
    -- as many rings as before the call: none leaks on an error, and none is given back twice.
    pub setup_balanced :
        (entries flags : ℕ) (params : Params) (k : Kernel)
        → (live (released (with_flags sys entries flags k).0 (with_flags sys entries flags k).1)
            ≡ live k)
          × (live
                (released (with_params sys entries params k).0 (with_params sys entries params k).2)
              ≡ live k)
    setup_balanced entries flags params k =
        let (f, _, p) = setup-Makes entries flags params k in
        (Makes-balanced _ f, Makes-balanced _ p)

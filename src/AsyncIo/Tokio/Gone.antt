-- ===== src/AsyncIo/Tokio/Gone.antt =====
-- src/async_io/tokio_impl.rs: a completion that is lost is lost for good, however futures are made and
-- polled afterwards.
use liburing_rs.Base.{
  ℕ, suc, ◌+◌, ◌-◌, ◌^◌, ◌≤◌, ◌<◌, ◌≡◌, ap, ◌∙◌, ◌≢◌, subst, Option, none, some, ◌∷◌, [], ◌++◌,
  All-get_elem?, get_elem?, set, arith,
}
use liburing_rs.Base.Int.{ℤ}
use liburing_rs.Base.Outcome.{ok}
use liburing_rs.Sys.{Sys}
use liburing_rs.Sys.Documented.{Documented}
use liburing_rs.Ops.Traits.{PrepareOp}
use liburing_rs.AsyncIo.Runtime.{Runtime}
use liburing_rs.AsyncIo.Tokio.Defs.{ready, SubmitFuture, submitted, submit_op, Inner, Polled, poll}
use liburing_rs.AsyncIo.Tokio.Check.{load}
use liburing_rs.AsyncIo.Tokio.Poll.{poll-Polls}
use liburing_rs.AsyncIo.Tokio.Counter.{Tagged, counter_of, poll-IsPollOf}
use liburing_rs.AsyncIo.Tokio.Futures.{System, Reach, make, polls, Reach-Inv}
use liburing_rs.AsyncIo.Tokio.Held.{holds, adds, poll-holds}
use liburing_rs.AsyncIo.Tokio.Lost.{Polls-IsGone_not_ready}

module _ (sys : Sys) (doc : Documented sys) (rt : Runtime) (Op : Type 0)
    ⦃o : PrepareOp sys Op⦄ where
  -- The states reached from `s` by `n` more polls, with futures made in between.
  pub data Further (s : System sys doc rt Op) : ℕ → System sys doc rt Op → Type 0 where
    stay : Further s 0 s
    make_more :
        {n : ℕ} {t : System sys doc rt Op} (op : Op)
        → Further s n t
        → Further s n (record t { futures = t.futures ++ submit_op sys rt op ∷ [] })
    poll_more :
        {n : ℕ} {t : System sys doc rt Op} (i fuel : ℕ) (w : rt.Waker) (f : SubmitFuture Op)
        (p : Polled sys rt Op)
        → Further s n t
        → get_elem? t.futures i ≡ some f
        → poll sys rt fuel w t.inner f ≡ some p
        → Further s (suc n) (record { inner = p.inner; futures = set t.futures i p.future })

  Further-Reach :
      {u : Inner sys rt} {m : ℕ} {s : System sys doc rt Op} {n : ℕ} {t : System sys doc rt Op}
      → Reach sys doc rt Op u m s
      → Further s n t
      → Reach sys doc rt Op u (n + m) t
  Further-Reach {u} {m} {s} r stay = subst (λ k. Reach sys doc rt Op u k s) (omega arith) r
  Further-Reach r (make_more op h) = make op (Further-Reach r h)
  Further-Reach {u} r (poll_more {n} {t} i fuel w f p h e q) =
      subst
        (λ k.
          Reach sys doc rt Op u k (record { inner = p.inner; futures = set t.futures i p.future }))
        (omega arith) (polls i fuel w f p (Further-Reach r h) e q)

  -- The request `k` has been made, and nothing on the ring carries its user data.
  abbrev pub IsLost : ℕ → Inner sys rt → Type 0
  IsLost k s = (k < s.next_user_data) × (holds sys doc rt k s ≡ 0)

  poll-IsLost :
      (k : ℕ) (s i : Inner sys rt) (op : Option Op) (u : Option ℕ)
      → Tagged s.next_user_data op u
      → s.next_user_data < 2 ^ 64 - 1
      → holds sys doc rt k i ≤ holds sys doc rt k s + adds sys doc rt k s op
      → i.next_user_data ≡ counter_of sys rt s u
      → IsLost k s
      → IsLost k i
  poll-IsLost k s i (some op) none t h fewer counts lost = (omega arith, ground (arith, fewer))
  poll-IsLost k s i (some op) (some j) t h fewer counts lost = absurd t
  poll-IsLost k s i none none t h fewer counts lost = absurd t
  poll-IsLost k s i none (some j) t h fewer counts lost = (omega arith, omega arith)

  Further-IsLost :
      (k : ℕ) {u : Inner sys rt} {m : ℕ} {s : System sys doc rt Op} {n : ℕ}
      {t : System sys doc rt Op}
      → u.next_user_data ≡ 1
      → n + m < 2 ^ 64 - 1
      → Reach sys doc rt Op u m s
      → Further s n t
      → IsLost k s.inner
      → IsLost k t.inner
  Further-IsLost k b small r stay lost = lost
  Further-IsLost k b small r (make_more op h) lost = Further-IsLost k b small r h lost
  Further-IsLost k b small r (poll_more {n} {t} i fuel w f p h e q) lost =
      let v = Reach-Inv sys doc rt Op b (omega arith) (Further-Reach r h) in
      let tagged = All-get_elem? _ t.futures i v.tagged e in
      poll-IsLost k t.inner p.inner f.op f.user_data tagged (omega (arith, v.counter))
        (poll-holds sys doc rt k fuel w t.inner f tagged q)
        (poll-IsPollOf sys rt doc fuel w t.inner f tagged q).counter
        (Further-IsLost k b (omega arith) r h lost)

  submitted_of :
      (k n : ℕ) (op : Option Op) (u : Option ℕ)
      → Tagged n op u
      → u ≡ some k
      → ◌≡◌ {A = SubmitFuture Op} (record { op = op; user_data = u }) (submitted k)
  submitted_of k n (some op) none t e = cc
  submitted_of k n (some op) (some j) t e = absurd t
  submitted_of k n none none t e = absurd t
  submitted_of k n none (some j) t e = ap (λ u. record { op = none; user_data = u }) e

  -- However the futures of a ring are made and polled, from the counter 1 that `new` sets, for the
  -- first 2 ^ 64 - 2 polls: once the request `k` has been made and nothing on the ring carries its
  -- user data, then however more futures are made and polled, a further poll of the future with that
  -- user data returns, if its fuel exceeds the completions posted and owed, and is not ready with a
  -- code. So a future whose completion another poll has taken out never gets its result.
  pub lost_for_good :
      (u : Inner sys rt) (m n k : ℕ) (s t : System sys doc rt Op)
      → u.next_user_data ≡ 1
      → n + m < 2 ^ 64 - 1
      → Reach sys doc rt Op u m s
      → k < s.inner.next_user_data
      → holds sys doc rt k s.inner ≡ 0
      → Further s n t
      → (i fuel : ℕ) (w : rt.Waker) (f : SubmitFuture Op) → get_elem? t.futures i ≡ some f
      → f.user_data ≡ some k
      → load sys doc rt t.inner.ring.ring < fuel
      → (p : Polled sys rt Op) × (poll sys rt fuel w t.inner f ≡ some p)
        × ((res : ℤ) → p.out ≢ ready (ok res))
  lost_for_good u m n k s t b small r made none_held more i fuel w f e own enough =
      let (p, q, h) = poll-Polls sys doc rt fuel k w t.inner enough in
      let lost = Further-IsLost k b small r more (made, none_held) in
      let tagged =
        All-get_elem? _ t.futures i (Reach-Inv sys doc rt Op b small (Further-Reach r more)).tagged
          e in
      (
        p,
        ap (poll sys rt fuel w t.inner) (submitted_of k _ f.op f.user_data tagged own) ∙ q,
        Polls-IsGone_not_ready sys doc rt Op k w t.inner p h (omega (arith, lost.1)),
      )

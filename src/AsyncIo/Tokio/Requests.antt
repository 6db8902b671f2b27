-- ===== src/AsyncIo/Tokio/Requests.antt =====
-- src/async_io/tokio_impl.rs: no two requests carry one user data, however the futures are polled.
use liburing_rs.Base.{
  ℕ, ◌+◌, ◌-◌, ◌^◌, ◌≤◌, ◌<◌, ◌≡◌, ap, inl, inr, Option, none, some, All-get_elem?, occurs, arith,
  Bool-cases, ◌==◌,
}
use liburing_rs.Sys.{Sys}
use liburing_rs.Sys.Documented.{Documented, key_of}
use liburing_rs.Sys.Progress.{IsQuiet}
use liburing_rs.Ops.Traits.{PrepareOp}
use liburing_rs.AsyncIo.Runtime.{Runtime}
use liburing_rs.AsyncIo.Tokio.Defs.{Inner}
use liburing_rs.AsyncIo.Tokio.Counter.{Tagged, counter_of, poll-IsPollOf}
use liburing_rs.AsyncIo.Tokio.Futures.{System, Reach, fresh, make, polls, Reach-Inv}
use liburing_rs.AsyncIo.Tokio.Held.{holds, adds, poll-holds}

module _ (sys : Sys) (doc : Documented sys) (rt : Runtime) (j : ℕ) where
  open doc use {sq, cq, inflight, user_data}

  -- At most one, and none from the counter on.
  abbrev IsSingle : Inner sys rt → Type 0
  IsSingle s = (holds sys doc rt j s ≤ 1) × (s.next_user_data ≤ j → holds sys doc rt j s ≡ 0)

  poll-IsSingle :
      {Op : Type 0} (s i : Inner sys rt) (op : Option Op) (u : Option ℕ)
      → Tagged s.next_user_data op u
      → s.next_user_data < 2 ^ 64 - 1
      → holds sys doc rt j i ≤ holds sys doc rt j s + adds sys doc rt j s op
      → i.next_user_data ≡ counter_of sys rt s u
      → IsSingle s
      → IsSingle i
  poll-IsSingle s i (some op) none t h fewer counts v = elim (Bool-cases (s.next_user_data == j)) [
    | inl hit ↦ (ground (arith, v.1 (ground arith)), λ b. absurd (ground arith))
    | inr miss ↦ (ground (arith, v.0), λ b. ground (arith, v.1 (ground arith)))
  ]
  poll-IsSingle s i (some op) (some k) t h fewer counts v = absurd t
  poll-IsSingle s i none none t h fewer counts v = absurd t
  poll-IsSingle s i none (some k) t h fewer counts v =
      (omega (arith, v.0), λ b. omega (arith, v.1 (omega arith)))

  module _ (Op : Type 0) ⦃o : PrepareOp sys Op⦄ where
    Reach-IsSingle :
        {u : Inner sys rt} {n : ℕ} {s : System sys doc rt Op}
        → u.next_user_data ≡ 1
        → IsQuiet sys doc u.ring.ring
        → n < 2 ^ 64 - 1
        → Reach sys doc rt Op u n s
        → IsSingle s.inner
    Reach-IsSingle {u} b q h fresh =
        let none_held : holds sys doc rt j u ≡ 0 = ground (
          arith,
          ap (occurs user_data j) q.queue,
          ap (occurs key_of j) q.done,
          ap (occurs (λ x. x) j) q.flight,
        ) in
        (omega arith, λ _. none_held)
    Reach-IsSingle b q h (make op r) = Reach-IsSingle b q h r
    Reach-IsSingle b q h (polls {n} {s} i fuel w f p r e c) =
        let v = Reach-Inv sys doc rt Op b (omega arith) r in
        let t = All-get_elem? _ s.futures i v.tagged e in
        poll-IsSingle s.inner p.inner f.op f.user_data t (omega (arith, v.counter))
          (poll-holds sys doc rt j fuel w s.inner f t c)
          (poll-IsPollOf sys rt doc fuel w s.inner f t c).counter
          (Reach-IsSingle b q (omega arith) r)

    -- However the futures of a ring are made and polled, from a quiet ring and the counter 1, and
    -- for the first 2 ^ 64 - 2 polls: of the entries queued, the requests in flight and the
    -- completions posted, at most one carries the user data `j`, and none does if the counter has
    -- not passed `j`.
    pub requests_distinct :
        (u : Inner sys rt) (n : ℕ) (s : System sys doc rt Op)
        → u.next_user_data ≡ 1
        → IsQuiet sys doc u.ring.ring
        → n < 2 ^ 64 - 1
        → Reach sys doc rt Op u n s
        → (holds sys doc rt j s.inner ≤ 1)
          × (s.inner.next_user_data ≤ j → holds sys doc rt j s.inner ≡ 0)
    requests_distinct u n s b q h r = Reach-IsSingle b q h r

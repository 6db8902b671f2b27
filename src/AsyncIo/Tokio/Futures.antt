-- ===== src/AsyncIo/Tokio/Futures.antt =====
-- src/async_io/tokio_impl.rs: many futures over one ring, made and polled in any order.
use liburing_rs.Base.{
  ℕ, suc, ◌-◌, ◌^◌, ◌≤◌, ◌<◌, ◌≡◌, sym, ap, ◌∙◌, subst, ◌≢◌, Option, none, some, List, [], ◌∷◌,
  ◌++◌, map, All, All-append, All-get_elem?, All-set, All-map_of, get_elem?, set, set_same,
  get_elem?-map, map-set, arith,
}
use mathlib.Core.List.{map-append}
use liburing_rs.Sys.{Sys}
use liburing_rs.Sys.Documented.{Documented}
use liburing_rs.Ops.Traits.{PrepareOp}
use liburing_rs.AsyncIo.Runtime.{Runtime}
use liburing_rs.AsyncIo.Tokio.Defs.{panicked, SubmitFuture, submit_op, Inner, Polled, poll}
use liburing_rs.AsyncIo.Tokio.Apart.{AllApart, Below, AllApart-set, AllApart-append, AllApart-index}
use liburing_rs.AsyncIo.Tokio.Returns.{room, poll_returns}
use liburing_rs.AsyncIo.Tokio.Counter.{Tagged, IsPollOf, tag_of, counter_of, poll-IsPollOf}

module _ (sys : Sys) (doc : Documented sys) (rt : Runtime) (Op : Type 0)
    ⦃o : PrepareOp sys Op⦄ where
  open rt use {Waker}

  -- The shared state and the futures that `submit_op` has made, in the order of their making.
  pub record System : Type 0 where
    pub inner : Inner sys rt
    pub futures : List (SubmitFuture Op)

  -- The states reached by `n` polls from a ring with no futures, with new futures made in between.
  pub data Reach (u : Inner sys rt) : ℕ → System → Type 0 where
    fresh : Reach u 0 (record { inner = u; futures = [] })
    make :
        {n : ℕ} {s : System} (op : Op)
        → Reach u n s
        → Reach u n (record s { futures = s.futures ++ submit_op sys rt op ∷ [] })
    polls :
        {n : ℕ} {s : System} (i fuel : ℕ) (w : Waker) (f : SubmitFuture Op) (p : Polled sys rt Op)
        → Reach u n s
        → get_elem? s.futures i ≡ some f
        → poll sys rt fuel w s.inner f ≡ some p
        → Reach u (suc n) (record { inner = p.inner; futures = set s.futures i p.future })

  abbrev IsTagged : ℕ → SubmitFuture Op → Type 0
  IsTagged n f = Tagged n f.op f.user_data

  abbrev tags : List (SubmitFuture Op) → List (Option ℕ)
  tags fs = map (λ f. f.user_data) fs

  pub record Inv (n : ℕ) (s : System) : Type 0 where
    pub counter : s.inner.next_user_data ≤ suc n
    pub tagged : All (λ f. Tagged s.inner.next_user_data f.op f.user_data) s.futures
    pub apart : AllApart (map (λ f. f.user_data) s.futures)

  Tagged-mono : (m n : ℕ) → m ≤ n → (f : SubmitFuture Op) → IsTagged m f → IsTagged n f
  Tagged-mono m n h f t = go f.op f.user_data t
    where
      go : (a : Option Op) (u : Option ℕ) → Tagged m a u → Tagged n a u
      go (some op) none t = tt
      go (some op) (some k) t = absurd t
      go none none t = absurd t
      go none (some k) t = omega arith

  Tagged-Below : (n : ℕ) (a : Option Op) (u : Option ℕ) → Tagged n a u → Below n u
  Tagged-Below n (some op) none t = tt
  Tagged-Below n (some op) (some k) t = absurd t
  Tagged-Below n none none t = absurd t
  Tagged-Below n none (some k) t = t

  tags-Below : (n : ℕ) (fs : List (SubmitFuture Op)) → All (IsTagged n) fs → All (Below n) (tags fs)
  tags-Below n [] h = tt
  tags-Below n (f ∷ fs) h = (Tagged-Below n f.op f.user_data h.0, tags-Below n fs h.1)

  make-Inv :
      (n : ℕ) (u : Inner sys rt) (fs : List (SubmitFuture Op)) (op : Op)
      → Inv n (record { inner = u; futures = fs })
      → Inv n (record { inner = u; futures = fs ++ submit_op sys rt op ∷ [] })
  unfolding submit_op
  make-Inv n u fs op v = record {
    counter = v.counter;
    tagged = All-append (IsTagged u.next_user_data) fs (submit_op sys rt op ∷ []) v.tagged (tt, tt);
    apart =
        subst AllApart (sym (map-append (λ f. f.user_data) fs (submit_op sys rt op ∷ [])))
          (AllApart-append (tags fs) v.apart);
  }

  -- The future that a poll gives back carries the user data that `poll-IsPollOf` names, and the
  -- counter is beyond it.
  counter_of_mono :
      (s : Inner sys rt) (f : SubmitFuture Op)
      → s.next_user_data < 2 ^ 64 - 1
      → IsTagged s.next_user_data f
      → (s.next_user_data ≤ counter_of sys rt s f.user_data)
        × (counter_of sys rt s f.user_data ≤ suc s.next_user_data)
        × (tag_of sys rt s f.user_data < counter_of sys rt s f.user_data)
  counter_of_mono s f h t = go f.op f.user_data t
    where
      go :
          (a : Option Op) (u : Option ℕ)
          → Tagged s.next_user_data a u
          → (s.next_user_data ≤ counter_of sys rt s u)
            × (counter_of sys rt s u ≤ suc s.next_user_data)
            × (tag_of sys rt s u < counter_of sys rt s u)
      go (some op) none t = (omega arith, omega arith, omega arith)
      go (some op) (some k) t = absurd t
      go none none t = absurd t
      go none (some k) t = (omega arith, omega arith, omega arith)

  set-AllApart :
      (s : Inner sys rt) (us : List (Option ℕ)) (i : ℕ) (u : Option ℕ)
      → All (Below s.next_user_data) us
      → AllApart us
      → get_elem? us i ≡ some u
      → AllApart (set us i (some (tag_of sys rt s u)))
  set-AllApart s us i none b h e = AllApart-set s.next_user_data us i b h
  set-AllApart s us i (some k) b h e = subst AllApart (sym (set_same us i e)) h

  polls-Inv :
      (n : ℕ) (s : System) (i : ℕ) (f : SubmitFuture Op) (p : Polled sys rt Op)
      → suc n < 2 ^ 64 - 1
      → Inv n s
      → get_elem? s.futures i ≡ some f
      → IsPollOf sys rt
          (tag_of sys rt s.inner f.user_data)
          (counter_of sys rt s.inner f.user_data)
          p
      → Inv (suc n) (record { inner = p.inner; futures = set s.futures i p.future })
  polls-Inv n s i f p h v e q =
      let t = All-get_elem? (IsTagged s.inner.next_user_data) s.futures i v.tagged e in
      let (grows, slowly, below) = counter_of_mono s.inner f (omega (arith, v.counter)) t in
      let grown : All (IsTagged p.inner.next_user_data) s.futures =
        All-map_of _ _ (Tagged-mono _ _ (omega (arith, q.counter, grows))) s.futures v.tagged in
      record {
        counter = omega (arith, q.counter, slowly, v.counter);
        tagged = All-set (IsTagged p.inner.next_user_data) s.futures i grown (
            subst (IsTagged p.inner.next_user_data) (sym q.future)
              (omega (arith, q.counter, below)));
        apart = subst AllApart (sym (map-set (λ f. f.user_data) s.futures i p.future)) (
            subst (λ g. AllApart (set (tags s.futures) i g.user_data)) (sym q.future)
              (set-AllApart s.inner (tags s.futures) i f.user_data
                (tags-Below s.inner.next_user_data s.futures v.tagged) v.apart
                (get_elem?-map (λ f. f.user_data) s.futures i e)));
      }

  pub Reach-Inv :
      {u : Inner sys rt} {n : ℕ} {s : System}
      → u.next_user_data ≡ 1
      → n < 2 ^ 64 - 1
      → Reach u n s
      → Inv n s
  Reach-Inv e h fresh = record { counter = omega (arith, e); tagged = tt; apart = tt }
  Reach-Inv b h (make {n} {s} op r) = make-Inv n s.inner s.futures op (Reach-Inv b h r)
  Reach-Inv b h (polls {n} {s} i fuel w f p r e q) =
      let v = Reach-Inv b (omega arith) r in
      polls-Inv n s i f p h v e (
        poll-IsPollOf sys rt doc fuel w s.inner f
          (All-get_elem? (IsTagged s.inner.next_user_data) s.futures i v.tagged e) q)

  -- However the futures of a ring are made and polled, from the counter 1 that `new` sets and for the first 2 ^ 64 - 2 polls, two that
  -- carry the same user data are the same future.
  pub user_data_distinct :
      (u : Inner sys rt) (n : ℕ) (s : System) (i j k : ℕ) (f g : SubmitFuture Op)
      → u.next_user_data ≡ 1
      → n < 2 ^ 64 - 1
      → Reach u n s
      → get_elem? s.futures i ≡ some f
      → get_elem? s.futures j ≡ some g
      → f.user_data ≡ some k
      → g.user_data ≡ some k
      → i ≡ j
  user_data_distinct u n s i j k f g b h r ei ej ef eg =
      AllApart-index (tags s.futures) i j k (Reach-Inv b h r).apart
        (get_elem?-map (λ f. f.user_data) s.futures i ei ∙ ap some ef)
        (get_elem?-map (λ f. f.user_data) s.futures j ej ∙ ap some eg)

  -- However the futures of a ring are made and polled, from the counter 1 that `new` sets and for the first 2 ^ 64 - 2 polls, a further
  -- poll of any of them returns and does not panic at `future.user_data.unwrap()`, if the fuel
  -- exceeds by more than one the entries queued, the requests in flight and the completions posted.
  pub poll_no_panic :
      (u : Inner sys rt) (n : ℕ) (s : System) (i fuel : ℕ) (w : Waker) (f : SubmitFuture Op)
      → u.next_user_data ≡ 1
      → n < 2 ^ 64 - 1
      → Reach u n s
      → get_elem? s.futures i ≡ some f
      → room sys doc rt s.inner < fuel
      → (p : Polled sys rt Op) × (poll sys rt fuel w s.inner f ≡ some p) × (p.out ≢ panicked)
  poll_no_panic u n s i fuel w f b h r e enough =
      let t =
        All-get_elem? (IsTagged s.inner.next_user_data) s.futures i (Reach-Inv b h r).tagged e in
      let (p, q) = poll_returns sys doc rt fuel w s.inner f enough t in
      (p, q, (poll-IsPollOf sys rt doc fuel w s.inner f t q).no_panic)

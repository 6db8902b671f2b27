-- ===== src/Uring/Lone.antt =====
-- A request on a ring with nothing left over: the one completion that comes answers it.
use liburing_rs.Base.{ℕ, ◌≡◌, refl, sym, ap, ◌∙◌, subst, List, [], ◌∷◌, ◌++◌, map, length, arith}
use liburing_rs.Sys.{Sys, IoUringCqe}
use liburing_rs.Sys.Documented.{Documented, Posts}
use liburing_rs.Sys.Progress.{IsQuiet, Posts-total, Posts-count}

pub nil_of_length {ℓ} : {A : Type ℓ} (xs : List A) → length xs ≡ 0 → xs ≡ []
nil_of_length [] h = refl
nil_of_length (x ∷ xs) h = absurd (omega arith)

module _ (sys : Sys) (doc : Documented sys) where
  open sys use {Ring, Sqe}
  open doc use {sq, cq, inflight, user_data}

  -- One entry was queued, and one completion came.
  one_answer :
      (k : ℕ) (sqe : Sqe) (taken left : List Sqe) (x : IoUringCqe) (c : List IoUringCqe)
      (f : List ℕ)
      → user_data sqe ≡ k
      → sqe ∷ [] ≡ taken ++ left
      → Posts [] (map user_data taken) (x ∷ c) f
      → (left ≡ []) × (c ≡ []) × (f ≡ []) × (x.user_data ≡ k)
  one_answer k sqe [] left x c f key split posts = absurd (omega (arith, Posts-total posts))
  one_answer k sqe (t ∷ []) left x c f key split posts =
      let total = Posts-total posts in
      (
        nil_of_length left (omega (arith, ap length split)),
        nil_of_length c (omega (arith, total)),
        nil_of_length f (omega (arith, total)),
        ground (arith, Posts-count x.user_data posts),
      )
  one_answer k sqe (t ∷ u ∷ ts) left x c f key split posts = absurd (omega (arith, ap length split))

  pub lone_answer :
      (r r' : Ring) (k : ℕ) (sqe : Sqe) (taken : List Sqe) (x : IoUringCqe)
      → IsQuiet sys doc r
      → user_data sqe ≡ k
      → sq r ++ sqe ∷ [] ≡ taken ++ sq r'
      → Posts (cq r) (inflight r ++ map user_data taken) (x ∷ cq r') (inflight r')
      → IsQuiet sys doc r' × (x.user_data ≡ k)
  lone_answer r r' k sqe taken x q key split posts =
      let (queue, done, flight, own) =
        one_answer k sqe taken (sq r') x (cq r') (inflight r') key
          (ap (λ s. s ++ sqe ∷ []) (sym q.queue) ∙ split)
          (subst (λ f. Posts [] (f ++ map user_data taken) (x ∷ cq r') (inflight r')) q.flight
            (subst (λ c. Posts c (inflight r ++ map user_data taken) (x ∷ cq r') (inflight r'))
              q.done posts)) in
      (record { queue = queue; done = done; flight = flight }, own)

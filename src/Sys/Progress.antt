-- ===== src/Sys/Progress.antt =====
-- Progress of the kernel over several calls: how `Posts` composes, and how a completion that is taken
-- out is carried along.
use liburing_rs.Base.{
  ℕ, ◌+◌, ◌≡◌, sym, ap, ◌∙◌, List, [], ◌∷◌, ◌++◌, append_assoc, append-nil, length, length-append,
  occurs, occurs-append, arith,
}
use liburing_rs.Sys.Defs.{Sys, IoUringCqe}
use liburing_rs.Sys.Documented.{Documented, Posts, key_of}

module _ {c : List IoUringCqe} {f : List ℕ} {c' : List IoUringCqe} {f' : List ℕ} where
  -- Followed by more progress.
  pub Posts-trans :
      {c'' : List IoUringCqe} {f'' : List ℕ}
      → Posts c f c' f'
      → Posts c' f' c'' f''
      → Posts c f c'' f''
  Posts-trans p q = record {
    posted = p.posted ++ q.posted;
    queued = q.queued ∙ ap (λ xs. xs ++ q.posted) p.queued ∙ append_assoc c p.posted q.posted;
    owed = λ k. omega (arith, occurs-append key_of k p.posted q.posted, p.owed k, q.owed k);
    total = omega (arith, length-append p.posted q.posted, p.total, q.total);
  }

  pub Posts-cons : (x : IoUringCqe) → Posts c f c' f' → Posts (x ∷ c) f (x ∷ c') f'
  Posts-cons x p = record {
    posted = p.posted;
    queued = ap (λ xs. x ∷ xs) p.queued;
    owed = p.owed;
    total = p.total;
  }

  -- Completions and requests in flight together keep their number, for each user data and in all.
  pub Posts-count :
      (k : ℕ)
      → Posts c f c' f'
      → occurs key_of k c' + occurs (λ x. x) k f' ≡ occurs key_of k c + occurs (λ x. x) k f
  Posts-count k p =
      omega (arith, ap (occurs key_of k) p.queued, occurs-append key_of k c p.posted, p.owed k)

  pub Posts-total : Posts c f c' f' → length c' + length f' ≡ length c + length f
  Posts-total p = omega (arith, ap length p.queued, length-append c p.posted, p.total)

pub Posts-refl : (c : List IoUringCqe) (f : List ℕ) → Posts c f c f
Posts-refl c f = record {
  posted = [];
  queued = sym (append-nil c);
  owed = λ k. omega arith;
  total = omega arith;
}

module _ (sys : Sys) (doc : Documented sys) where
  open sys use {Ring}
  open doc use {sq, cq, inflight, user_data}

  -- Nothing is queued, in flight or posted.
  pub record IsQuiet (r : Ring) : Type 0 where
    pub queue : sq r ≡ []
    pub done : cq r ≡ []
    pub flight : inflight r ≡ []

  -- The entries queued, the requests in flight and the completions posted with the user data `k`.
  abbrev pub held : ℕ → Ring → ℕ
  held k r = occurs user_data k (sq r) + occurs (λ x. x) k (inflight r) + occurs key_of k (cq r)

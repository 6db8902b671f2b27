-- ===== src/Queue/Fill.antt =====
-- src/queue.rs and src/ops.rs: an entry that is handed out, prepared, and given its user data.
use liburing_rs.Base.{ℕ, ◌+◌, ◌≡◌, ap, ◌∙◌, [], ◌∷◌, ◌++◌}
use liburing_rs.Base.Outcome.{ok}
use liburing_rs.Sys.{Sys}
use liburing_rs.Sys.Documented.{Documented}
use liburing_rs.Ops.Traits.{set_user_data}
use liburing_rs.Queue.Submission.{space_left}
use liburing_rs.Queue.Space.{Gets, handed}

module _ (sys : Sys) where
  open sys use {Ring, Sqe}

  -- The entry at the address `p` after both calls, and the ring with it.
  abbrev pub tagged : (Sqe → Sqe) → ℕ → Ring → ℕ → Sqe
  tagged prepare k r p =
      set_user_data sys (sys.sqe_at (sys.set_sqe r p (prepare (sys.sqe_at r p))) p) k

  abbrev pub filled : (Sqe → Sqe) → ℕ → Ring → ℕ → Ring
  filled prepare k r p =
      sys.set_sqe (sys.set_sqe r p (prepare (sys.sqe_at r p))) p (tagged prepare k r p)

  module _ (doc : Documented sys) where
    open doc use {sq, cq, inflight, user_data}

    pub record Fills (prepare : Sqe → Sqe) (r r' : Ring) (k : ℕ) (t : Sqe) : Type 0 where
      pub was : Sqe
      pub made : t ≡ sys.io_uring_sqe_set_data64 (prepare was) k
      pub space : space_left sys r' + 1 ≡ space_left sys r
      pub tag : user_data t ≡ k
      pub queue : sq r' ≡ sq r ++ t ∷ []
      pub done : cq r' ≡ cq r
      pub flight : inflight r' ≡ inflight r

    pub filled-Fills :
        (prepare : Sqe → Sqe) (k : ℕ) (r0 r : Ring) (p : ℕ)
        → Gets sys doc r0 (ok p) r
        → Fills prepare r0 (filled prepare k r p) k (tagged prepare k r p)
    unfolding set_user_data
    filled-Fills prepare k r0 r p (handed _ _ writes) = record {
      was = sys.sqe_at r p;
      made = ap (λ s. sys.io_uring_sqe_set_data64 s k) (writes (prepare (sys.sqe_at r p))).5;
      space = ap (λ x. space_left sys x + 1) once ∙ (writes tag).3;
      tag = doc.set_data _ k;
      queue = ap sq once ∙ (writes tag).0;
      done = ap cq once ∙ (writes tag).1;
      flight = ap inflight once ∙ (writes tag).2;
    }
      where
        tag : Sqe
        tag = tagged prepare k r p

        once : filled prepare k r p ≡ sys.set_sqe r p tag
        once = (writes (prepare (sys.sqe_at r p))).4 tag

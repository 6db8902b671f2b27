-- ===== src/AsyncIo/Tokio/Returns.antt =====
-- src/async_io/tokio_impl.rs: every poll of a future comes back, with fuel by the entries in play.
use liburing_rs.Base.{
  ℕ, ◌+◌, ◌<◌, ◌≡◌, refl, ap, ◌∙◌, Option, none, some, ◌∷◌, [], map, length, length-append,
  length-map, arith,
}
use liburing_rs.Base.Outcome.{StdResult, ok, err}
use liburing_rs.Sys.{Sys}
use liburing_rs.Sys.Documented.{Documented}
use liburing_rs.Sys.Progress.{Posts-total}
use liburing_rs.Error.{Error}
use liburing_rs.Ops.Traits.{PrepareOp}
use liburing_rs.AsyncIo.Runtime.{Runtime}
use liburing_rs.AsyncIo.Tokio.Defs.{SubmitFuture, submit_op, Inner, Polled, poll}
use liburing_rs.AsyncIo.Tokio.Check.{load}
use liburing_rs.AsyncIo.Tokio.Poll.{poll-Polls}
use liburing_rs.AsyncIo.Tokio.Start.{Starts, full, stuck, sent, continues, first_poll}
use liburing_rs.AsyncIo.Tokio.Counter.{Tagged}

module _ (sys : Sys) (doc : Documented sys) (rt : Runtime) where
  open rt use {Waker}
  open doc use {sq, cq, inflight, user_data}

  -- The entries queued, those in flight, the completions posted, and one entry more.
  abbrev pub room : Inner sys rt → ℕ
  room s = load sys doc rt s.ring.ring + length (sq s.ring.ring) + 1

  module _ {Op : Type 0} ⦃o : PrepareOp sys Op⦄ where
    continues-some :
        (fuel : ℕ) (w : Waker) (s s' : Inner sys rt) (own : ℕ) (r : StdResult ℕ Error)
        → room s < fuel
        → Starts sys doc rt w s s' r
        → (p : Polled sys rt Op) × (continues sys doc rt fuel w s' r own ≡ some p)
    continues-some fuel w s s' own (err _) h (full _ _ _ _ _ _) = (_, refl)
    continues-some fuel w s s' own (err _) h (stuck _ _ _ _ _ _ _ _ _) = (_, refl)
    continues-some fuel w s s' own (ok k) h (sent sqe taken _ split posts _ _ _ _ _ _) =
        let (p, e, _) = poll-Polls sys doc rt fuel k w s' (
          omega (
            arith,
            h,
            Posts-total posts,
            ap length split,
            length-append (sq s.ring.ring) (sqe ∷ []),
            length-append taken (sq s'.ring.ring),
            length-append (inflight s.ring.ring) (map user_data taken),
            length-map user_data taken,
          )) in
        (p, e)

    fields-some :
        (fuel : ℕ) (w : Waker) (s : Inner sys rt) (op : Option Op) (u : Option ℕ)
        → room s < fuel
        → Tagged s.next_user_data op u
        → (p : Polled sys rt Op) × (poll sys rt fuel w s (record { op = op; user_data = u })
            ≡ some p)
    unfolding submit_op
    fields-some fuel w s (some op) none h t =
        let (r, s', starts, e) = first_poll sys doc rt fuel op w s in
        let (p, q) = continues-some fuel w s s' s.next_user_data r h starts in (p, e ∙ q)
    fields-some fuel w s (some op) (some k) h t = absurd t
    fields-some fuel w s none none h t = absurd t
    fields-some fuel w s none (some k) h t =
        let (p, e, _) = poll-Polls sys doc rt fuel k w s (omega (arith, h)) in (p, e)

    pub poll_returns :
        (fuel : ℕ) (w : Waker) (s : Inner sys rt) (f : SubmitFuture Op)
        → room s < fuel
        → Tagged s.next_user_data f.op f.user_data
        → (p : Polled sys rt Op) × (poll sys rt fuel w s f ≡ some p)
    poll_returns fuel w s f h t = fields-some fuel w s f.op f.user_data h t

-- ===== src/Sim/Eager.antt =====
-- A variant of the simulated ring that never refuses a submission, and answers at each submission
-- every request that it has.
use liburing_rs.Base.{
  ℕ, ◌≡◌, refl, sym, ap, ◌∙◌, true, List, [], ◌++◌, map, append-nil, length, length-append,
  length-map, occurs-append, occurs-map, arith,
}
use liburing_rs.Base.Int.{ℤ, pos, is_neg, as_usize}
use liburing_rs.Sys.{Sys, IoUringCqe}
use liburing_rs.Sys.Documented.{Documented, Posts, key_of}
use liburing_rs.Sim.Defs.{SimSqe, SimRing, free, queued, count_slots, sim}
use liburing_rs.Sim.Laws.{sim_documented, data_of, length-queued}

module _ (code : SimSqe → ℤ) where
  -- A request of an earlier submission transfers nothing.
  abbrev pub late : ℕ → IoUringCqe
  late k = record { user_data = k; res = pos 0; flags = 0 }

  abbrev pub prompt_answer : SimSqe → IoUringCqe
  prompt_answer s = record { user_data = s.data64; res = code s; flags = 0 }

  abbrev pub answers : SimRing → List IoUringCqe
  answers r = map late r.flight ++ map prompt_answer (queued r.slots)

  abbrev pub answer_all : SimRing → SimRing
  answer_all r = record r { slots = free; flight = []; done = r.done ++ answers r }

  abbrev pub eager : Sys
  eager = record sim {
    io_uring_submit = λ r. (pos (count_slots r.slots), answer_all r);
    io_uring_submit_and_wait = λ r n. (pos (count_slots r.slots), answer_all r);
  }

  pub answers-Posts :
      (r : SimRing)
      → Posts r.done (r.flight ++ map data_of (queued r.slots)) (r.done ++ answers r) []
  answers-Posts r = record {
    posted = answers r;
    queued = refl;
    owed = λ k. omega (
      arith,
      occurs-append key_of k (map late r.flight) (map prompt_answer (queued r.slots)),
      occurs-append (λ x. x) k r.flight (map data_of (queued r.slots)),
      occurs-map key_of late k r.flight,
      occurs-map key_of prompt_answer k (queued r.slots),
      occurs-map (λ x. x) data_of k (queued r.slots),
    );
    total = omega (
      arith,
      length-append (map late r.flight) (map prompt_answer (queued r.slots)),
      length-append r.flight (map data_of (queued r.slots)),
      length-map late r.flight,
      length-map prompt_answer (queued r.slots),
      length-map data_of (queued r.slots),
    );
  }

  pub takes :
      (r : SimRing) (n : ℕ)
      → pos (count_slots r.slots) ≡ pos n
      → (taken : List SimSqe) × (queued r.slots ≡ taken ++ [])
        × (length taken ≡ n)
        × Posts r.done (r.flight ++ map data_of taken) (r.done ++ answers r) []
  takes r n e = (
    queued r.slots,
    sym (append-nil (queued r.slots)),
    length-queued r.slots ∙ ap as_usize e,
    answers-Posts r,
  )

  pub never : {P : Type 0} (n : ℕ) → is_neg (pos n) ≡ true → P
  never n e = cc

  abbrev pub eager_documented : Documented eager
  eager_documented = record {
    sq = sim_documented.sq;
    cq = sim_documented.cq;
    inflight = sim_documented.inflight;
    user_data = sim_documented.user_data;
    set_data = sim_documented.set_data;
    window = sim_documented.window;
    words = sim_documented.words;
    bounded = sim_documented.bounded;
    get_sqe_full = sim_documented.get_sqe_full;
    get_sqe_room = sim_documented.get_sqe_room;
    submit_fails = λ r h. never (count_slots r.slots) h;
    submit_takes = takes;
    submit_and_wait_fails = λ r w h. never (count_slots r.slots) h;
    submit_and_wait_takes = λ r w. takes r;
    peek = sim_documented.peek;
    wait = sim_documented.wait;
    seen = sim_documented.seen;
  }

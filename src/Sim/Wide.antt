-- ===== src/Sim/Wide.antt =====
-- A simulated ring of 64 entries, which no setup flags are known to, on which a submission takes every entry, and a wait answers every
-- request in flight.
use liburing_rs.Base.{
  ℕ, zero, suc, ◌-◌, ◌≤◌, ◌<◌, ◌≡◌, refl, sym, ap, ◌∙◌, subst, true, List, [], ◌∷◌, ◌++◌, map,
  append-nil, length, length-map, length-take-le, occurs-map, take, take_all, get_elem?, set, arith,
}
use liburing_rs.Base.Int.{ℤ, pos, negsuc, is_neg, as_usize}
use liburing_rs.Sys.{Sys, IoUringCqe, null}
use liburing_rs.Sys.Documented.{Documented, Posts, Shows, Waits, key_of}
use liburing_rs.Sys.Progress.{Posts-refl}
use liburing_rs.Sim.Defs.{SimSqe, shown, first, oldest, rest_of, sim}
use liburing_rs.Sim.Laws.{data_of}
use liburing_rs.Sim.Entries.{
  or_blank, add_entry, add_full, written, rewritten, still_queued, read_back, get_ne_null,
}

pub record WideRing : Type 0 where
  pub entries : List SimSqe
  pub flight : List ℕ
  pub done : List IoUringCqe

abbrev pub wide_empty : WideRing
wide_empty = record { entries = []; flight = []; done = [] }

abbrev pub queued : WideRing → List SimSqe
queued r = take 64 r.entries

abbrev pub no_bytes : ℕ → IoUringCqe
no_bytes k = record { user_data = k; res = pos 0; flags = 0 }

abbrev pub answer_all : WideRing → WideRing
answer_all r = record r { flight = []; done = r.done ++ map no_bytes r.flight }

abbrev pub send_all : WideRing → ℤ × WideRing
send_all r = (
  pos (length (queued r)),
  record r { entries = []; flight = r.flight ++ map data_of (queued r) },
)

-- The code is -EINVAL for a flag.
abbrev pub known_flags : ℕ → ℤ
known_flags zero = pos 0
known_flags (suc n) = negsuc 21

abbrev pub wide : Sys
wide = record {
  Kernel = sim.Kernel;
  Params = ℕ;
  Ring = WideRing;
  Sqe = SimSqe;
  io_uring_queue_init = λ entries flags k. (known_flags flags, wide_empty, k);
  io_uring_queue_init_params = λ entries p k. (pos 0, p, wide_empty, k);
  io_uring_queue_exit = λ r k. k;
  ring_fd = λ r. pos 3;
  khead = λ r. 0;
  sqe_tail = λ r. length (queued r);
  ring_entries = λ r. 64;
  io_uring_get_sqe =
      λ r. ((add_entry (queued r)).0, record r { entries = (add_entry (queued r)).1 });
  sqe_at = λ r p. or_blank (get_elem? r.entries (p - 1));
  set_sqe = λ r p s. record r { entries = set r.entries (p - 1) s };
  io_uring_submit = send_all;
  io_uring_submit_and_wait = λ r n. send_all r;
  io_uring_wait_cqe_timeout =
      λ r p. (shown (answer_all r).done, first (answer_all r).done, answer_all r);
  io_uring_peek_cqe = λ r p. (shown r.done, first r.done, r);
  io_uring_peek_batch_cqe = λ r slots n. (0, slots, r);
  cqe_at = λ r p. oldest r.done;
  io_uring_cqe_seen = λ r p. record r { done = rest_of r.done };
  io_uring_prep_read = sim.io_uring_prep_read;
  io_uring_prep_write = sim.io_uring_prep_write;
  io_uring_prep_fsync = sim.io_uring_prep_fsync;
  io_uring_prep_nop = sim.io_uring_prep_nop;
  io_uring_prep_accept = sim.io_uring_prep_accept;
  io_uring_prep_connect = sim.io_uring_prep_connect;
  io_uring_prep_close = sim.io_uring_prep_close;
  io_uring_sqe_set_data64 = sim.io_uring_sqe_set_data64;
  io_uring_sqe_set_flags = sim.io_uring_sqe_set_flags;
  fsync_datasync = 1;
}

pub few : (r : WideRing) → length (queued r) ≤ 64
few r = length-take-le 64 r.entries

pub answers-Posts : (r : WideRing) → Posts r.done r.flight (r.done ++ map no_bytes r.flight) []
answers-Posts r = record {
  posted = map no_bytes r.flight;
  queued = refl;
  owed = λ k. omega (arith, occurs-map key_of no_bytes k r.flight);
  total = omega (arith, length-map no_bytes r.flight);
}

pub get_full :
    (r : WideRing)
    → 64 ≤ length (queued r)
    → let (p, es) = add_entry (queued r) in (p ≡ null) × (take 64 es ≡ queued r)
get_full r h =
    let (p, same) = add_full (queued r) h in (p, ap (take 64) same ∙ take_all 64 (queued r) (few r))

pub takes :
    (r : WideRing) (n : ℕ)
    → pos (length (queued r)) ≡ pos n
    → (taken : List SimSqe) × (queued r ≡ taken ++ [])
      × (length taken ≡ n)
      × Posts r.done (r.flight ++ map data_of taken) r.done (r.flight ++ map data_of (queued r))
takes r n e = (
  queued r,
  sym (append-nil (queued r)),
  ap as_usize e,
  Posts-refl r.done (r.flight ++ map data_of (queued r)),
)

pub never : {P : Type 0} (n : ℕ) → is_neg (pos n) ≡ true → P
never n e = cc

pub wide_peek :
    (r : WideRing) (cs : List IoUringCqe) → r.done ≡ cs → Shows wide r (shown cs) (first cs) cs
wide_peek r [] e = refl
wide_peek r (c ∷ cs) e = (refl, omega arith, ap oldest e)

pub wide_wait :
    (r : WideRing) (cs : List IoUringCqe) → r.done ≡ cs → Waits wide r (shown cs) (first cs) cs
wide_wait r [] e = tt
wide_wait r (c ∷ cs) e = (omega arith, ap oldest e)

pub room_writes :
    (r : WideRing) (s : SimSqe)
    → length (queued r) < 64
    → let p = (add_entry (queued r)).0 in
      let es = (add_entry (queued r)).1 in
      (take 64 (set es (p - 1) s) ≡ queued r ++ s ∷ [])
      × (or_blank (get_elem? (set es (p - 1) s) (p - 1)) ≡ s)
      × ((t : SimSqe) → set (set es (p - 1) s) (p - 1) t ≡ set es (p - 1) t)
room_writes r s h = (
  ap (take 64) (written (queued r) s h) ∙ still_queued (queued r) s h,
  read_back (queued r) s h,
  λ t. rewritten (queued r) s t h,
)

abbrev pub wide_documented : Documented wide
wide_documented = record {
  sq = queued;
  cq = λ r. r.done;
  inflight = λ r. r.flight;
  user_data = data_of;
  set_data = λ s k. refl;
  window = λ r. omega (arith, few r);
  words = λ r. (omega (arith, few r), omega arith);
  bounded = λ r. (few r, omega arith);
  get_sqe_full = λ r h. ((get_full r h).0, (get_full r h).1, refl, refl);
  get_sqe_room = λ r h. (
    get_ne_null (queued r) h,
    λ s. (
      (room_writes r s h).0,
      refl,
      refl,
      refl,
      (room_writes r s h).1,
      λ t i. record r { entries = (room_writes r s h).2 t i },
    ),
  );
  submit_fails = λ r h. never (length (queued r)) h;
  submit_takes = takes;
  submit_and_wait_fails = λ r w h. never (length (queued r)) h;
  submit_and_wait_takes = λ r w. takes r;
  peek = λ r. (Posts-refl r.done r.flight, refl, wide_peek r r.done refl);
  wait = λ r. (answers-Posts r, refl, wide_wait (answer_all r) (answer_all r).done refl);
  seen = λ r p c rest h e. (
    subst (λ cs. Posts rest r.flight (rest_of cs) r.flight) (sym e) (Posts-refl rest r.flight),
    refl,
  );
}

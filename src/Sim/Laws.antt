-- ===== src/Sim/Laws.antt =====
-- The simulated ring meets the hypotheses of the documented behaviour.
use liburing_rs.Base.{
  ℕ, zero, suc, ◌+◌, ◌≤◌, ◌<◌, ◌≡◌, refl, sym, ap, ◌≢◌, ◌∙◌, Bool, true, false, List, [], ◌∷◌, ◌++◌,
  map, subst, append-nil, length, length-append, occurs, occurs-append, arith, if◌then◌else◌,
}
use liburing_rs.Base.Int.{ℤ, pos, is_neg, as_usize}
use liburing_rs.Sys.{IoUringCqe, null}
use liburing_rs.Sys.Documented.{Documented, SqeFields, Counted, Posts, Shows, Waits, key_of}
use liburing_rs.Sys.Progress.{Posts-refl}
use liburing_rs.Sim.Defs.{
  SimSqe, SimRing, SimKernel, Slots, free, one, two, queued, count_slots, take_slot, slot_at,
  set_slot, answered, kept, submit_when, shown, first, oldest, rest_of, make_ring, make_ring_params,
  sim_with, sim,
}

abbrev pub data_of : SimSqe → ℕ
data_of s = s.data64

module _ (code : SimSqe → ℤ) where
  pub owed_all :
      (ss : List SimSqe) (k : ℕ)
      → occurs key_of k (answered code ss) + occurs (λ x. x) k (kept ss)
        ≡ occurs (λ x. x) k (map data_of ss)
  owed_all [] k = omega arith
  owed_all (s ∷ ss) k = ground (arith, owed_all ss k)

  pub total_all :
      (ss : List SimSqe) → length (answered code ss) + length (kept ss) ≡ length (map data_of ss)
  total_all [] = omega arith
  total_all (s ∷ ss) = ground (arith, total_all ss)

  pub answered-Posts :
      (ss : List SimSqe) (c : List IoUringCqe) (f : List ℕ)
      → Posts c (f ++ map data_of ss) (c ++ answered code ss) (f ++ kept ss)
  answered-Posts ss c f = record {
    posted = answered code ss;
    queued = refl;
    owed = λ k. omega (
      arith,
      occurs-append (λ x. x) k f (kept ss),
      occurs-append (λ x. x) k f (map data_of ss),
      owed_all ss k,
    );
    total =
        omega (arith, length-append f (kept ss), length-append f (map data_of ss), total_all ss);
  }

pub length-queued : (s : Slots) → length (queued s) ≡ count_slots s
length-queued free = refl
length-queued (one a) = refl
length-queued (two a b) = refl

pub slots_small : (s : Slots) → count_slots s ≤ 2
slots_small free = omega arith
slots_small (one a) = omega arith
slots_small (two a b) = omega arith

pub take_slot_full :
    (s : Slots)
    → 2 ≤ length (queued s)
    → ((take_slot s).0 ≡ null) × (queued (take_slot s).1 ≡ queued s)
take_slot_full free h = absurd (omega arith)
take_slot_full (one a) h = absurd (omega arith)
take_slot_full (two a b) h = (refl, refl)

module _ (s : SimSqe) where
  pub push_slot :
      (ss : Slots)
      → length (queued ss) < 2
      → let (p, ss') = take_slot ss in
        (queued (set_slot ss' p s) ≡ queued ss ++ s ∷ [])
        × (slot_at (set_slot ss' p s) p ≡ s)
        × ((t : SimSqe) → set_slot (set_slot ss' p s) p t ≡ set_slot ss' p t)
  push_slot free h = (refl, refl, λ t. refl)
  push_slot (one a) h = (refl, refl, λ t. refl)
  push_slot (two a b) h = absurd (omega arith)

pub take_slot-ne-null : (ss : Slots) → length (queued ss) < 2 → (take_slot ss).0 ≢ null
take_slot-ne-null free h = omega arith
take_slot-ne-null (one a) h = omega arith
take_slot-ne-null (two a b) h = absurd (omega arith)

module _ (code : SimSqe → ℤ) (refuses : SimRing → Bool) where
  pub sim_peek :
      (r : SimRing) (cs : List IoUringCqe)
      → r.done ≡ cs
      → Shows (sim_with code refuses) r (shown cs) (first cs) cs
  sim_peek r [] e = refl
  sim_peek r (c ∷ cs) e = (refl, omega arith, ap oldest e)

  pub sim_wait :
      (r : SimRing) (cs : List IoUringCqe)
      → r.done ≡ cs
      → Waits (sim_with code refuses) r (shown cs) (first cs) cs
  sim_wait r [] e = tt
  sim_wait r (c ∷ cs) e = (omega arith, ap oldest e)

module _ (code : SimSqe → ℤ) where
  pub submit_when_fails :
      (b : Bool) (r : SimRing)
      → let (ret, r') = submit_when code b r in
        is_neg ret ≡ true
        → (queued r'.slots ≡ queued r.slots) × Posts r.done r.flight r'.done r'.flight
  submit_when_fails true r h = (refl, Posts-refl r.done r.flight)
  submit_when_fails false r h = cc

  pub submit_when_takes :
      (b : Bool) (r : SimRing) (n : ℕ)
      → let (ret, r') = submit_when code b r in
        ret ≡ pos n
        → (taken : List SimSqe) × (queued r.slots ≡ taken ++ queued r'.slots)
          × (length taken ≡ n)
          × Posts r.done (r.flight ++ map data_of taken) r'.done r'.flight
  submit_when_takes true r n h = cc
  submit_when_takes false r n h = (
    queued r.slots,
    sym (append-nil (queued r.slots)),
    length-queued r.slots ∙ ap as_usize h,
    answered-Posts code (queued r.slots) r.done r.flight,
  )

module _ (code : SimSqe → ℤ) (refuses : SimRing → Bool) where
  abbrev pub sim_with_documented : Documented (sim_with code refuses)
  sim_with_documented = record {
    sq = λ r. queued r.slots;
    cq = λ r. r.done;
    inflight = λ r. r.flight;
    user_data = data_of;
    set_data = λ s k. refl;
    window = λ r. omega (arith, length-queued r.slots, slots_small r.slots);
    words = λ r. (omega (arith, slots_small r.slots), omega arith);
    bounded = λ r. (omega (arith, length-queued r.slots, slots_small r.slots), omega arith);
    get_sqe_full = λ r h. ((take_slot_full r.slots h).0, (take_slot_full r.slots h).1, refl, refl);
    get_sqe_room = λ r h. (
      take_slot-ne-null r.slots h,
      λ s. (
        (push_slot s r.slots h).0,
        refl,
        refl,
        refl,
        (push_slot s r.slots h).1,
        λ t i. record r { slots = (push_slot s r.slots h).2 t i },
      ),
    );
    submit_fails = λ r. submit_when_fails code (refuses r) r;
    submit_takes = λ r n. submit_when_takes code (refuses r) r n;
    submit_and_wait_fails = λ r w. submit_when_fails code (refuses r) r;
    submit_and_wait_takes = λ r w n. submit_when_takes code (refuses r) r n;
    peek = λ r. (Posts-refl r.done r.flight, refl, sim_peek code refuses r r.done refl);
    wait = λ r. (Posts-refl r.done r.flight, refl, sim_wait code refuses r r.done refl);
    seen = λ r p c rest h e. (
      subst (λ cs. Posts rest r.flight (rest_of cs) r.flight) (sym e) (Posts-refl rest r.flight),
      refl,
    );
  }

abbrev pub sim_documented : Documented sim
sim_documented = sim_with_documented (λ s. pos s.len) (λ r. r.busy)

abbrev pub sim_fields : SqeFields sim
sim_fields = record {
  fd = λ s. s.fd;
  addr = λ s. s.addr;
  len = λ s. s.len;
  off = λ s. s.off;
  flags = λ s. s.flags;
  data64 = λ s. s.data64;
  prep_read = λ s d a n o. (refl, refl, refl, refl, refl);
  prep_write = λ s d a n o. (refl, refl, refl, refl, refl);
  set_data64 = λ s k. (refl, refl, refl, refl, refl, refl);
  set_flags = λ s k. (refl, refl, refl, refl, refl, refl);
}

pub make_ring_counts :
    (k : SimKernel) (n : ℕ)
    → let (ret, ring, k') = make_ring k n in k'.live ≡ (if is_neg ret then k.live else suc k.live)
make_ring_counts k zero = refl
make_ring_counts k (suc n) = refl

pub make_ring_params_counts :
    (k : SimKernel) (p n : ℕ)
    → let (ret, p', ring, k') = make_ring_params k p n in
      k'.live ≡ (if is_neg ret then k.live else suc k.live)
make_ring_params_counts k p zero = refl
make_ring_params_counts k p (suc n) = refl

abbrev pub sim_counted : Counted sim
sim_counted = record {
  live = λ k. k.live;
  init = λ entries flags k. make_ring_counts k k.room;
  init_params = λ entries p k. make_ring_params_counts k p k.room;
  exit = λ r k. refl;
}

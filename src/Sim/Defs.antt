-- ===== src/Sim/Defs.antt =====
-- The operations of the simulated ring.
use liburing_rs.Base.{
  ℕ, zero, suc, ◌+◌, ◌-◌, Bool, true, false, List, [], ◌∷◌, ◌++◌, if◌then◌else◌, ◌==◌,
}
use liburing_rs.Base.Int.{ℤ, pos, negsuc}
use liburing_rs.Sys.{Sys, IoUringCqe, null}

pub record SimSqe : Type 0 where
  pub poll : Bool
  pub fd : ℤ
  pub addr : ℕ
  pub len : ℕ
  pub off : ℕ
  pub flags : ℕ
  pub data64 : ℕ

abbrev pub blank : SimSqe
blank = record { poll = false; fd = pos 0; addr = 0; len = 0; off = 0; flags = 0; data64 = 0 }

pub data Slots : Type 0 where
  free : Slots
  one : SimSqe → Slots
  two : SimSqe → SimSqe → Slots

pub record SimRing : Type 0 where
  pub slots : Slots
  pub flight : List ℕ
  pub done : List IoUringCqe
  pub busy : Bool

abbrev pub queued : Slots → List SimSqe
queued free = []
queued (one a) = a ∷ []
queued (two a b) = a ∷ b ∷ []

abbrev pub count_slots : Slots → ℕ
count_slots free = 0
count_slots (one a) = 1
count_slots (two a b) = 2

abbrev pub take_slot : Slots → ℕ × Slots
take_slot free = (1, one blank)
take_slot (one a) = (2, two a blank)
take_slot (two a b) = (null, two a b)

abbrev pub slot_at : Slots → ℕ → SimSqe
slot_at free p = blank
slot_at (one a) p = a
slot_at (two a b) p = if p == 2 then b else a

abbrev pub set_slot : Slots → ℕ → SimSqe → Slots
set_slot free p s = free
set_slot (one a) p s = one s
set_slot (two a b) p s = if p == 2 then two a s else two s b

abbrev pub kept : List SimSqe → List ℕ
kept [] = []
kept (s ∷ ss) = if s.poll then s.data64 ∷ kept ss else kept ss

-- The result of a request is a function of its entry.
module _ (code : SimSqe → ℤ) where
  abbrev pub answered : List SimSqe → List IoUringCqe
  answered [] = []
  answered (s ∷ ss) =
      if s.poll
      then answered ss
      else record { user_data = s.data64; res = code s; flags = 0 } ∷ answered ss

  abbrev pub accept_all : SimRing → SimRing
  accept_all r = record r {
    slots = free;
    flight = r.flight ++ kept (queued r.slots);
    done = r.done ++ answered (queued r.slots);
  }

  -- EBUSY is 16.
  abbrev pub submit_when : Bool → SimRing → ℤ × SimRing
  submit_when true r = (negsuc 15, record r { busy = false })
  submit_when false r = (pos (count_slots r.slots), accept_all r)

-- EAGAIN is 11.
abbrev pub shown : List IoUringCqe → ℤ
shown [] = negsuc 10
shown (c ∷ cs) = pos 0

abbrev pub first : List IoUringCqe → ℕ
first [] = null
first (c ∷ cs) = 1

abbrev pub oldest : List IoUringCqe → IoUringCqe
oldest [] = record { user_data = 0; res = pos 0; flags = 0 }
oldest (c ∷ cs) = c

abbrev pub rest_of : List IoUringCqe → List IoUringCqe
rest_of [] = []
rest_of (c ∷ cs) = cs

abbrev pub empty_ring : SimRing
empty_ring = record { slots = free; flight = []; done = []; busy = false }

-- The system has room for a number of rings; ENOMEM is 12.
pub record SimKernel : Type 0 where
  pub live : ℕ
  pub room : ℕ

abbrev pub make_ring : SimKernel → ℕ → ℤ × SimRing × SimKernel
make_ring k zero = (negsuc 11, empty_ring, k)
make_ring k (suc n) = (pos 0, empty_ring, record { live = suc k.live; room = n })

abbrev pub make_ring_params : SimKernel → ℕ → ℕ → ℤ × ℕ × SimRing × SimKernel
make_ring_params k p zero = (negsuc 11, p, empty_ring, k)
make_ring_params k p (suc n) = (pos 0, p, empty_ring, record { live = suc k.live; room = n })

abbrev pub transfer : SimSqe → ℤ → ℕ → ℕ → ℕ → SimSqe
transfer s d a n o = record s { poll = false; fd = d; addr = a; len = n; off = o; flags = 0 }

-- A ring with the codes of its completions, and with the test by which it refuses a submission.
abbrev pub sim_with : (SimSqe → ℤ) → (SimRing → Bool) → Sys
sim_with code refuses = record {
  Kernel = SimKernel;
  Params = ℕ;
  Ring = SimRing;
  Sqe = SimSqe;
  io_uring_queue_init = λ entries flags k. make_ring k k.room;
  io_uring_queue_init_params = λ entries p k. make_ring_params k p k.room;
  io_uring_queue_exit = λ r k. record { live = k.live - 1; room = k.room + 1 };
  ring_fd = λ r. pos 3;
  khead = λ r. 0;
  sqe_tail = λ r. count_slots r.slots;
  ring_entries = λ r. 2;
  io_uring_get_sqe = λ r. ((take_slot r.slots).0, record r { slots = (take_slot r.slots).1 });
  sqe_at = λ r p. slot_at r.slots p;
  set_sqe = λ r p s. record r { slots = set_slot r.slots p s };
  io_uring_submit = λ r. submit_when code (refuses r) r;
  io_uring_submit_and_wait = λ r n. submit_when code (refuses r) r;
  io_uring_wait_cqe_timeout = λ r p. (shown r.done, first r.done, r);
  io_uring_peek_cqe = λ r p. (shown r.done, first r.done, r);
  io_uring_peek_batch_cqe = λ r slots n. (0, slots, r);
  cqe_at = λ r p. oldest r.done;
  io_uring_cqe_seen = λ r p. record r { done = rest_of r.done };
  io_uring_prep_read = transfer;
  io_uring_prep_write = transfer;
  io_uring_prep_fsync = λ s d f. transfer s d 0 0 0;
  io_uring_prep_nop = λ s. transfer s (pos 0) 0 0 0;
  io_uring_prep_accept = λ s d a l f. record (transfer s d a 0 l) { poll = true };
  io_uring_prep_connect = λ s d a l. transfer s d a 0 l;
  io_uring_prep_close = λ s d. transfer s d 0 0 0;
  io_uring_sqe_set_data64 = λ s k. record s { data64 = k };
  io_uring_sqe_set_flags = λ s k. record s { flags = k };
  fsync_datasync = 1;
}

-- The result of a transfer is its length.
abbrev pub sim : Sys
sim = sim_with (λ s. pos s.len) (λ r. r.busy)

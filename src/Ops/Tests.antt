-- ===== src/Ops/Tests.antt =====
-- Tests of src/ops.rs, and the instances of its theorems.
use liburing_rs.Base.{◌≡◌, refl}
use liburing_rs.Base.Int.{pos}
use liburing_rs.Ops.Read
use liburing_rs.Ops.Write
use liburing_rs.Ops.Traits.{Slice, set_user_data, set_flags}
use liburing_rs.Ops.Slices.{Transfers, slices-Transfer}
use liburing_rs.Sim.{sim, sim_fields, blank}

-- 16 bytes at the address 4096.
abbrev buffer : Slice
buffer = record { as_ptr = 4096; len = 16 }

-- The length is cut to 32 bits.
from_slice_cut : (Read.from_slice (pos 3) (record { as_ptr = 4096; len = 4294967298 }) 0).len ≡ 2
unfolding Read.from_slice
from_slice_cut = refl

slices-Transfer_example :
    let r = Read.prepare sim (Read.from_slice (pos 3) buffer 64) blank in
    let w = Write.prepare sim (Write.from_slice (pos 3) buffer 64) blank in
    Transfers sim sim_fields (set_user_data sim (set_flags sim r 4) 7) (pos 3) buffer 64 4 7
    × Transfers sim sim_fields (set_user_data sim (set_flags sim w 4) 7) (pos 3) buffer 64 4 7
slices-Transfer_example = slices-Transfer sim sim_fields blank (pos 3) buffer 64 4 7

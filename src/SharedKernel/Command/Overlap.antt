-- ===== src/SharedKernel/Command/Overlap.antt =====
-- When two commands overlap.
use zensor_server.Prelude.{◌-◌, ◌<◌, ◌≡◌, ◌↔◌, true, nat_eq, arith}
use zensor_server.SharedKernel.Command.{Command, overlap_buffer_time, overlaps_with}

-- Two commands overlap exactly if they act on one index and their dispatch times lie less than the
-- buffer time apart, in either order.
pub overlaps_with_iff :
    (c o : Command)
    → (overlaps_with c o ≡ true) ↔ (
        (c.payload.index ≡ o.payload.index)
        × (c.dispatch_after - o.dispatch_after < overlap_buffer_time)
        × (o.dispatch_after - c.dispatch_after < overlap_buffer_time))
unfolding overlaps_with
overlaps_with_iff c o = ground arith

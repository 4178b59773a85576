-- ===== src/SharedKernel/Command/Tests.antt =====
-- Two commands, and the theorems on overlaps at them.
use zensor_server.Prelude.{◌*◌, ◌-◌, ◌<◌, ◌≡◌, refl, ◌↔◌, true, second}
use zensor_server.SharedKernel.Command.{Command, new_command, overlaps_with, overlap_buffer_time}
use zensor_server.SharedKernel.Command.Overlap.{overlaps_with_iff}

abbrev open_valve : Command
open_valve = record (new_command "c1" 1) {
  payload = record { index = 2; value = 1 };
  dispatch_after = 100 * second;
}

abbrev close_valve : Command
close_valve = record (new_command "c2" 1) {
  payload = record { index = 2; value = 0 };
  dispatch_after = 120 * second;
}

valves_overlap : overlaps_with open_valve close_valve ≡ true
unfolding overlaps_with
valves_overlap = refl

overlaps_with_iff_example : (overlaps_with open_valve close_valve ≡ true) ↔ (
    (open_valve.payload.index ≡ close_valve.payload.index)
    × (100 * second - 120 * second < overlap_buffer_time)
    × (120 * second - 100 * second < overlap_buffer_time))
overlaps_with_iff_example = overlaps_with_iff open_valve close_valve

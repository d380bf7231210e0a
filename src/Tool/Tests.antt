-- ===== src/Tool/Tests.antt =====
-- The simulator at concrete inputs.
use vrtc.Base.{
  ◌+◌, ◌*◌, ◌<◌, ◌≤◌, ◌≡◌, refl, none, some, Option, List, [], ◌∷◌, String, str_eq, All, length,
  if◌then◌else◌,
}
use vrtc.Base.Int.{pos}
use vrtc.Clock.{Time, second}
use vrtc.Tool.{
  unix_epoch, unix_milli, Random, detections, generate_analytics, Request, build_request, text,
  binary, Event, connected, read, takes, pushes, work_capacity, new_state, step, run_camera,
}
use vrtc.Tool.Pushed.{run_camera-pushes}

abbrev noon : Time
noon = unix_epoch + 43_200 * second

abbrev clock : String → Option Time
clock s = if str_eq s "1970-01-01T12:00:00.000Z" then some noon else none

abbrev dice : Random
dice = record {
  people = 7;
  vehicles = 1;
  objects = 0;
  detection =
      λ i. record { x = 0; y = 0; w = 0; h = 0; class_id = 0; confidence = 0; track_id = 0 };
}

-- A frame before the first time is left out; the next is pushed.
abbrev events : List Event
events =
    connected
    ∷ read binary
    ∷ read (text (some (record { kind = "timing"; wall_clock = "1970-01-01T12:00:00.000Z" })))
    ∷ read binary
    ∷ takes
    ∷ pushes dice (pos 43_200_100)
    ∷ []

pushed :
    (run_camera clock "cam-1" events new_state).sent
    ≡ record {
      source_id = "cam-1";
      wall_clock_ms = pos 43_200_000;
      analytics = record {
        capture_ms = pos 43_200_000;
        capture_end_ms = pos 43_200_000;
        inference_ms = pos 43_200_100;
        people_count = 2;
        vehicle_count = 1;
        objects = [];
      };
    }
      ∷ []
unfolding run_camera step build_request generate_analytics detections unix_milli
pushed = refl

run_camera-pushes_example :
    All
      (λ (r : Request).
        (r.source_id ≡ "cam-1")
        × ((t : Time) × (t ≡ noon)
            × (r.wall_clock_ms ≡ unix_milli t)
            × (r.analytics.capture_ms ≡ unix_milli t)
            × (r.analytics.people_count < 5)
            × (r.analytics.vehicle_count < 3)
            × (length r.analytics.objects < 4)))
      (run_camera clock "cam-1" events new_state).sent
    × (length (run_camera clock "cam-1" events new_state).work ≤ work_capacity)
run_camera-pushes_example = run_camera-pushes clock "cam-1" (λ t. t ≡ noon) events (refl, tt)

-- ===== src/Http/Streams.antt =====
-- pkg/edgeview/http_handler.go: the stream of a camera over HTTP, live or recorded.
--
-- A request is what it does, in order, up to its end; a stream that was attached ends when the client
-- goes, its muxer closes or an error comes.
use vrtc.Base.{
  ℕ, ◌+◌, ◌-◌, ◌==◌, ◌≡◌, refl, Bool, true, Option, none, some, List, [], ◌∷◌, ◌++◌, String, str_eq,
  arith, if-both, if◌then◌else◌,
}
use vrtc.Clock.{Time, is_zero}
use vrtc.Http.Range.{
  Clock, Parsed, parsed, refused, Cause, missing_camera, internal, not_found, parse_playback_start,
}

pub data Step : Type 0 where
  track release : Step
  start_hub stop_hub : Step
  consume close : ℕ → Step
  live_startup playback_startup : String → Step
  problem : ℕ → Cause → Step

-- What the hubs answer, and whether metrics are collected.
pub record World : Type 0 where
  pub clock : Clock
  pub hub_starts : Bool
  pub consumed : Option ℕ
  pub has_collector : Bool

abbrev pub measured : World → Step → List Step
measured w s = if w.has_collector then s ∷ [] else []

abbrev pub live_on : World → String → Option ℕ → List Step
live_on w id none = track ∷ problem 404 not_found ∷ release ∷ []
live_on w id (some h) = track ∷ consume h ∷ measured w (live_startup id) ++ close h ∷ release ∷ []

unfoldable pub http_stream_live : World → String → List Step
http_stream_live w id = live_on w id w.consumed

abbrev pub recorded_on : World → String → Option ℕ → List Step
recorded_on w id none = start_hub ∷ problem 404 not_found ∷ stop_hub ∷ []
recorded_on w id (some h) =
    start_hub ∷ consume h ∷ measured w (playback_startup id) ++ close h ∷ stop_hub ∷ []

-- A hub that does not start is not one to stop.
unfoldable pub http_stream_recorded : World → String → List Step
http_stream_recorded w id =
    if w.hub_starts then recorded_on w id w.consumed else problem 500 internal ∷ []

abbrev pub stream_from : World → String → Parsed Time → List Step
stream_from w id (refused c) = problem 400 c ∷ []
stream_from w id (parsed start) =
    if is_zero start then http_stream_live w id else http_stream_recorded w id

unfoldable pub http_stream : World → String → String → List Step
http_stream w id start =
    if str_eq id ""
    then problem 400 missing_camera ∷ []
    else stream_from w id (parse_playback_start w.clock start)

-- What a request holds: viewers tracked, hubs running, and consumers attached.
pub record Held : Type 0 where
  pub viewers : ℕ
  pub hubs : ℕ
  pub consumers : List ℕ

abbrev pub nothing : Held
nothing = record { viewers = 0; hubs = 0; consumers = [] }

abbrev pub detach : ℕ → List ℕ → Option (List ℕ)
detach h [] = none
detach h (c ∷ cs) = if c == h then some cs else none

abbrev pub with_consumers : Held → Option (List ℕ) → Option Held
with_consumers held none = none
with_consumers held (some cs) = some (record held { consumers = cs })

-- What is held after a step; none where a step gives back what is not held.
abbrev pub after : Step → Held → Option Held
after track held = some (record held { viewers = held.viewers + 1 })
after release held =
    if held.viewers == 0 then none else some (record held { viewers = held.viewers - 1 })
after start_hub held = some (record held { hubs = held.hubs + 1 })
after stop_hub held = if held.hubs == 0 then none else some (record held { hubs = held.hubs - 1 })
after (consume h) held = some (record held { consumers = h ∷ held.consumers })
after (close h) held = with_consumers held (detach h held.consumers)
after (live_startup id) held = some held
after (playback_startup id) held = some held
after (problem n c) held = some held

unfoldable pub run : List Step → Option Held → Option Held
run [] held = held
run (s ∷ steps) none = none
run (s ∷ steps) (some held) = run steps (after s held)

abbrev IsClean : List Step → Type 0
IsClean steps = run steps (some nothing) ≡ some nothing

==_refl : (n : ℕ) → (n == n) ≡ true
==_refl n = ground arith

run-live : (w : World) (id : String) (o : Option ℕ) → IsClean (live_on w id o)
unfolding run
run-live w id none = refl
run-live w id (some h) =
    if-both (λ (m : List Step). IsClean (track ∷ consume h ∷ m ++ close h ∷ release ∷ []))
      w.has_collector (ground arith) (ground arith)

run-recorded : (w : World) (id : String) (o : Option ℕ) → IsClean (recorded_on w id o)
unfolding run
run-recorded w id none = refl
run-recorded w id (some h) =
    if-both (λ (m : List Step). IsClean (start_hub ∷ consume h ∷ m ++ close h ∷ stop_hub ∷ []))
      w.has_collector (ground arith) (ground arith)

stream_from-run : (w : World) (id : String) (start : Parsed Time) → IsClean (stream_from w id start)
unfolding http_stream_live http_stream_recorded run
stream_from-run w id (refused c) = refl
stream_from-run w id (parsed start) =
    if-both IsClean (is_zero start) (run-live w id w.consumed)
      (if-both IsClean w.hub_starts (run-recorded w id w.consumed) refl)

-- However a request for a stream ends, it has given back what it took, and never gives back what it
-- does not hold: viewers that are tracked are released, the hub of a playback is stopped if it was
-- started, and the consumer is closed if there was one.
pub run-http_stream :
    (w : World) (id start : String) → run (http_stream w id start) (some nothing) ≡ some nothing
unfolding http_stream run
run-http_stream w id start =
    if-both IsClean (str_eq id "") refl (stream_from-run w id (parse_playback_start w.clock start))

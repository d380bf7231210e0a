-- ===== src/Http/Stats.antt =====
-- pkg/edgeview/http_handler.go and pkg/metrics/collector.go: counts over all cameras and relays.
--
-- Sums of floating point numbers (frame and bit rates, memory) are left out: their value depends on
-- how each addition rounds.
use vrtc.Base.{
  ℕ, ◌+◌, ◌%◌, ◌^◌, ◌<◌, ◌≡◌, refl, sym, ◌∙◌, Bool, Option, none, some, List, [], ◌∷◌, String,
  arith, if◌then◌else◌, length, select, map,
}
use vrtc.Base.Int.{ℤ, pos, quot}
use vrtc.Clock.{Time, second, sub_time}
use vrtc.View.Cameras.{Cameras, CameraInfo, RelayStats, Hub, list_cameras}
use vrtc.Http.Range.{Response, ok, problem, not_found}

pub record SystemStats : Type 0 where
  pub total_cameras : ℕ
  pub streaming_cameras : ℕ
  pub recording_cameras : ℕ
  pub total_packets_read : ℕ
  pub total_bytes_read : ℕ
  pub total_key_frames : ℕ
  pub total_dropped : ℕ
  pub active_segments : ℤ
  pub active_viewers : ℤ

-- An addition of uint64.
abbrev pub add_u64 : ℕ → ℕ → ℕ
add_u64 a b = (a + b) % 2 ^ 64

-- The loop over the cameras.
unfoldable pub count_recording : List CameraInfo → ℕ → ℕ
count_recording [] n = n
count_recording (c ∷ cs) n = count_recording cs (if c.recording then n + 1 else n)

-- The loop over the relays.
unfoldable pub add_relays : List RelayStats → SystemStats → SystemStats
add_relays [] s = s
add_relays (r ∷ rs) s = add_relays rs (record s {
  streaming_cameras = s.streaming_cameras + 1;
  total_packets_read = add_u64 s.total_packets_read r.packets_read;
  total_bytes_read = add_u64 s.total_bytes_read r.bytes_read;
  total_key_frames = add_u64 s.total_key_frames r.key_frames;
  total_dropped = add_u64 s.total_dropped r.dropped_packets;
})

-- The segment counter, 0 where there is none.
abbrev pub count_or_zero : Option ℤ → ℤ
count_or_zero none = pos 0
count_or_zero (some n) = n

abbrev pub no_stats : ℕ → ℕ → SystemStats
no_stats cameras recording = record {
  total_cameras = cameras;
  streaming_cameras = 0;
  recording_cameras = recording;
  total_packets_read = 0;
  total_bytes_read = 0;
  total_key_frames = 0;
  total_dropped = 0;
  active_segments = pos 0;
  active_viewers = pos 0;
}

unfoldable pub huma_system_stats :
    Hub → Option (String → Bool) → Option ℤ → ℤ → Cameras → Response SystemStats
huma_system_stats hub active segments viewers cameras =
    let all = list_cameras hub active cameras in
    let stats = add_relays hub.relays (no_stats (length all) (count_recording all 0)) in
    ok (record stats { active_segments = count_or_zero segments; active_viewers = viewers })

pub record Snapshot : Type 0 where
  pub timestamp : Time
  pub active_relays : ℕ
  pub active_viewers : ℤ
  pub active_segments : ℤ
  pub total_packets : ℕ
  pub total_dropped : ℕ

-- The loop of `takeSnapshot`.
unfoldable pub sum_relays : List RelayStats → ℕ × ℕ → ℕ × ℕ
sum_relays [] sums = sums
sum_relays (r ∷ rs) (packets, dropped) =
    sum_relays rs (add_u64 packets r.packets_read, add_u64 dropped r.dropped_packets)

unfoldable pub take_snapshot : Time → Hub → Option ℤ → Option ℤ → Snapshot
take_snapshot now hub segments viewers =
    let sums = sum_relays hub.relays (0, 0) in
    record {
      timestamp = now;
      active_relays = length hub.relays;
      active_viewers = count_or_zero viewers;
      active_segments = count_or_zero segments;
      total_packets = sums.0;
      total_dropped = sums.1;
    }

-- The memory in MB is left out.
pub record HealthSnapshot : Type 0 where
  pub status : String
  pub uptime_seconds : ℤ
  pub goroutines : ℤ
  pub active_relays : ℤ
  pub active_viewers : ℤ
  pub active_segments : ℤ
  pub timestamp : Time

-- By the start of the service, the clock and the goroutines that run.
unfoldable pub collect_health : Time → Time → ℤ → Hub → Option ℤ → ℤ → HealthSnapshot
collect_health start now goroutines hub segments viewers = record {
  status = "ok";
  uptime_seconds = quot (sub_time now start) second;
  goroutines = goroutines;
  active_relays = hub.active_relays;
  active_viewers = viewers;
  active_segments = count_or_zero segments;
  timestamp = now;
}

abbrev pub relay_or_problem : Option RelayStats → Response RelayStats
relay_or_problem none = problem 404 not_found
relay_or_problem (some rs) = ok rs

unfoldable pub huma_camera_stats_by_id : Hub → String → Response RelayStats
huma_camera_stats_by_id hub id = relay_or_problem (hub.relay_by_id id)

unfoldable pub huma_producer_stats : Hub → Response (List RelayStats × ℕ)
huma_producer_stats hub = ok (hub.relays, length hub.relays)

-- The sum of a list of numbers.
abbrev pub sum : List ℕ → ℕ
sum [] = 0
sum (n ∷ ns) = n + sum ns

-- A count that the counters of relays add up to, as uint64 has it.
abbrev pub total : (RelayStats → ℕ) → List RelayStats → ℕ
total field rs = sum (map field rs) % 2 ^ 64

count_recording-select :
    (cs : List CameraInfo) (n : ℕ)
    → count_recording cs n ≡ n + length (select (λ (c : CameraInfo). c.recording) cs)
unfolding count_recording
count_recording-select [] n = omega arith
count_recording-select (c ∷ cs) n =
    ground (arith, count_recording-select cs n, count_recording-select cs (n + 1))

-- The counters added up in turn.
abbrev add_all : List ℕ → ℕ → ℕ
add_all [] n = n
add_all (x ∷ xs) n = add_all xs (add_u64 n x)

add_all-sum : (xs : List ℕ) (n : ℕ) → n < 2 ^ 64 → add_all xs n ≡ (n + sum xs) % 2 ^ 64
add_all-sum [] n h = omega arith
add_all-sum (x ∷ xs) n h = add_all-sum xs (add_u64 n x) (omega arith) ∙ omega arith

add_relays-add_all :
    (rs : List RelayStats) (s : SystemStats)
    → let t = add_relays rs s in
      (t.total_cameras ≡ s.total_cameras)
      × (t.recording_cameras ≡ s.recording_cameras)
      × (t.streaming_cameras ≡ s.streaming_cameras + length rs)
      × (t.total_packets_read
          ≡ add_all (map (λ (r : RelayStats). r.packets_read) rs) s.total_packets_read)
      × (t.total_bytes_read
          ≡ add_all (map (λ (r : RelayStats). r.bytes_read) rs) s.total_bytes_read)
      × (t.total_key_frames
          ≡ add_all (map (λ (r : RelayStats). r.key_frames) rs) s.total_key_frames)
      × (t.total_dropped ≡ add_all (map (λ (r : RelayStats). r.dropped_packets) rs) s.total_dropped)
unfolding add_relays
add_relays-add_all [] s = (refl, refl, omega arith, refl, refl, refl, refl)
add_relays-add_all (r ∷ rs) s =
    let (a, b, c, d, e, f, g) = add_relays-add_all rs _ in (a, b, c ∙ omega arith, d, e, f, g)

sum_relays-add_all :
    (rs : List RelayStats) (sums : ℕ × ℕ)
    → ((sum_relays rs sums).0 ≡ add_all (map (λ (r : RelayStats). r.packets_read) rs) sums.0)
      × ((sum_relays rs sums).1 ≡ add_all (map (λ (r : RelayStats). r.dropped_packets) rs) sums.1)
unfolding sum_relays
sum_relays-add_all [] (p, d) = (refl, refl)
sum_relays-add_all (r ∷ rs) (p, d) = sum_relays-add_all rs _

-- The system statistics count the cameras, those that record and the relays, and their totals are the
-- sums over all relays, modulo 2^64.
pub huma_system_stats-totals :
    (hub : Hub) (active : Option (String → Bool)) (segments : Option ℤ) (viewers : ℤ)
    (cameras : Cameras)
    → let all = list_cameras hub active cameras in
      (s : SystemStats) × (huma_system_stats hub active segments viewers cameras ≡ ok s)
      × (s.total_cameras ≡ length all)
      × (s.recording_cameras ≡ length (select (λ (c : CameraInfo). c.recording) all))
      × (s.streaming_cameras ≡ length hub.relays)
      × (s.total_packets_read ≡ total (λ r. r.packets_read) hub.relays)
      × (s.total_bytes_read ≡ total (λ r. r.bytes_read) hub.relays)
      × (s.total_key_frames ≡ total (λ r. r.key_frames) hub.relays)
      × (s.total_dropped ≡ total (λ r. r.dropped_packets) hub.relays)
unfolding huma_system_stats
huma_system_stats-totals hub active segments viewers cameras =
    let all = list_cameras hub active cameras in
    let (a, b, c, d, e, f, g) =
      add_relays-add_all hub.relays (no_stats (length all) (count_recording all 0)) in
    let sums : (field : RelayStats → ℕ)
        → add_all (map field hub.relays) 0 ≡ total field hub.relays =
      λ field. add_all-sum (map field hub.relays) 0 (omega arith) ∙ omega arith in
    (
      _,
      refl,
      a,
      b ∙ count_recording-select all 0 ∙ omega arith,
      c ∙ omega arith,
      d ∙ sums (λ r. r.packets_read),
      e ∙ sums (λ r. r.bytes_read),
      f ∙ sums (λ r. r.key_frames),
      g ∙ sums (λ r. r.dropped_packets),
    )

-- The periodic snapshot agrees with the system statistics: of one hub, and one count of segments and
-- viewers, both have the same relays, packets, dropped packets, segments and viewers.
pub take_snapshot-huma_system_stats :
    (now : Time) (hub : Hub) (active : Option (String → Bool)) (segments : Option ℤ) (viewers : ℤ)
    (cameras : Cameras)
    → let n = take_snapshot now hub segments (some viewers) in
      (s : SystemStats) × (huma_system_stats hub active segments viewers cameras ≡ ok s)
      × (n.active_relays ≡ s.streaming_cameras)
      × (n.total_packets ≡ s.total_packets_read)
      × (n.total_dropped ≡ s.total_dropped)
      × (n.active_segments ≡ s.active_segments)
      × (n.active_viewers ≡ s.active_viewers)
unfolding huma_system_stats take_snapshot
take_snapshot-huma_system_stats now hub active segments viewers cameras =
    let all = list_cameras hub active cameras in
    let (a, b, c, d, e, f, g) =
      add_relays-add_all hub.relays (no_stats (length all) (count_recording all 0)) in
    let (packets, dropped) = sum_relays-add_all hub.relays (0, 0) in
    (_, refl, sym (c ∙ omega arith), packets ∙ sym d, dropped ∙ sym g, refl, refl)

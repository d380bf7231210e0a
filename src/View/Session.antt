-- ===== src/View/Session.antt =====
-- pkg/edgeview/ws_stream.go: the session of a WebSocket client, live or recorded.
--
-- The index of the session is that of the service, which may have none. A hub, a writer and a
-- consumer handle are numbers. What was called stands newest first in `calls`, and what the SDK and
-- the clock answer during one command is a `World`.
pub mod Seek
pub mod Viewers
pub mod Service
use vrtc.Base.{
  ℕ, Bool, true, false, not, ◌&&◌, ◌||◌, Option, none, some, List, [], ◌∷◌, String, str_eq,
  if◌then◌else◌,
}
use vrtc.Base.Int.{ℤ, pos, negsuc, leb_ℤ, ltb_ℤ, positive}
use vrtc.Clock.{Time, zero_time, is_zero, after, sub_time}
use vrtc.Recorder.Index.{Env, Index}
use vrtc.View.Source.{gap_threshold}
use vrtc.View.Resolve.{
  Start, recorded, first_recorded, live, no_index, nothing_found, query_failed, resolve_on,
  track_consumer, release_consumer,
}

pub data Mode : Type 0 where
  live_mode recorded_mode first_available_mode : Mode

pub data Message : Type 0 where
  mode_change : Time → Message
  playback_info : Time → Mode → Message
  seeked : Time → Mode → Bool → Bool → ℤ → Message
  invalid_time invalid_offset : Message

pub data Call : Type 0 where
  say : Message → Call
  start_hub stop_hub pause_hub resume_hub : ℕ → Call
  consume close_handle close_writer : ℕ → Call

pub record World : Type 0 where
  pub now : Time
  pub db : Env
  pub new_hub : ℕ
  pub hub_starts : Bool
  pub new_writer : Option ℕ
  pub consumed : Option ℕ
  pub codec_string : ℕ → String
  pub add_offset : Time → ℤ → Time

pub record Session : Type 0 where
  pub camera_id : String
  pub play_sm : Option ℕ
  pub ms : Option ℕ
  pub consumer : Option ℕ
  pub is_live : Bool
  pub live_handle : Option ℕ
  pub is_tracked : Bool
  pub last_seq_seen : ℤ
  pub last_seek_time : Time
  pub last_mode : Option Mode
  pub last_codec_str : String
  pub index : Option Index
  pub viewers : ℤ
  pub calls : List Call

-- Whether a method returned an error.
abbrev pub Failed : Type 0
Failed = Bool

abbrev pub call : Call → Session → Session
call c s = record s { calls = c ∷ s.calls }

-- Forgets hub, writer and consumers, without a call: what the starts assign.
abbrev pub reset : Option ℕ → Bool → Session → Session
reset sm is_live s = record s {
  play_sm = sm;
  is_live = is_live;
  live_handle = none;
  is_tracked = false;
  ms = none;
  consumer = none;
}

unfoldable pub start_live : World → Session → Session
start_live w s = reset none true (call (say (mode_change w.now)) s)

-- `startRecordedAt`
unfoldable pub start_recorded_at : World → Session → Session × Failed
start_recorded_at w s =
    if w.hub_starts
    then (reset (some w.new_hub) false (call (start_hub w.new_hub) s), false)
    else (call (start_hub w.new_hub) s, true)

abbrev pub note_start : Time → Mode → Session × Failed → Session × Failed
note_start t mode (s, true) = (s, true)
note_start t mode (s, false) = (record s { last_seek_time = t; last_mode = some mode }, false)

abbrev pub start_on : World → Start → Session → Session × Failed
start_on w live s = (start_live w s, false)
start_on w (first_recorded t) s =
    note_start t first_available_mode
      (start_recorded_at w (call (say (playback_info t first_available_mode)) s))
start_on w (recorded t) s =
    note_start t recorded_mode (start_recorded_at w (call (say (playback_info t recorded_mode)) s))
start_on w no_index s = (s, true)
start_on w nothing_found s = (s, true)
start_on w query_failed s = (s, true)

abbrev pub resolve : World → Time → Session → Option Index × Start
resolve w t s = resolve_on w.db s.camera_id t zero_time s.index

unfoldable pub start_resolved : World → Time → Session → Session × Failed
start_resolved w from s = let r = resolve w from s in start_on w r.1 (record s { index = r.0 })

unfoldable pub start_session : World → Time → Session → Session × Failed
start_session w from s = if is_zero from then (start_live w s, false) else start_resolved w from s

-- `attachLiveConsumer`, by what the hub's Consume answers.
abbrev pub attach_live : ℕ → Option ℕ → Session → Session × Failed
attach_live mse none s = (call (close_writer mse) s, true)
attach_live mse (some h) s = (
  record (call (consume h) s) {
    ms = some mse;
    live_handle = some h;
    is_tracked = true;
    viewers = track_consumer s.viewers;
  },
  false,
)

abbrev pub attach_recorded : ℕ → Option ℕ → Option ℕ → Session → Session × Failed
attach_recorded mse none answer s = (call (close_writer mse) s, true)
attach_recorded mse (some sm) none s = (call (close_writer mse) s, true)
attach_recorded mse (some sm) (some h) s =
    (record (call (consume h) s) { ms = some mse; consumer = some h }, false)

abbrev pub attach_writer : World → Option ℕ → Session → Session × Failed
attach_writer w none s = (s, true)
attach_writer w (some mse) s =
    if s.is_live then attach_live mse w.consumed s else attach_recorded mse s.play_sm w.consumed s

unfoldable pub attach_consumer : World → Session → Session × Failed
attach_consumer w s = attach_writer w w.new_writer s

-- A call on what a field holds, if it holds anything.
abbrev pub call_on : (ℕ → Call) → Option ℕ → Session → Session
call_on c none s = s
call_on c (some n) s = call (c n) s

unfoldable pub pause : Session → Session
pause s = if s.is_live then s else call_on pause_hub s.play_sm s

unfoldable pub resume : Session → Session
resume s = if s.is_live then s else call_on resume_hub s.play_sm s

unfoldable pub stop : Session → Session
stop s =
    let cleared = reset none false s in
    let closed = call_on close_handle s.live_handle (call_on close_handle s.consumer cleared) in
    let released = record closed {
      viewers = if s.is_tracked then release_consumer closed.viewers else closed.viewers;
    } in
    call_on stop_hub s.play_sm (call_on close_writer s.ms released)

-- Goes on unless there was an error.
abbrev pub and_then : Session × Failed → (Session → Session × Failed) → Session × Failed
and_then (s, true) k = (s, true)
and_then (s, false) k = k s

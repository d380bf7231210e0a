-- ===== src/View/Session/Seek.antt =====
-- pkg/edgeview/ws_stream.go: seeks, skips, the command loop and the whole of a session.
use vrtc.Base.{
  ℕ, Bool, true, false, not, ◌&&◌, Option, none, some, List, [], ◌∷◌, String, str_eq, if◌then◌else◌,
}
use vrtc.Base.Int.{ℤ, pos, leb_ℤ, ltb_ℤ, positive}
use vrtc.Clock.{Time, zero_time, is_zero, after, sub_time}
use vrtc.View.Source.{gap_threshold}
use vrtc.View.Resolve.{Start, recorded, first_recorded, live, no_index, nothing_found, query_failed}
use vrtc.View.Session.{
  Mode, live_mode, recorded_mode, first_available_mode, say, seeked, invalid_time, invalid_offset,
  World, Session, Failed, call, start_live, start_recorded_at, resolve, start_session,
  attach_consumer, pause, resume, stop, and_then,
}

-- Whether a sequence number is superseded, and the highest one seen.
abbrev pub is_stale : ℤ → Session → Bool
is_stale seq s = positive seq && leb_ℤ seq s.last_seq_seen

abbrev pub see_seq : ℤ → Session → Session
see_seq seq s = record s { last_seq_seen = if positive seq then seq else s.last_seq_seen }

-- The start of a seek: the time and mode it came to, and whether it came after a gap.
pub record Landing : Type 0 where
  pub at : Time
  pub mode : Mode
  pub gap : Bool

abbrev pub landed : Landing → Session × Failed → (Session × Failed) × Landing
landed l r = (r, l)

-- A position in the future is live even where it could not be resolved.
abbrev pub land_failed : World → Time → Session → (Session × Failed) × Landing
land_failed w t s =
    landed (record { at = zero_time; mode = live_mode; gap = false })
      (if after t w.now then (start_live w s, false) else (s, true))

abbrev pub land : World → Time → Start → Session → (Session × Failed) × Landing
land w t live s =
    landed (record { at = zero_time; mode = live_mode; gap = false }) (start_live w s, false)
land w t (first_recorded at) s =
    landed (record { at = at; mode = first_available_mode; gap = true }) (start_recorded_at w s)
land w t (recorded at) s =
    landed
      (record { at = at; mode = recorded_mode; gap = leb_ℤ (pos gap_threshold) (sub_time at t) })
      (start_recorded_at w s)
land w t no_index s = land_failed w t s
land w t nothing_found s = land_failed w t s
land w t query_failed s = land_failed w t s

unfoldable pub resolve_and_start_seek : World → Time → Session → (Session × Failed) × Landing
resolve_and_start_seek w t s = let r = resolve w t s in land w t r.1 (record s { index = r.0 })

abbrev pub codec_of : World → Option ℕ → String
codec_of w none = ""
codec_of w (some mse) = w.codec_string mse

abbrev pub is_codec_changed : String → String → Bool
is_codec_changed old new = not (str_eq old "") && not (str_eq new "") && not (str_eq old new)

abbrev pub time_in : World → Time → Mode → Time
time_in w t live_mode = w.now
time_in w t recorded_mode = t
time_in w t first_available_mode = t

abbrev pub actual_time : World → Landing → Time
actual_time w l = time_in w l.at l.mode

-- The answer to the client, and the seek state.
abbrev pub finish_seek : World → String → ℤ → Landing → Session → Session
finish_seek w old seq l s =
    let codec = codec_of w s.ms in
    record (call (say (seeked (actual_time w l) l.mode l.gap (is_codec_changed old codec) seq)) s) {
      last_seek_time = actual_time w l;
      last_mode = some l.mode;
      last_codec_str = codec;
    }

abbrev pub attach_seek : World → String → ℤ → Landing → Session → Session × Failed
attach_seek w old seq l s =
    if positive seq && ltb_ℤ seq s.last_seq_seen
    then (stop s, false)
    else and_then (attach_consumer w s) (λ s. (finish_seek w old seq l s, false))

unfoldable pub execute_seek : World → Time → ℤ → String → Session → Session × Failed
execute_seek w t seq old s =
    let r = resolve_and_start_seek w t (stop s) in and_then r.0 (attach_seek w old seq r.1)

-- The time of a seek command: "now", a time, or a text that is none.
pub data Target : Type 0 where
  to_now bad_time : Target
  to_time : Time → Target

abbrev pub seek_to : World → Target → ℤ → String → Session → Session × Failed
seek_to w to_now seq old s =
    and_then (attach_consumer w (start_live w (stop s)))
      (λ s. (call (say (seeked w.now live_mode false false seq)) s, false))
seek_to w bad_time seq old s = (call (say invalid_time) s, false)
seek_to w (to_time t) seq old s = execute_seek w t seq old s

unfoldable pub handle_seek : World → Target → ℤ → Session → Session × Failed
handle_seek w target seq s =
    if is_stale seq s then (s, false) else seek_to w target seq s.last_codec_str (see_seq seq s)

-- A skip goes from the last position, or from now.
abbrev pub base_of : World → Session → Time
base_of w s = if is_zero s.last_seek_time then w.now else s.last_seek_time

unfoldable pub handle_skip : World → Option ℤ → ℤ → Session → Session × Failed
handle_skip w none seq s = (call (say invalid_offset) s, false)
handle_skip w (some offset) seq s =
    if is_stale seq s
    then (s, false)
    else execute_seek w (w.add_offset (base_of w s) offset) seq s.last_codec_str (see_seq seq s)

-- The commands of a client, and those that are passed over.
pub data Command : Type 0 where
  play pause_command resume_command ignored : Command
  seek : Target → ℤ → Command
  skip : Option ℤ → ℤ → Command

-- One turn of `readLoop`.
unfoldable pub step : World → Command → Session → Session × Failed
step w play s = attach_consumer w s
step w pause_command s = (pause s, false)
step w resume_command s = (resume s, false)
step w ignored s = (s, false)
step w (seek target seq) s = handle_seek w target seq s
step w (skip offset seq) s = handle_skip w offset seq s

-- The loop ends at the first error or when the client is gone.
unfoldable pub read_loop : List (World × Command) → Session → Session
read_loop [] s = s
read_loop ((w, c) ∷ rest) s =
    let r = step w c s in let later = read_loop rest r.0 in if r.1 then r.0 else later

-- `wsStream` once the socket is accepted: the session is stopped only if it started.
unfoldable pub serve : World → Time → List (World × Command) → Session → Session
serve w from commands s =
    let r = start_session w from s in if r.1 then r.0 else stop (read_loop commands r.0)

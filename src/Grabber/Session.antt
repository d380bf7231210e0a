-- ===== src/Grabber/Session.antt =====
-- internal/avgrabber/session.go: the session of the C library.
--
-- What a call of the library answers, its return code and what it fills in, is an argument; the calls
-- that were made stand newest first. A pointer of the library is a number, and nil is none.
use vrtc.Base.{ℕ, Bool, Option, none, some, List, [], ◌∷◌, String}
use vrtc.Base.Int.{ℤ}
use vrtc.Grabber.Frame.{Frame, StreamInfo, Status, fine, failed, Error, status_error}

pub record Config : Type 0 where
  pub url : String
  pub username : String
  pub password : String
  pub protocol : ℤ
  pub multicast : Bool
  pub audio : Bool
  pub connect_timeout_ms : ℤ
  pub frame_queue_depth : ℤ

pub data Call : Type 0 where
  open_session : Config → Call
  close_session : ℕ → Call
  stop_session resume_session : Option ℕ → Call
  next : Option ℕ → ℤ → Call

pub record Session : Type 0 where
  pub ptr : Option ℕ
  pub calls : List Call

abbrev pub call : Call → Session → Session
call c s = record s { calls = c ∷ s.calls }

abbrev pub session_on : Config → ℕ → Status → Option Session
session_on cfg p fine = some (record { ptr = some p; calls = open_session cfg ∷ [] })
session_on cfg p (failed e) = none

-- The session, or none where `Open` returns an error.
unfoldable pub open_with : Config → ℤ → ℕ → Option Session
open_with cfg rc p = session_on cfg p (status_error rc)

abbrev pub close_on : ℤ → Option ℕ → Session → Session × Status
close_on rc none s = (s, fine)
close_on rc (some p) s = (record (call (close_session p) s) { ptr = none }, status_error rc)

unfoldable pub close : ℤ → Session → Session × Status
close rc s = close_on rc s.ptr s

unfoldable pub stop : ℤ → Session → Session × Status
stop rc s = (call (stop_session s.ptr) s, status_error rc)

unfoldable pub resume : ℤ → Session → Session × Status
resume rc s = (call (resume_session s.ptr) s, status_error rc)

-- A frame, or the error.
pub data Delivery : Type 0 where
  delivered : Frame → Delivery
  undelivered : Error → Delivery

abbrev pub delivery : Frame → Status → Delivery
delivery f fine = delivered f
delivery f (failed e) = undelivered e

unfoldable pub next_frame : ℤ → ℤ → Frame → Session → Session × Delivery
next_frame timeout rc f s = (call (next s.ptr timeout) s, delivery f (status_error rc))

abbrev pub info_or_none : StreamInfo → Status → Option StreamInfo
info_or_none i fine = some i
info_or_none i (failed e) = none

-- `GetStreamInfo`, whose error its callers only test for.
unfoldable pub get_stream_info : ℤ → StreamInfo → Option StreamInfo
get_stream_info rc i = info_or_none i (status_error rc)

-- ===== src/View/Session/Service.antt =====
-- pkg/edgeview/ws_stream.go: seeks, commands and the whole of a session.
use vrtc.Base.{
  ℕ, ◌+◌, ◌<◌, ◌^◌, ◌≡◌, refl, ap, ◌∙◌, inl, inr, Bool, true, false, ◌&&◌, Bool-cases, Option, none,
  some, List, [], ◌∷◌, String, arith, if◌then◌else◌,
}
use vrtc.Base.Int.{ℤ, pos, add64, add64-pos, ltb_ℤ, positive}
use vrtc.Clock.{Time, after}
use vrtc.View.Resolve.{
  Start, recorded, first_recorded, live, no_index, nothing_found, query_failed, track_consumer,
}
use vrtc.View.Session.{
  Call, pause_hub, resume_hub, World, Session, Failed, start_live, resolve, start_session,
  attach_live, attach_writer, attach_consumer, call_on, pause, resume, stop, and_then,
}
use vrtc.View.Session.Seek.{
  is_stale, see_seq, Landing, land, land_failed, resolve_and_start_seek, finish_seek, attach_seek,
  execute_seek, Target, to_now, bad_time, to_time, seek_to, handle_seek, base_of, handle_skip,
  Command, play, pause_command, resume_command, ignored, seek, skip, step, read_loop, serve,
}
use vrtc.View.Session.Viewers.{
  call_on-SameViewers, IsIdle, IsBalanced, IsIdle-IsBalanced, IsBalanced-same, IsBalanced-if,
  stop-IsIdle, start_recorded_at-IsIdle, start_session-IsIdle, attach_consumer-IsBalanced,
}

-- The initial play command comes only where no viewer is tracked yet.
abbrev pub IsFirst : Command → Session → Type 0
IsFirst play s = s.is_tracked ≡ false
IsFirst pause_command s = Unit {0}
IsFirst resume_command s = Unit {0}
IsFirst ignored s = Unit {0}
IsFirst (seek target seq) s = Unit {0}
IsFirst (skip offset seq) s = Unit {0}

abbrev pub AreFirst : List (World × Command) → Session → Type 0
AreFirst [] s = Unit {0}
AreFirst ((w, c) ∷ rest) s = IsFirst c s × AreFirst rest (step w c s).0

module _ (n : ℕ) (small : n + 1 < 2 ^ 63) where
  and_then-IsBalanced :
      (r : Session × Failed) (k : Session → Session × Failed)
      → IsBalanced n small r.0
      → ((s : Session) → IsBalanced n small s → IsBalanced n small (k s).0)
      → IsBalanced n small (and_then r k).0
  and_then-IsBalanced (s, true) k b f = b
  and_then-IsBalanced (s, false) k b f = f s b

  and_then-IsIdle :
      (r : Session × Failed) (k : Session → Session × Failed)
      → IsIdle n small r.0
      → ((s : Session) → IsIdle n small s → IsBalanced n small (k s).0)
      → IsBalanced n small (and_then r k).0
  and_then-IsIdle (s, true) k i f = IsIdle-IsBalanced n small s i
  and_then-IsIdle (s, false) k i f = f s i

  start_live-IsIdle : (w : World) (s : Session) → IsIdle n small s → IsIdle n small (start_live w s)
  unfolding start_live
  start_live-IsIdle w s i = (refl, i.1)

  land_failed-IsIdle :
      (w : World) (t : Time) (s : Session)
      → IsIdle n small s
      → IsIdle n small (land_failed w t s).0.0
  land_failed-IsIdle w t s i = elim (Bool-cases (after t w.now)) [
    | inl e ↦ rw e (start_live-IsIdle w s i)
    | inr e ↦ rw e i
  ]

  land-IsIdle :
      (w : World) (t : Time) (r : Start) (s : Session)
      → IsIdle n small s
      → IsIdle n small (land w t r s).0.0
  land-IsIdle w t live s i = start_live-IsIdle w s i
  land-IsIdle w t (first_recorded at) s i = start_recorded_at-IsIdle n small w s i
  land-IsIdle w t (recorded at) s i = start_recorded_at-IsIdle n small w s i
  land-IsIdle w t no_index s i = land_failed-IsIdle w t s i
  land-IsIdle w t nothing_found s i = land_failed-IsIdle w t s i
  land-IsIdle w t query_failed s i = land_failed-IsIdle w t s i

  attach_seek-IsBalanced :
      (w : World) (old : String) (seq : ℤ) (l : Landing) (s : Session)
      → IsIdle n small s
      → IsBalanced n small (attach_seek w old seq l s).0
  attach_seek-IsBalanced w old seq l s i =
      IsBalanced-if n small (positive seq && ltb_ℤ seq s.last_seq_seen) (stop s, false) _
        (IsIdle-IsBalanced n small (stop s) (stop-IsIdle n small s (IsIdle-IsBalanced n small s i)))
        (and_then-IsBalanced (attach_consumer w s) (λ s. (finish_seek w old seq l s, false))
          (attach_consumer-IsBalanced n small w s i) (λ s b. b))

  execute_seek-IsBalanced :
      (w : World) (t : Time) (seq : ℤ) (old : String) (s : Session)
      → IsBalanced n small s
      → IsBalanced n small (execute_seek w t seq old s).0
  unfolding execute_seek resolve_and_start_seek
  execute_seek-IsBalanced w t seq old s b =
      let r = resolve w t (stop s) in
      and_then-IsIdle (resolve_and_start_seek w t (stop s)).0
        (attach_seek w old seq (resolve_and_start_seek w t (stop s)).1)
        (land-IsIdle w t r.1 (record (stop s) { index = r.0 }) (stop-IsIdle n small s b))
        (λ x i. attach_seek-IsBalanced w old seq (resolve_and_start_seek w t (stop s)).1 x i)

  seek_to-IsBalanced :
      (w : World) (target : Target) (seq : ℤ) (old : String) (s : Session)
      → IsBalanced n small s
      → IsBalanced n small (seek_to w target seq old s).0
  seek_to-IsBalanced w to_now seq old s b =
      and_then-IsBalanced (attach_consumer w (start_live w (stop s))) _
        (attach_consumer-IsBalanced n small w (start_live w (stop s))
          (start_live-IsIdle w (stop s) (stop-IsIdle n small s b)))
        (λ s b. b)
  seek_to-IsBalanced w bad_time seq old s b = b
  seek_to-IsBalanced w (to_time t) seq old s b = execute_seek-IsBalanced w t seq old s b

  handle_skip-IsBalanced :
      (w : World) (offset : Option ℤ) (seq : ℤ) (s : Session)
      → IsBalanced n small s
      → IsBalanced n small (handle_skip w offset seq s).0
  unfolding handle_skip
  handle_skip-IsBalanced w none seq s b = b
  handle_skip-IsBalanced w (some offset) seq s b =
      IsBalanced-if n small (is_stale seq s) (s, false) _ b
        (execute_seek-IsBalanced w (w.add_offset (base_of w s) offset) seq s.last_codec_str
          (see_seq seq s) b)

  handle_seek-IsBalanced :
      (w : World) (target : Target) (seq : ℤ) (s : Session)
      → IsBalanced n small s
      → IsBalanced n small (handle_seek w target seq s).0
  unfolding handle_seek
  handle_seek-IsBalanced w target seq s b =
      IsBalanced-if n small (is_stale seq s) (s, false) _ b
        (seek_to-IsBalanced w target seq s.last_codec_str (see_seq seq s) b)

  relayed :
      (b : Bool) (c : ℕ → Call) (o : Option ℕ) (s : Session)
      → IsBalanced n small s
      → IsBalanced n small (if b then s else call_on c o s)
  relayed true c o s h = h
  relayed false c o s h = IsBalanced-same n small s (call_on c o s) (call_on-SameViewers c o s) h

  step-IsBalanced :
      (w : World) (c : Command) (s : Session)
      → IsFirst c s
      → IsBalanced n small s
      → IsBalanced n small (step w c s).0
  unfolding step pause resume
  step-IsBalanced w play s f b = attach_consumer-IsBalanced n small w s (f, b ∙ (rw f refl))
  step-IsBalanced w pause_command s f b = relayed s.is_live pause_hub s.play_sm s b
  step-IsBalanced w resume_command s f b = relayed s.is_live resume_hub s.play_sm s b
  step-IsBalanced w ignored s f b = b
  step-IsBalanced w (seek target seq) s f b = handle_seek-IsBalanced w target seq s b
  step-IsBalanced w (skip offset seq) s f b = handle_skip-IsBalanced w offset seq s b

  read_loop-IsBalanced :
      (cs : List (World × Command)) (s : Session)
      → AreFirst cs s
      → IsBalanced n small s
      → IsBalanced n small (read_loop cs s)
  unfolding read_loop
  read_loop-IsBalanced [] s f b = b
  read_loop-IsBalanced ((w, c) ∷ rest) s f b =
      let now = step-IsBalanced w c s f.0 b in
      elim (Bool-cases (step w c s).1) [
        | inl e ↦ rw e now
        | inr e ↦ rw e (read_loop-IsBalanced rest (step w c s).0 f.1 now)
      ]

  -- A session gives back the viewers that it counts: whatever seeks, skips, pauses and errors it goes
  -- through, the viewer count after it is the one before it, if the initial play command is given only
  -- where no viewer is tracked.
  pub serve-viewers :
      (w : World) (from : Time) (cs : List (World × Command)) (s : Session)
      → s.is_tracked ≡ false
      → s.viewers ≡ pos n
      → AreFirst cs (start_session w from s).0
      → (serve w from cs s).viewers ≡ pos n
  unfolding serve
  serve-viewers w from cs s t v f =
      let started = start_session w from s in
      let i = start_session-IsIdle n small w from s (t, v) in
      elim (Bool-cases started.1) [
        | inl e ↦ rw e i.1
        | inr e ↦
            rw e
              (stop-IsIdle n small (read_loop cs started.0)
                (read_loop-IsBalanced cs started.0 f (IsIdle-IsBalanced n small started.0 i))).1
      ]

attach_consumer-live :
    (w : World) (s : Session) (mse h : ℕ)
    → s.is_live ≡ true
    → w.new_writer ≡ some mse
    → w.consumed ≡ some h
    → (attach_consumer w s).0 ≡ (attach_live mse (some h) s).0
unfolding attach_consumer
attach_consumer-live w s mse h l m c =
    ap (λ o. (attach_writer w o s).0) m ∙ rw l refl ∙ ap (λ o. (attach_live mse o s).0) c

-- A second play command in live mode leaves a viewer counted for good: where nobody else is counted
-- and both commands attach, one viewer is left after the stop.
pub play-twice :
    (w w' : World) (s : Session) (mse mse' h h' : ℕ)
    → s.is_live ≡ true
    → w.new_writer ≡ some mse
    → w.consumed ≡ some h
    → w'.new_writer ≡ some mse'
    → w'.consumed ≡ some h'
    → s.viewers ≡ pos 0
    → (stop (step w' play (step w play s).0).0).viewers ≡ pos 1
unfolding step track_consumer
play-twice w w' s mse mse' h h' l m c m' c' v =
    let s' = (step w play s).0 in
    let s'' = (step w' play s').0 in
    let one = attach_consumer-live w s mse h l m c in
    let two = attach_consumer-live w' s' mse' h' (ap (λ x. x.is_live) one ∙ l) m' c' in
    let first : s'.viewers ≡ pos 1 =
      ap (λ x. x.viewers) one ∙ ap (λ x. add64 x (pos 1)) v ∙ add64-pos 0 1 (omega arith) in
    let second : s''.viewers ≡ pos 2 =
      ap (λ x. x.viewers) two ∙ ap (λ x. add64 x (pos 1)) first ∙ add64-pos 1 1 (omega arith) in
    (stop-IsIdle 1 (omega arith) s'' (second ∙ rw (ap (λ x. x.is_tracked) two) refl)).1

-- ===== src/View/Session/Viewers.antt =====
-- pkg/edgeview/ws_stream.go: the viewer count over the life of a session.
use vrtc.Base.{
  ℕ, ◌+◌, ◌<◌, ◌^◌, ◌≡◌, refl, ap, ◌∙◌, inl, inr, Bool, true, false, Bool-cases, Option, none, some,
  arith, if◌then◌else◌,
}
use vrtc.Base.Int.{ℤ, pos, add64, sub64, add64-pos, sub64-pos}
use vrtc.Clock.{Time, is_zero}
use vrtc.View.Resolve.{
  Start, recorded, first_recorded, live, no_index, nothing_found, query_failed, track_consumer,
  release_consumer,
}
use vrtc.View.Session.{
  Mode, recorded_mode, first_available_mode, playback_info, Call, say, close_handle, close_writer,
  stop_hub, World, Session, Failed, call, reset, start_live, start_recorded_at, note_start,
  start_on, resolve, start_resolved, start_session, attach_live, attach_recorded, attach_writer,
  attach_consumer, call_on, stop,
}

-- One session has the viewers of another, and is tracked if that is.
abbrev pub SameViewers : Session → Session → Type 0
SameViewers s s' = (s'.is_tracked ≡ s.is_tracked) × (s'.viewers ≡ s.viewers)

pub call_on-SameViewers :
    (c : ℕ → Call) (o : Option ℕ) (s : Session) → SameViewers s (call_on c o s)
call_on-SameViewers c none s = (refl, refl)
call_on-SameViewers c (some n) s = (refl, refl)

module _ (n : ℕ) (small : n + 1 < 2 ^ 63) where
  -- The session counts for no viewer, beside the `n` of others.
  abbrev pub IsIdle : Session → Type 0
  IsIdle s = (s.is_tracked ≡ false) × (s.viewers ≡ pos n)

  -- The session counts for one viewer while it is tracked.
  abbrev pub IsBalanced : Session → Type 0
  IsBalanced s = s.viewers ≡ (if s.is_tracked then pos (n + 1) else pos n)

  pub IsIdle-IsBalanced : (s : Session) → IsIdle s → IsBalanced s
  IsIdle-IsBalanced s (t, v) = rw t v

  pub IsBalanced-same : (s s' : Session) → SameViewers s s' → IsBalanced s → IsBalanced s'
  IsBalanced-same s s' (t, v) b = rw t (v ∙ b)

  IsIdle-same : (s s' : Session) → SameViewers s s' → IsIdle s → IsIdle s'
  IsIdle-same s s' (t, v) (i, j) = (t ∙ i, v ∙ j)

  pub IsBalanced-if :
      (b : Bool) (r r' : Session × Failed)
      → IsBalanced r.0
      → IsBalanced r'.0
      → IsBalanced (if b then r else r').0
  IsBalanced-if true r r' p q = p
  IsBalanced-if false r r' p q = q

  released :
      (b : Bool) (v : ℤ)
      → v ≡ (if b then pos (n + 1) else pos n)
      → (if b then release_consumer v else v) ≡ pos n
  unfolding release_consumer
  released true v h =
      ap (λ x. sub64 x (pos 1)) h ∙ sub64-pos (n + 1) 1 small (omega arith) ∙ ground arith
  released false v h = h

  pub stop-IsIdle : (s : Session) → IsBalanced s → IsIdle (stop s)
  unfolding stop
  stop-IsIdle s b =
      let cleared = reset none false s in
      let one = call_on close_handle s.consumer cleared in
      let two = call_on close_handle s.live_handle one in
      let (t1, v1) = call_on-SameViewers close_handle s.consumer cleared in
      let (t2, v2) = call_on-SameViewers close_handle s.live_handle one in
      let three : Session = record two {
        viewers = if s.is_tracked then release_consumer two.viewers else two.viewers;
      } in
      let four = call_on close_writer s.ms three in
      let (t3, v3) = call_on-SameViewers close_writer s.ms three in
      let (t4, v4) = call_on-SameViewers stop_hub s.play_sm four in
      (t4 ∙ t3 ∙ t2 ∙ t1, v4 ∙ v3 ∙ released s.is_tracked two.viewers (v2 ∙ v1 ∙ b))

  pub start_recorded_at-IsIdle :
      (w : World) (s : Session) → IsIdle s → IsIdle (start_recorded_at w s).0
  unfolding start_recorded_at
  start_recorded_at-IsIdle w s (t, v) = elim (Bool-cases w.hub_starts) [
    | inl e ↦ rw e (refl, v)
    | inr e ↦ rw e (t, v)
  ]

  note_start-IsIdle :
      (t : Time) (m : Mode) (r : Session × Failed) → IsIdle r.0 → IsIdle (note_start t m r).0
  note_start-IsIdle t m (s, true) i = i
  note_start-IsIdle t m (s, false) i = i

  start_on-IsIdle : (w : World) (r : Start) (s : Session) → IsIdle s → IsIdle (start_on w r s).0
  unfolding start_live
  start_on-IsIdle w live s (t, v) = (refl, v)
  start_on-IsIdle w (first_recorded at) s i =
      note_start-IsIdle at first_available_mode _
        (start_recorded_at-IsIdle w (call (say (playback_info at first_available_mode)) s) i)
  start_on-IsIdle w (recorded at) s i =
      note_start-IsIdle at recorded_mode _
        (start_recorded_at-IsIdle w (call (say (playback_info at recorded_mode)) s) i)
  start_on-IsIdle w no_index s i = i
  start_on-IsIdle w nothing_found s i = i
  start_on-IsIdle w query_failed s i = i

  pub start_session-IsIdle :
      (w : World) (from : Time) (s : Session) → IsIdle s → IsIdle (start_session w from s).0
  unfolding start_session start_resolved start_live
  start_session-IsIdle w from s i = elim (Bool-cases (is_zero from)) [
    | inl e ↦ rw e (refl, i.1)
    | inr e ↦
        rw e (start_on-IsIdle w (resolve w from s).1 (record s { index = (resolve w from s).0 }) i)
  ]

  attach_live-IsBalanced :
      (m : ℕ) (o : Option ℕ) (s : Session) → IsIdle s → IsBalanced (attach_live m o s).0
  unfolding track_consumer
  attach_live-IsBalanced m none s i = IsIdle-IsBalanced s i
  attach_live-IsBalanced m (some h) s (t, v) = ap (λ x. add64 x (pos 1)) v ∙ add64-pos n 1 small

  attach_recorded-IsBalanced :
      (m : ℕ) (sm o : Option ℕ) (s : Session) → IsIdle s → IsBalanced (attach_recorded m sm o s).0
  attach_recorded-IsBalanced m none o s i = IsIdle-IsBalanced s i
  attach_recorded-IsBalanced m (some sm) none s i = IsIdle-IsBalanced s i
  attach_recorded-IsBalanced m (some sm) (some h) s i = IsIdle-IsBalanced s i

  attach_writer-IsBalanced :
      (w : World) (o : Option ℕ) (s : Session) → IsIdle s → IsBalanced (attach_writer w o s).0
  attach_writer-IsBalanced w none s i = IsIdle-IsBalanced s i
  attach_writer-IsBalanced w (some m) s i =
      IsBalanced-if s.is_live (attach_live m w.consumed s)
        (attach_recorded m s.play_sm w.consumed s) (attach_live-IsBalanced m w.consumed s i)
        (attach_recorded-IsBalanced m s.play_sm w.consumed s i)

  pub attach_consumer-IsBalanced :
      (w : World) (s : Session) → IsIdle s → IsBalanced (attach_consumer w s).0
  unfolding attach_consumer
  attach_consumer-IsBalanced w s i = attach_writer-IsBalanced w w.new_writer s i

-- ===== src/Tool/Pushed.antt =====
-- cmd/analytics-tool/main.go: what the simulator pushes, and the bounds of its channel.
use vrtc.Base.{
  ℕ, ◌+◌, ◌%◌, ◌≤◌, ◌<◌, zero, suc, ◌≡◌, refl, subst, true, false, Option, none, some, List, [],
  ◌∷◌, ◌++◌, String, ltb, All, All-append, ◌⊎◌, inl, inr, if-split, length, arith,
}
use vrtc.Base.Int.{ℤ}
use vrtc.Clock.{Time, is_zero}
use vrtc.Tool.{
  unix_milli, Random, detections, generate_analytics, Request, FrameWork, build_request, text,
  binary, Event, connected, read, takes, pushes, State, work_capacity, new_state, time_in,
  with_clock, on_binary, take_from, push_held, step, run_camera,
}

module _ (parse : String → Option Time) (camera : String) where
  abbrev optional : Option Time → List Time → List Time
  optional none ts = ts
  optional (some t) ts = t ∷ ts

  -- The times that the messages of a run carry.
  abbrev pub times_of : List Event → List Time
  times_of [] = []
  times_of (connected ∷ es) = times_of es
  times_of (read (text frame) ∷ es) = optional (time_in parse frame) (times_of es)
  times_of (read binary ∷ es) = times_of es
  times_of (takes ∷ es) = times_of es
  times_of (pushes r now ∷ es) = times_of es

  module _ (P : Time → Type 0) where
    -- A frame of the camera, at a time that was announced.
    abbrev IsAnnounced : FrameWork → Type 0
    IsAnnounced fw = (fw.source_id ≡ camera) × P fw.wall_clock

    abbrev IsHeld : Option FrameWork → Type 0
    IsHeld none = Unit
    IsHeld (some fw) = IsAnnounced fw

    abbrev IsPush : Request → Type 0
    IsPush r =
        (r.source_id ≡ camera)
        × ((t : Time) × P t
            × (r.wall_clock_ms ≡ unix_milli t)
            × (r.analytics.capture_ms ≡ unix_milli t)
            × (r.analytics.people_count < 5)
            × (r.analytics.vehicle_count < 3)
            × (length r.analytics.objects < 4))

    record Inv (st : State) : Type 0 where
      clock : (is_zero st.latest_wall_clock ≡ true) ⊎ P st.latest_wall_clock
      work : All IsAnnounced st.work
      held : IsHeld st.held
      sent : All IsPush st.sent
      bounded : length st.work ≤ work_capacity

    with_clock-Inv :
        (o : Option Time) (ts : List Time) (st : State)
        → All P (optional o ts)
        → Inv st
        → Inv (with_clock o st) × All P ts
    with_clock-Inv none ts st h i = (i, h)
    with_clock-Inv (some t) ts st (p, h) i = (
      record { clock = inr p; work = i.work; held = i.held; sent = i.sent; bounded = i.bounded },
      h,
    )

    length-snoc : {A : Type 0} (xs : List A) (x : A) → length (xs ++ x ∷ []) ≡ length xs + 1
    length-snoc [] x = omega arith
    length-snoc (y ∷ xs) x = omega (arith, length-snoc xs x)

    announced : (t : Time) → (is_zero t ≡ true) ⊎ P t → is_zero t ≡ false → P t
    announced t (inl e) f = ground (arith, e, f)
    announced t (inr p) f = p

    put-Inv :
        (st : State) (fw : FrameWork)
        → ltb (length st.work) work_capacity ≡ true
        → IsAnnounced fw
        → Inv st
        → Inv (record st { work = st.work ++ fw ∷ [] })
    put-Inv st fw l a i = record {
      clock = i.clock;
      work = All-append IsAnnounced st.work (fw ∷ []) i.work (a, tt);
      held = i.held;
      sent = i.sent;
      bounded = ground (arith, length-snoc st.work fw);
    }

    on_binary-Inv : (st : State) → Inv st → Inv (on_binary camera st)
    on_binary-Inv st i =
        if-split Inv (is_zero st.latest_wall_clock) (λ z. i)
          (λ z.
            if-split Inv (ltb (length st.work) work_capacity)
              (λ l. put-Inv st _ l (refl, announced st.latest_wall_clock i.clock z) i) (λ l. i))

    suc-le : {n : ℕ} → suc n ≤ work_capacity → n ≤ work_capacity
    suc-le h = omega arith

    take_at-Inv :
        (held : Option FrameWork) (work : List FrameWork) (st : State)
        → st.work ≡ work
        → Inv st
        → Inv (take_from held work st)
    take_at-Inv (some fw) work st q i = i
    take_at-Inv none [] st q i = i
    take_at-Inv none (fw ∷ rest) st q i =
        let whole = subst (All IsAnnounced) q i.work in
        record {
          clock = i.clock;
          work = whole.1;
          held = whole.0;
          sent = i.sent;
          bounded = suc-le (subst (λ work. length work ≤ work_capacity) q i.bounded);
        }

    detections-length : (r : Random) (k n : ℕ) → length (detections r k n) ≡ n
    unfolding detections
    detections-length r k zero = refl
    detections-length r k (suc n) = omega (arith, detections-length r (k + 1) n)

    build-IsPush :
        (r : Random) (now : ℤ) (fw : FrameWork)
        → IsAnnounced fw
        → IsPush (build_request fw (generate_analytics r fw.wall_clock now))
    unfolding build_request generate_analytics
    build-IsPush r now fw (s, p) = (
      s,
      (
        fw.wall_clock,
        p,
        refl,
        refl,
        omega arith,
        omega arith,
        omega (arith, detections-length r 0 (r.objects % 4)),
      ),
    )

    push_held-Inv :
        (r : Random) (now : ℤ) (st : State) (held : Option FrameWork)
        → IsHeld held
        → Inv st
        → Inv (push_held r now held st)
    push_held-Inv r now st none h i = i
    push_held-Inv r now st (some fw) h i = record {
      clock = i.clock;
      work = i.work;
      held = tt;
      sent = (build-IsPush r now fw h, i.sent);
      bounded = i.bounded;
    }

    run_camera-Inv :
        (es : List Event) (st : State)
        → All P (times_of es)
        → Inv st
        → Inv (run_camera parse camera es st)
    unfolding run_camera step
    run_camera-Inv [] st h i = i
    run_camera-Inv (connected ∷ es) st h i = run_camera-Inv es _ h (record {
      clock = inl refl;
      work = i.work;
      held = i.held;
      sent = i.sent;
      bounded = i.bounded;
    })
    run_camera-Inv (read (text frame) ∷ es) st h i =
        let both = with_clock-Inv (time_in parse frame) (times_of es) st h i in
        run_camera-Inv es _ both.1 both.0
    run_camera-Inv (read binary ∷ es) st h i = run_camera-Inv es _ h (on_binary-Inv st i)
    run_camera-Inv (takes ∷ es) st h i =
        run_camera-Inv es _ h (take_at-Inv st.held st.work st refl i)
    run_camera-Inv (pushes r now ∷ es) st h i =
        run_camera-Inv es _ h (push_held-Inv r now st st.held i.held i)

-- However the receiver, the worker and new connections take turns, every request that was pushed is for
-- the camera and for a time that a message of its stream announced, in its envelope as in its analytics,
-- so that what holds of all announced times holds of it; its counts are below 5 and 3 and it has at most
-- three objects. At most 32 frames wait for the worker.
pub run_camera-pushes :
    (parse : String → Option Time) (camera : String) (P : Time → Type 0) (es : List Event)
    → All P (times_of parse camera es)
    → All
        (λ (r : Request).
          (r.source_id ≡ camera)
          × ((t : Time) × P t
              × (r.wall_clock_ms ≡ unix_milli t)
              × (r.analytics.capture_ms ≡ unix_milli t)
              × (r.analytics.people_count < 5)
              × (r.analytics.vehicle_count < 3)
              × (length r.analytics.objects < 4)))
        (run_camera parse camera es new_state).sent
      × (length (run_camera parse camera es new_state).work ≤ work_capacity)
run_camera-pushes parse camera P es h =
    let i =
      run_camera-Inv parse camera P es new_state h
        (record { clock = inl refl; work = tt; held = tt; sent = tt; bounded = omega arith }) in
    (i.sent, i.bounded)

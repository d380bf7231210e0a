-- ===== src/Recorder/Manager/Owned/Runs.antt =====
-- pkg/recorder/recorder.go: the life of the manager, from its start through its ticks to its stop.
use vrtc.Base.Assoc.{get}
use vrtc.Base.{
  ℕ, ◌≡◌, refl, subst, inl, inr, Bool, Option, none, some, List, [], ◌∷◌, ◌++◌, map, String, In,
  All, All-In, In-append_left,
}
use vrtc.Base.Int.{ℤ}
use vrtc.Clock.{Time}
use vrtc.Recorder.Index.{Index}
use vrtc.Recorder.Manager.{
  Schedule, Call, attach, close_handle, remove_file, Manager, World, new_manager,
}
use vrtc.Recorder.Manager.Retain.{has_retention_policy}
use vrtc.Recorder.Manager.Retain.Removal.{
  OnlyRemoves, OnlyRemoves-refl, OnlyRemoves-trans, OnlyRemoves-if, enforce-OnlyRemoves,
}
use vrtc.Recorder.Manager.Tick.{
  stop_stale, stop_all, process_all, enforce_all, active_schedules, tick_on, tick_listed,
  append_defaults, running_of, tick, run, start,
}
use vrtc.Recorder.Manager.Owned.{Kept, Owned, Owned-step, OnlyRemoves-Owned}
use vrtc.Recorder.Manager.Owned.Steps.{In-get}
use vrtc.Recorder.Manager.Owned.Turns.{AreApart, process_all-Owned}
use vrtc.Recorder.Manager.Owned.Closing.{
  closings, In-closings, Kept-closings, close_recs-calls, stop_stale-Owned,
}

pub enforce_all-OnlyRemoves :
    (w : World) (now : Time) (ss : List Schedule) (m : Manager)
    → OnlyRemoves m (enforce_all w now ss m)
unfolding enforce_all
enforce_all-OnlyRemoves w now [] m = OnlyRemoves-refl m
enforce_all-OnlyRemoves w now (s ∷ ss) m =
    OnlyRemoves-trans m _ _
      (OnlyRemoves-if (has_retention_policy s) m _ m (enforce-OnlyRemoves w s now m)
        (OnlyRemoves-refl m))
      (enforce_all-OnlyRemoves w now ss _)

tick_on-Owned :
    (w : World) (ss : List Schedule) (m : Manager)
    → AreApart (active_schedules w ss)
    → Owned m
    → Owned (tick_on w ss m)
tick_on-Owned w ss m a own =
    let running = active_schedules w ss in
    let after = process_all w w.now running m in
    let left = stop_stale (map (λ s. s.id) running) after in
    OnlyRemoves-Owned left _ (enforce_all-OnlyRemoves w w.now ss left)
      (stop_stale-Owned (map (λ s. s.id) running) after (process_all-Owned w w.now running m a own))

tick_listed-Owned :
    (w : World) (o : Option (List Schedule)) (m : Manager)
    → AreApart (running_of w m o)
    → Owned m
    → Owned (tick_listed w o m)
tick_listed-Owned w none m a own = own
tick_listed-Owned w (some ss) m a own = tick_on-Owned w (append_defaults w m ss) m a own

-- No two schedules that are active in a tick have one id, whatever the manager adds by default.
abbrev pub HasApart : World → Type 0
HasApart w = (m : Manager) → AreApart (running_of w m w.list_schedules)

-- A tick leaks no handle: with every attached handle held or closed before, it is so after,
-- whatever the providers, the hub and the disk answer, and in whatever order the goroutines run.
pub tick-Owned : (w : World) (m : Manager) → HasApart w → Owned m → Owned (tick w m)
unfolding tick
tick-Owned w m a own = tick_listed-Owned w w.list_schedules m (a m) own

closed-of_empty :
    (calls : List Call) (c : Call) (ch : String) (h : ℕ)
    → c ≡ attach ch h
    → Kept calls [] c
    → In (close_handle h) calls
unfolding get
closed-of_empty calls (attach j i) ch h e (inl k) =
    let q : i ≡ h = cc in subst (λ (n : ℕ). In (close_handle n) calls) q k
closed-of_empty calls (attach j i) ch h e (inr k) = let f = k.found in cc
closed-of_empty calls (close_handle i) ch h e k = cc
closed-of_empty calls (remove_file p) ch h e k = cc

stop_all-Owned : (m : Manager) → Owned m → Owned (stop_all m)
unfolding stop_all
stop_all-Owned m own =
    let (c, a) = close_recs-calls m.active (record m { active = [] }) in
    Owned-step (closings m.active) m (stop_all m) c
      (λ h i. inl (
        subst (λ n. In (close_handle n) (closings m.active ++ m.calls)) i.same
          (In-append_left _ (closings m.active) m.calls
            (In-closings i.key i.holder m.active (In-get i.key i.holder m.active i.found)))))
      (Kept-closings _ _ m.active) own

run-Owned :
    (ws : List World) (m : Manager)
    → All HasApart ws
    → Owned m
    → Owned (run ws m) × ((run ws m).active ≡ [])
unfolding run stop_all
run-Owned [] m a own =
    (stop_all-Owned m own, (close_recs-calls m.active (record m { active = [] })).1)
run-Owned (w ∷ ws) m a own = run-Owned ws (tick w m) a.1 (tick-Owned w m a.0 own)

-- A manager from `New` through `Start` and its ticks to the stop.
unfoldable pub life : World → List World → ℤ → Bool → String → Index → Manager
life w ws interval channels path idx = run ws (start w (new_manager interval channels path idx))

life-Owned :
    (w : World) (ws : List World) (interval : ℤ) (channels : Bool) (path : String) (idx : Index)
    → All HasApart ws
    → Owned (life w ws interval channels path idx)
      × ((life w ws interval channels path idx).active ≡ [])
unfolding life new_manager start
life-Owned w ws interval channels path idx apart =
    run-Owned ws (start w (new_manager interval channels path idx)) apart tt

-- A manager that is made, started and stopped has closed every consumer handle that it attached,
-- whatever the providers, the hub and the disk answer in its ticks and in whatever order the
-- goroutines of a tick look at the recordings and act on what they saw, as long as no two schedules
-- that are active in one tick have one id.
pub life-closes_all :
    (w : World) (ws : List World) (interval : ℤ) (channels : Bool) (path : String) (idx : Index)
    (ch : String) (h : ℕ)
    → All HasApart ws
    → In (attach ch h) (life w ws interval channels path idx).calls
    → In (close_handle h) (life w ws interval channels path idx).calls
life-closes_all w ws interval channels path idx ch h apart i =
    let m = life w ws interval channels path idx in
    let (own, a) = life-Owned w ws interval channels path idx apart in
    closed-of_empty m.calls (attach ch h) ch h refl
      (All-In _ m.calls (attach ch h) (subst (λ l. All (Kept m.calls l) m.calls) a own) i)

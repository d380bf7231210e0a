-- ===== src/Recorder/Manager/Tick/Active.antt =====
-- pkg/recorder/recorder.go: which recordings are active after a tick.
use vrtc.Base.Assoc.{get}
use vrtc.Base.{
  ◌≡◌, ap, sym, ◌∙◌, subst, inl, inr, Bool, true, Bool-cases, some, List, [], ◌∷◌, map, String,
  str_eq, str_eq→eq, In, if◌then◌else◌, In-select,
}
use vrtc.Recorder.Index.{contains}
use vrtc.Recorder.Manager.{Schedule, ActiveRec, Manager, World}
use vrtc.Recorder.Manager.Tick.{
  process_all, stale_of, fresh_of, stop_stale, active_schedules, append_defaults, tick_on,
  tick_listed, tick,
}
use vrtc.Recorder.Manager.Tick.Defaults.{In-of_contains, In-of_map}
use vrtc.Recorder.Manager.Owned.Closing.{close_recs-calls}
use vrtc.Recorder.Manager.Owned.Runs.{enforce_all-OnlyRemoves}

get-fresh_of-listed :
    (ids : List String) (k : String) (ar : ActiveRec) (l : List (String × ActiveRec))
    → get k (fresh_of ids l) ≡ some ar
    → contains k ids ≡ true
unfolding get fresh_of
get-fresh_of-listed ids k ar [] h = cc
get-fresh_of-listed ids k ar ((j, x) ∷ l) h =
    let kept = fresh_of ids l in
    let at : Bool → Type 0 = λ b. get k (if b then (j, x) ∷ kept else kept) ≡ some ar in
    elim (Bool-cases (contains j ids)) [
      | inl d ↦ elim (Bool-cases (str_eq j k)) [
        | inl e ↦ rw (← (str_eq→eq j k e)) d
        | inr e ↦
            get-fresh_of-listed ids k ar l
              (subst (λ (b : Bool). (if b then some x else get k kept) ≡ some ar) e (subst at d h))
      ]
      | inr d ↦ get-fresh_of-listed ids k ar l (subst at d h)
    ]

-- After a tick whose schedules were listed, every active recording stands under the id of a schedule
-- that is active at the time of the tick, a default schedule included.
pub tick-active :
    (w : World) (m : Manager) (ss : List Schedule) (k : String) (ar : ActiveRec)
    → w.list_schedules ≡ some ss
    → get k (tick w m).active ≡ some ar
    → (s : Schedule) × In s (append_defaults w m ss) × (w.is_active s w.now ≡ true) × (s.id ≡ k)
unfolding tick stop_stale
tick-active w m ss k ar l h =
    let all = append_defaults w m ss in
    let running = active_schedules w all in
    let ids = map (λ (s : Schedule). s.id) running in
    let after = process_all w w.now running m in
    let left = stop_stale ids after in
    let enforced = (enforce_all-OnlyRemoves w w.now all left).same_active in
    let closed =
      (close_recs-calls (stale_of ids after.active)
        (record after { active = fresh_of ids after.active })).1 in
    let h' : get k (tick_on w all m).active ≡ some ar =
      ap (λ o. get k (tick_listed w o m).active) (sym l) ∙ h in
    let f : get k (fresh_of ids after.active) ≡ some ar =
      ap (get k) (sym (enforced ∙ closed)) ∙ h' in
    let (s, i, q) =
      In-of_map (λ (s : Schedule). s.id) k running
        (In-of_contains k ids (get-fresh_of-listed ids k ar after.active f)) in
    let (j, t) = In-select (λ s. w.is_active s w.now) s all i in (s, j, t, q)

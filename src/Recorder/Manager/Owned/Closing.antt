-- ===== src/Recorder/Manager/Owned/Closing.antt =====
-- pkg/recorder/recorder.go: closing stale recordings, ticks and the stop keep every handle owned.
use mathlib.Core.List.{append_assoc}
use vrtc.Base.Assoc.{get}
use vrtc.Base.{
  ◌≡◌, refl, ap, sym, ◌∙◌, subst, inl, inr, true, false, Bool-cases, List, [], ◌∷◌, ◌++◌, String,
  str_eq, str_eq→eq, In, All, All-append, In-append_right, In-append_left,
}
use vrtc.Recorder.Index.{contains}
use vrtc.Recorder.Manager.{ActiveRec, Call, close_handle, Manager}
use vrtc.Recorder.Manager.Segment.{close_rec}
use vrtc.Recorder.Manager.Tick.{close_recs, stale_of, fresh_of, stop_stale}
use vrtc.Recorder.Manager.Owned.{IsHeld, Kept, Owned, Owned-step}
use vrtc.Recorder.Manager.Owned.Steps.{In-get}

-- The calls that close a list of recordings, newest first.
abbrev pub closings : List (String × ActiveRec) → List Call
closings [] = []
closings ((k, ar) ∷ rest) = closings rest ++ close_handle ar.handle ∷ []

pub close_recs-calls :
    (l : List (String × ActiveRec)) (m : Manager)
    → ((close_recs l m).calls ≡ closings l ++ m.calls) × ((close_recs l m).active ≡ m.active)
unfolding close_recs close_rec
close_recs-calls [] m = (refl, refl)
close_recs-calls ((k, ar) ∷ rest) m =
    let (c, a) = close_recs-calls rest (close_rec ar m) in
    (c ∙ sym (append_assoc (closings rest) (close_handle ar.handle ∷ []) m.calls), a)

pub In-closings :
    (k : String) (ar : ActiveRec) (l : List (String × ActiveRec))
    → In (k, ar) l
    → In (close_handle ar.handle) (closings l)
In-closings k ar [] i = absurd i
In-closings k ar ((j, x) ∷ l) (inl e) =
    In-append_right _ (closings l) _
      (inl (ap (λ (p : String × ActiveRec). close_handle p.1.handle) e))
In-closings k ar ((j, x) ∷ l) (inr i) = In-append_left _ (closings l) _ (In-closings k ar l i)

pub Kept-closings :
    (calls : List Call) (active : List (String × ActiveRec)) (l : List (String × ActiveRec))
    → All (Kept calls active) (closings l)
Kept-closings calls active [] = tt
Kept-closings calls active ((k, ar) ∷ rest) =
    All-append _ (closings rest) (close_handle ar.handle ∷ []) (Kept-closings calls active rest)
      (tt, tt)

get-fresh_of :
    (ids : List String) (k : String) (l : List (String × ActiveRec))
    → contains k ids ≡ true
    → get k (fresh_of ids l) ≡ get k l
unfolding get fresh_of
get-fresh_of ids k [] c = refl
get-fresh_of ids k ((j, x) ∷ l) c = elim (Bool-cases (str_eq j k)) [
  | inl e ↦ rw (str_eq→eq j k e, c) (rw (get-fresh_of ids k l c) refl)
  | inr e ↦ elim (Bool-cases (contains j ids)) [
    | inl d ↦ rw (d, e) (get-fresh_of ids k l c)
    | inr d ↦ rw (d, e) (get-fresh_of ids k l c)
  ]
]

In-stale_of :
    (ids : List String) (k : String) (ar : ActiveRec) (l : List (String × ActiveRec))
    → contains k ids ≡ false
    → In (k, ar) l
    → In (k, ar) (stale_of ids l)
unfolding stale_of
In-stale_of ids k ar [] c i = i
In-stale_of ids k ar ((j, x) ∷ l) c (inl e) =
    let d : contains j ids ≡ false =
      subst (λ n. contains n ids ≡ false) (ap (λ (p : String × ActiveRec). p.0) e) c in
    rw d (inl e)
In-stale_of ids k ar ((j, x) ∷ l) c (inr i) = elim (Bool-cases (contains j ids)) [
  | inl d ↦ rw d (In-stale_of ids k ar l c i)
  | inr d ↦ rw d (inr (In-stale_of ids k ar l c i))
]

pub stop_stale-Owned : (ids : List String) (m : Manager) → Owned m → Owned (stop_stale ids m)
unfolding stop_stale
stop_stale-Owned ids m o =
    let stale = stale_of ids m.active in
    let (c, a) = close_recs-calls stale (record m { active = fresh_of ids m.active }) in
    Owned-step (closings stale) m (stop_stale ids m) c
      (λ h i. elim (Bool-cases (contains i.key ids)) [
        | inl d ↦ inr (
            subst (IsHeld h) (sym a) (record {
              key = i.key;
              holder = i.holder;
              found = get-fresh_of ids i.key m.active d ∙ i.found;
              same = i.same;
            }))
        | inr d ↦ inl (
            subst (λ n. In (close_handle n) (closings stale ++ m.calls)) i.same
              (In-append_left _ (closings stale) m.calls (
                In-closings i.key i.holder stale (
                  In-stale_of ids i.key i.holder m.active d
                    (In-get i.key i.holder m.active i.found)))))
      ])
      (Kept-closings _ _ stale) o

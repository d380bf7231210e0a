-- ===== src/Recorder/Manager/Owned/Turns.antt =====
-- pkg/recorder/recorder.go: goroutines of different schedules, in any order of their steps.
use vrtc.Base.Assoc.{get, remove, get-put_ne, get-remove}
use vrtc.Base.{
  ℕ, zero, suc, ◌≡◌, ◌≢◌, refl, ap, sym, ◌∙◌, subst, Bool, true, false, Option, none, some, List,
  [], ◌∷◌, map, String, str_eq-ne, All, All-map_of, if◌then◌else◌, ◌&&◌, ◌||◌,
}
use vrtc.Clock.{Time, gt_zero}
use vrtc.Recorder.Manager.{Schedule, ActiveRec, Manager, World, Attached, refused, attached}
use vrtc.Recorder.Manager.Segment.{
  get_or_create_ring_buffer, register_active_segment, opened_in, on_attached, start_segment,
  close_rec, rotate_segment,
}
use vrtc.Recorder.Manager.Retain.Removal.{
  OnlyRemoves, OnlyRemoves-refl, OnlyRemoves-if, check_disk_space-OnlyRemoves,
}
use vrtc.Recorder.Manager.Tick.{
  is_below_min, is_due_by_time, is_due_by_size, process_at, checked, fresh, done, looked, Goroutine,
  advance, take_turn, take_turns, wait_all, process_all,
}
use vrtc.Recorder.Manager.Owned.{Owned, OnlyRemoves-Owned}
use vrtc.Recorder.Manager.Owned.Steps.{
  start_segment-Owned, rotate_segment-Owned, ring-SameOwner, opened_in-SameOwner,
}

Owned-if : (b : Bool) (x y : Manager) → Owned x → Owned y → Owned (if b then x else y)
Owned-if true x y p q = p
Owned-if false x y p q = q

process_at-Owned :
    (w : World) (s : Schedule) (now : Time) (o : Option ActiveRec) (m : Manager)
    → get s.id m.active ≡ o
    → Owned m
    → Owned (process_at w s now o m)
unfolding process_at
process_at-Owned w s now none m f own =
    Owned-if (gt_zero s.min_free_gb && is_below_min s (w.disk_free m.calls s.storage_path)) m _ own
      (start_segment-Owned w s now m f own)
process_at-Owned w s now (some ar) m f own =
    Owned-if (is_due_by_time s ar now || is_due_by_size w s ar.muxer) _ m
      (rotate_segment-Owned w ar s now m f own) own

pub checked-OnlyRemoves :
    (w : World) (s : Schedule) (now : Time) (m : Manager) → OnlyRemoves m (checked w s now m)
checked-OnlyRemoves w s now m =
    OnlyRemoves-if (gt_zero s.min_free_gb || gt_zero s.low_free_gb) m _ m
      (check_disk_space-OnlyRemoves w s now m) (OnlyRemoves-refl m)

-- A step that concerns one id leaves the recordings of the others alone.
abbrev SameBut : String → Manager → Manager → Type 0
SameBut id m m' = (k : String) → id ≢ k → get k m'.active ≡ get k m.active

on_attached-SameBut :
    (w : World) (s : Schedule) (now : Time) (a : Attached) (m : Manager)
    → SameBut s.id m (on_attached w s now a m)
unfolding register_active_segment
on_attached-SameBut w s now (refused msg) m k n = refl
on_attached-SameBut w s now (attached h o) m k n =
    get-put_ne s.id k _ (opened_in w s o m).active n ∙ ap (get k) (opened_in-SameOwner w s o m).0

start_segment-SameBut :
    (w : World) (s : Schedule) (now : Time) (m : Manager) → SameBut s.id m (start_segment w s now m)
unfolding start_segment
start_segment-SameBut w s now m k n =
    let ringed = (get_or_create_ring_buffer s m).0 in
    on_attached-SameBut w s now (w.consume ringed.calls s.channel_id) ringed k n
    ∙ ap (get k) (ring-SameOwner s m).0

rotate_segment-SameBut :
    (w : World) (ar : ActiveRec) (s : Schedule) (now : Time) (m : Manager)
    → SameBut s.id m (rotate_segment w ar s now m)
unfolding rotate_segment close_rec
rotate_segment-SameBut w ar s now m k n =
    start_segment-SameBut w s now (close_rec ar (record m { active = remove s.id m.active })) k n
    ∙ get-remove s.id k m.active
    ∙ (rw (str_eq-ne s.id k n) refl)

SameBut-if :
    (id : String) (m : Manager) (b : Bool) (x y : Manager)
    → SameBut id m x
    → SameBut id m y
    → SameBut id m (if b then x else y)
SameBut-if id m true x y p q = p
SameBut-if id m false x y p q = q

process_at-SameBut :
    (w : World) (s : Schedule) (now : Time) (o : Option ActiveRec) (m : Manager)
    → SameBut s.id m (process_at w s now o m)
unfolding process_at
process_at-SameBut w s now none m =
    SameBut-if s.id m (gt_zero s.min_free_gb && is_below_min s (w.disk_free m.calls s.storage_path))
      m _ (λ k n. refl) (start_segment-SameBut w s now m)
process_at-SameBut w s now (some ar) m =
    SameBut-if s.id m (is_due_by_time s ar now || is_due_by_size w s ar.muxer) _ m
      (rotate_segment-SameBut w ar s now m) (λ k n. refl)

-- What a goroutine has seen still stands in the map.
abbrev Fits : Manager → Goroutine → Type 0
Fits m (s, fresh) = Unit
Fits m (s, looked o) = get s.id m.active ≡ o
Fits m (s, done) = Unit

Fits-keep :
    (m m' : Manager) (g : Goroutine)
    → get g.0.id m'.active ≡ get g.0.id m.active
    → Fits m g
    → Fits m' g
Fits-keep m m' (s, fresh) same f = tt
Fits-keep m m' (s, looked o) same f = same ∙ f
Fits-keep m m' (s, done) same f = tt

advance-SameBut :
    (w : World) (now : Time) (g : Goroutine) (m : Manager) → SameBut g.0.id m (advance w now g m).1
unfolding advance
advance-SameBut w now (s, fresh) m k n = ap (get k) (checked-OnlyRemoves w s now m).same_active
advance-SameBut w now (s, looked o) m k n = process_at-SameBut w s now o m k n
advance-SameBut w now (s, done) m k n = refl

advance-schedule :
    (w : World) (now : Time) (g : Goroutine) (m : Manager) → (advance w now g m).0.0 ≡ g.0
unfolding advance
advance-schedule w now (s, fresh) m = refl
advance-schedule w now (s, looked o) m = refl
advance-schedule w now (s, done) m = refl

advance-Owned :
    (w : World) (now : Time) (g : Goroutine) (m : Manager)
    → Fits m g
    → Owned m
    → Owned (advance w now g m).1 × Fits (advance w now g m).1 (advance w now g m).0
unfolding advance
advance-Owned w now (s, fresh) m f o =
    (OnlyRemoves-Owned m (checked w s now m) (checked-OnlyRemoves w s now m) o, refl)
advance-Owned w now (s, looked seen) m f o = (process_at-Owned w s now seen m f o, tt)
advance-Owned w now (s, done) m f o = (o, tt)

-- No two schedules have one id.
abbrev pub AreApart : List Schedule → Type 0
AreApart [] = Unit
AreApart (s ∷ ss) = All (λ (t : Schedule). s.id ≢ t.id) ss × AreApart ss

abbrev schedules : List Goroutine → List Schedule
schedules gs = map (λ (g : Goroutine). g.0) gs

-- Every handle is owned, and no goroutine can be surprised by another.
record Inv (gs : List Goroutine) (m : Manager) : Type 0 where
  owned : Owned m
  fits : All (Fits m) gs
  apart : AreApart (schedules gs)

All-Fits-keep :
    (m m' : Manager) (id : String) (gs : List Goroutine)
    → SameBut id m m'
    → All (λ (t : Schedule). id ≢ t.id) (schedules gs)
    → All (Fits m) gs
    → All (Fits m') gs
All-Fits-keep m m' id [] same n f = tt
All-Fits-keep m m' id (g ∷ gs) same n f =
    (Fits-keep m m' g (same g.0.id n.0) f.0, All-Fits-keep m m' id gs same n.1 f.1)

take_turn-schedules :
    (w : World) (now : Time) (n : ℕ) (gs : List Goroutine) (m : Manager)
    → schedules (take_turn w now n gs m).0 ≡ schedules gs
unfolding take_turn
take_turn-schedules w now n [] m = refl
take_turn-schedules w now zero (g ∷ gs) m = ap (λ s. s ∷ schedules gs) (advance-schedule w now g m)
take_turn-schedules w now (suc n) (g ∷ gs) m =
    ap (λ ss. g.0 ∷ ss) (take_turn-schedules w now n gs m)

take_turn-others :
    (w : World) (now : Time) (n : ℕ) (gs : List Goroutine) (m : Manager) (k : String)
    → All (λ (t : Schedule). t.id ≢ k) (schedules gs)
    → get k (take_turn w now n gs m).1.active ≡ get k m.active
unfolding take_turn
take_turn-others w now n [] m k a = refl
take_turn-others w now zero (g ∷ gs) m k a = advance-SameBut w now g m k a.0
take_turn-others w now (suc n) (g ∷ gs) m k a = take_turn-others w now n gs m k a.1

take_turn-Inv :
    (w : World) (now : Time) (n : ℕ) (gs : List Goroutine) (m : Manager)
    → Inv gs m
    → Inv (take_turn w now n gs m).0 (take_turn w now n gs m).1
unfolding take_turn
take_turn-Inv w now n [] m i = i
take_turn-Inv w now zero (g ∷ gs) m i =
    let (own, fit) = advance-Owned w now g m i.fits.0 i.owned in
    record {
      owned = own;
      fits = (
        fit,
        All-Fits-keep m (advance w now g m).1 g.0.id gs (advance-SameBut w now g m) i.apart.0
            i.fits.1,
      );
      apart = subst AreApart (sym (take_turn-schedules w now zero (g ∷ gs) m)) i.apart;
    }
take_turn-Inv w now (suc n) (g ∷ gs) m i =
    let rest =
      take_turn-Inv w now n gs m (record { owned = i.owned; fits = i.fits.1; apart = i.apart.1 }) in
    let others = All-map_of _ _ (λ t ne e. ne (sym e)) (schedules gs) i.apart.0 in
    record {
      owned = rest.owned;
      fits = (
        Fits-keep m (take_turn w now n gs m).1 g (take_turn-others w now n gs m g.0.id others)
            i.fits.0,
        rest.fits,
      );
      apart = subst AreApart (sym (take_turn-schedules w now (suc n) (g ∷ gs) m)) i.apart;
    }

take_turns-Inv :
    (w : World) (now : Time) (ns : List ℕ) (gs : List Goroutine) (m : Manager)
    → Inv gs m
    → Inv (take_turns w now ns gs m).0 (take_turns w now ns gs m).1
unfolding take_turns
take_turns-Inv w now [] gs m i = i
take_turns-Inv w now (n ∷ ns) gs m i = take_turns-Inv w now ns _ _ (take_turn-Inv w now n gs m i)

wait_all-Owned :
    (w : World) (now : Time) (gs : List Goroutine) (m : Manager)
    → Inv gs m
    → Owned (wait_all w now gs m)
unfolding wait_all take_turn advance
wait_all-Owned w now [] m i = i.owned
wait_all-Owned w now (g ∷ gs) m i =
    let r = advance w now g m in
    let one = take_turn-Inv w now zero (g ∷ gs) m i in
    let two = take_turn-Inv w now zero (r.0 ∷ gs) r.1 one in
    wait_all-Owned w now gs (advance w now r.0 r.1).1
      (record { owned = two.owned; fits = two.fits.1; apart = two.apart.1 })

fresh-Fits : (m : Manager) (ss : List Schedule) → All (Fits m) (map (λ s. (s, fresh)) ss)
fresh-Fits m [] = tt
fresh-Fits m (s ∷ ss) = (tt, fresh-Fits m ss)

fresh-schedules : (ss : List Schedule) → schedules (map (λ s. (s, fresh)) ss) ≡ ss
fresh-schedules [] = refl
fresh-schedules (s ∷ ss) = ap (λ l. s ∷ l) (fresh-schedules ss)

pub process_all-Owned :
    (w : World) (now : Time) (ss : List Schedule) (m : Manager)
    → AreApart ss
    → Owned m
    → Owned (process_all w now ss m)
unfolding process_all
process_all-Owned w now ss m a own =
    let r = take_turns-Inv w now w.turns (map (λ s. (s, fresh)) ss) m (record {
      owned = own;
      fits = fresh-Fits m ss;
      apart = subst AreApart (sym (fresh-schedules ss)) a;
    }) in
    wait_all-Owned w now _ _ r

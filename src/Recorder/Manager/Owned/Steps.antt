-- ===== src/Recorder/Manager/Owned/Steps.antt =====
-- pkg/recorder/recorder.go: starting, rotating and closing keeps every handle owned.
use vrtc.Base.Assoc.{get, put, remove, get-put_self, get-put_ne, get-remove}
use vrtc.Base.{
  ℕ, ◌≡◌, refl, ap, sym, ◌∙◌, subst, inl, inr, Bool, Bool-cases, Option, none, some, List, [], ◌∷◌,
  String, String-cases, str_eq, str_eq_refl, str_eq→eq, arith, In, if◌then◌else◌,
}
use vrtc.Base.Int.{pos, leb_ℤ}
use vrtc.Clock.{Time}
use vrtc.Recorder.Manager.{
  Schedule, ActiveRec, attach, close_handle, Manager, Opened, Attached, refused, attached, World,
}
use vrtc.Recorder.Manager.Segment.{
  get_or_create_ring_buffer, register_active_segment, opened_in, on_attached, start_segment,
  open_muxer, close_rec, rotate_segment,
}
use vrtc.Recorder.Manager.Owned.{IsHeld, Owned, Owned-step}

pub In-get :
    (k : String) (v : ActiveRec) (l : List (String × ActiveRec)) → get k l ≡ some v → In (k, v) l
unfolding get
In-get k v [] h = cc
In-get k v ((j, x) ∷ l) h = elim (Bool-cases (str_eq j k)) [
  | inl e ↦
      let q : some x ≡ some v =
        subst (λ (b : Bool). (if b then some x else get k l) ≡ some v) e h in
      let p = str_eq→eq j k e in inl cc
  | inr e ↦ inr (In-get k v l (subst (λ (b : Bool). (if b then some x else get k l) ≡ some v) e h))
]

-- One state has the active recordings and the calls of another.
abbrev pub SameOwner : Manager → Manager → Type 0
SameOwner m m' = (m'.active ≡ m.active) × (m'.calls ≡ m.calls)

pub SameOwner-Owned : (m m' : Manager) → SameOwner m m' → Owned m → Owned m'
SameOwner-Owned m m' s o = Owned-step [] m m' s.1 (λ h i. inr (subst (IsHeld h) (sym s.0) i)) tt o

pub ring-SameOwner : (s : Schedule) (m : Manager) → SameOwner m (get_or_create_ring_buffer s m).0
unfolding get_or_create_ring_buffer
ring-SameOwner s m = elim (Bool-cases (leb_ℤ s.ring_buffer_seconds (pos 0))) [
  | inl e ↦ rw e (refl, refl)
  | inr e ↦ rw e (ground arith)
]

pub opened_in-SameOwner :
    (w : World) (s : Schedule) (o : Option Opened) (m : Manager) → SameOwner m (opened_in w s o m)
unfolding open_muxer
opened_in-SameOwner w s none m = (refl, refl)
opened_in-SameOwner w s (some o) m = (refl, refl)

IsHeld-put :
    (k : String) (v : ActiveRec) (l : List (String × ActiveRec)) (h : ℕ)
    → get k l ≡ none
    → IsHeld h l
    → IsHeld h (put k v l)
IsHeld-put k v l h n i = record {
  key = i.key;
  holder = i.holder;
  found =
      get-put_ne k i.key v l (λ q. let c = sym n ∙ ap (λ j. get j l) q ∙ i.found in cc) ∙ i.found;
  same = i.same;
}

on_attached-Owned :
    (w : World) (s : Schedule) (now : Time) (a : Attached) (m : Manager)
    → get s.id m.active ≡ none
    → Owned m
    → Owned (on_attached w s now a m)
unfolding register_active_segment
on_attached-Owned w s now (refused msg) m n o =
    SameOwner-Owned m (on_attached w s now (refused msg) m) (refl, refl) o
on_attached-Owned w s now (attached h op) m n o =
    let opened = opened_in w s op m in
    let (a, c) = opened_in-SameOwner w s op m in
    Owned-step (attach s.channel_id h ∷ []) m (on_attached w s now (attached h op) m)
      (ap (λ l. attach s.channel_id h ∷ l) c)
      (λ j i.
        inr (IsHeld-put s.id _ opened.active j (ap (get s.id) a ∙ n) (subst (IsHeld j) (sym a) i)))
      (
        inr (record {
          key = s.id;
          holder = _;
          found = get-put_self s.id _ opened.active;
          same = refl;
        }),
        tt,
      )
      o

pub start_segment-Owned :
    (w : World) (s : Schedule) (now : Time) (m : Manager)
    → get s.id m.active ≡ none
    → Owned m
    → Owned (start_segment w s now m)
unfolding start_segment
start_segment-Owned w s now m n o =
    let ringed = (get_or_create_ring_buffer s m).0 in
    let same = ring-SameOwner s m in
    on_attached-Owned w s now (w.consume ringed.calls s.channel_id) ringed
      (ap (get s.id) same.0 ∙ n) (SameOwner-Owned m ringed same o)

pub rotate_segment-Owned :
    (w : World) (ar : ActiveRec) (s : Schedule) (now : Time) (m : Manager)
    → get s.id m.active ≡ some ar
    → Owned m
    → Owned (rotate_segment w ar s now m)
unfolding rotate_segment close_rec
rotate_segment-Owned w ar s now m f o =
    let left = remove s.id m.active in
    let closed = close_rec ar (record m { active = left }) in
    start_segment-Owned w s now closed (get-remove s.id s.id m.active ∙ rw (str_eq_refl s.id) refl)
      (Owned-step (close_handle ar.handle ∷ []) m closed refl
        (λ h i. elim (String-cases s.id i.key) [
          | inl (t, q) ↦
              let same : some ar ≡ some i.holder = sym f ∙ ap (λ j. get j m.active) q ∙ i.found in
              inl (inl (let e = i.same in cc))
          | inr (t, q) ↦ inr (record {
            key = i.key;
            holder = i.holder;
            found = get-remove s.id i.key m.active ∙ rw t i.found;
            same = i.same;
          })
        ])
        (tt, tt) o)

-- ===== src/Recorder/Manager/Tick/Defaults.antt =====
-- pkg/recorder/recorder.go: `appendDefaults`.
use mathlib.Core.List.{append_assoc, append-nil}
use vrtc.Base.{
  ◌≡◌, refl, sym, inl, inr, true, not, Bool-cases, some, List, [], ◌∷◌, ◌++◌, map, String, str_eq,
  str_eq→eq, select, arith, In,
}
use vrtc.Recorder.Index.{contains}
use vrtc.Recorder.Manager.{Schedule, Manager, World}
use vrtc.Recorder.Manager.Tick.{default_schedule, append_each, append_defaults}

append_each-eq :
    (path : String) (covered chs : List String) (ss : List Schedule)
    → append_each path covered chs ss
      ≡ ss ++ map (default_schedule path) (select (λ ch. not (contains ch covered)) chs)
unfolding append_each
append_each-eq path covered [] ss = sym (append-nil ss)
append_each-eq path covered (ch ∷ chs) ss = elim (Bool-cases (contains ch covered)) [
  | inl e ↦ rw (e, append_each-eq path covered chs ss) refl
  | inr e ↦
      rw (e, append_each-eq path covered chs (ss ++ default_schedule path ch ∷ []))
        (append_assoc ss (default_schedule path ch ∷ []) _)
]

-- With a channel source that answers, a default schedule is added for each channel that no schedule
-- is for, in the order of the channels, and nothing else.
pub append_defaults-eq :
    (w : World) (m : Manager) (chs : List String) (ss : List Schedule)
    → m.has_channels ≡ true
    → w.list_channels ≡ some chs
    → append_defaults w m ss
      ≡ ss
        ++ map
            (default_schedule m.default_storage_path)
            (select (λ ch. not (contains ch (map (λ s. s.channel_id) ss))) chs)
unfolding append_defaults
append_defaults-eq w m chs ss h l =
    rw (h, l) (append_each-eq m.default_storage_path (map (λ s. s.channel_id) ss) chs ss)

pub In-of_contains : (k : String) (xs : List String) → contains k xs ≡ true → In k xs
unfolding contains
In-of_contains k [] h = cc
In-of_contains k (x ∷ xs) h = elim (Bool-cases (str_eq x k)) [
  | inl e ↦ inl (sym (str_eq→eq x k e))
  | inr e ↦ inr (In-of_contains k xs (ground (arith, e, h)))
]

-- An element of a mapped list is the image of an element.
pub In-of_map :
    {A B : Type 0}
    → (f : A → B) (b : B) (xs : List A) → In b (map f xs)
    → (a : A) × In a xs × (f a ≡ b)
In-of_map f b [] i = absurd i
In-of_map f b (x ∷ xs) (inl e) = (x, inl refl, sym e)
In-of_map f b (x ∷ xs) (inr i) = let (a, j, e) = In-of_map f b xs i in (a, inr j, e)

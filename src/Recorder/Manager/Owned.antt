-- ===== src/Recorder/Manager/Owned.antt =====
-- pkg/recorder/recorder.go: every consumer handle is owned by an active recording or closed.
pub mod Steps
pub mod Closing
pub mod Turns
pub mod Runs
use mathlib.Core.List.{append_assoc}
use vrtc.Base.Assoc.{get}
use vrtc.Base.{
  ℕ, ◌≡◌, refl, ap, sym, ◌∙◌, subst, ◌⊎◌, inl, inr, Bool, true, false, Bool-cases, Option, none,
  some, List, [], ◌∷◌, ◌++◌, map, String, str_eq, str_eq→eq, arith, In, All, All-append, All-map_of,
  All-of_In, In-append_right, In-append_left,
}
use vrtc.Recorder.Manager.{ActiveRec, Call, attach, close_handle, remove_file, Manager}
use vrtc.Recorder.Manager.Retain.Removal.{OnlyRemoves}

-- A handle that an active recording holds.
pub record IsHeld (h : ℕ) (active : List (String × ActiveRec)) : Type 0 where
  pub key : String
  pub holder : ActiveRec
  pub found : get key active ≡ some holder
  pub same : holder.handle ≡ h

abbrev pub Kept : List Call → List (String × ActiveRec) → Call → Type 0
Kept calls active (attach ch h) = In (close_handle h) calls ⊎ IsHeld h active
Kept calls active (close_handle h) = Unit {0}
Kept calls active (remove_file p) = Unit {0}

-- Every handle that was attached is closed or held: none leaks.
abbrev pub Owned : Manager → Type 0
Owned m = All (Kept m.calls m.active) m.calls

Kept-step :
    (new : List Call) (calls : List Call) (active active' : List (String × ActiveRec))
    → ((h : ℕ) → IsHeld h active → In (close_handle h) (new ++ calls) ⊎ IsHeld h active')
    → (c : Call) → Kept calls active c
    → Kept (new ++ calls) active' c
Kept-step new calls active active' f (attach ch h) (inl i) = inl (In-append_right _ new calls i)
Kept-step new calls active active' f (attach ch h) (inr i) = f h i
Kept-step new calls active active' f (close_handle h) k = tt
Kept-step new calls active active' f (remove_file p) k = tt

-- A step that adds calls keeps handles owned if it closes what it stops holding and keeps what it
-- attaches.
pub Owned-step :
    (new : List Call) (m m' : Manager)
    → m'.calls ≡ new ++ m.calls
    → ((h : ℕ) → IsHeld h m.active → In (close_handle h) (new ++ m.calls) ⊎ IsHeld h m'.active)
    → All (Kept (new ++ m.calls) m'.active) new
    → Owned m
    → Owned m'
Owned-step new m m' e f k o =
    subst (λ l. All (Kept l m'.active) l) (sym e)
      (All-append _ new m.calls k
        (All-map_of _ _ (Kept-step new m.calls m.active m'.active f) m.calls o))

Kept-removals :
    (calls : List Call) (active : List (String × ActiveRec)) (paths : List String)
    → All (Kept calls active) (map remove_file paths)
Kept-removals calls active [] = tt
Kept-removals calls active (p ∷ ps) = (tt, Kept-removals calls active ps)

pub OnlyRemoves-Owned : (m m' : Manager) → OnlyRemoves m m' → Owned m → Owned m'
OnlyRemoves-Owned m m' r o =
    Owned-step (map remove_file r.removed) m m' r.added
      (λ h i. inr (subst (IsHeld h) (sym r.same_active) i)) (Kept-removals _ _ r.removed) o

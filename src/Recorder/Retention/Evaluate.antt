-- ===== src/Recorder/Retention/Evaluate.antt =====
-- The whole pass: what `EvaluateRetention` returns and what it leaves.
use vrtc.Base.Int.{ℤ, pos, negsuc, pos_part, positive}
use vrtc.Base.{
  ℕ, zero, suc, ◌-◌, ◌*◌, ◌⊎◌, ◌↔◌, Bool, ◌&&◌, none, some, lt→ltb, ◌+◌, ◌^◌, ◌≤◌, ◌<◌, ◌≡◌, refl,
  sym, subst, ap, ◌∙◌, inl, inr, true, false, List, [], ◌∷◌, map, arith, if◌then◌else◌, In, select,
  All,
}
use vrtc.Clock.{Time, day, days_back, gt_zero, whole_bytes}
use vrtc.Recorder.Entry.{RecordingEntry, bytes, IsSized}
use vrtc.Recorder.Retention.{
  RetentionPolicy, Mark, tier_cutoff, starts_before, apply_time_tiers, apply_storage_cap,
  apply_disk_free_cap, marked, evaluate_retention,
}
use vrtc.Recorder.Retention.Marks.{kept_bytes, freed_bytes, AllSized, kept_bytes-mark_first}
use vrtc.Recorder.Retention.Cap.{apply_storage_cap-TrimsTo}
use vrtc.Recorder.Retention.Extends.{
  Extends, Extends-nil, Extends-bytes, apply_storage_cap-Extends, apply_disk_free_cap-Extends,
  caps-Extends, tiers-Extends,
}

-- The marks at the end of the pass.
final_marks : List RecordingEntry → RetentionPolicy → Time → List Mark
final_marks es p now =
    apply_disk_free_cap p (apply_storage_cap p (apply_time_tiers p now (map (λ x. (x, false)) es)))

evaluate-eq :
    (es : List RecordingEntry) (p : RetentionPolicy) (now : Time)
    → evaluate_retention es p now ≡ marked (final_marks es p now)
unfolding evaluate_retention final_marks
evaluate-eq [] p now = rw (Extends-nil _ (caps-Extends p []))
evaluate-eq (e ∷ es) p now = refl

-- An entry past the cutoff of its tier.
abbrev pub IsExpired : RetentionPolicy → Time → RecordingEntry → Type 0
IsExpired p now e = starts_before e (tier_cutoff e p now) ≡ true

marked_of_Extends :
    (m : Mark) (ms ns : List Mark) → Extends ms ns → m.1 ≡ true → In m ms → In m.0 (marked ns)
unfolding marked
marked_of_Extends m [] ns x t i = absurd i
marked_of_Extends m (k ∷ ms) [] x t i = absurd x
marked_of_Extends m (k ∷ ms) ((e, d) ∷ ns) x t (inl here) =
    rw (x.1 (ap (λ (y : Mark). y.1) (sym here) ∙ t)) (inl (ap (λ (y : Mark). y.0) here ∙ sym x.0))
marked_of_Extends m (k ∷ ms) ((e, true) ∷ ns) x t (inr later) =
    inr (marked_of_Extends m ms ns x.2 t later)
marked_of_Extends m (k ∷ ms) ((e, false) ∷ ns) x t (inr later) =
    marked_of_Extends m ms ns x.2 t later

tiers-mark :
    (p : RetentionPolicy) (now : Time) (es : List RecordingEntry) (e : RecordingEntry)
    → IsExpired p now e
    → In e es
    → In (e, true) (apply_time_tiers p now (map (λ x. (x, false)) es))
unfolding apply_time_tiers
tiers-mark p now [] e x i = absurd i
tiers-mark p now (y ∷ es) e x (inl here) = inl (
    subst
      (λ (z : RecordingEntry).
        ◌≡◌ {A = Mark} (e, true) (z, if starts_before z (tier_cutoff z p now) then true else false))
      here (rw x refl))
tiers-mark p now (y ∷ es) e x (inr later) = inr (tiers-mark p now es e x later)

-- Every entry past the cutoff of its tier is deleted, whatever the caps do.
pub evaluate-expired :
    (es : List RecordingEntry) (p : RetentionPolicy) (now : Time) (e : RecordingEntry)
    → In e es
    → IsExpired p now e
    → In e (evaluate_retention es p now)
unfolding final_marks
evaluate-expired es p now e i x =
    rw (evaluate-eq es p now)
      (marked_of_Extends (e, true) _ _ (caps-Extends p _) refl (tiers-mark p now es e x i))

tiers-marked :
    (p : RetentionPolicy) (now : Time) (es : List RecordingEntry)
    → marked (apply_time_tiers p now (map (λ x. (x, false)) es))
      ≡ select (λ e. starts_before e (tier_cutoff e p now)) es
unfolding apply_time_tiers marked
tiers-marked p now [] = refl
tiers-marked p now (e ∷ es) = ground (arith, tiers-marked p now es)

evaluate-eq-select :
    (es : List RecordingEntry) (p : RetentionPolicy) (now : Time)
    → gt_zero p.max_storage_gb ≡ false
    → gt_zero p.min_free_gb ≡ false
    → evaluate_retention es p now ≡ select (λ e. starts_before e (tier_cutoff e p now)) es
unfolding final_marks apply_storage_cap apply_disk_free_cap
evaluate-eq-select es p now s m = evaluate-eq es p now ∙ (rw (s, m) (tiers-marked p now es))

-- A flag counts where it is set and its tier has a positive number of days.
abbrev pub Counts : Bool → ℤ → ℕ → Type 0
Counts flag days d = (flag ≡ true) × (days ≡ pos d) × (0 < d)

abbrev pub IsIdle : Bool → ℤ → Type 0
IsIdle flag days = (flag ≡ false) ⊎ (positive days ≡ false)

-- The days for which a policy keeps an entry: those of objects come before those of motion, and
-- these before those of all footage.
abbrev pub IsKeptFor : RetentionPolicy → RecordingEntry → ℕ → Type 0
IsKeptFor p e d =
    Counts e.has_objects p.object_days d
    ⊎ (IsIdle e.has_objects p.object_days × Counts e.has_motion p.motion_days d
        ⊎ IsIdle e.has_objects p.object_days
          × IsIdle e.has_motion p.motion_days
          × Counts true p.continuous_days d)

positive-cases : (i : ℤ) → ((d : ℕ) × (i ≡ pos d) × (0 < d)) ⊎ (positive i ≡ false)
positive-cases (pos zero) = inr refl
positive-cases (pos (suc n)) = inl (suc n, refl, omega arith)
positive-cases (negsuc n) = inr refl

Counts-cases : (flag : Bool) (days : ℤ) → ((d : ℕ) × Counts flag days d) ⊎ IsIdle flag days
Counts-cases false days = inr (inl refl)
Counts-cases true days = elim (positive-cases days) [
  | inl (d, e, h) ↦ inl (d, (refl, e, h))
  | inr e ↦ inr (inr e)
]

Counts-test : (flag : Bool) (days : ℤ) (d : ℕ) → Counts flag days d → (flag && positive days) ≡ true
Counts-test flag days d (t, e, h) = rw (t, e) (lt→ltb 0 d h)

IsIdle-test : (flag : Bool) (days : ℤ) → IsIdle flag days → (flag && positive days) ≡ false
IsIdle-test flag days (inl e) = rw e refl
IsIdle-test true days (inr e) = e
IsIdle-test false days (inr e) = refl

back : (now : Time) (days : ℤ) (d : ℕ) → days ≡ pos d → days_back now days ≡ now - d * day
back now days d e = ap (λ i. now - pos_part i * day) e

IsKeptFor-cutoff :
    (p : RetentionPolicy) (e : RecordingEntry) (now : Time) (d : ℕ)
    → IsKeptFor p e d
    → tier_cutoff e p now ≡ some (now - d * day)
unfolding tier_cutoff
IsKeptFor-cutoff p e now d (inl c) =
    rw (Counts-test e.has_objects p.object_days d c) (ap some (back now p.object_days d c.1))
IsKeptFor-cutoff p e now d (inr (inl (i, c))) =
    rw (IsIdle-test e.has_objects p.object_days i, Counts-test e.has_motion p.motion_days d c)
      (ap some (back now p.motion_days d c.1))
IsKeptFor-cutoff p e now d (inr (inr (i, j, c))) =
    rw
      (
        IsIdle-test e.has_objects p.object_days i,
        IsIdle-test e.has_motion p.motion_days j,
        Counts-test true p.continuous_days d c,
      )
      (ap some (back now p.continuous_days d c.1))

cutoff-cases :
    (p : RetentionPolicy) (e : RecordingEntry) (now : Time)
    → ((d : ℕ) × IsKeptFor p e d) ⊎ (tier_cutoff e p now ≡ none)
unfolding tier_cutoff
cutoff-cases p e now = elim (Counts-cases e.has_objects p.object_days) [
  | inl (d, c) ↦ inl (d, inl c)
  | inr i ↦ elim (Counts-cases e.has_motion p.motion_days) [
    | inl (d, c) ↦ inl (d, inr (inl (i, c)))
    | inr j ↦ elim (positive-cases p.continuous_days) [
      | inl (d, q, h) ↦ inl (d, inr (inr (i, j, (refl, q, h))))
      | inr q ↦ inr (
          rw
            (IsIdle-test e.has_objects p.object_days i, IsIdle-test e.has_motion p.motion_days j, q)
            refl)
    ]
  ]
]

-- An entry is over age: it started more than the days that it is kept for before now.
abbrev pub IsOverAge : RetentionPolicy → Time → RecordingEntry → Type 0
IsOverAge p now e = (d : ℕ) × IsKeptFor p e d × (e.start_time + d * day < now)

starts_before-IsOverAge :
    (p : RetentionPolicy) (now : Time) (e : RecordingEntry)
    → (starts_before e (tier_cutoff e p now) ≡ true) ↔ IsOverAge p now e
starts_before-IsOverAge p now e = (
  λ t. elim (cutoff-cases p e now) [
    | inl (d, k) ↦
        let at = subst (λ o. starts_before e o ≡ true) (IsKeptFor-cutoff p e now d k) t in
        (d, k, ground (arith, at))
    | inr n ↦ let c = subst (λ o. starts_before e o ≡ true) n t in cc
  ],
  λ (d, k, lt).
      subst (λ o. starts_before e o ≡ true) (sym (IsKeptFor-cutoff p e now d k))
        (ground (arith, lt)),
)

-- With neither cap set, the pass deletes exactly the entries that are over age, in order: those whose
-- start is further back than the days of their tier, that of objects before that of motion and that
-- before the one for all footage.
pub evaluate-eq-expired :
    (es : List RecordingEntry) (p : RetentionPolicy) (now : Time)
    → gt_zero p.max_storage_gb ≡ false
    → gt_zero p.min_free_gb ≡ false
    → (f : RecordingEntry → Bool) × ((e : RecordingEntry) → (f e ≡ true) ↔ IsOverAge p now e)
      × (evaluate_retention es p now ≡ select f es)
evaluate-eq-expired es p now s m = (
  λ e. starts_before e (tier_cutoff e p now),
  starts_before-IsOverAge p now,
  evaluate-eq-select es p now s m,
)

-- The sizes of a list of entries, added up.
unfoldable pub size_sum : List RecordingEntry → ℕ
size_sum [] = 0
size_sum (e ∷ es) = bytes e + size_sum es

size_sum-marked : (ms : List Mark) → size_sum (marked ms) ≡ freed_bytes ms
unfolding size_sum marked freed_bytes
size_sum-marked [] = refl
size_sum-marked ((e, true) ∷ ms) = omega (arith, size_sum-marked ms)
size_sum-marked ((e, false) ∷ ms) = size_sum-marked ms

start-bytes :
    (es : List RecordingEntry)
    → (kept_bytes (map (λ x. (x, false)) es) ≡ size_sum es)
      × (freed_bytes (map (λ x. (x, false)) es) ≡ 0)
unfolding kept_bytes freed_bytes size_sum
start-bytes [] = (refl, refl)
start-bytes (e ∷ es) = (ap (λ (n : ℕ). bytes e + n) (start-bytes es).0, (start-bytes es).1)

start-AllSized : (es : List RecordingEntry) → All IsSized es → AllSized (map (λ x. (x, false)) es)
start-AllSized [] s = tt
start-AllSized (e ∷ es) s = (s.0, start-AllSized es s.1)

tiers-AllSized :
    (p : RetentionPolicy) (now : Time) (ms : List Mark)
    → AllSized ms
    → AllSized (apply_time_tiers p now ms)
unfolding apply_time_tiers
tiers-AllSized p now [] s = tt
tiers-AllSized p now (m ∷ ms) s = (s.0, tiers-AllSized p now ms s.1)

-- With a storage cap set, what the pass does not delete is within the cap: the sizes of all entries
-- are no more than the cap and the sizes of the entries returned. The sizes are file sizes whose sum
-- fits in an int64.
pub evaluate-within_cap :
    (es : List RecordingEntry) (p : RetentionPolicy) (now : Time)
    → gt_zero p.max_storage_gb ≡ true
    → All IsSized es
    → size_sum es < 2 ^ 63
    → size_sum es ≤ whole_bytes p.max_storage_gb + size_sum (evaluate_retention es p now)
unfolding final_marks
evaluate-within_cap es p now g s h =
    let start = map (λ x. (x, false)) es in
    let tiers = apply_time_tiers p now start in
    let start_sum = start-bytes es in
    let tier_sum = Extends-bytes start tiers (tiers-Extends p now start) in
    let trim =
      apply_storage_cap-TrimsTo p tiers g (tiers-AllSized p now start (start-AllSized es s))
        (omega (arith, start_sum, tier_sum)) in
    let capped = apply_storage_cap p tiers in
    let capped_sum = Extends-bytes tiers capped (apply_storage_cap-Extends p tiers) in
    let final_sum =
      Extends-bytes capped (apply_disk_free_cap p capped) (apply_disk_free_cap-Extends p capped) in
    let kept = ap kept_bytes trim.prefix ∙ kept_bytes-mark_first trim.count tiers in
    rw (evaluate-eq es p now, size_sum-marked (final_marks es p now))
      (omega (arith, start_sum, tier_sum, capped_sum, final_sum, kept, trim.within))

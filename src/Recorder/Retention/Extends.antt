-- ===== src/Recorder/Retention/Extends.antt =====
-- The passes only set marks: the caps add deletions to those of the tiers.
use vrtc.Base.{
  ◌+◌, ◌≤◌, ◌≡◌, refl, ap, ◌∙◌, inl, inr, true, List, [], ◌∷◌, arith, Bool-cases, if◌then◌else◌,
  ◌||◌, not,
}
use vrtc.Base.Int.{ℤ, pos, leb_ℤ, positive, sub64}
use vrtc.Clock.{Time, gt_zero, to_bytes}
use vrtc.Recorder.Entry.{bytes}
use vrtc.Recorder.Retention.{
  RetentionPolicy, Mark, apply_time_tiers, trim_to_cap, apply_storage_cap, trim_deficit,
  apply_disk_free_cap,
}
use vrtc.Recorder.Retention.Marks.{kept_bytes, freed_bytes}

-- Marks may only be set, and the entries stay in place.
abbrev pub Extends : List Mark → List Mark → Type 0
Extends [] [] = Unit
Extends [] (n ∷ ns) = ⊥
Extends (m ∷ ms) [] = ⊥
Extends (m ∷ ms) (n ∷ ns) = (n.0 ≡ m.0) × (m.1 ≡ true → n.1 ≡ true) × Extends ms ns

pub Extends-refl : (ms : List Mark) → Extends ms ms
Extends-refl [] = tt
Extends-refl (m ∷ ms) = (refl, λ h. h, Extends-refl ms)

pub Extends-trans : (ms ns ks : List Mark) → Extends ms ns → Extends ns ks → Extends ms ks
Extends-trans [] [] [] h k = tt
Extends-trans [] [] (c ∷ ks) h k = absurd k
Extends-trans [] (b ∷ ns) ks h k = absurd h
Extends-trans (a ∷ ms) [] ks h k = absurd h
Extends-trans (a ∷ ms) (b ∷ ns) [] h k = absurd k
Extends-trans (a ∷ ms) (b ∷ ns) (c ∷ ks) h k =
    (k.0 ∙ h.0, λ t. k.1 (h.1 t), Extends-trans ms ns ks h.2 k.2)

trim_to_cap-Extends : (max total : ℤ) (ms : List Mark) → Extends ms (trim_to_cap max total ms)
unfolding trim_to_cap
trim_to_cap-Extends max total [] = tt
trim_to_cap-Extends max total ((e, d) ∷ ms) = elim (Bool-cases (leb_ℤ total max)) [
  | inl fits ↦ rw fits (refl, λ h. h, Extends-refl ms)
  | inr over ↦
      rw over (
        refl,
        λ h. refl,
        trim_to_cap-Extends max (if d then total else sub64 total e.size_bytes) ms,
      )
]

trim_deficit-Extends : (deficit : ℤ) (ms : List Mark) → Extends ms (trim_deficit deficit ms)
unfolding trim_deficit
trim_deficit-Extends deficit [] = tt
trim_deficit-Extends deficit ((e, d) ∷ ms) = elim (Bool-cases (leb_ℤ deficit (pos 0))) [
  | inl met ↦ rw met (refl, λ h. h, Extends-refl ms)
  | inr short ↦
      rw short (
        refl,
        λ h. refl,
        trim_deficit-Extends (if d then deficit else sub64 deficit e.size_bytes) ms,
      )
]

pub apply_storage_cap-Extends :
    (p : RetentionPolicy) (ms : List Mark) → Extends ms (apply_storage_cap p ms)
unfolding apply_storage_cap
apply_storage_cap-Extends p ms = elim (Bool-cases (gt_zero p.max_storage_gb)) [
  | inl g ↦ rw g (trim_to_cap-Extends _ _ ms)
  | inr g ↦ rw g (Extends-refl ms)
]

pub apply_disk_free_cap-Extends :
    (p : RetentionPolicy) (ms : List Mark) → Extends ms (apply_disk_free_cap p ms)
unfolding apply_disk_free_cap
apply_disk_free_cap-Extends p ms =
    elim (Bool-cases (not (gt_zero p.min_free_gb) || not (positive p.disk_free_bytes))) [
      | inl idle ↦ rw idle (Extends-refl ms)
      | inr busy ↦ rw busy (elim (Bool-cases (leb_ℤ (to_bytes p.min_free_gb) p.disk_free_bytes)) [
        | inl plenty ↦ rw plenty (Extends-refl ms)
        | inr short ↦ rw short (trim_deficit-Extends _ ms)
      ])
    ]

-- The caps only add deletions to those of the tiers.
pub caps-Extends :
    (p : RetentionPolicy) (ms : List Mark)
    → Extends ms (apply_disk_free_cap p (apply_storage_cap p ms))
caps-Extends p ms =
    Extends-trans ms (apply_storage_cap p ms) _ (apply_storage_cap-Extends p ms)
      (apply_disk_free_cap-Extends p (apply_storage_cap p ms))

-- Along an extension the bytes are kept or freed, and fewer are kept.
pub Extends-bytes :
    (ms ns : List Mark)
    → Extends ms ns
    → (kept_bytes ns ≤ kept_bytes ms)
      × (kept_bytes ns + freed_bytes ns ≡ kept_bytes ms + freed_bytes ms)
unfolding kept_bytes freed_bytes
Extends-bytes [] [] x = (omega arith, omega arith)
Extends-bytes [] (n ∷ ns) x = absurd x
Extends-bytes (m ∷ ms) [] x = absurd x
Extends-bytes ((e, c) ∷ ms) ((f, d) ∷ ns) x =
    let ih = Extends-bytes ms ns x.2 in
    let same : bytes f ≡ bytes e = ap bytes x.0 in ground (arith, ih, same, x.1)

pub tiers-Extends :
    (p : RetentionPolicy) (now : Time) (ms : List Mark) → Extends ms (apply_time_tiers p now ms)
unfolding apply_time_tiers
tiers-Extends p now [] = tt
tiers-Extends p now ((e, d) ∷ ms) = (refl, ground arith, tiers-Extends p now ms)

pub Extends-nil : (ns : List Mark) → Extends [] ns → ns ≡ []
Extends-nil [] h = refl
Extends-nil (n ∷ ns) h = absurd h

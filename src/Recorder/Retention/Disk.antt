-- ===== src/Recorder/Retention/Disk.antt =====
-- `applyDiskFreeCap` deletes the shortest prefix that makes up the missing disk space.
use vrtc.Base.{
  ℕ, zero, suc, ◌+◌, ◌^◌, ◌≤◌, ◌<◌, ◌≡◌, refl, ap, ◌∙◌, ◌⊎◌, inl, inr, true, false, List, [], ◌∷◌,
  arith, Bool-cases, if◌then◌else◌, length, take,
}
use vrtc.Base.Int.{pos, leb_ℤ, positive, sub_ℕ, sub64, sub64-pos, sub64-sub_ℕ}
use vrtc.Clock.{gt_zero, whole_bytes}
use vrtc.Recorder.Entry.{RecordingEntry, bytes, IsSized}
use vrtc.Recorder.Retention.{
  RetentionPolicy, Mark, less_scheduled, trim_deficit, apply_disk_free_cap,
}
use vrtc.Recorder.Retention.Marks.{kept_bytes, freed_bytes, mark_first, AllSized, size_of_IsSized}

-- `out` is `marks` with the least prefix deleted that frees `need` bytes beside the `got` that are
-- freed already, or with all deleted where that is not enough.
pub record Frees (need got : ℕ) (marks out : List Mark) : Type 0 where
  pub count : ℕ
  pub prefix : out ≡ mark_first count marks
  pub enough : (need ≤ got + kept_bytes (take count marks)) ⊎ (count ≡ length marks)
  pub least : (j : ℕ) → j < count → got + kept_bytes (take j marks) < need

sub64-size :
    (a b : ℕ) (e : RecordingEntry)
    → IsSized e
    → a < 2 ^ 63
    → b + bytes e < 2 ^ 63
    → sub64 (sub_ℕ a b) e.size_bytes ≡ sub_ℕ a (b + bytes e)
sub64-size a b e s ha hb =
    ap (sub64 (sub_ℕ a b)) (size_of_IsSized e s) ∙ sub64-sub_ℕ a b (bytes e) ha hb

less_scheduled-eq :
    (need got : ℕ) (marks : List Mark)
    → AllSized marks
    → need < 2 ^ 63
    → got + freed_bytes marks < 2 ^ 63
    → less_scheduled (sub_ℕ need got) marks ≡ sub_ℕ need (got + freed_bytes marks)
unfolding less_scheduled freed_bytes
less_scheduled-eq need got [] s hn hg = ap (sub_ℕ need) (omega arith)
less_scheduled-eq need got ((e, false) ∷ marks) s hn hg =
    less_scheduled-eq need got marks s.1 hn (omega arith)
less_scheduled-eq need got ((e, true) ∷ marks) s hn hg =
    rw (sub64-size need got e s.0 hn (omega arith)) (
      less_scheduled-eq need (got + bytes e) marks s.1 hn (omega arith)
      ∙ ap (sub_ℕ need) (omega arith))

-- A deficit is made up exactly when it is not positive.
deficit_met : (need got : ℕ) → leb_ℤ (sub_ℕ need got) (pos 0) ≡ true → need ≤ got
deficit_met need got h = ground arith

deficit_open : (need got : ℕ) → leb_ℤ (sub_ℕ need got) (pos 0) ≡ false → got < need
deficit_open need got h = ground arith

whole-Frees : (need got : ℕ) (marks : List Mark) → need ≤ got → Frees need got marks marks
unfolding mark_first
whole-Frees need got marks h = record {
  count = 0;
  prefix = refl;
  enough = inl (omega arith);
  least = λ j l. absurd (omega arith);
}

-- What one entry frees when it is deleted here.
abbrev gain : Mark → ℕ
gain (e, d) = if d then 0 else bytes e

kept_bytes-cons :
    (m : Mark) (marks : List Mark) → kept_bytes (m ∷ marks) ≡ gain m + kept_bytes marks
unfolding kept_bytes
kept_bytes-cons (e, true) marks = omega arith
kept_bytes-cons (e, false) marks = refl

cons_least :
    (need got : ℕ) (m : Mark) (marks : List Mark) (n : ℕ)
    → got < need
    → ((j : ℕ) → j < n → got + gain m + kept_bytes (take j marks) < need)
    → (j : ℕ) → j < suc n
    → got + kept_bytes (take j (m ∷ marks)) < need
unfolding kept_bytes
cons_least need got m marks n short least zero l = omega arith
cons_least need got m marks n short least (suc j) l =
    omega (arith, least j (omega arith), kept_bytes-cons m (take j marks))

cons-Frees :
    (need got : ℕ) (m : Mark) (marks out : List Mark)
    → got < need
    → Frees need (got + gain m) marks out
    → Frees need got (m ∷ marks) ((m.0, true) ∷ out)
unfolding mark_first
cons-Frees need got m marks out short t = record {
  count = suc t.count;
  prefix = ap (◌∷◌ (m.0, true)) t.prefix;
  enough = elim t.enough [
    | inl e ↦ inl (omega (arith, e, kept_bytes-cons m (take t.count marks)))
    | inr e ↦ inr (ap suc e)
  ];
  least = cons_least need got m marks t.count short t.least;
}

next_deficit :
    (need got : ℕ) (m : Mark)
    → IsSized m.0
    → need < 2 ^ 63
    → got + gain m < 2 ^ 63
    → (if m.1 then sub_ℕ need got else sub64 (sub_ℕ need got) m.0.size_bytes)
      ≡ sub_ℕ need (got + gain m)
next_deficit need got (e, true) s hn hg = ap (sub_ℕ need) (omega arith)
next_deficit need got (e, false) s hn hg = sub64-size need got e s hn hg

trim_deficit-Frees :
    (need got : ℕ) (marks : List Mark)
    → AllSized marks
    → need < 2 ^ 63
    → got + kept_bytes marks < 2 ^ 63
    → Frees need got marks (trim_deficit (sub_ℕ need got) marks)
unfolding trim_deficit mark_first
trim_deficit-Frees need got [] s hn hg = record {
  count = 0;
  prefix = refl;
  enough = inr refl;
  least = λ j l. absurd (omega arith);
}
trim_deficit-Frees need got (m ∷ marks) s hn hg =
    let sum = kept_bytes-cons m marks in
    elim (Bool-cases (leb_ℤ (sub_ℕ need got) (pos 0))) [
      | inl met ↦ rw met (whole-Frees need got (m ∷ marks) (deficit_met need got met))
      | inr short ↦
          rw (short, next_deficit need got m s.0 hn (omega (arith, sum)))
            (cons-Frees need got m marks _ (deficit_open need got short)
              (trim_deficit-Frees need (got + gain m) marks s.1 hn (omega (arith, sum))))
    ]

-- When the disk is short of the minimum, `apply_disk_free_cap` deletes the shortest prefix of the
-- entries, oldest first, that makes up the deficit together with what is marked already, or all of
-- them where they do not suffice. The disk reading is positive, and the byte counts fit in an int64.
pub apply_disk_free_cap-Frees :
    (p : RetentionPolicy) (free : ℕ) (marks : List Mark)
    → gt_zero p.min_free_gb ≡ true
    → p.disk_free_bytes ≡ pos free
    → 0 < free
    → free < whole_bytes p.min_free_gb
    → AllSized marks
    → whole_bytes p.min_free_gb < 2 ^ 63
    → free + freed_bytes marks + kept_bytes marks < 2 ^ 63
    → Frees
        (whole_bytes p.min_free_gb)
        (free + freed_bytes marks)
        marks
        (apply_disk_free_cap p marks)
unfolding apply_disk_free_cap
apply_disk_free_cap-Frees p free marks g f pos_free short s hn hg =
    let need = whole_bytes p.min_free_gb in
    let first : positive (pos free) ≡ true = ground arith in
    let low : leb_ℤ (pos need) (pos free) ≡ false = ground arith in
    rw
      (
        f,
        g,
        first,
        low,
        sub64-pos need free hn (omega arith),
        less_scheduled-eq need free marks s hn (omega arith),
      )
      (trim_deficit-Frees need (free + freed_bytes marks) marks s hn hg)

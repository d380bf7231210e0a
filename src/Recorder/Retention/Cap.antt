-- ===== src/Recorder/Retention/Cap.antt =====
-- `applyStorageCap` deletes the shortest prefix that brings the kept bytes within the cap.
use vrtc.Base.{
  ℕ, zero, suc, ◌+◌, ◌^◌, ◌≤◌, ◌<◌, ◌≡◌, refl, ap, ◌∙◌, inl, inr, true, false, List, [], ◌∷◌, arith,
  Bool-cases, drop,
}
use vrtc.Base.Int.{pos, leb_ℤ, add64, sub64, add64-pos, sub64-pos}
use native.Mathlib.Nat.{zero-add}
use vrtc.Clock.{gt_zero, whole_bytes}
use vrtc.Recorder.Entry.{RecordingEntry, bytes, IsSized}
use vrtc.Recorder.Retention.{RetentionPolicy, Mark, total_bytes, trim_to_cap, apply_storage_cap}
use vrtc.Recorder.Retention.Marks.{kept_bytes, mark_first, AllSized, size_of_IsSized}

-- `out` is `marks` with the least prefix deleted that leaves at most `max` bytes.
pub record TrimsTo (max : ℕ) (marks out : List Mark) : Type 0 where
  pub count : ℕ
  pub prefix : out ≡ mark_first count marks
  pub within : kept_bytes (drop count marks) ≤ max
  pub least : (j : ℕ) → j < count → max < kept_bytes (drop j marks)

add64-size :
    (a : ℕ) (e : RecordingEntry)
    → IsSized e
    → a + bytes e < 2 ^ 63
    → add64 (pos a) e.size_bytes ≡ pos (a + bytes e)
add64-size a e s h = ap (add64 (pos a)) (size_of_IsSized e s) ∙ add64-pos a (bytes e) h

pub total_bytes-eq-kept :
    (a : ℕ) (marks : List Mark)
    → AllSized marks
    → a + kept_bytes marks < 2 ^ 63
    → total_bytes (pos a) marks ≡ pos (a + kept_bytes marks)
unfolding total_bytes kept_bytes
total_bytes-eq-kept a [] s h = ap pos (omega arith)
total_bytes-eq-kept a ((e, true) ∷ marks) s h = total_bytes-eq-kept a marks s.1 (omega arith)
total_bytes-eq-kept a ((e, false) ∷ marks) s h =
    rw (add64-size a e s.0 (omega arith))
      (rw (total_bytes-eq-kept (a + bytes e) marks s.1 (omega arith)) (ap pos (omega arith)))

cons_least :
    (max : ℕ) (m : Mark) (marks : List Mark) (n : ℕ)
    → max < kept_bytes (m ∷ marks)
    → ((j : ℕ) → j < n → max < kept_bytes (drop j marks))
    → (j : ℕ) → j < suc n
    → max < kept_bytes (drop j (m ∷ marks))
cons_least max m marks n over least zero l = over
cons_least max m marks n over least (suc j) l = least j (omega arith)

cons-TrimsTo :
    (max : ℕ) (m : Mark) (marks out : List Mark)
    → max < kept_bytes (m ∷ marks)
    → TrimsTo max marks out
    → TrimsTo max (m ∷ marks) ((m.0, true) ∷ out)
unfolding mark_first
cons-TrimsTo max m marks out over t = record {
  count = suc t.count;
  prefix = ap (◌∷◌ (m.0, true)) t.prefix;
  within = t.within;
  least = cons_least max m marks t.count over t.least;
}

whole-TrimsTo : (max : ℕ) (marks : List Mark) → kept_bytes marks ≤ max → TrimsTo max marks marks
unfolding mark_first
whole-TrimsTo max marks h = record {
  count = 0;
  prefix = refl;
  within = h;
  least = λ j l. absurd (omega arith);
}

sub64-size :
    (e : RecordingEntry) (rest : ℕ)
    → IsSized e
    → bytes e + rest < 2 ^ 63
    → sub64 (pos (bytes e + rest)) e.size_bytes ≡ pos rest
sub64-size e rest s h =
    ap (sub64 (pos (bytes e + rest))) (size_of_IsSized e s)
    ∙ sub64-pos (bytes e + rest) (bytes e) (omega arith) (omega arith)
    ∙ ground arith

trim_to_cap-TrimsTo :
    (max : ℕ) (marks : List Mark)
    → AllSized marks
    → kept_bytes marks < 2 ^ 63
    → TrimsTo max marks (trim_to_cap (pos max) (pos (kept_bytes marks)) marks)
unfolding trim_to_cap kept_bytes
trim_to_cap-TrimsTo max [] s h = whole-TrimsTo max [] (unfold kept_bytes in omega arith)
trim_to_cap-TrimsTo max ((e, true) ∷ marks) s h =
    elim (Bool-cases (leb_ℤ (pos (kept_bytes marks)) (pos max))) [
      | inl fits ↦ rw fits (whole-TrimsTo max _ (ground arith))
      | inr over ↦
          rw over (
            cons-TrimsTo max (e, true) marks _ (ground arith) (trim_to_cap-TrimsTo max marks s.1 h))
    ]
trim_to_cap-TrimsTo max ((e, false) ∷ marks) s h =
    elim (Bool-cases (leb_ℤ (pos (bytes e + kept_bytes marks)) (pos max))) [
      | inl fits ↦ rw fits (whole-TrimsTo max _ (ground arith))
      | inr over ↦
          rw (over, sub64-size e (kept_bytes marks) s.0 h)
            (cons-TrimsTo max (e, false) marks _ (ground arith)
              (trim_to_cap-TrimsTo max marks s.1 (omega arith)))
    ]

-- With a cap set, `apply_storage_cap` deletes the shortest prefix of the entries, oldest first, that
-- leaves no more than the cap undeleted: what stays is within the cap, and with one entry fewer
-- deleted it would not be. The sizes are file sizes whose sum fits in an int64.
pub apply_storage_cap-TrimsTo :
    (p : RetentionPolicy) (marks : List Mark)
    → gt_zero p.max_storage_gb ≡ true
    → AllSized marks
    → kept_bytes marks < 2 ^ 63
    → TrimsTo (whole_bytes p.max_storage_gb) marks (apply_storage_cap p marks)
unfolding apply_storage_cap
apply_storage_cap-TrimsTo p marks g s h =
    rw (g, total_bytes-eq-kept 0 marks s (omega arith), zero-add)
      (trim_to_cap-TrimsTo (whole_bytes p.max_storage_gb) marks s h)

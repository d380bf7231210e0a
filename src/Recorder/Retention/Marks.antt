-- ===== src/Recorder/Retention/Marks.antt =====
-- What the marks of the retention pass say, as numbers: the bytes kept and the bytes to be freed.
use vrtc.Base.{ℕ, zero, suc, ◌+◌, ◌≡◌, refl, true, List, [], ◌∷◌, arith, if◌then◌else◌, All, drop}
use vrtc.Base.Int.{ℤ, pos, negsuc, pos_part, neg_part}
use vrtc.Recorder.Entry.{RecordingEntry, bytes, IsSized}
use vrtc.Recorder.Retention.{Mark}

-- The bytes of the entries that are not deleted, and of those that are.
unfoldable pub kept_bytes : List Mark → ℕ
kept_bytes [] = 0
kept_bytes ((e, d) ∷ marks) = let rest = kept_bytes marks in if d then rest else bytes e + rest

unfoldable pub freed_bytes : List Mark → ℕ
freed_bytes [] = 0
freed_bytes ((e, d) ∷ marks) = let rest = freed_bytes marks in if d then bytes e + rest else rest

-- The first `n` entries deleted, and the others left as they are.
unfoldable pub mark_first : ℕ → List Mark → List Mark
mark_first zero marks = marks
mark_first (suc n) [] = []
mark_first (suc n) ((e, d) ∷ marks) = (e, true) ∷ mark_first n marks

abbrev pub AllSized : List Mark → Type 0
AllSized marks = All (λ m. IsSized m.0) marks

pub size_of_IsSized : (e : RecordingEntry) → IsSized e → e.size_bytes ≡ pos (bytes e)
size_of_IsSized e h = go e.size_bytes h
  where
    go : (z : ℤ) → neg_part z ≡ 0 → z ≡ pos (pos_part z)
    go (pos n) h = refl
    go (negsuc n) h = absurd (omega arith)

-- Deleting a prefix keeps what the rest kept.
pub kept_bytes-mark_first :
    (n : ℕ) (marks : List Mark) → kept_bytes (mark_first n marks) ≡ kept_bytes (drop n marks)
unfolding kept_bytes mark_first
kept_bytes-mark_first zero marks = refl
kept_bytes-mark_first (suc n) [] = refl
kept_bytes-mark_first (suc n) ((e, d) ∷ marks) = kept_bytes-mark_first n marks

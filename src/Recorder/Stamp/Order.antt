-- ===== src/Recorder/Stamp/Order.antt =====
-- The order of the texts against the order of time, and the round trip through the text.
use vrtc.Base.{
  ℕ, zero, suc, ◌+◌, ◌-◌, ◌*◌, ◌/◌, ◌%◌, ◌^◌, ◌≤◌, ◌<◌, ◌≡◌, refl, subst, true, false, List, [],
  ◌∷◌, arith, ◌==◌, Bool-cases, inl, inr,
}
use native.Mathlib.Nat.{pow-suc, mod-lt, div-add-mod', div-lt_iff_lt-mul}
use vrtc.Clock.{Time, second}
use vrtc.Recorder.Stamp.{
  Stamp, fraction, format, parse_fraction, parse_suffix, parse, text_le, stamp_le,
}

text_le_total : (xs ys : List ℕ) → text_le xs ys ≡ false → text_le ys xs ≡ true
unfolding text_le
text_le_total [] ys h = ground arith
text_le_total (x ∷ xs) [] h = refl
text_le_total (x ∷ xs) (y ∷ ys) h = ground (arith, text_le_total xs ys)

text_le_trans :
    (xs ys zs : List ℕ) → text_le xs ys ≡ true → text_le ys zs ≡ true → text_le xs zs ≡ true
unfolding text_le
text_le_trans [] ys zs h k = refl
text_le_trans (x ∷ xs) [] zs h k = ground arith
text_le_trans (x ∷ xs) (y ∷ ys) [] h k = ground arith
text_le_trans (x ∷ xs) (y ∷ ys) (z ∷ zs) h k = ground (arith, text_le_trans xs ys zs)

pub stamp_le_total : (a b : Stamp) → stamp_le a b ≡ false → stamp_le b a ≡ true
unfolding stamp_le
stamp_le_total a b h = ground (arith, text_le_total a.suffix b.suffix)

pub stamp_le_trans :
    (a b c : Stamp) → stamp_le a b ≡ true → stamp_le b c ≡ true → stamp_le a c ≡ true
unfolding stamp_le
stamp_le_trans a b c h k = ground (arith, text_le_trans a.suffix b.suffix c.suffix)

-- Texts that are in order name seconds that are in order.
pub stamp_le-seconds :
    (t u : Time) → stamp_le (format t) (format u) ≡ true → t / second ≤ u / second
unfolding stamp_le format
stamp_le-seconds t u h = ground arith

-- The seconds decide, where they differ.
pub stamp_le_of_seconds :
    (t u : Time) → t / second < u / second → stamp_le (format t) (format u) ≡ true
unfolding stamp_le format
stamp_le_of_seconds t u h = ground arith

-- Within a second the texts are not in the order of time: the text of a whole second stands behind
-- that of every later instant in that second.
pub stamp_le-misorders :
    (s f : ℕ)
    → 0 < f
    → f < second
    → stamp_le (format (s * second)) (format (s * second + f)) ≡ false
unfolding stamp_le format text_le
stamp_le-misorders s f pos lt =
    let a : s * second % second ≡ 0 = omega arith in
    let b : (s * second + f) % second ≡ f = omega arith in
    let c : s * second / second ≡ s = omega arith in
    let d : (s * second + f) / second ≡ s = omega arith in rw (a, b, c, d) (ground arith)

ten_pos : (k : ℕ) → 0 < 10 ^ k
ten_pos zero = omega arith
ten_pos (suc k) = rw (pow-suc 10 k) (omega (arith, ten_pos k))

digit-ne-Z : (n p : ℕ) → 0 < p → n < p * 10 → (b'0' + n / p == b'Z') ≡ false
digit-ne-Z n p h lt = let small : n / p < 10 = (div-lt_iff_lt-mul h).1 (omega arith) in ground arith

digit_value : (q : ℕ) → b'0' + q - b'0' ≡ q
digit_value q = omega arith

parse_fraction-fraction : (k n : ℕ) → n < 10 ^ k → parse_fraction k (fraction k n) ≡ n
unfolding fraction parse_fraction
parse_fraction-fraction zero n h = ground arith
parse_fraction-fraction (suc k) n h =
    let p = 10 ^ k in
    let lt : n < p * 10 = subst (λ (m : ℕ). n < m) (pow-suc 10 k) h in
    let ih = parse_fraction-fraction k (n % p) (mod-lt n (ten_pos k)) in
    elim (Bool-cases (n == 0)) [
      | inl whole ↦ rw whole (ground arith)
      | inr more ↦
          rw (more, digit-ne-Z n p (ten_pos k) lt, ih, digit_value (n / p)) (div-add-mod' n p)
    ]

-- An instant is read back from its text as it was.
pub parse-format : (t : Time) → parse (format t) ≡ t
unfolding parse format parse_suffix
parse-format t = elim (Bool-cases (t % second == 0)) [
  | inl whole ↦ rw whole (ground arith)
  | inr part ↦ rw (part, parse_fraction-fraction 9 (t % second) (omega arith)) (omega arith)
]

-- ===== src/View/Source/Chain.antt =====
-- pkg/edgeview/stream.go: how an `indexSource` moves along its entries.
use mathlib.Core.List.{append_assoc}
use vrtc.Base.{
  ℕ, zero, suc, ◌+◌, ◌≤◌, ◌≡◌, ◌≢◌, refl, ap, sym, ◌∙◌, subst, ◌⊎◌, inl, inr, true, List, [], ◌∷◌,
  ◌++◌, arith, length, drop, length-append, All, All-append,
}
use vrtc.Recorder.Entry.{RecordingEntry}
use vrtc.Recorder.Index.{contains}
use vrtc.View.Source.{Source}

-- No two entries have one id.
abbrev pub Distinct : List RecordingEntry → Type 0
Distinct [] = Unit {0}
Distinct (e ∷ es) = All (λ (f : RecordingEntry). e.id ≢ f.id) es × Distinct es

-- A list is another with some elements left out.
abbrev pub Sub : List RecordingEntry → List RecordingEntry → Type 0
Sub ps [] = ps ≡ []
Sub ps (x ∷ xs) = Sub ps xs ⊎ ((qs : List RecordingEntry) × (ps ≡ x ∷ qs) × Sub qs xs)

pub Sub-append :
    (ps qs xs ys : List RecordingEntry) → Sub ps xs → Sub qs ys → Sub (ps ++ qs) (xs ++ ys)
Sub-append ps qs [] ys e s = subst (λ l. Sub (l ++ qs) ys) (sym e) s
Sub-append ps qs (x ∷ xs) ys (inl p) s = inl (Sub-append ps qs xs ys p s)
Sub-append ps qs (x ∷ xs) ys (inr (rs, e, p)) s =
    inr (rs ++ qs, ap (λ l. l ++ qs) e, Sub-append rs qs xs ys p s)

All-Sub :
    (P : RecordingEntry → Type 0) (ps xs : List RecordingEntry) → Sub ps xs → All P xs → All P ps
All-Sub P ps [] e h = subst (All P) (sym e) tt
All-Sub P ps (x ∷ xs) (inl p) h = All-Sub P ps xs p h.1
All-Sub P ps (x ∷ xs) (inr (qs, e, p)) h = subst (All P) (sym e) (h.0, All-Sub P qs xs p h.1)

pub Distinct-Sub : (ps xs : List RecordingEntry) → Sub ps xs → Distinct xs → Distinct ps
Distinct-Sub ps [] e d = subst Distinct (sym e) tt
Distinct-Sub ps (x ∷ xs) (inl p) d = Distinct-Sub ps xs p d.1
Distinct-Sub ps (x ∷ xs) (inr (qs, e, p)) d =
    subst Distinct (sym e)
      (All-Sub (λ (f : RecordingEntry). x.id ≢ f.id) qs xs p d.0, Distinct-Sub qs xs p d.1)

pub Distinct-drop : (n : ℕ) (xs : List RecordingEntry) → Distinct xs → Distinct (drop n xs)
Distinct-drop zero xs d = d
Distinct-drop (suc n) [] d = tt
Distinct-drop (suc n) (x ∷ xs) d = Distinct-drop n xs d.1

All-left : (P : RecordingEntry → Type 0) (xs ys : List RecordingEntry) → All P (xs ++ ys) → All P xs
All-left P [] ys h = tt
All-left P (x ∷ xs) ys h = (h.0, All-left P xs ys h.1)

pub Distinct-append_left : (xs ys : List RecordingEntry) → Distinct (xs ++ ys) → Distinct xs
Distinct-append_left [] ys d = tt
Distinct-append_left (x ∷ xs) ys d =
    (All-left (λ (f : RecordingEntry). x.id ≢ f.id) xs ys d.0, Distinct-append_left xs ys d.1)

pub Distinct-append_one :
    (xs : List RecordingEntry) (e : RecordingEntry)
    → Distinct xs
    → All (λ (f : RecordingEntry). f.id ≢ e.id) xs
    → Distinct (xs ++ e ∷ [])
Distinct-append_one [] e d h = (tt, tt)
Distinct-append_one (x ∷ xs) e d h = (
  All-append (λ (f : RecordingEntry). x.id ≢ f.id) xs (e ∷ []) d.0 (h.0, tt),
  Distinct-append_one xs e d.1 h.1,
)

pub drop-append :
    (n : ℕ) (xs ys : List RecordingEntry) → n ≤ length xs → drop n (xs ++ ys) ≡ drop n xs ++ ys
drop-append zero xs ys h = refl
drop-append (suc n) [] ys h = absurd (omega (arith, h))
drop-append (suc n) (x ∷ xs) ys h = drop-append n xs ys (omega (arith, h))

pub drop-suc :
    (n : ℕ) (xs es : List RecordingEntry) (e : RecordingEntry)
    → drop n xs ≡ e ∷ es
    → (drop (n + 1) xs ≡ es) × (n + 1 ≤ length xs)
drop-suc zero [] es e h = cc
drop-suc zero (x ∷ xs) es e h = (cc, omega arith)
drop-suc (suc n) [] es e h = cc
drop-suc (suc n) (x ∷ xs) es e h =
    let (a, b) = drop-suc n xs es e h in
    let q : suc n + 1 ≡ suc (n + 1) = omega arith in
    (subst (λ k. drop k (x ∷ xs) ≡ es) (sym q) a, omega (arith, b))

-- The cursor is within the entries, no two of which have one id, and all ids are seen.
pub record Wf (s : Source) : Type 0 where
  pub in_bounds : s.idx ≤ length s.entries
  pub distinct : Distinct s.entries
  pub are_seen : All (λ (e : RecordingEntry). contains e.id s.seen_ids ≡ true) s.entries

-- A source moves on: entries are added at the end, and the cursor passes entries of which those that
-- were played are some.
pub record Moves (s s' : Source) (ps : List RecordingEntry) : Type 0 where
  pub added : List RecordingEntry
  pub grown : s'.entries ≡ s.entries ++ added
  pub passed : List RecordingEntry
  pub split : drop s.idx s'.entries ≡ passed ++ drop s'.idx s'.entries
  pub some_played : Sub ps passed
  pub is_wf : Wf s'

pub Moves-trans :
    (s s' s'' : Source) (ps qs : List RecordingEntry)
    → Wf s
    → Moves s s' ps
    → Moves s' s'' qs
    → Moves s s'' (ps ++ qs)
Moves-trans s s' s'' ps qs wf m n = record {
  added = m.added ++ n.added;
  grown = n.grown ∙ ap (λ l. l ++ n.added) m.grown ∙ append_assoc s.entries m.added n.added;
  passed = m.passed ++ n.passed;
  split =
      ap (drop s.idx) n.grown
      ∙ drop-append s.idx s'.entries n.added
          (rw (m.grown, length-append s.entries m.added) (omega (arith, wf.in_bounds)))
      ∙ ap (λ l. l ++ n.added) m.split
      ∙ append_assoc m.passed (drop s'.idx s'.entries) n.added
      ∙ ap (λ l. m.passed ++ l)
          (sym (drop-append s'.idx s'.entries n.added m.is_wf.in_bounds)
            ∙ ap (drop s'.idx) (sym n.grown)
            ∙ n.split)
      ∙ sym (append_assoc m.passed n.passed (drop s''.idx s''.entries));
  some_played = Sub-append ps qs m.passed n.passed m.some_played n.some_played;
  is_wf = n.is_wf;
}

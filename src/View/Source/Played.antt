-- ===== src/View/Source/Played.antt =====
-- pkg/edgeview/stream.go: the segments that a source plays, one `Next` after the other.
pub mod Runs
use mathlib.Core.List.{append-nil}
use vrtc.Base.{
  ℕ, zero, suc, ◌+◌, ◌≤◌, ◌≡◌, ◌≢◌, refl, ap, sym, ◌∙◌, subst, ◌⊎◌, inl, inr, Bool, true, false,
  not, ◌||◌, Bool-cases, List, [], ◌∷◌, ◌++◌, map, String, str_eq, str_eq_refl, arith, length, drop,
  length-append, All, All-append, All-map_of, if◌then◌else◌,
}
use vrtc.Clock.{Time, zero_time}
use vrtc.Recorder.Entry.{RecordingEntry}
use vrtc.Recorder.Index.{Index, Result, ok, err, contains, query_by_channel}
use vrtc.View.Source.{
  Opening, opened, missing, failed, World, Outcome, segment, buffer, end_of_file, open_failure,
  query_failure, cancelled, no_demuxer, waiting, no_recordings, Source, track_gap, advance,
  is_stamped, open_from, open_next, absorb, on_poll, poll_at, poll_once, wait_from, wait_for_next,
  try_live_transition, or_else, follow_on, next, after_time,
}
use vrtc.View.Source.Chain.{
  Distinct, Sub, Distinct-Sub, Distinct-drop, Distinct-append_left, Distinct-append_one, drop-suc,
  Wf, Moves, Moves-trans,
}

-- The segment that an outcome plays, if it plays one.
abbrev pub played : Outcome → List RecordingEntry
played (segment e b) = e ∷ []
played (buffer since) = []
played end_of_file = []
played open_failure = []
played query_failure = []
played cancelled = []
played no_demuxer = []
played waiting = []
played no_recordings = []

pub Opening-cases : (o : Opening) → (o ≡ opened) ⊎ ((o ≡ missing) ⊎ (o ≡ failed))
Opening-cases opened = inl refl
Opening-cases missing = inr (inl refl)
Opening-cases failed = inr (inr refl)

-- A move that adds nothing and passes nothing.
pub stays :
    (s s' : Source)
    → s'.entries ≡ s.entries
    → s'.idx ≡ s.idx
    → s'.seen_ids ≡ s.seen_ids
    → Wf s
    → Moves s s' []
stays s s' e i d wf = record {
  added = [];
  grown = e ∙ sym (append-nil s.entries);
  passed = [];
  split = ap (λ k. drop k s'.entries) (sym i);
  some_played = refl;
  is_wf = record {
    in_bounds = rw (i, e) wf.in_bounds;
    distinct = rw e wf.distinct;
    are_seen = rw (e, d) wf.are_seen;
  };
}

-- A move of the cursor past one entry.
pub steps :
    (s s' : Source) (e : RecordingEntry) (es ps : List RecordingEntry)
    → s'.entries ≡ s.entries
    → s'.idx ≡ s.idx + 1
    → s'.seen_ids ≡ s.seen_ids
    → drop s.idx s.entries ≡ e ∷ es
    → Sub ps (e ∷ [])
    → Wf s
    → Moves s s' ps
steps s s' e es ps q i d h p wf =
    let (next, bound) = drop-suc s.idx s.entries es e h in
    record {
      added = [];
      grown = q ∙ sym (append-nil s.entries);
      passed = e ∷ [];
      split = ap (drop s.idx) q ∙ h ∙ ap (λ l. e ∷ l) (sym (rw (q, i) next));
      some_played = p;
      is_wf = record {
        in_bounds = rw (i, q) bound;
        distinct = rw q wf.distinct;
        are_seen = rw (q, d) wf.are_seen;
      };
    }

pub open_from-opened :
    (w : World) (e : RecordingEntry) (es : List RecordingEntry) (s : Source)
    → w.open_file e.file_path ≡ opened
    → open_from w (e ∷ es) s ≡ (track_gap e (advance s), segment e (is_stamped e s))
unfolding open_from
open_from-opened w e es s o = rw (open_from, o) refl

pub open_from-missing :
    (w : World) (e : RecordingEntry) (es : List RecordingEntry) (s : Source)
    → w.open_file e.file_path ≡ missing
    → open_from w (e ∷ es) s ≡ open_from w es (advance s)
unfolding open_from
open_from-missing w e es s o = rw (open_from, o) refl

pub open_from-failed :
    (w : World) (e : RecordingEntry) (es : List RecordingEntry) (s : Source)
    → w.open_file e.file_path ≡ failed
    → open_from w (e ∷ es) s ≡ (advance s, open_failure)
unfolding open_from
open_from-failed w e es s o = rw (open_from, o) refl

-- A move to the state that an outcome comes with.
abbrev pub MovesTo : Source → Source × Outcome → Type 0
MovesTo s r = Moves s r.0 (played r.1)

open_from-Moves :
    (w : World) (es : List RecordingEntry) (s : Source)
    → drop s.idx s.entries ≡ es
    → Wf s
    → MovesTo s (open_from w es s)
unfolding track_gap
open_from-Moves w [] s h wf = unfold open_from in stays s s refl refl refl wf
open_from-Moves w (e ∷ es) s h wf =
    let one = steps s (advance s) e es [] refl refl refl h (inl refl) wf in
    elim (Opening-cases (w.open_file e.file_path)) [
      | inl o ↦
          subst (MovesTo s) (sym (open_from-opened w e es s o))
            (steps s _ e es (e ∷ []) refl refl refl h (inr ([], refl, refl)) wf)
      | inr other ↦ elim other [
        | inl o ↦ subst (MovesTo s) (sym (open_from-missing w e es s o)) (
            Moves-trans s (advance s) _ [] _ wf one
              (open_from-Moves w es (advance s) (drop-suc s.idx s.entries es e h).0 one.is_wf))
        | inr o ↦ subst (MovesTo s) (sym (open_from-failed w e es s o)) one
      ]
    ]

pub open_next-Moves :
    (w : World) (s : Source) → Wf s → Moves s (open_next w s).0 (played (open_next w s).1)
unfolding open_next
open_next-Moves w s wf = open_from-Moves w (drop s.idx s.entries) s refl wf

-- An entry whose id was not seen is none of the entries.
unseen :
    (e : RecordingEntry) (seen : List String) (xs : List RecordingEntry)
    → contains e.id seen ≡ false
    → All (λ (f : RecordingEntry). contains f.id seen ≡ true) xs
    → All (λ (f : RecordingEntry). f.id ≢ e.id) xs
unseen e seen xs n h =
    All-map_of _ _ (λ f t q. let c = sym t ∙ ap (λ i. contains i seen) q ∙ n in cc) xs h

pub contains-cons :
    (k x : String) (xs : List String) → contains k xs ≡ true → contains k (x ∷ xs) ≡ true
unfolding contains
contains-cons k x xs h = ground (arith, h)

pub contains_self : (k : String) (xs : List String) → contains k (k ∷ xs) ≡ true
unfolding contains
contains_self k xs = rw (str_eq_refl k) refl

absorb-Moves : (es : List RecordingEntry) (s : Source) → Wf s → Moves s (absorb es s) []
unfolding absorb
absorb-Moves [] s wf = stays s s refl refl refl wf
absorb-Moves (e ∷ es) s wf =
    let s' : Source = record s { seen_ids = e.id ∷ s.seen_ids; entries = s.entries ++ e ∷ [] } in
    elim (Bool-cases (contains e.id s.seen_ids)) [
      | inl t ↦ rw t (absorb-Moves es s wf)
      | inr n ↦
          let grown : Moves s s' [] = record {
            added = e ∷ [];
            grown = refl;
            passed = [];
            split = refl;
            some_played = refl;
            is_wf = record {
              in_bounds = rw (length-append s.entries (e ∷ [])) (omega (arith, wf.in_bounds));
              distinct =
                  Distinct-append_one s.entries e wf.distinct
                    (unseen e s.seen_ids s.entries n wf.are_seen);
              are_seen =
                  All-append _ s.entries (e ∷ [])
                    (All-map_of _ _ (λ f t. contains-cons f.id e.id s.seen_ids t) s.entries
                      wf.are_seen)
                    (contains_self e.id s.seen_ids, tt);
            };
          } in
          rw n (Moves-trans s s' (absorb es s') [] [] wf grown (absorb-Moves es s' grown.is_wf))
    ]

pub on_poll-Moves :
    (w : World) (r : Index × Result (List RecordingEntry)) (s : Source)
    → Wf s
    → Moves s (on_poll w r no_demuxer s).0 (played (on_poll w r no_demuxer s).1)
on_poll-Moves w (idx, err x) s wf = stays s _ refl refl refl wf
on_poll-Moves w (idx, ok es) s wf =
    let s' : Source = record s { index = idx } in
    let same = stays s s' refl refl refl wf in
    let all = absorb-Moves es s' same.is_wf in
    let got = Moves-trans s s' (absorb es s') [] [] wf same all in
    Moves-trans s (absorb es s') _ [] _ wf got (open_next-Moves w (absorb es s') all.is_wf)

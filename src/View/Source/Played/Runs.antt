-- ===== src/View/Source/Played/Runs.antt =====
-- pkg/edgeview/stream.go: `Next` called again and again.
use vrtc.Base.{◌≡◌, refl, Bool, true, false, not, ◌||◌, List, [], ◌∷◌, ◌++◌, drop, if◌then◌else◌}
use vrtc.Clock.{Time, zero_time}
use vrtc.Recorder.Entry.{RecordingEntry}
use vrtc.Recorder.Index.{query_by_channel}
use vrtc.View.Source.{
  World, Outcome, segment, buffer, end_of_file, open_failure, query_failure, cancelled, no_demuxer,
  waiting, no_recordings, Source, open_next, poll_at, poll_once, wait_from, wait_for_next,
  try_live_transition, or_else, follow_on, next, after_time,
}
use vrtc.View.Source.Chain.{Sub, Wf, Moves, Moves-trans}
use vrtc.View.Source.Played.{played, MovesTo, stays, open_next-Moves, on_poll-Moves}

poll_at-Moves : (w : World) (t : Time) (s : Source) → Wf s → MovesTo s (poll_at w t no_demuxer s)
poll_at-Moves w t s wf =
    on_poll-Moves w (query_by_channel w.db s.channel_id t zero_time (w.meanwhile s.index)) s wf

-- What goes on after a state without a demuxer moves on from there.
or_else-Moves :
    (s : Source) (r : Source × Outcome) (k : Source → Source × Outcome)
    → ((s : Source) → Wf s → MovesTo s (k s))
    → Wf s
    → MovesTo s r
    → MovesTo s (or_else r k)
or_else-Moves s (s', no_demuxer) k f wf m =
    Moves-trans s s' (k s').0 [] (played (k s').1) wf m (f s' m.is_wf)
or_else-Moves s (s', segment e b) k f wf m = m
or_else-Moves s (s', buffer since) k f wf m = m
or_else-Moves s (s', end_of_file) k f wf m = m
or_else-Moves s (s', open_failure) k f wf m = m
or_else-Moves s (s', query_failure) k f wf m = m
or_else-Moves s (s', cancelled) k f wf m = m
or_else-Moves s (s', waiting) k f wf m = m
or_else-Moves s (s', no_recordings) k f wf m = m

pub MovesTo-if :
    (b : Bool) (s : Source) (x y : Source × Outcome)
    → MovesTo s x
    → MovesTo s y
    → MovesTo s (if b then x else y)
MovesTo-if true s x y p q = p
MovesTo-if false s x y p q = q

wait_from-Moves : (t : Time) (ws : List World) (s : Source) → Wf s → MovesTo s (wait_from t ws s)
unfolding wait_from
wait_from-Moves t [] s wf = stays s s refl refl refl wf
wait_from-Moves t (w ∷ ws) s wf =
    MovesTo-if w.is_cancelled s (s, cancelled) _ (stays s s refl refl refl wf)
      (or_else-Moves s (poll_at w t no_demuxer s) (wait_from t ws)
        (λ s wf. wait_from-Moves t ws s wf) wf (poll_at-Moves w t s wf))

try_live-Moves : (w : World) (s : Source) → Wf s → MovesTo s (try_live_transition w s)
unfolding try_live_transition
try_live-Moves w s wf =
    MovesTo-if (s.used_buf || not w.has_provider || not (w.has_buffer s.channel_id)) s
      (s, no_demuxer) _ (stays s s refl refl refl wf) (stays s _ refl refl refl wf)

follow_on-Moves : (w : World) (ws : List World) (s : Source) → Wf s → MovesTo s (follow_on w ws s)
unfolding follow_on poll_once wait_for_next
follow_on-Moves w ws s wf =
    MovesTo-if (not s.follow) s (s, end_of_file) _ (stays s s refl refl refl wf)
      (or_else-Moves s (poll_once w s) (λ s. or_else (try_live_transition w s) (wait_for_next ws))
        (λ s wf.
          or_else-Moves s (try_live_transition w s) (wait_for_next ws)
            (λ s wf. wait_from-Moves (after_time zero_time s.entries) ws s wf) wf
            (try_live-Moves w s wf))
        wf (poll_at-Moves w (after_time zero_time s.entries) s wf))

pub next-Moves : (w : World) (ws : List World) (s : Source) → Wf s → MovesTo s (next w ws s)
unfolding next
next-Moves w ws s wf =
    or_else-Moves s (open_next w s) (follow_on w ws) (λ s wf. follow_on-Moves w ws s wf) wf
      (open_next-Moves w s wf)

-- The segments that one `Next` after the other plays, each with worlds of its own.
unfoldable pub play : List (World × List World) → Source → Source × List RecordingEntry
play [] s = (s, [])
play ((w, ws) ∷ rest) s =
    let r = next w ws s in let later = play rest r.0 in (later.0, played r.1 ++ later.1)

pub play-Moves :
    (calls : List (World × List World)) (s : Source)
    → Wf s
    → Moves s (play calls s).0 (play calls s).1
unfolding play
play-Moves [] s wf = stays s s refl refl refl wf
play-Moves ((w, ws) ∷ rest) s wf =
    let r = next w ws s in
    let one = next-Moves w ws s wf in
    Moves-trans s r.0 _ (played r.1) _ wf one (play-Moves rest r.0 one.is_wf)

-- The segments are played in the order of the entries, whatever is done to the index between the
-- queries: those that the calls play are, in order, some of the entries from the cursor on, those
-- that were recorded meanwhile among them, and none that the last cursor has not passed.
pub play-ordered :
    (calls : List (World × List World)) (s : Source)
    → Wf s
    → (passed : List RecordingEntry) × (drop s.idx (play calls s).0.entries
        ≡ passed ++ drop (play calls s).0.idx (play calls s).0.entries)
      × Sub (play calls s).1 passed
play-ordered calls s wf = let m = play-Moves calls s wf in (m.passed, m.split, m.some_played)

-- ===== src/Recorder/Manager/Stats/Totals.antt =====
-- pkg/recorder/recorder.go: what the statistics of a channel sum up.
use vrtc.Base.Assoc.{get, put, get-put}
use vrtc.Base.{
  ◌+◌, ◌≡◌, refl, ap, ◌∙◌, Bool, List, [], ◌∷◌, String, String-cases, str_eq, arith, length, select,
  inl, inr,
}
use vrtc.Base.Int.{ℤ, pos, add64}
use vrtc.Recorder.Entry.{RecordingEntry}
use vrtc.Recorder.Manager.Stats.{
  ChannelStats, no_stats, stats_or_zero, add_entry, stats_from, build_per_channel_stats,
}

-- The entries of a channel.
abbrev pub of_channel : String → List RecordingEntry → List RecordingEntry
of_channel ch = select (λ e. str_eq e.channel_id ch)

-- The entries of one channel, added to its statistics one after the other.
abbrev fold_entries :
    (String → Bool) → (String → ℤ) → List RecordingEntry → ChannelStats → ChannelStats
fold_entries active sizes [] cs = cs
fold_entries active sizes (e ∷ es) cs = fold_entries active sizes es (add_entry active sizes e cs)

stats_from-channel :
    (active : String → Bool) (sizes : String → ℤ) (ch : String) (es : List RecordingEntry)
    (stats : List (String × ChannelStats)) (total : ℤ)
    → stats_or_zero (get ch (stats_from active sizes es stats total).0)
      ≡ fold_entries active sizes (of_channel ch es) (stats_or_zero (get ch stats))
unfolding stats_from
stats_from-channel active sizes ch [] stats total = refl
stats_from-channel active sizes ch (e ∷ es) stats total =
    let cs = add_entry active sizes e (stats_or_zero (get e.channel_id stats)) in
    let next =
      stats_from-channel active sizes ch es (put e.channel_id cs stats)
        (add64 total e.size_bytes) in
    let read = ap stats_or_zero (get-put e.channel_id ch cs stats) in
    elim (String-cases e.channel_id ch) [
      | inl (t, q) ↦ rw t (
          next
          ∙ ap (fold_entries active sizes (of_channel ch es))
              (read ∙ rw t (ap (λ k. add_entry active sizes e (stats_or_zero (get k stats))) q)))
      | inr (t, q) ↦
          rw t (next ∙ ap (fold_entries active sizes (of_channel ch es)) (read ∙ rw t refl))
    ]

fold_entries-segments :
    (active : String → Bool) (sizes : String → ℤ) (es : List RecordingEntry) (cs : ChannelStats)
    → (fold_entries active sizes es cs).segments ≡ cs.segments + length es
unfolding add_entry
fold_entries-segments active sizes [] cs = omega arith
fold_entries-segments active sizes (e ∷ es) cs =
    fold_entries-segments active sizes es (add_entry active sizes e cs) ∙ omega arith

-- The sum of the sizes, as the int64 additions of the loop make it.
abbrev pub sum_sizes : ℤ → List RecordingEntry → ℤ
sum_sizes acc [] = acc
sum_sizes acc (e ∷ es) = sum_sizes (add64 acc e.size_bytes) es

fold_entries-total_bytes :
    (active : String → Bool) (sizes : String → ℤ) (es : List RecordingEntry) (cs : ChannelStats)
    → (fold_entries active sizes es cs).total_bytes ≡ sum_sizes cs.total_bytes es
unfolding add_entry
fold_entries-total_bytes active sizes [] cs = refl
fold_entries-total_bytes active sizes (e ∷ es) cs =
    fold_entries-total_bytes active sizes es (add_entry active sizes e cs)

stats_from-total :
    (active : String → Bool) (sizes : String → ℤ) (es : List RecordingEntry)
    (stats : List (String × ChannelStats)) (total : ℤ)
    → (stats_from active sizes es stats total).1 ≡ sum_sizes total es
unfolding stats_from
stats_from-total active sizes [] stats total = refl
stats_from-total active sizes (e ∷ es) stats total = stats_from-total active sizes es _ _

-- The statistics of a channel count its entries and add up their sizes, and no entry of another
-- channel; the total adds up the sizes of all entries.
pub build_per_channel_stats-counts :
    (es : List RecordingEntry) (active : String → Bool) (sizes : String → ℤ) (ch : String)
    → ((stats_or_zero (get ch (build_per_channel_stats es active sizes).0)).segments
        ≡ length (of_channel ch es))
      × ((stats_or_zero (get ch (build_per_channel_stats es active sizes).0)).total_bytes
          ≡ sum_sizes (pos 0) (of_channel ch es))
      × ((build_per_channel_stats es active sizes).1 ≡ sum_sizes (pos 0) es)
unfolding build_per_channel_stats get
build_per_channel_stats-counts es active sizes ch =
    let folded = stats_from-channel active sizes ch es [] (pos 0) in
    (
      ap (λ (c : ChannelStats). c.segments) folded
          ∙ fold_entries-segments active sizes (of_channel ch es) no_stats
          ∙ omega arith,
      ap (λ (c : ChannelStats). c.total_bytes) folded
          ∙ fold_entries-total_bytes active sizes (of_channel ch es) no_stats,
      stats_from-total active sizes es [] (pos 0),
    )

-- ===== src/Recorder/Manager/Retain/Removal.antt =====
-- pkg/recorder/recorder.go: what a retention pass leaves of the manager's state, and which files it
-- removes.
use vrtc.Base.{
  ◌≤◌, ◌≡◌, refl, ap, sym, ◌∙◌, inl, Bool, true, false, Option, none, some, List, [], ◌∷◌, ◌++◌,
  map, String, arith, length, In, All, All-append, All-map_of,
}
use mathlib.Core.List.{append_assoc, map-append}
use vrtc.Base.{length-append, In-append_left, In-append_right}
use vrtc.Base.{◌&&◌, if◌then◌else◌}
use vrtc.Base.Int.{ℤ, ltb_ℤ}
use vrtc.Clock.{Time, zero_time, gt_zero, to_bytes}
use vrtc.Recorder.Entry.{RecordingEntry}
use vrtc.Recorder.Index.{Index, Result, ok, err, delete, query_by_channel}
use vrtc.Recorder.Manager.{Schedule, remove_file, Manager, World}
use vrtc.Recorder.Manager.Retain.{
  and_remove, delete_segment, delete_segments, enforce_on, enforce_retention, to_delete,
  stamp_retention, check_at, check_disk_space,
}

-- The paths of a list of entries.
abbrev pub paths_of : List RecordingEntry → List String
paths_of = map (λ e. e.file_path)

-- One state comes from another by removals of the files of some of the entries, each once.
pub record Removes (es : List RecordingEntry) (m m' : Manager) : Type 0 where
  pub paths : List String
  pub same_active : m'.active ≡ m.active
  pub added : m'.calls ≡ map remove_file paths ++ m.calls
  pub few : length paths ≤ length es
  pub theirs : All (λ p. In p (paths_of es)) paths

and_remove-Removes :
    (e : RecordingEntry) (r : Index × Result (Unit {0})) (m : Manager)
    → Removes (e ∷ []) m (and_remove e r m)
and_remove-Removes e (idx, ok d) m = record {
  paths = e.file_path ∷ [];
  same_active = refl;
  added = refl;
  few = omega arith;
  theirs = (inl refl, tt);
}
and_remove-Removes e (idx, err x) m = record {
  paths = [];
  same_active = refl;
  added = refl;
  few = omega arith;
  theirs = tt;
}

Removes-refl : (m : Manager) → Removes [] m m
Removes-refl m = record {
  paths = [];
  same_active = refl;
  added = refl;
  few = omega arith;
  theirs = tt;
}

Removes-trans :
    (es fs : List RecordingEntry) (m m' m'' : Manager)
    → Removes es m m'
    → Removes fs m' m''
    → Removes (es ++ fs) m m''
Removes-trans es fs m m' m'' r t = record {
  paths = t.paths ++ r.paths;
  same_active = t.same_active ∙ r.same_active;
  added =
      t.added
      ∙ ap (λ l. map remove_file t.paths ++ l) r.added
      ∙ sym (append_assoc (map remove_file t.paths) (map remove_file r.paths) m.calls)
      ∙ ap (λ l. l ++ m.calls) (sym (map-append remove_file t.paths r.paths));
  few = rw (length-append t.paths r.paths, length-append es fs) (omega (arith, r.few, t.few));
  theirs = rw (map-append (λ (e : RecordingEntry). e.file_path) es fs) (
      All-append _ t.paths r.paths
        (All-map_of _ _ (λ p i. In-append_right p (paths_of es) (paths_of fs) i) t.paths t.theirs)
        (All-map_of _ _ (λ p i. In-append_left p (paths_of es) (paths_of fs) i) r.paths r.theirs));
}

delete_segments-Removes :
    (w : World) (es : List RecordingEntry) (m : Manager) → Removes es m (delete_segments w es m)
unfolding delete_segments delete_segment
delete_segments-Removes w [] m = Removes-refl m
delete_segments-Removes w (e ∷ es) m =
    Removes-trans (e ∷ []) es m _ _ (and_remove-Removes e (delete w.db e.id m.index) m)
      (delete_segments-Removes w es (delete_segment w e m))

stamp-Removes :
    (now : Time) (es fs : List RecordingEntry) (m m' : Manager)
    → Removes es m m'
    → Removes es m (stamp_retention now fs m')
stamp-Removes now es [] m m' r = r
stamp-Removes now es (f ∷ fs) m m' r = record {
  paths = r.paths;
  same_active = r.same_active;
  added = r.added;
  few = r.few;
  theirs = r.theirs;
}

-- A pass removes the files of entries of its batch.
pub enforce_on-Removes :
    (w : World) (s : Schedule) (now : Time) (idx : Index) (es : List RecordingEntry) (m : Manager)
    → Removes (to_delete w s now es m) m (enforce_on w s now (idx, ok es) m)
enforce_on-Removes w s now idx es m =
    let batch = to_delete w s now es m in
    let r = delete_segments-Removes w batch (record m { index = idx }) in
    stamp-Removes now batch batch m _ (record {
      paths = r.paths;
      same_active = r.same_active;
      added = r.added;
      few = r.few;
      theirs = r.theirs;
    })

-- One state comes from another by the removal of files.
pub record OnlyRemoves (m m' : Manager) : Type 0 where
  pub removed : List String
  pub same_active : m'.active ≡ m.active
  pub added : m'.calls ≡ map remove_file removed ++ m.calls

pub OnlyRemoves-refl : (m : Manager) → OnlyRemoves m m
OnlyRemoves-refl m = record { removed = []; same_active = refl; added = refl }

pub OnlyRemoves-trans :
    (m m' m'' : Manager) → OnlyRemoves m m' → OnlyRemoves m' m'' → OnlyRemoves m m''
OnlyRemoves-trans m m' m'' r t = record {
  removed = t.removed ++ r.removed;
  same_active = t.same_active ∙ r.same_active;
  added =
      t.added
      ∙ ap (λ l. map remove_file t.removed ++ l) r.added
      ∙ sym (append_assoc (map remove_file t.removed) (map remove_file r.removed) m.calls)
      ∙ ap (λ l. l ++ m.calls) (sym (map-append remove_file t.removed r.removed));
}

enforce_on-OnlyRemoves :
    (w : World) (s : Schedule) (now : Time) (r : Index × Result (List RecordingEntry)) (m : Manager)
    → OnlyRemoves m (enforce_on w s now r m)
enforce_on-OnlyRemoves w s now (idx, err x) m = record {
  removed = [];
  same_active = refl;
  added = refl;
}
enforce_on-OnlyRemoves w s now (idx, ok es) m =
    let r = enforce_on-Removes w s now idx es m in
    record { removed = r.paths; same_active = r.same_active; added = r.added }

pub enforce-OnlyRemoves :
    (w : World) (s : Schedule) (now : Time) (m : Manager)
    → OnlyRemoves m (enforce_retention w s now m)
unfolding enforce_retention
enforce-OnlyRemoves w s now m =
    enforce_on-OnlyRemoves w s now (query_by_channel w.db s.channel_id zero_time zero_time m.index)
      m

pub OnlyRemoves-if :
    (b : Bool) (m x y : Manager)
    → OnlyRemoves m x
    → OnlyRemoves m y
    → OnlyRemoves m (if b then x else y)
OnlyRemoves-if true m x y p q = p
OnlyRemoves-if false m x y p q = q

check_at-OnlyRemoves :
    (w : World) (s : Schedule) (now : Time) (o : Option ℤ) (m : Manager)
    → OnlyRemoves m (check_at w s now o m)
check_at-OnlyRemoves w s now none m = OnlyRemoves-refl m
check_at-OnlyRemoves w s now (some avail) m =
    let once = enforce_retention w s now m in
    let twice =
      OnlyRemoves-trans m once _ (enforce-OnlyRemoves w s now m)
        (enforce-OnlyRemoves w s now once) in
    let at_low =
      OnlyRemoves-if (gt_zero s.low_free_gb && ltb_ℤ avail (to_bytes s.low_free_gb)) m _ m twice
        (OnlyRemoves-refl m) in
    OnlyRemoves-if (gt_zero s.min_free_gb && ltb_ℤ avail (to_bytes s.min_free_gb)) m _ _
      (OnlyRemoves-trans m _ _ at_low (enforce-OnlyRemoves w s now _)) at_low

pub check_disk_space-OnlyRemoves :
    (w : World) (s : Schedule) (now : Time) (m : Manager)
    → OnlyRemoves m (check_disk_space w s now m)
unfolding check_disk_space
check_disk_space-OnlyRemoves w s now m =
    check_at-OnlyRemoves w s now (w.disk_free m.calls s.storage_path) m

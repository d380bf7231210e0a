-- ===== src/Recorder/Manager/Retain/Batch.antt =====
-- pkg/recorder/recorder.go: what one retention pass deletes.
use vrtc.Base.{
  ℕ, zero, suc, ◌+◌, ◌≤◌, ◌≡◌, length-append, if◌then◌else◌, refl, ap, sym, ◌∙◌, subst, Bool, true,
  false, not, Bool-cases, List, [], ◌∷◌, ◌++◌, map, String, str_eq, ltb, arith, length, take,
  length-take-le, length-map, select, In, All, All-map_of, inl, inr,
}
use vrtc.Clock.{Time, zero_time}
use vrtc.Recorder.Entry.{RecordingEntry}
use vrtc.Recorder.Retention.{evaluate_retention}
use vrtc.Recorder.Index.{ok, contains, query_by_channel, delete}
use vrtc.Recorder.Index.Lifecycle.{OnlyIn, query-delete}
use vrtc.Recorder.Manager.{Schedule, remove_file, Manager, World}
use vrtc.Recorder.Manager.Retain.{
  and_remove, delete_segment, policy_of, disk_free_of, is_disk_critical, batch_limit, batch_of,
  enforce_on, enforce_retention,
}
use vrtc.Recorder.Manager.Retain.Removal.{paths_of, enforce_on-Removes}

-- The entries that a pass over the index evaluates to deletion.
abbrev pub due_of : World → Schedule → Time → List RecordingEntry → Manager → List RecordingEntry
due_of w s now es m = evaluate_retention es (policy_of s (disk_free_of w s m)) now

In-take : {A : Type 0} → (n : ℕ) (a : A) (xs : List A) → In a (take n xs) → In a xs
In-take zero a xs i = absurd i
In-take (suc n) a [] i = absurd i
In-take (suc n) a (x ∷ xs) (inl e) = inl e
In-take (suc n) a (x ∷ xs) (inr i) = inr (In-take n a xs i)

map-take :
    {A B : Type 0} → (f : A → B) (n : ℕ) (xs : List A) → map f (take n xs) ≡ take n (map f xs)
map-take f zero xs = refl
map-take f (suc n) [] = refl
map-take f (suc n) (x ∷ xs) = ap (λ l. f x ∷ l) (map-take f n xs)

In-paths-batch_of :
    (critical : Bool) (es : List RecordingEntry) (p : String)
    → In p (paths_of (batch_of critical es))
    → In p (paths_of es)
unfolding batch_of
In-paths-batch_of true es p i = i
In-paths-batch_of false es p i = elim (Bool-cases (ltb batch_limit (length es))) [
  | inl e ↦ In-take batch_limit p (paths_of es) (
      subst (In p) (map-take (λ (x : RecordingEntry). x.file_path) batch_limit es)
        (subst (λ (b : Bool). In p (paths_of (if b then take batch_limit es else es))) e i))
  | inr e ↦ subst (λ (b : Bool). In p (paths_of (if b then take batch_limit es else es))) e i
]

length-batch_of : (es : List RecordingEntry) → length (batch_of false es) ≤ batch_limit
unfolding batch_of
length-batch_of es = elim (Bool-cases (ltb batch_limit (length es))) [
  | inl e ↦ rw e (length-take-le batch_limit es)
  | inr e ↦ rw e (ground (arith, e))
]

enforce-eq :
    (w : World) (s : Schedule) (now : Time) (es : List RecordingEntry) (m : Manager)
    → (query_by_channel w.db s.channel_id zero_time zero_time m.index).1 ≡ ok es
    → enforce_retention w s now m
      ≡ enforce_on w s now
          ((query_by_channel w.db s.channel_id zero_time zero_time m.index).0, ok es)
          m
unfolding enforce_retention
enforce-eq w s now es m q =
    ap
      (λ r.
        enforce_on w s now ((query_by_channel w.db s.channel_id zero_time zero_time m.index).0, r)
          m)
      q

-- A retention pass whose query answers removes files of entries that the policy condemns, and of no
-- others. It leaves the active recordings alone and makes no other call.
pub enforce_retention-condemned :
    (w : World) (s : Schedule) (now : Time) (es : List RecordingEntry) (m : Manager)
    → (query_by_channel w.db s.channel_id zero_time zero_time m.index).1 ≡ ok es
    → (paths : List String) × ((enforce_retention w s now m).calls
        ≡ map remove_file paths ++ m.calls)
      × ((enforce_retention w s now m).active ≡ m.active)
      × All (λ p. In p (paths_of (due_of w s now es m))) paths
enforce_retention-condemned w s now es m q =
    let free = disk_free_of w s m in
    rw (enforce-eq w s now es m q) (
      let r =
        enforce_on-Removes w s now
          (query_by_channel w.db s.channel_id zero_time zero_time m.index).0 es m in
      (
        r.paths,
        r.added,
        r.same_active,
        All-map_of _ _
            (λ p i. In-paths-batch_of (is_disk_critical s free) (due_of w s now es m) p i) r.paths
            r.theirs,
      ))

-- Unless the disk is critically full, a retention pass removes at most ten files.
pub enforce_retention-bounded :
    (w : World) (s : Schedule) (now : Time) (es : List RecordingEntry) (m : Manager)
    → (query_by_channel w.db s.channel_id zero_time zero_time m.index).1 ≡ ok es
    → is_disk_critical s (disk_free_of w s m) ≡ false
    → length (enforce_retention w s now m).calls ≤ length m.calls + 10
enforce_retention-bounded w s now es m q c = rw (enforce-eq w s now es m q) (
    let r =
      enforce_on-Removes w s now (query_by_channel w.db s.channel_id zero_time zero_time m.index).0
        es m in
    rw (r.added, length-append (map remove_file r.paths) m.calls, length-map remove_file r.paths)
      (omega (
        arith,
        r.few,
        subst (λ b. length (batch_of b (due_of w s now es m)) ≤ batch_limit) (sym c)
            (length-batch_of (due_of w s now es m)),
      )))

-- Deleting a segment hides it and removes its file: with every database answering, its channel open
-- and its id in no other open database, the removal of the file is the last call, and a query
-- answers as before but without the entries of that id.
pub delete_segment-gone :
    (w : World) (e : RecordingEntry) (from to : Time) (m : Manager) (es : List RecordingEntry)
    → ((j : String) → w.db.answers j ≡ true)
    → contains e.channel_id m.index.dbs ≡ true
    → OnlyIn e.id e.channel_id m.index
    → (query_by_channel w.db e.channel_id from to m.index).1 ≡ ok es
    → ((delete_segment w e m).calls ≡ remove_file e.file_path ∷ m.calls)
      × ((query_by_channel w.db e.channel_id from to (delete_segment w e m).index).1
          ≡ ok (select (λ x. not (str_eq x.id e.id)) es))
unfolding delete_segment
delete_segment-gone w e from to m es a o i q =
    let (done, gone, others) =
      query-delete w.db w.db e.id e.channel_id from to m.index es a o i q in
    let split = ap (λ r. and_remove e ((delete w.db e.id m.index).0, r) m) done in
    (
      ap (λ x. x.calls) split,
      ap (λ x. (query_by_channel w.db e.channel_id from to x.index).1) split ∙ gone,
    )

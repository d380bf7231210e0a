-- ===== src/Recorder/Index/Handles.antt =====
-- Opening, using and evicting handles leaves the contents of the databases alone, and every open
-- database is tracked for eviction.
use vrtc.Base.Assoc
use vrtc.Base.Assoc.{get-put, get-remove}
use text.Mathlib.TextEquality.{eq_iff}
use vrtc.Base.{
  ◌≡◌, refl, ◌∙◌, inl, inr, Bool, true, false, none, some, List, [], ◌∷◌, String, str_eq, arith,
  Bool-cases, if◌then◌else◌, leb, length, ◌-◌,
}
use vrtc.Clock.{Time, before}
use vrtc.Recorder.Table.{ChannelDb}
use vrtc.Recorder.Index.{
  Index, Env, contains, without, db_of, write_db, touch, drop_handle, evict_from, evict_one,
  evict_idle, get_db, eviction_threshold, make_room, open_handle, max_idle_db_age,
}

pub db_of-write_db :
    (ch j : String) (db : ChannelDb) (idx : Index)
    → db_of j (write_db ch db idx) ≡ (if str_eq ch j then db else db_of j idx)
unfolding write_db
db_of-write_db ch j db idx = ground (arith, get-put ch j db idx.files)

db_of-drop_handle : (ch j : String) (idx : Index) → db_of j (drop_handle ch idx) ≡ db_of j idx
unfolding drop_handle
db_of-drop_handle ch j idx = refl

db_of-evict_one :
    (cutoff : Time) (ch : String) (t : Time) (j : String) (idx : Index)
    → db_of j (evict_one cutoff ch t idx) ≡ db_of j idx
unfolding evict_one
db_of-evict_one cutoff ch t j idx = elim (Bool-cases (before t cutoff)) [
  | inl e ↦ rw e (db_of-drop_handle ch j idx)
  | inr e ↦ rw e
]

db_of-evict_from :
    (cutoff : Time) (la : List (String × Time)) (j : String) (idx : Index)
    → db_of j (evict_from cutoff la idx) ≡ db_of j idx
unfolding evict_from
db_of-evict_from cutoff [] j idx = refl
db_of-evict_from cutoff ((ch, t) ∷ la) j idx =
    db_of-evict_from cutoff la j (evict_one cutoff ch t idx) ∙ db_of-evict_one cutoff ch t j idx

db_of-make_room : (env : Env) (j : String) (idx : Index) → db_of j (make_room env idx) ≡ db_of j idx
unfolding make_room evict_idle
db_of-make_room env j idx = elim (Bool-cases (leb eviction_threshold (length idx.dbs))) [
  | inl e ↦ rw e (db_of-evict_from (env.now - max_idle_db_age) idx.last_access j idx)
  | inr e ↦ rw e refl
]

db_of-open_handle :
    (env : Env) (ch j : String) (idx : Index) → db_of j (open_handle env ch idx) ≡ db_of j idx
unfolding open_handle touch write_db
db_of-open_handle env ch j idx = ground (arith, get-put ch j (db_of ch idx) idx.files, eq_iff ch j)

-- Whatever is open, idle or evicted, a database has the rows that were written to it: `get_db`
-- changes the contents of none.
pub db_of-get_db :
    (env : Env) (ch j : String) (idx : Index) → db_of j (get_db env ch idx).0 ≡ db_of j idx
unfolding get_db
db_of-get_db env ch j idx = elim (Bool-cases (contains ch idx.dbs)) [
  | inl e ↦ rw e (unfold touch in refl)
  | inr e ↦ elim (Bool-cases (env.answers ch)) [
    | inl a ↦ rw (e, a) (db_of-open_handle env ch j (make_room env idx) ∙ db_of-make_room env j idx)
    | inr a ↦ rw (e, a) (db_of-make_room env j idx)
  ]
]

-- A channel whose database answers gets a handle.
pub get_db_ok :
    (env : Env) (ch : String) (idx : Index) → env.answers ch ≡ true → (get_db env ch idx).1 ≡ true
unfolding get_db
get_db_ok env ch idx a = ground arith

-- Every open database has a time of last use, so that it can become idle and be evicted.
abbrev pub is_tracked : String → Index → Bool
is_tracked ch idx = elim (Assoc.get ch idx.last_access) [ none ↦ false | some _ ↦ true ]

abbrev pub AllTracked : Index → Type 0
AllTracked idx = (ch : String) → contains ch idx.dbs ≡ true → is_tracked ch idx ≡ true

contains-without :
    (k j : String) (xs : List String)
    → contains k (without j xs) ≡ (if str_eq j k then false else contains k xs)
unfolding contains
contains-without k j [] = ground arith
contains-without k j (x ∷ xs) =
    ground (arith, contains-without k j xs, eq_iff x j, eq_iff x k, eq_iff j k)

touch-AllTracked :
    (now : Time) (ch : String) (idx : Index) → AllTracked idx → AllTracked (touch now ch idx)
unfolding touch
touch-AllTracked now ch idx h j o = ground (arith, h j, get-put ch j now idx.last_access)

drop_handle-AllTracked :
    (ch : String) (idx : Index) → AllTracked idx → AllTracked (drop_handle ch idx)
unfolding drop_handle
drop_handle-AllTracked ch idx h j o =
    ground (arith, h j, get-remove ch j idx.last_access, contains-without j ch idx.dbs, o)

evict_one-AllTracked :
    (cutoff : Time) (ch : String) (t : Time) (idx : Index)
    → AllTracked idx
    → AllTracked (evict_one cutoff ch t idx)
unfolding evict_one
evict_one-AllTracked cutoff ch t idx h = elim (Bool-cases (before t cutoff)) [
  | inl e ↦ rw e (drop_handle-AllTracked ch idx h)
  | inr e ↦ rw e h
]

evict_from-AllTracked :
    (cutoff : Time) (la : List (String × Time)) (idx : Index)
    → AllTracked idx
    → AllTracked (evict_from cutoff la idx)
unfolding evict_from
evict_from-AllTracked cutoff [] idx h = h
evict_from-AllTracked cutoff ((ch, t) ∷ la) idx h =
    evict_from-AllTracked cutoff la (evict_one cutoff ch t idx)
      (evict_one-AllTracked cutoff ch t idx h)

make_room-AllTracked : (env : Env) (idx : Index) → AllTracked idx → AllTracked (make_room env idx)
unfolding make_room evict_idle
make_room-AllTracked env idx h = elim (Bool-cases (leb eviction_threshold (length idx.dbs))) [
  | inl e ↦ rw e (evict_from-AllTracked (env.now - max_idle_db_age) idx.last_access idx h)
  | inr e ↦ rw e h
]

open_handle-AllTracked :
    (env : Env) (ch : String) (idx : Index) → AllTracked idx → AllTracked (open_handle env ch idx)
unfolding open_handle touch write_db contains
open_handle-AllTracked env ch idx h j o =
    ground (arith, h j, get-put ch j env.now idx.last_access, o)

-- Opening a database, with the evictions that go before it, keeps every open database tracked.
pub get_db-AllTracked :
    (env : Env) (ch : String) (idx : Index) → AllTracked idx → AllTracked (get_db env ch idx).0
unfolding get_db
get_db-AllTracked env ch idx h = elim (Bool-cases (contains ch idx.dbs)) [
  | inl e ↦ rw e (touch-AllTracked env.now ch idx h)
  | inr e ↦ elim (Bool-cases (env.answers ch)) [
    | inl a ↦
        rw (e, a)
          (open_handle-AllTracked env ch (make_room env idx) (make_room-AllTracked env idx h))
    | inr a ↦ rw (e, a) (make_room-AllTracked env idx h)
  ]
]

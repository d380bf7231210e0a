-- ===== src/Recorder/Table/Seek.antt =====
-- The key frame index: the row that a seek lands on.
use vrtc.Base.{
  ◌≡◌, subst, inl, inr, Bool-cases, Bool, true, false, ◌&&◌, none, some, List, String, str_eq,
  arith, select, head-sort_by, head-sort_by-none, In, In-select, In-select_of, str_eq→eq,
  str_eq_refl,
}
use vrtc.Base.Int.{ℤ, leb_ℤ}
use vrtc.Recorder.Table.{SeekRow, seek_row}

leb_ℤ_total : (a b : ℤ) → leb_ℤ a b ≡ false → leb_ℤ b a ≡ true
leb_ℤ_total a b h = ground arith

leb_ℤ_trans : (a b c : ℤ) → leb_ℤ a b ≡ true → leb_ℤ b c ≡ true → leb_ℤ a c ≡ true
leb_ℤ_trans a b c h k = ground arith

module _ (id : String) (dts : ℤ) (rows : List SeekRow) where
  abbrev at_or_before : SeekRow → Bool
  at_or_before s = str_eq s.recording_id id && leb_ℤ s.dts_ms dts

  -- A seek lands on a key frame of the recording at or before the position asked for, and no other
  -- such key frame is later.
  pub seek_row-some :
      (s : SeekRow)
      → seek_row id dts rows ≡ some s
      → In s rows
        × (s.recording_id ≡ id)
        × (leb_ℤ s.dts_ms dts ≡ true)
        × ((x : SeekRow)
            → In x rows
            → x.recording_id ≡ id
            → leb_ℤ x.dts_ms dts ≡ true
            → leb_ℤ x.dts_ms s.dts_ms ≡ true)
  unfolding seek_row
  seek_row-some s h =
      let latest =
        head-sort_by (λ a b. leb_ℤ b.dts_ms a.dts_ms) (λ a b. leb_ℤ_total b.dts_ms a.dts_ms)
          (λ a b c p q. leb_ℤ_trans c.dts_ms b.dts_ms a.dts_ms q p) s (select at_or_before rows)
          h in
      let (i, t) = In-select at_or_before s rows latest.0 in
      (
        i,
        str_eq→eq _ _ (ground arith),
        ground arith,
        λ x ix e l.
            latest.1 x (In-select_of at_or_before x rows ix (ground (arith, e, l, str_eq_refl id))),
      )

  -- A seek fails only where the recording has no key frame at or before the position.
  pub seek_row-none :
      seek_row id dts rows ≡ none
      → (x : SeekRow) → In x rows
      → x.recording_id ≡ id
      → leb_ℤ x.dts_ms dts ≡ false
  unfolding seek_row
  seek_row-none h x ix e = elim (Bool-cases (leb_ℤ x.dts_ms dts)) [
    | inr late ↦ late
    | inl t ↦
        let empty =
          head-sort_by-none (λ a b. leb_ℤ b.dts_ms a.dts_ms) (λ a b. leb_ℤ_total b.dts_ms a.dts_ms)
            (λ a b c p q. leb_ℤ_trans c.dts_ms b.dts_ms a.dts_ms q p) (select at_or_before rows)
            h in
        absurd (
          subst (In x) empty
            (In-select_of at_or_before x rows ix (ground (arith, e, t, str_eq_refl id))))
  ]

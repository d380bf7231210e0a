-- ===== src/Grabber/Payload/Split.antt =====
-- internal/avgrabber/convert.go: `splitAnnexB` undoes the Annex B encoding.
use vrtc.Base.{◌≡◌, ◌≢◌, List, [], ◌∷◌, ◌++◌}
use vrtc.Grabber.Payload.{Bytes, annex_b_start_code_len}

-- The Annex B encoding: a start code of four bytes before every unit.
abbrev pub join_units : List Bytes → Bytes
join_units [] = []
join_units (u ∷ us) = 0 ∷ 0 ∷ 0 ∷ 1 ∷ u ++ join_units us

-- No start code begins at a byte of a unit, with what comes after the unit.
abbrev pub HasNoCode : Bytes → Bytes → Type 0
HasNoCode [] rest = Unit {0}
HasNoCode (b ∷ u) rest = (annex_b_start_code_len (b ∷ u ++ rest) ≡ 0) × HasNoCode u rest

-- Units that can be told apart in their encoding: none is empty, and none has a start code in it.
abbrev pub AreClean : List Bytes → Type 0
AreClean [] = Unit {0}
AreClean (u ∷ us) = (u ≢ []) × HasNoCode u (join_units us) × AreClean us

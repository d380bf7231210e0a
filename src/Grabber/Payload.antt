-- ===== src/Grabber/Payload.antt =====
-- internal/avgrabber/convert.go: video payloads from Annex B to AVCC.
--
-- A byte is a number below 256, and a payload a list of bytes. The positions of `splitAnnexB` are
-- the split of the payload in what the current unit has so far and what is left to read.
pub mod Units
pub mod Split
use vrtc.Base.{
  ℕ, zero, suc, ◌+◌, ◌-◌, ◌*◌, ◌/◌, ◌%◌, ◌^◌, Bool, true, false, not, ◌&&◌, ◌||◌, ◌==◌, List, [],
  ◌∷◌, ◌++◌, if◌then◌else◌, length, select,
}

abbrev pub Bytes : Type 0
Bytes = List ℕ

-- Whether a suffix of the payload begins with 00 00 00 01, and whether with 00 00 01.
abbrev pub is_long_code : Bytes → Bool
is_long_code (a ∷ b ∷ c ∷ d ∷ rest) = a == 0 && b == 0 && c == 0 && d == 1
is_long_code (a ∷ b ∷ c ∷ []) = false
is_long_code (a ∷ b ∷ []) = false
is_long_code (a ∷ []) = false
is_long_code [] = false

abbrev pub is_short_code : Bytes → Bool
is_short_code (a ∷ b ∷ c ∷ rest) = a == 0 && b == 0 && c == 1
is_short_code (a ∷ b ∷ []) = false
is_short_code (a ∷ []) = false
is_short_code [] = false

unfoldable pub annex_b_start_code_len : Bytes → ℕ
annex_b_start_code_len bytes =
    if is_long_code bytes then 4 else if is_short_code bytes then 3 else 0

-- A unit is kept unless it is empty.
abbrev pub append_unit : Bytes → List Bytes → List Bytes
append_unit [] units = units
append_unit (b ∷ bs) units = (b ∷ bs) ∷ units

-- `skip` bytes of a start code are still to be passed; `unit` is data[start:i].
unfoldable pub split_from : ℕ → Bytes → Bytes → List Bytes
split_from skip unit [] = append_unit unit []
split_from (suc skip) unit (b ∷ rest) = split_from skip unit rest
split_from zero unit (b ∷ rest) =
    let len = annex_b_start_code_len (b ∷ rest) in
    let longer = split_from 0 (unit ++ b ∷ []) rest in
    let next = split_from (len - 1) [] rest in if len == 0 then longer else append_unit unit next

unfoldable pub split_annex_b : Bytes → List Bytes
split_annex_b bytes = split_from 0 [] bytes

abbrev pub codec_h264 : ℕ
codec_h264 = 2

abbrev pub codec_h265 : ℕ
codec_h265 = 8

abbrev pub is_param_set_nalu : Bytes → ℕ → Bool
is_param_set_nalu [] c = false
is_param_set_nalu (b ∷ bs) c =
    if c == codec_h264
    then b % 32 == 7 || b % 32 == 8
    else if c == codec_h265
    then b % 128 / 2 == 32 || b % 128 / 2 == 33 || b % 128 / 2 == 34
    else false

-- `binary.BigEndian.PutUint32` of `uint32(n)`.
unfoldable pub put_uint32 : ℕ → Bytes
put_uint32 n = n / 2 ^ 24 % 256 ∷ n / 2 ^ 16 % 256 ∷ n / 2 ^ 8 % 256 ∷ n % 256 ∷ []

abbrev pub is_left_out : ℕ → Bytes → Bool
is_left_out c [] = true
is_left_out c (b ∷ bs) = is_param_set_nalu (b ∷ bs) c

unfoldable pub prefix_units : ℕ → List Bytes → Bytes
prefix_units c [] = []
prefix_units c (u ∷ us) =
    let rest = prefix_units c us in
    if is_left_out c u then rest else put_uint32 (length u) ++ u ++ rest

abbrev pub avcc_of : ℕ → Bytes → List Bytes → Bytes
avcc_of c bytes [] = put_uint32 (length bytes) ++ bytes
avcc_of c bytes (u ∷ us) = prefix_units c (u ∷ us)

unfoldable pub video_payload_to_avcc : Bytes → ℕ → Bytes
video_payload_to_avcc bytes c = avcc_of c bytes (split_annex_b bytes)

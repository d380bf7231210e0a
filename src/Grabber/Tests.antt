-- ===== src/Grabber/Tests.antt =====
-- The payload conversion at concrete inputs: a parameter set and a slice of H.264.
use vrtc.Base.{[], ◌∷◌}
use vrtc.Grabber.Payload.{Bytes}
use vrtc.Grabber.Payload.Split.{join_units}

abbrev sps : Bytes
sps = 103 ∷ 66 ∷ []

abbrev slice : Bytes
slice = 101 ∷ 136 ∷ 0 ∷ 1 ∷ []

abbrev payload : Bytes
payload = join_units (sps ∷ slice ∷ [])

-- ===== src/Channels/Tests.antt =====
-- The channel file at concrete inputs.
use vrtc.Base.{◌≡◌, refl, true, [], ◌∷◌}
use vrtc.Base.Int.{pos}
use vrtc.Channels.{
  Channel, ok, File, holds, absent, Env, load, save, save_channel, has_channel, delete_channel,
}

abbrev door : Channel
door = record {
  id = "cam-1";
  name = "Front Door";
  stream_url = "rtsp://10.0.0.1/main";
  username = "admin";
  password = "";
  site_id = pos 1;
  extra = [];
}

abbrev yard : Channel
yard = record {
  id = "cam-2";
  name = "Back Yard";
  stream_url = "rtsp://10.0.0.2/main";
  username = "admin";
  password = "";
  site_id = pos 1;
  extra = [];
}

abbrev gate : Channel
gate = record door { name = "Gate" }

abbrev fine : Env
fine = record { can_write = true; left_behind = absent }

abbrev file : File
file = holds (door ∷ yard ∷ [])

saved : (save_channel fine gate file).1 ≡ ok tt
unfolding save_channel load save
saved = refl

deleted : (delete_channel fine "cam-1" file).1 ≡ ok tt
unfolding delete_channel load save has_channel
deleted = refl

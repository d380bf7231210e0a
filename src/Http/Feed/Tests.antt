-- ===== src/Http/Feed/Tests.antt =====
-- The analytics socket at a concrete input.
use vrtc.Base.{ℕ, ◌==◌, ◌≡◌, refl, true, not, none, some, [], ◌∷◌, str_eq, if◌then◌else◌}
use vrtc.Http.Feed.{World, sent, ws_analytics, texts_while, encoded, replay, ws_analytics-sent}

-- Frames are numbers here; of the third the text is not taken.
abbrev feed_world : World ℕ
feed_world = record {
  has_hub = true;
  accepts = true;
  marshal = λ n. if n == 2 then none else if n == 5 then some "five" else some "other";
  takes = λ text. not (str_eq text "five");
}

ws_analytics-sent_example :
    (sent (ws_analytics feed_world "cam-1" (1 ∷ 2 ∷ 3 ∷ 5 ∷ 7 ∷ []))
      ≡ texts_while feed_world.takes (encoded feed_world (1 ∷ 2 ∷ 3 ∷ 5 ∷ 7 ∷ [])))
    × (replay (ws_analytics feed_world "cam-1" (1 ∷ 2 ∷ 3 ∷ 5 ∷ 7 ∷ [])) 0 0 ≡ some (0, 0))
ws_analytics-sent_example =
    ws_analytics-sent feed_world "cam-1" (1 ∷ 2 ∷ 3 ∷ 5 ∷ 7 ∷ []) refl refl refl

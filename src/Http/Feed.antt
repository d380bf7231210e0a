-- ===== src/Http/Feed.antt =====
-- pkg/edgeview/ws_analytics.go: the socket that sends the analytics of a camera.
--
-- A request is what it does, in order. What `select` takes is given as the analytics that arrive, up to
-- its end: the hub closes the channel, or the context of the request is done.
mod Tests
use vrtc.Base.{
  ℕ, ◌+◌, ◌-◌, ◌==◌, ◌≡◌, refl, ap, Bool, true, false, Option, none, some, List, [], ◌∷◌, ◌++◌,
  String, str_eq, arith, if-both, if◌then◌else◌,
}
use vrtc.Http.Range.{Cause, missing_camera}

pub data Step : Type 0 where
  plain_error : ℕ → Step
  problem : ℕ → Cause → Step
  subscribe unsubscribe : String → Step
  accept close_now : Step
  write : String → Step

-- The hub is configured or not; the upgrade succeeds or not; `json.Marshal` and the connection may
-- fail.
pub record World (A : Type 0) : Type 0 where
  pub has_hub : Bool
  pub accepts : Bool
  pub marshal : A → Option String
  pub takes : String → Bool

abbrev pub with_text : Option String → List String → List String
with_text none texts = texts
with_text (some text) texts = text ∷ texts

module _ {A : Type 0} (w : World A) where
  -- The loop. A frame that cannot be encoded is skipped; a failed write ends it.
  abbrev pub send_or_end : List Step → Option String → List Step
  send_or_end rest none = rest
  send_or_end rest (some text) = if w.takes text then write text ∷ rest else []

  unfoldable pub feed : List A → List Step
  feed [] = []
  feed (fa ∷ fas) = send_or_end (feed fas) (w.marshal fa)

  abbrev pub subscribed : String → List A → List Step
  subscribed id fas = accept ∷ subscribe id ∷ feed fas ++ unsubscribe id ∷ close_now ∷ []

  unfoldable pub ws_analytics : String → List A → List Step
  ws_analytics id fas =
      if w.has_hub
      then if str_eq id ""
        then problem 400 missing_camera ∷ []
        else if w.accepts
        then subscribed id fas
        else []
      else plain_error 503 ∷ []

  -- The texts of the frames that can be encoded.
  abbrev pub encoded : List A → List String
  encoded [] = []
  encoded (fa ∷ fas) = with_text (w.marshal fa) (encoded fas)

-- The texts that a request has sent.
abbrev pub sent : List Step → List String
sent [] = []
sent (plain_error n ∷ steps) = sent steps
sent (problem n c ∷ steps) = sent steps
sent (subscribe id ∷ steps) = sent steps
sent (unsubscribe id ∷ steps) = sent steps
sent (accept ∷ steps) = sent steps
sent (close_now ∷ steps) = sent steps
sent (write text ∷ steps) = text ∷ sent steps

-- The subscriptions and connections that are held after some steps, or none where a step gives back
-- what is not held.
abbrev pub replay : List Step → ℕ → ℕ → Option (ℕ × ℕ)
replay [] subs conns = some (subs, conns)
replay (plain_error n ∷ steps) subs conns = replay steps subs conns
replay (problem n c ∷ steps) subs conns = replay steps subs conns
replay (subscribe id ∷ steps) subs conns = replay steps (subs + 1) conns
replay (unsubscribe id ∷ steps) subs conns =
    if subs == 0 then none else replay steps (subs - 1) conns
replay (accept ∷ steps) subs conns = replay steps subs (conns + 1)
replay (close_now ∷ steps) subs conns = if conns == 0 then none else replay steps subs (conns - 1)
replay (write text ∷ steps) subs conns = if conns == 0 then none else replay steps subs conns

-- The texts before the first that does not pass.
abbrev pub texts_while : (String → Bool) → List String → List String
texts_while takes [] = []
texts_while takes (text ∷ texts) = if takes text then text ∷ texts_while takes texts else []

module _ {A : Type 0} (w : World A) where
  -- How the connection ends.
  abbrev ending : String → List Step
  ending id = unsubscribe id ∷ close_now ∷ []

  sent-if :
      (id text : String) (b : Bool) (rest : List Step) (texts : List String)
      → sent (rest ++ ending id) ≡ texts
      → sent ((if b then write text ∷ rest else []) ++ ending id) ≡ (if b then text ∷ texts else [])
  sent-if id text true rest texts h = ap (λ ts. text ∷ ts) h
  sent-if id text false rest texts h = refl

  sent-send_or_end :
      (id : String) (o : Option String) (rest : List Step) (texts : List String)
      → sent (rest ++ ending id) ≡ texts_while w.takes texts
      → sent (send_or_end w rest o ++ ending id) ≡ texts_while w.takes (with_text o texts)
  sent-send_or_end id none rest texts h = h
  sent-send_or_end id (some text) rest texts h = sent-if id text (w.takes text) rest _ h

  sent-feed :
      (id : String) (fas : List A)
      → sent (feed w fas ++ ending id) ≡ texts_while w.takes (encoded w fas)
  unfolding feed
  sent-feed id [] = refl
  sent-feed id (fa ∷ fas) =
      sent-send_or_end id (w.marshal fa) (feed w fas) (encoded w fas) (sent-feed id fas)

  abbrev IsClean : String → List Step → Type 0
  IsClean id steps = replay (steps ++ ending id) 1 1 ≡ some (0, 0)

  replay-send_or_end :
      (id : String) (o : Option String) (rest : List Step)
      → IsClean id rest
      → IsClean id (send_or_end w rest o)
  replay-send_or_end id none rest h = h
  replay-send_or_end id (some text) rest h = if-both (IsClean id) (w.takes text) h refl

  replay-feed : (id : String) (fas : List A) → IsClean id (feed w fas)
  unfolding feed
  replay-feed id [] = refl
  replay-feed id (fa ∷ fas) = replay-send_or_end id (w.marshal fa) (feed w fas) (replay-feed id fas)

-- A request that is accepted sends the frames that can be encoded, each once and in the order in which
-- they arrive, up to the first that the connection does not take; at its end it has given back the
-- subscription and the connection, and it has written to an open connection only.
pub ws_analytics-sent :
    {A : Type 0} (w : World A) (id : String) (fas : List A)
    → w.has_hub ≡ true
    → str_eq id "" ≡ false
    → w.accepts ≡ true
    → (sent (ws_analytics w id fas) ≡ texts_while w.takes (encoded w fas))
      × (replay (ws_analytics w id fas) 0 0 ≡ some (0, 0))
unfolding ws_analytics feed
ws_analytics-sent w id fas hub named accepted =
    rw (hub, named, accepted) (sent-feed w id fas, replay-feed w id fas)

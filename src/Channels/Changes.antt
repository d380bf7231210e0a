-- ===== src/Channels/Changes.antt =====
-- pkg/channel/file.go: what a lookup finds after a save and a deletion.
use text.Mathlib.TextEquality.{eq_iff}
use vrtc.Base.{
  ◌≡◌, refl, ap, sym, ◌∙◌, subst, inl, inr, Bool, false, Bool-cases, List, [], ◌∷◌, String,
  String-cases, str_eq, str_eq→eq, arith, All, if◌then◌else◌,
}
use vrtc.Channels.{
  Channel, Result, ok, err, File, absent, unreadable, malformed, holds, Env, load, save, find,
  get_in, get_channel, replace, save_channel, has_channel, without_first, delete_on, delete_channel,
  channel_not_found, wrapped,
}

find-replace :
    (ch : Channel) (id : String) (chs : List Channel)
    → find id (replace ch chs) ≡ (if str_eq ch.id id then ok ch else find id chs)
unfolding find replace
find-replace ch id [] = refl
find-replace ch id (c ∷ chs) =
    ground (arith, eq_iff c.id ch.id, eq_iff c.id id, eq_iff ch.id id, find-replace ch id chs)

-- The channel a lookup would find after a save.
abbrev pub saved_or : Channel → String → Result Channel → Result Channel
saved_or ch id before = if str_eq ch.id id then ok ch else before

save-ok : (env : Env) (chs : List Channel) → (save env chs).1 ≡ ok tt → (save env chs).0 ≡ holds chs
unfolding save
save-ok env chs h = ground (arith, h)

-- A save that reports no error found a file that can be read, and a lookup after it finds the saved
-- channel under its id, and what it found before under every other id.
pub save_channel-get :
    (env : Env) (ch : Channel) (id : String) (file : File)
    → (save_channel env ch file).1 ≡ ok tt
    → ((chs : List Channel) × (file ≡ holds chs))
      × (get_channel id (save_channel env ch file).0 ≡ saved_or ch id (get_channel id file))
unfolding save_channel get_channel load
save_channel-get env ch id absent h = cc
save_channel-get env ch id unreadable h = cc
save_channel-get env ch id malformed h = cc
save_channel-get env ch id (holds chs) h =
    ((chs, refl), ap (get_channel id) (save-ok env (replace ch chs) h) ∙ find-replace ch id chs)

-- No two channels have one id.
abbrev pub AreDistinct : List Channel → Type 0
AreDistinct [] = Unit {0}
AreDistinct (c ∷ chs) = All (λ (d : Channel). str_eq d.id c.id ≡ false) chs × AreDistinct chs

find_absent :
    (id : String) (chs : List Channel)
    → All (λ (d : Channel). str_eq d.id id ≡ false) chs
    → find id chs ≡ err (wrapped channel_not_found)
unfolding find
find_absent id [] h = refl
find_absent id (c ∷ chs) h = rw h.0 (find_absent id chs h.1)

find-without_first :
    (id j : String) (chs : List Channel)
    → AreDistinct chs
    → find j (without_first id chs)
      ≡ (if str_eq id j then err (wrapped channel_not_found) else find j chs)
unfolding find without_first
find-without_first id j [] d = ground arith
find-without_first id j (c ∷ chs) d = elim (String-cases id j) [
  | inl (t, q) ↦ elim (Bool-cases (str_eq c.id id)) [
    | inl e ↦
        rw (e, t)
          (find_absent j chs (
            subst (λ k. All (λ (d : Channel). str_eq d.id k ≡ false) chs) (str_eq→eq c.id id e ∙ q)
              d.0))
    | inr e ↦
        rw (e, t)
          (rw (subst (λ k. str_eq c.id k ≡ false) q e)
            (find-without_first id j chs d.1 ∙ rw t refl))
  ]
  | inr (t, q) ↦
      ground (arith, t, eq_iff c.id id, eq_iff c.id j, eq_iff id j, find-without_first id j chs d.1)
]

delete_on-get :
    (env : Env) (id j : String) (file : File) (chs : List Channel)
    → AreDistinct chs
    → (delete_on env id file (ok chs)).1 ≡ ok tt
    → get_channel j (delete_on env id file (ok chs)).0
      ≡ (if str_eq id j then err (wrapped channel_not_found) else find j chs)
unfolding get_channel
delete_on-get env id j file chs d h =
    let at : Bool → Type 0 = λ b.
      (if b then save env (without_first id chs) else (file, err (wrapped channel_not_found))).1
      ≡ ok tt in
    elim (Bool-cases (has_channel id chs)) [
      | inl t ↦ rw t (
          ap (λ f. get_in j (load f)) (save-ok env (without_first id chs) (subst at t h))
          ∙ unfold load in find-without_first id j chs d)
      | inr t ↦ let c = subst at t h in cc
    ]

-- A deletion that reports no error, from a file in which no two channels have one id, leaves no
-- channel of the id, and every other channel as it was.
pub delete_channel-get :
    (env : Env) (id j : String) (file : File) (chs : List Channel)
    → file ≡ holds chs
    → AreDistinct chs
    → (delete_channel env id file).1 ≡ ok tt
    → get_channel j (delete_channel env id file).0
      ≡ (if str_eq id j then err (wrapped channel_not_found) else get_channel j file)
unfolding delete_channel load get_channel
delete_channel-get env id j file chs e d h =
    let l : load file ≡ ok chs = ap load e in
    ap (λ r. get_channel j (delete_on env id file r).0) l
    ∙ delete_on-get env id j file chs d (sym (ap (λ r. (delete_on env id file r).1) l) ∙ h)
    ∙ ap (λ r. if str_eq id j then err (wrapped channel_not_found) else get_in j r) (sym l)

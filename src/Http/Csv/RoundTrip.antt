-- ===== src/Http/Csv/RoundTrip.antt =====
-- pkg/edgeview/http_cameras.go: a channel that is exported and imported again.
use vrtc.Base.Assoc
use vrtc.Base.{
  ℕ, ◌≡◌, refl, sym, ap, ◌∙◌, false, Option, some, List, [], String, str_eq, str_eq→eq, if-split,
}
use vrtc.Base.Int.{pos}
use vrtc.Channels.{Channel}
use vrtc.Http.Text.{trim_space, lower_is}
use vrtc.Http.Csv.{
  csv_header, text_or_empty, extra_of, channel_to_record, column_from, build_column_index,
  add_extra, record_to_channel,
}

abbrev text_at : String → List (String × String) → String
text_at key extra = text_or_empty (Assoc.get key extra)

text_at-add_extra :
    (key value : String) (extra : List (String × String))
    → text_at key extra ≡ ""
    → text_at key (add_extra key value extra) ≡ value
text_at-add_extra key value extra h =
    if-split (λ (m : List (String × String)). text_at key m ≡ value) (str_eq value "")
      (λ b. h ∙ sym (str_eq→eq value "" b))
      (λ b. ap text_or_empty (Assoc.get-put_self key value extra))

text_at-add_extra_ne :
    (key other value : String) (extra : List (String × String))
    → str_eq key other ≡ false
    → text_at other (add_extra key value extra) ≡ text_at other extra
text_at-add_extra_ne key other value extra n =
    if-split (λ (m : List (String × String)). text_at other m ≡ text_at other extra)
      (str_eq value "") (λ b. refl)
      (λ b. ap text_or_empty (Assoc.get-put key other value extra) ∙ rw n refl)

empty : (key : String) → text_at key [] ≡ ""
unfolding Assoc.get
empty key = refl

-- Of the four entries, each is found under its key, the empty one as no entry.
extras_at :
    (ip maker model sub : String)
    → let m =
        add_extra "rtsp_sub" sub (
          add_extra "model" model
            (add_extra "manufacturer" maker (add_extra "ip_address" ip []))) in
      (text_at "ip_address" m ≡ ip)
      × (text_at "manufacturer" m ≡ maker)
      × (text_at "model" m ≡ model)
      × (text_at "rtsp_sub" m ≡ sub)
extras_at ip maker model sub =
    let e1 = add_extra "ip_address" ip [] in
    let e2 = add_extra "manufacturer" maker e1 in
    let e3 = add_extra "model" model e2 in
    (
      text_at-add_extra_ne "rtsp_sub" "ip_address" sub e3 refl
          ∙ text_at-add_extra_ne "model" "ip_address" model e2 refl
          ∙ text_at-add_extra_ne "manufacturer" "ip_address" maker e1 refl
          ∙ text_at-add_extra "ip_address" ip [] (empty "ip_address"),
      text_at-add_extra_ne "rtsp_sub" "manufacturer" sub e3 refl
          ∙ text_at-add_extra_ne "model" "manufacturer" model e2 refl
          ∙ text_at-add_extra "manufacturer" maker e1
              (text_at-add_extra_ne "ip_address" "manufacturer" ip [] refl ∙ empty "manufacturer"),
      text_at-add_extra_ne "rtsp_sub" "model" sub e3 refl
          ∙ text_at-add_extra "model" model e2 (
              text_at-add_extra_ne "manufacturer" "model" maker e1 refl
              ∙ text_at-add_extra_ne "ip_address" "model" ip [] refl
              ∙ empty "model"),
      text_at-add_extra "rtsp_sub" sub e3 (
          text_at-add_extra_ne "model" "rtsp_sub" model e2 refl
          ∙ text_at-add_extra_ne "manufacturer" "rtsp_sub" maker e1 refl
          ∙ text_at-add_extra_ne "ip_address" "rtsp_sub" ip [] refl
          ∙ empty "rtsp_sub"),
    )

abbrev columns : String → Option ℕ
columns = build_column_index csv_header

abbrev again : Channel → Channel
again ch = record_to_channel (channel_to_record ch) columns

columns_found :
    (columns "id" ≡ some 0)
    × (columns "name" ≡ some 1)
    × (columns "ip_address" ≡ some 2)
    × (columns "manufacturer" ≡ some 3)
    × (columns "model" ≡ some 4)
    × (columns "username" ≡ some 5)
    × (columns "password" ≡ some 6)
    × (columns "rtsp_main" ≡ some 7)
    × (columns "rtsp_sub" ≡ some 8)
unfolding build_column_index csv_header column_from lower_is trim_space
columns_found = (refl, refl, refl, refl, refl, refl, refl, refl, refl)

-- A channel that is exported under the header and imported again has its texts without the blanks
-- around them: id, name, stream, user name and password, and of its extra entries the four that have
-- a column. Its site is 1, whatever it was.
pub record_to_channel-channel_to_record :
    (ch : Channel)
    → let ch' = record_to_channel (channel_to_record ch) (build_column_index csv_header) in
      (ch'.id ≡ trim_space ch.id)
      × (ch'.name ≡ trim_space ch.name)
      × (ch'.stream_url ≡ trim_space ch.stream_url)
      × (ch'.username ≡ trim_space ch.username)
      × (ch'.password ≡ trim_space ch.password)
      × (extra_of "ip_address" ch' ≡ trim_space (extra_of "ip_address" ch))
      × (extra_of "manufacturer" ch' ≡ trim_space (extra_of "manufacturer" ch))
      × (extra_of "model" ch' ≡ trim_space (extra_of "model" ch))
      × (extra_of "rtsp_sub" ch' ≡ trim_space (extra_of "rtsp_sub" ch))
      × (ch'.site_id ≡ pos 1)
unfolding record_to_channel channel_to_record
record_to_channel-channel_to_record ch =
    let (id, name, ip, maker, model, user, pass, main, sub) = columns_found in
    let at =
      extras_at (trim_space (extra_of "ip_address" ch)) (trim_space (extra_of "manufacturer" ch))
        (trim_space (extra_of "model" ch)) (trim_space (extra_of "rtsp_sub" ch)) in
    rw (id, name, ip, maker, model, user, pass, main, sub)
      (refl, refl, refl, refl, refl, at.0, at.1, at.2, at.3, refl)

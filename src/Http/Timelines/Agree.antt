-- ===== src/Http/Timelines/Agree.antt =====
-- pkg/edgeview/http_handler.go: the two endpoints for the recordings of a time range.
use mathlib.Core.List.{append-nil, append_assoc}
use vrtc.Base.{
  ◌++◌, ℕ, zero, suc, ◌≡◌, refl, sym, ap, ◌∙◌, Option, none, some, List, [], ◌∷◌, map, String, take,
  drop, length-map,
}
use vrtc.Base.Int.{ℤ, quot}
use vrtc.Clock.{Time, sub_time}
use vrtc.Recorder.Entry.{RecordingEntry}
use vrtc.Recorder.Index.{Env, Index}
use vrtc.Http.Page.{PaginatedInput, Page, page_of}
use vrtc.Http.Range.{
  Response, ok, problem, internal, Clock, Parsed, parsed, refused, parse_optional_time_range,
}
use vrtc.Http.Timelines.{
  TimelineSummary, TimelineEntry, TimelineInput, entry_of, State, record_query, timeline_on,
  fill_summaries, timeline_page, timeline_answer, timeline_in, huma_get_timeline, append_entries,
  recordings_page, recordings_answer, recordings_in, huma_recording_timeline,
}

map-take :
    {A B : Type 0} → (f : A → B) (n : ℕ) (xs : List A) → map f (take n xs) ≡ take n (map f xs)
map-take f zero xs = refl
map-take f (suc n) [] = refl
map-take f (suc n) (x ∷ xs) = ap (λ l. f x ∷ l) (map-take f n xs)

map-drop :
    {A B : Type 0} → (f : A → B) (n : ℕ) (xs : List A) → map f (drop n xs) ≡ drop n (map f xs)
map-drop f zero xs = refl
map-drop f (suc n) [] = refl
map-drop f (suc n) (x ∷ xs) = map-drop f n xs

abbrev pub map_page : {A B : Type 0} → (A → B) → Page A → Page B
map_page f p = record {
  items = map f p.items;
  total_count = p.total_count;
  limit = p.limit;
  offset = p.offset;
}

abbrev pub map_response : {A B : Type 0} → (A → B) → State × Response A → State × Response B
map_response f (st, ok a) = (st, ok (f a))
map_response f (st, problem n c) = (st, problem n c)

-- What a timebar is drawn from: start, end and length.
abbrev pub Span : Type 0
Span = Time × Time × ℤ

abbrev pub span_of_summary : TimelineSummary → Span
span_of_summary s = (s.start, s.end, s.duration_ms)

abbrev pub span_of_entry : TimelineEntry → Span
span_of_entry e = (e.start, e.end, e.duration_ms)

-- An independent account of the answer: the state and the page of spans, or the failure, that the
-- answer of the index to the query of the range comes to.
abbrev pub span_of : RecordingEntry → Span
span_of e = (e.start_time, e.end_time, quot (sub_time e.end_time e.start_time) 1_000_000)

abbrev pub spans_answer :
    TimelineInput
    → Option Index × Option (List RecordingEntry)
    → Option (List String)
    → State × Response (Page Span)
spans_answer input (idx, none) collector =
    (record { index = idx; collector = collector }, problem 500 internal)
spans_answer input (idx, some es) collector = (
  record { index = idx; collector = record_query input.camera_id collector },
  ok (page_of input.paginated (map span_of es)),
)

abbrev pub spans_in :
    Env → TimelineInput → Parsed (Time × Time) → State → State × Response (Page Span)
spans_in env input (refused c) st = (st, problem 400 c)
spans_in env input (parsed range) st =
    spans_answer input (timeline_on env input.camera_id range st.index) st.collector

append_entries-append :
    (es : List RecordingEntry) (result : List TimelineEntry)
    → append_entries es result ≡ result ++ map entry_of es
unfolding append_entries
append_entries-append [] result = sym (append-nil result)
append_entries-append (e ∷ es) result =
    append_entries-append es (result ++ entry_of e ∷ [])
    ∙ append_assoc result (entry_of e ∷ []) (map entry_of es)

fill_summaries-spans :
    (es : List RecordingEntry) → map span_of_summary (fill_summaries es) ≡ map span_of es
unfolding fill_summaries
fill_summaries-spans [] = refl
fill_summaries-spans (e ∷ es) = ap (λ l. span_of e ∷ l) (fill_summaries-spans es)

entries-spans :
    (es : List RecordingEntry) → map span_of_entry (append_entries es []) ≡ map span_of es
entries-spans es = ap (map span_of_entry) (append_entries-append es []) ∙ listed es
  where
    listed : (es : List RecordingEntry) → map span_of_entry (map entry_of es) ≡ map span_of es
    listed [] = refl
    listed (e ∷ es) = ap (λ l. span_of e ∷ l) (listed es)

-- Of one list a page is made as of its spans.
timeline_page-spans :
    (input : PaginatedInput) (xs : List TimelineSummary)
    → map_page span_of_summary (timeline_page input xs) ≡ page_of input (map span_of_summary xs)
unfolding page_of
timeline_page-spans input xs =
    rw (length-map span_of_summary xs, map-take span_of_summary _ _, map-drop span_of_summary _ _)
      refl

recordings_page-spans :
    (input : PaginatedInput) (xs : List TimelineEntry)
    → map_page span_of_entry (recordings_page input xs) ≡ page_of input (map span_of_entry xs)
unfolding page_of
recordings_page-spans input xs =
    rw (length-map span_of_entry xs, map-take span_of_entry _ _, map-drop span_of_entry _ _) refl

timeline_answer-spans :
    (input : TimelineInput) (x : Option Index × Option (List RecordingEntry))
    (collector : Option (List String))
    → map_response (map_page span_of_summary) (timeline_answer input x collector)
      ≡ spans_answer input x collector
timeline_answer-spans input (idx, none) collector = refl
timeline_answer-spans input (idx, some es) collector =
    let st : State = record { index = idx; collector = record_query input.camera_id collector } in
    ap (λ p. (st, ok p))
      (timeline_page-spans input.paginated (fill_summaries es)
        ∙ ap (page_of input.paginated) (fill_summaries-spans es))

recordings_answer-spans :
    (input : TimelineInput) (x : Option Index × Option (List RecordingEntry))
    (collector : Option (List String))
    → map_response (map_page span_of_entry) (recordings_answer input x collector)
      ≡ spans_answer input x collector
recordings_answer-spans input (idx, none) collector = refl
recordings_answer-spans input (idx, some es) collector =
    let st : State = record { index = idx; collector = record_query input.camera_id collector } in
    ap (λ p. (st, ok p))
      (recordings_page-spans input.paginated (append_entries es [])
        ∙ ap (page_of input.paginated) (entries-spans es))

timeline_in-spans :
    (env : Env) (input : TimelineInput) (range : Parsed (Time × Time)) (st : State)
    → map_response (map_page span_of_summary) (timeline_in env input range st)
      ≡ spans_in env input range st
timeline_in-spans env input (refused c) st = refl
timeline_in-spans env input (parsed r) st =
    timeline_answer-spans input (timeline_on env input.camera_id r st.index) st.collector

recordings_in-spans :
    (env : Env) (input : TimelineInput) (range : Parsed (Time × Time)) (st : State)
    → map_response (map_page span_of_entry) (recordings_in env input range st)
      ≡ spans_in env input range st
recordings_in-spans env input (refused c) st = refl
recordings_in-spans env input (parsed r) st =
    recordings_answer-spans input (timeline_on env input.camera_id r st.index) st.collector

-- The timeline and the recordings of a camera agree: for one request, on one state, both fail alike or
-- give pages with the same periods in the same order and the same counts, and leave the same state.
-- The periods are those of the recordings that the index answers with for the range, each with its
-- start, its end and the milliseconds between them.
pub huma_get_timeline-huma_recording_timeline :
    (env : Env) (clock : Clock) (input : TimelineInput) (st : State)
    → let range = parse_optional_time_range clock input.start input.end in
      (map_response (map_page span_of_summary) (huma_get_timeline env clock input st)
        ≡ map_response (map_page span_of_entry) (huma_recording_timeline env clock input st))
      × (map_response (map_page span_of_entry) (huma_recording_timeline env clock input st)
          ≡ spans_in env input range st)
unfolding huma_get_timeline huma_recording_timeline
huma_get_timeline-huma_recording_timeline env clock input st =
    let range = parse_optional_time_range clock input.start input.end in
    let recordings = recordings_in-spans env input range st in
    (timeline_in-spans env input range st ∙ sym recordings, recordings)

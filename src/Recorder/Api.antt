-- ===== src/Recorder/Api.antt =====
-- services/camera-recorder/internal/app/handler.go: the HTTP API of the recorder, with the local
-- store as its Store. A request is its path values and its query; a response is what is written.
-- time.Parse with the layout RFC3339 is a parameter, and so is encoding/json. usage.Run, the loop
-- of internal/usage/usage.go, is its rounds.
pub mod Answers
use instachron.Base.{
  ℕ, zero, suc, ◌+◌, ◌-◌, ◌*◌, ◌≡◌, refl, Bool, true, false, not, Option, none, some, List, [], ◌∷◌,
  Result, ok, err, ◌==◌, ltb, leb, if◌then◌else◌,
}
use instachron.Base.Int.{ℤ, pos, negsuc, pos_part, ltb_ℤ, ◌+ℤ◌, sub_ℕ}
use instachron.Text.{Text, codes, text_eq}
use instachron.Strconv.{NumError, atoi}
use instachron.StreamProto.{unix_epoch}
use instachron.Recorder.Metrics.{Metrics, set_storage_bytes}
use instachron.Recorder.Storage.{SegmentInfo, ListFilter}
use instachron.Recorder.Storage.Disk.{FsError, World, M}
use instachron.Recorder.Storage.Local.{Json, cameras, list, open_segment, usage_bytes}

-- What a handler writes. A video is sent with the file name and the end time of its segment.
pub data Response : Type 0 where
  service_status : Response
  no_content : Response
  metrics_text : Metrics → Response
  camera_lists : List Text → List Text → Response
  videos : List SegmentInfo → Response
  video : List ℕ → SegmentInfo → Response
  bad_request : Response
  not_found : Response
  internal_error : Response

unfoldable pub handle_root : Response
handle_root = service_status

unfoldable pub handle_health : Response
handle_health = no_content

-- A measurement that fails leaves the gauge as it is.
unfoldable pub measured : Result FsError ℕ → Metrics → Metrics
measured (ok n) m = set_storage_bytes n m
measured (err e) m = m

unfoldable pub handle_metrics : Metrics → World → (Response × Metrics) × World
unfolding measured
handle_metrics m w =
    let (r, w') = usage_bytes w in let m' = measured r m in ((metrics_text m', m'), w')

abbrev cameras_answer : List Text → Result FsError (List Text) → Response
cameras_answer active (ok ids) = camera_lists ids active
cameras_answer active (err e) = internal_error

unfoldable pub handle_cameras : List Text → World → Response × World
handle_cameras active w = let (r, w') = cameras w in (cameras_answer active r, w')

-- What is wrong with a query.
pub data QueryError : Type 0 where
  limit_not_number : QueryError
  limit_negative : QueryError
  time_unreadable : QueryError

-- time.Unix(n, 0); a time before year 1 is Go's zero Time here.
unix_time : ℤ → ℕ
unix_time (pos n) = unix_epoch + n * 1_000_000_000
unix_time (negsuc n) = unix_epoch - (n + 1) * 1_000_000_000

abbrev pub limit_value : Result NumError ℤ → Result QueryError ℕ
limit_value (err e) = err limit_not_number
limit_value (ok n) =
    if ltb_ℤ n (pos 0)
    then err limit_negative
    else if ltb_ℤ (pos 1000) n
    then ok 1000
    else ok (pos_part n)

unfoldable pub parse_limit : Text → Result QueryError ℕ
parse_limit v = if text_eq v [] then ok 100 else limit_value (atoi v)

-- The query is a function from a key to its value, empty when it is missing.
abbrev pub filter_of :
    Text
    → Result QueryError ℕ
    → Result QueryError ℕ
    → Result QueryError ℕ
    → Result QueryError ListFilter
filter_of id (err e) from to = err e
filter_of id (ok limit) (err e) to = err e
filter_of id (ok limit) (ok from) (err e) = err e
filter_of id (ok limit) (ok from) (ok to) =
    ok (record { camera_id = id; from = from; to = to; limit = limit })

module _ (rfc3339 : Text → Option ℕ) where
  abbrev unix_or_error : Result NumError ℤ → Result QueryError ℕ
  unix_or_error (ok n) = ok (unix_time n)
  unix_or_error (err e) = err time_unreadable

  unfoldable pub parse_time : Text → Result QueryError ℕ
  unfolding unix_time
  parse_time v =
      if text_eq v []
      then ok 0
      else elim (rfc3339 v) [ some t ↦ ok t | none ↦ unix_or_error (atoi v) ]

  unfoldable pub parse_list_filter : (Text → Text) → Result QueryError ListFilter
  parse_list_filter q =
      filter_of (q (codes "camera_id")) (parse_limit (q (codes "limit")))
        (parse_time (q (codes "from"))) (parse_time (q (codes "to")))

  module _ (json : Json) where
    abbrev pub videos_answer : Result FsError (List SegmentInfo) → Response
    videos_answer (ok files) = videos files
    videos_answer (err e) = internal_error

    abbrev pub list_answer : Result QueryError ListFilter → World → Response × World
    list_answer (err e) w = (bad_request, w)
    list_answer (ok filter) w = let (r, w') = list json filter w in (videos_answer r, w')

    unfoldable pub handle_videos : (Text → Text) → World → Response × World
    handle_videos q w = list_answer (parse_list_filter q) w

module _ (json : Json) where
  abbrev pub video_answer : Result FsError (List ℕ × SegmentInfo) → Response
  video_answer (ok (b, info)) = video b info
  video_answer (err e) = not_found

  unfoldable pub handle_video_file : Text → Text → World → Response × World
  handle_video_file id file_name w =
      let (r, w') = open_segment json id file_name w in (video_answer r, w')

-- One round of usage.Run: what it reports.
unfoldable pub report_usage : Metrics → World → Metrics × World
unfolding measured
report_usage m w = let (r, w') = usage_bytes w in (measured r m, w')

-- The rounds until the context is cancelled; the first comes at once.
unfoldable pub usage_rounds : ℕ → Metrics → World → Metrics × World
unfolding report_usage
usage_rounds zero m w = report_usage m w
usage_rounds (suc ticks) m w = let (m', w') = report_usage m w in usage_rounds ticks m' w'

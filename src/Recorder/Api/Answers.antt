-- ===== src/Recorder/Api/Answers.antt =====
-- What the HTTP API of the recorder answers: how many videos at most, and which file.
use instachron.Base.{
  ℕ, ◌≤◌, ◌<◌, ◌≡◌, refl, sym, ap, ◌∙◌, arith, true, false, Option, List, [], Result, ok, err,
  length, length-take, All, if◌then◌else◌, Bool-cases, inl, inr,
}
use instachron.Base.Int.{ℤ, pos, negsuc}
use instachron.Text.{Text, codes, text_eq, contains}
use instachron.Strconv.{NumError, atoi}
use instachron.Sorting.{sort}
use instachron.Recorder.Storage.{
  SegmentInfo, ListFilter, camera_dir, safe_name, is_plain, valid_file_name,
}
use instachron.Recorder.Storage.Disk.{
  FsError, invalid, Tree, World, M, and_then, return, fail, Outcome, fine, failed, next_outcome,
  later, content, read_file, ctx_err, answer, io,
}
use instachron.Recorder.Storage.Local.{
  Json, list, limited, newer, list_cameras, chosen_cameras, read_metadata, open_segment,
}
use instachron.Recorder.Storage.Names.{safe_name-Plain}
use instachron.Recorder.Storage.Reading.{read_metadata-Reads, ctx_err-Reads}
use instachron.Recorder.Api.{
  videos, video, QueryError, parse_limit, parse_time, limit_value, filter_of, parse_list_filter,
  handle_videos, handle_video_file, videos_answer, video_answer,
}

limit_value-le : (r : Result NumError ℤ) (n : ℕ) → limit_value r ≡ ok n → n ≤ 1000
limit_value-le (err e) n h = absurd (cc)
limit_value-le (ok (pos i)) n h = ground arith
limit_value-le (ok (negsuc i)) n h = ground arith

parse_limit-le : (v : Text) (n : ℕ) → parse_limit v ≡ ok n → n ≤ 1000
unfolding parse_limit
parse_limit-le v n h = elim (Bool-cases (text_eq v [])) [
  | inl none_given ↦
      let e : ◌≡◌ {A = Result QueryError ℕ} (ok 100) (ok n) = rw none_given at h in ground arith
  | inr given ↦ limit_value-le (atoi v) n (rw given at h)
]

filter_of-limit :
    (id : Text) (limit from to : Result QueryError ℕ) (f : ListFilter)
    → filter_of id limit from to ≡ ok f
    → limit ≡ ok f.limit
filter_of-limit id (err e) from to f h = absurd (cc)
filter_of-limit id (ok limit) (err e) to f h = absurd (cc)
filter_of-limit id (ok limit) (ok from) (err e) f h = absurd (cc)
filter_of-limit id (ok limit) (ok from) (ok to) f h =
    let e : record { camera_id = id; from = from; to = to; limit = limit } ≡ f = cc in
    ap (λ x. ok x.limit) e

-- What holds of every result of a call's continuation holds of the result.
and_then_post :
    {A B : Type 0} (P : B → Type 0) (f : A → M B) (m : Result FsError A × World)
    → ((a : A) (w : World) (b : B) → (f a w).0 ≡ ok b → P b)
    → (b : B) → (and_then f m).0 ≡ ok b
    → P b
and_then_post P f (ok a, w) later b h = later a w b h
and_then_post P f (err e, w) later b h = absurd (cc)

-- List cuts its answer at the filter's limit.
list_cut :
    (json : Json) (f : ListFilter) (w : World) (out : List SegmentInfo)
    → (list json f w).0 ≡ ok out
    → (all : List SegmentInfo) × (out ≡ limited f.limit all)
unfolding list
list_cut json f w =
    let Cut = λ (out : List SegmentInfo). (all : List SegmentInfo) × (out ≡ limited f.limit all) in
    and_then_post Cut _ (ctx_err w) (λ u w1.
      and_then_post Cut _ (chosen_cameras f.camera_id w1) (λ ids w2.
        and_then_post Cut _ (list_cameras json f ids w2) (λ all w3 out h. (sort newer all, cc))))

length-limited : (n : ℕ) (all : List SegmentInfo) → 0 < n → length (limited n all) ≤ n
length-limited n all h = ground (arith, length-take n all)

parse_list_filter-limit :
    (rfc3339 : Text → Option ℕ) (q : Text → Text) (f : ListFilter)
    → parse_list_filter rfc3339 q ≡ ok f
    → f.limit ≤ 1000
unfolding parse_list_filter
parse_list_filter-limit rfc3339 q f h = parse_limit-le (q (codes "limit")) f.limit (
    filter_of-limit (q (codes "camera_id")) (parse_limit (q (codes "limit")))
      (parse_time rfc3339 (q (codes "from"))) (parse_time rfc3339 (q (codes "to"))) f h)

pub handle_videos-le :
    (rfc3339 : Text → Option ℕ) (json : Json) (q : Text → Text) (w : World) (f : ListFilter)
    (files : List SegmentInfo)
    → parse_list_filter rfc3339 q ≡ ok f
    → 0 < f.limit
    → (handle_videos rfc3339 json q w).0 ≡ videos files
    → (length files ≤ f.limit) × (f.limit ≤ 1000)
unfolding handle_videos
handle_videos-le rfc3339 json q w f files parsed positive h =
    let answer : videos_answer rfc3339 json (list json f w).0 ≡ videos files = rw parsed at h in
    let (all, e) = list_cut json f w files (answered (list json f w).0 answer) in
    (rw e (length-limited f.limit all positive), parse_list_filter-limit rfc3339 q f parsed)
  where
    answered :
        (r : Result FsError (List SegmentInfo))
        → videos_answer rfc3339 json r ≡ videos files
        → r ≡ ok files
    answered (ok l) e = cc
    answered (err e') e = absurd (cc)

-- A result of a sequence is a result of its second part, where the first has left the world.
and_then_ok :
    {A B : Type 0} (P : B → Type 0) (f : A → M B) (m : Result FsError A × World)
    → ((a : A) (b : B) → m.0 ≡ ok a → (f a m.1).0 ≡ ok b → P b)
    → (b : B) → (and_then f m).0 ≡ ok b
    → P b
and_then_ok P f (ok a, w) later b h = later a b refl h
and_then_ok P f (err e, w) later b h = absurd (cc)

-- What Open may return: the file at the name in the camera's directory; the name is one that it
-- accepts.
abbrev Opened : Text → Text → Tree → List ℕ × SegmentInfo → Type 0
Opened id name t (b, info) = (valid_file_name name ≡ true) × (content (camera_dir id) name t ≡ ok b)

guard_valid :
    (name : Text) (w : World) (u : Unit {0})
    → ((if valid_file_name name then return tt else fail invalid) w).0 ≡ ok u
    → valid_file_name name ≡ true
guard_valid name w u h = elim (Bool-cases (valid_file_name name)) [
  | inl e ↦ e
  | inr e ↦ absurd (cc (rw e at h))
]

read_file-content :
    (d n : Text) (w : World) (b : List ℕ) → (read_file d n w).0 ≡ ok b → content d n w.tree ≡ ok b
unfolding read_file
read_file-content d n w b h = on_outcome (next_outcome w.outcomes) h
  where
    on_outcome : (o : Outcome) → answer io (content d n) o w.tree ≡ ok b → content d n w.tree ≡ ok b
    on_outcome fine e = e
    on_outcome (failed junk) e = absurd (cc)

abbrev check_name : Text → M (Unit {0})
check_name name = if valid_file_name name then return tt else fail invalid

check_name-tree : (name : Text) (w : World) → (check_name name w).1.tree ≡ w.tree
check_name-tree name w = elim (Bool-cases (valid_file_name name)) [
  | inl e ↦ rw e refl
  | inr e ↦ rw e refl
]

open_segment-Opened :
    (json : Json) (id name : Text) (w : World) (found : List ℕ × SegmentInfo)
    → (open_segment json id name w).0 ≡ ok found
    → Opened id name w.tree found
unfolding open_segment
open_segment-Opened json id name w =
    let P = Opened id name w.tree in
    let w1 = (ctx_err w).1 in
    let w2 = (check_name name w1).1 in
    let w3 = (read_metadata json id name w2).1 in
    let same : w3.tree ≡ w.tree =
      ((read_metadata-Reads json id name).keeps w2).0
      ∙ (check_name-tree name w1 ∙ (ctx_err-Reads.keeps w).0) in
    and_then_ok P _ (ctx_err w) (λ u f1 e1.
      and_then_ok P _ (check_name name w1)
        (λ u' f2 e2.
          and_then_ok P _ (read_metadata json id name w2)
            (λ info f3 e3.
              and_then_ok P _ (read_file (camera_dir id) name w3)
                (λ b f4 e4 h4.
                  let bytes : b ≡ f4.0 = cc in
                  let there : content (camera_dir id) name w.tree ≡ ok b =
                    ap (content (camera_dir id) name) (sym same)
                    ∙ read_file-content (camera_dir id) name w3 b e4 in
                  (guard_valid name w1 u' e2, there ∙ ap ok bytes))
                f3)
            f2)
        f1)

valid_file_name-parts :
    (name : Text)
    → valid_file_name name ≡ true
    → (contains name b'/' ≡ false) × (contains name 0x5c ≡ false)
unfolding valid_file_name
valid_file_name-parts name h = (ground arith, ground arith)

-- Whatever fails: when handleVideoFile sends a video, its bytes are the content of the file of
-- that name in the directory of the camera, the name has no slash and no backslash, and the name
-- of the directory is made of letters, digits, dashes and underscores behind its prefix.
pub handle_video_file-inside :
    (json : Json) (id name : Text) (w : World) (b : List ℕ) (info : SegmentInfo)
    → (handle_video_file json id name w).0 ≡ video b info
    → (content (camera_dir id) name w.tree ≡ ok b)
      × (contains name b'/' ≡ false)
      × (contains name 0x5c ≡ false)
      × All (λ c. is_plain c ≡ true) (safe_name id)
unfolding handle_video_file
handle_video_file-inside json id name w b info h =
    let opened =
      open_segment-Opened json id name w (b, info) (answered (open_segment json id name w).0 h) in
    let parts = valid_file_name-parts name opened.0 in
    (opened.1, parts.0, parts.1, safe_name-Plain id)
  where
    answered :
        (r : Result FsError (List ℕ × SegmentInfo))
        → video_answer json r ≡ video b info
        → r ≡ ok (b, info)
    answered (ok (b', info')) e = cc
    answered (err e') e = absurd (cc)

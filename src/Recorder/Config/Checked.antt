-- ===== src/Recorder/Config/Checked.antt =====
-- Validate against the settings that it is to accept, and what Load returns.
use instachron.Base.{
  ℕ, ◌<◌, ◌≡◌, ◌≢◌, ◌↔◌, refl, arith, Bool, true, false, Option, none, some, [], List, Result, ok,
  err, ◌>>◌, fail_if, Result-cases, inl, inr, ap, ◌∙◌,
}
use instachron.Base.Int.{ℤ, pos, pos_part, neg_part, ltb_ℤ, ◌≤ℤ◌}
use mathlib.Core.Path.{subst}
use instachron.Text.{Text, codes, text_eq_iff}
use instachron.Duration.{parse_duration}
use instachron.Strconv.{atoi}
use instachron.EnvConf.{Env, string, int, int64}
use instachron.Recorder.Config.{
  Config, ReadError, file_missing, unreadable, not_json, rejected, load_or_defaults, Problem,
  validate, apply_env, checked, load, from_file, is_empty, not_positive, is_none, duration_or_zero,
}

-- 0 < n
abbrev pub Positive : ℤ → Type 0
Positive n = neg_part n < pos_part n

-- A duration text that ParseDuration reads.
abbrev pub HasValue : Text → Type 0
HasValue v = (d : ℤ) × (parse_duration v ≡ some d)

pub record IsUsable (c : Config) : Type 0 where
  pub address : c.http_addr ≢ []
  pub upstream : c.upstream_tcp_addr ≢ []
  pub fps : Positive c.recording.output_fps
  pub factor : Positive c.recording.timelapse_factor
  pub segment : HasValue c.recording.segment_raw_duration
  pub file_bytes : Positive c.recording.max_file_bytes
  pub keep : Positive c.recording.keep_files_per_camera
  pub queue : Positive c.recording.queue_size_per_camera
  pub inactive : HasValue c.recording.inactive_close_duration
  pub local_storage : c.storage.type ≡ codes "local"
  pub root : c.storage.root_dir ≢ []
  pub ffmpeg_path : c.ffmpeg.path ≢ []
  pub preset : c.ffmpeg.preset ≢ []
  pub crf : (pos 0 ≤ℤ c.ffmpeg.crf) × (c.ffmpeg.crf ≤ℤ pos 51)

-- A chain of checks passes when each does.
fail_if_ok :
    {E : Type 0} (b : Bool) (e : E) (rest : Result E (Unit {0}))
    → ((fail_if b e >> rest) ≡ ok tt) ↔ ((b ≡ false) × (rest ≡ ok tt))
fail_if_ok true e rest = (λ h. absurd (cc), λ h. absurd (cc))
fail_if_ok false e rest = (λ h. (refl, h), λ h. h.1)

empty_iff : (v : Text) → (is_empty v ≡ false) ↔ (v ≢ [])
empty_iff v = ground (arith, text_eq_iff v [])

Positive-iff : (n : ℤ) → (not_positive n ≡ false) ↔ Positive n
Positive-iff n = ground arith

none_iff : (v : Text) → (is_none (parse_duration v) ≡ false) ↔ HasValue v
none_iff v = on_value (parse_duration v)
  where
    on_value : (o : Option ℤ) → (is_none o ≡ false) ↔ ((d : ℤ) × (o ≡ some d))
    on_value none = (λ h. absurd (cc), λ (d, h). absurd (cc))
    on_value (some d) = (λ h. (d, refl), λ h. refl)

module _ (c : Config) where
  passed-IsUsable : validate c ≡ ok tt → IsUsable c
  unfolding validate
  passed-IsUsable h = record {
    address = (empty_iff c.http_addr).0 (ground arith);
    upstream = (empty_iff c.upstream_tcp_addr).0 (ground arith);
    fps = (Positive-iff c.recording.output_fps).0 (ground arith);
    factor = (Positive-iff c.recording.timelapse_factor).0 (ground arith);
    segment = (none_iff c.recording.segment_raw_duration).0 (ground arith);
    file_bytes = (Positive-iff c.recording.max_file_bytes).0 (ground arith);
    keep = (Positive-iff c.recording.keep_files_per_camera).0 (ground arith);
    queue = (Positive-iff c.recording.queue_size_per_camera).0 (ground arith);
    inactive = (none_iff c.recording.inactive_close_duration).0 (ground arith);
    local_storage = (text_eq_iff c.storage.type (codes "local")).0 (ground arith);
    root = (empty_iff c.storage.root_dir).0 (ground arith);
    ffmpeg_path = (empty_iff c.ffmpeg.path).0 (ground arith);
    preset = (empty_iff c.ffmpeg.preset).0 (ground arith);
    crf = ground arith;
  }

  IsUsable-passed : IsUsable c → validate c ≡ ok tt
  unfolding validate
  IsUsable-passed u =
      let low : ltb_ℤ c.ffmpeg.crf (pos 0) ≡ false = ground arith in
      let high : ltb_ℤ (pos 51) c.ffmpeg.crf ≡ false = ground arith in
      rw (
        (empty_iff c.http_addr).1 u.address,
        (empty_iff c.upstream_tcp_addr).1 u.upstream,
        (Positive-iff c.recording.output_fps).1 u.fps,
        (Positive-iff c.recording.timelapse_factor).1 u.factor,
        (none_iff c.recording.segment_raw_duration).1 u.segment,
        (Positive-iff c.recording.max_file_bytes).1 u.file_bytes,
        (Positive-iff c.recording.keep_files_per_camera).1 u.keep,
        (Positive-iff c.recording.queue_size_per_camera).1 u.queue,
        (none_iff c.recording.inactive_close_duration).1 u.inactive,
        (text_eq_iff c.storage.type (codes "local")).1 u.local_storage,
        (empty_iff c.storage.root_dir).1 u.root,
        (empty_iff c.ffmpeg.path).1 u.ffmpeg_path,
        (empty_iff c.ffmpeg.preset).1 u.preset,
        low,
        high,
      )

-- Validate accepts a configuration exactly when each of its settings is usable: the addresses,
-- the root and the two ffmpeg settings are not empty, the five numbers are positive, the two
-- durations can be parsed, the storage is local and crf is between 0 and 51.
pub validate-IsUsable : (c : Config) → (validate c ≡ ok tt) ↔ IsUsable c
validate-IsUsable c = (passed-IsUsable c, IsUsable-passed c)

module _ (env : Env) where
  string_twice : (key v : Text) → string env key (string env key v) ≡ string env key v
  unfolding string
  string_twice key v = ground arith

  int_twice : (key : Text) (n : ℤ) → int env key (int env key n) ≡ int env key n
  unfolding int
  int_twice key n = elim (Result-cases (atoi (env key))) [
    | inl (v, e) ↦ rw e (ground arith)
    | inr (e', e) ↦ rw e (ground arith)
  ]

  int64_twice : (key : Text) (n : ℤ) → int64 env key (int64 env key n) ≡ int64 env key n
  unfolding int64
  int64_twice key n = elim (Result-cases (atoi (env key))) [
    | inl (v, e) ↦ rw e (ground arith)
    | inr (e', e) ↦ rw e (ground arith)
  ]

  -- The environment says the same however often it is asked.
  apply_env_twice : (c : Config) → apply_env env (apply_env env c) ≡ apply_env env c
  unfolding apply_env
  apply_env_twice c = simp (string_twice, int_twice, int64_twice)

  -- What is known of a configuration that Load returns.
  abbrev pub IsLoaded : Config → Type 0
  IsLoaded c =
      IsUsable c
      × (parse_duration c.recording.segment_raw_duration ≡ some c.segment_duration)
      × (parse_duration c.recording.inactive_close_duration ≡ some c.inactive_timeout)
      × (apply_env env c ≡ c)

  value_kept :
      (v : Text) → HasValue v → parse_duration v ≡ some (duration_or_zero (parse_duration v))
  value_kept v (d, e) = rw e refl

  with_durations-IsLoaded :
      (c : Config)
      → IsUsable c
      → apply_env env c ≡ c
      → IsLoaded (record c {
        segment_duration = duration_or_zero (parse_duration c.recording.segment_raw_duration);
        inactive_timeout = duration_or_zero (parse_duration c.recording.inactive_close_duration);
      })
  unfolding apply_env
  with_durations-IsLoaded c u e =
      let segment = duration_or_zero (parse_duration c.recording.segment_raw_duration) in
      let inactive = duration_or_zero (parse_duration c.recording.inactive_close_duration) in
      (
        record {
          address = u.address;
          upstream = u.upstream;
          fps = u.fps;
          factor = u.factor;
          segment = u.segment;
          file_bytes = u.file_bytes;
          keep = u.keep;
          queue = u.queue;
          inactive = u.inactive;
          local_storage = u.local_storage;
          root = u.root;
          ffmpeg_path = u.ffmpeg_path;
          preset = u.preset;
          crf = u.crf;
        },
        value_kept c.recording.segment_raw_duration u.segment,
        value_kept c.recording.inactive_close_duration u.inactive,
        ap {A = Config} {B = Config}
            (λ x. record x { segment_duration = segment; inactive_timeout = inactive }) e,
      )

  checked-IsLoaded :
      (c0 c : Config) (r : Result Problem (Unit {0}))
      → validate (apply_env env c0) ≡ r
      → checked (apply_env env c0) r ≡ ok c
      → IsLoaded c
  checked-IsLoaded c0 c (err e) v h = absurd (cc)
  checked-IsLoaded c0 c (ok u) v h = subst IsLoaded (cc) (
      with_durations-IsLoaded (apply_env env c0) (passed-IsUsable (apply_env env c0) v)
        (apply_env_twice c0))

-- A configuration that Load returns.
pub load-IsLoaded :
    (read_file : Text → Result ReadError (List ℕ)) (unmarshal : List ℕ → Config → Option Config)
    (env : Env) (path : Text) (c : Config)
    → load read_file unmarshal env path ≡ ok c
    → IsLoaded env c
unfolding load
load-IsLoaded read_file unmarshal env path c h =
    elim (Result-cases (from_file read_file unmarshal path)) [
      | inl (c0, e) ↦ checked-IsLoaded env c0 c (validate (apply_env env c0)) refl (rw e at h)
      | inr (e', e) ↦ absurd (cc (rw e at h))
    ]

-- A configuration that the recorder starts with satisfies every condition of Validate, its two
-- durations are what their texts say, and the environment has the last word: reading it once more
-- changes nothing. This holds for any file and environment.
pub load_or_defaults-IsLoaded :
    (read_file : Text → Result ReadError (List ℕ)) (unmarshal : List ℕ → Config → Option Config)
    (env : Env) (c : Config)
    → load_or_defaults read_file unmarshal env ≡ ok c
    → IsLoaded env c
unfolding load_or_defaults
load_or_defaults-IsLoaded read_file unmarshal env c h =
    let path = string env (codes "CONFIG_FILE") (codes "config.json") in
    elim (Result-cases (load read_file unmarshal env path)) [
      | inl (c', e) ↦ load-IsLoaded read_file unmarshal env path c (e ∙ rw e at h)
      | inr (file_missing, e) ↦ load-IsLoaded read_file unmarshal env [] c (rw e at h)
      | inr (unreadable, e) ↦ absurd (cc (rw e at h))
      | inr (not_json, e) ↦ absurd (cc (rw e at h))
      | inr (rejected p, e) ↦ absurd (cc (rw e at h))
    ]

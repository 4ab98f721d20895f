-- ===== src/Recorder/Config.antt =====
-- services/camera-recorder/internal/config/config.go: the settings, their check, and how Load puts
-- them together. Reading the file and encoding/json are parameters.
pub mod Checked
use instachron.Base.{
  ℕ, ◌+◌, ◌-◌, ◌*◌, ◌≡◌, refl, Bool, true, false, not, ◌||◌, Option, none, some, List, [], ◌∷◌,
  Result, ok, err, ◌>>=◌, ◌>>◌, fail_if, if◌then◌else◌,
}
use instachron.Base.Int.{ℤ, pos, negsuc, ltb_ℤ}
use instachron.Text.{Text, codes, text_eq}
use instachron.Duration.{parse_duration}
use instachron.EnvConf.{Env, string, int, int64}

pub record RecordingConfig : Type 0 where
  pub output_fps : ℤ
  pub timelapse_factor : ℤ
  pub segment_raw_duration : Text
  pub max_file_bytes : ℤ
  pub keep_files_per_camera : ℤ
  pub queue_size_per_camera : ℤ
  pub inactive_close_duration : Text

pub record StorageConfig : Type 0 where
  pub type : Text
  pub root_dir : Text

pub record FfmpegConfig : Type 0 where
  pub path : Text
  pub preset : Text
  pub crf : ℤ

pub record Config : Type 0 where
  pub http_addr : Text
  pub upstream_tcp_addr : Text
  pub recording : RecordingConfig
  pub storage : StorageConfig
  pub ffmpeg : FfmpegConfig
  pub segment_duration : ℤ
  pub inactive_timeout : ℤ

unfoldable pub defaults : Config
defaults = record {
  http_addr = codes ":8094";
  upstream_tcp_addr = codes "localhost:9001";
  recording = record {
    output_fps = pos 10;
    timelapse_factor = pos 10;
    segment_raw_duration = codes "10m";
    max_file_bytes = pos (100 * 1024 * 1024);
    keep_files_per_camera = pos 144;
    queue_size_per_camera = pos 128;
    inactive_close_duration = codes "30s";
  };
  storage = record { type = codes "local"; root_dir = codes "./recordings" };
  ffmpeg = record { path = codes "ffmpeg"; preset = codes "veryfast"; crf = pos 23 };
  segment_duration = pos 0;
  inactive_timeout = pos 0;
}

-- The setting that Validate complains about.
pub data Problem : Type 0 where
  http_addr_missing : Problem
  upstream_missing : Problem
  output_fps_range : Problem
  timelapse_factor_range : Problem
  segment_duration_text : Problem
  max_file_bytes_range : Problem
  keep_files_range : Problem
  queue_size_range : Problem
  inactive_duration_text : Problem
  storage_type_unsupported : Problem
  root_dir_missing : Problem
  ffmpeg_path_missing : Problem
  preset_missing : Problem
  crf_range : Problem

abbrev pub is_empty : Text → Bool
is_empty v = text_eq v []

-- x <= 0
abbrev pub not_positive : ℤ → Bool
not_positive n = not (ltb_ℤ (pos 0) n)

abbrev pub is_none : {A : Type 0} → Option A → Bool
is_none none = true
is_none (some a) = false

unfoldable pub validate : Config → Result Problem (Unit {0})
validate c = do
  fail_if (is_empty c.http_addr) http_addr_missing
  fail_if (is_empty c.upstream_tcp_addr) upstream_missing
  fail_if (not_positive c.recording.output_fps) output_fps_range
  fail_if (not_positive c.recording.timelapse_factor) timelapse_factor_range
  fail_if (is_none (parse_duration c.recording.segment_raw_duration)) segment_duration_text
  fail_if (not_positive c.recording.max_file_bytes) max_file_bytes_range
  fail_if (not_positive c.recording.keep_files_per_camera) keep_files_range
  fail_if (not_positive c.recording.queue_size_per_camera) queue_size_range
  fail_if (is_none (parse_duration c.recording.inactive_close_duration)) inactive_duration_text
  fail_if (not (text_eq c.storage.type (codes "local"))) storage_type_unsupported
  fail_if (is_empty c.storage.root_dir) root_dir_missing
  fail_if (is_empty c.ffmpeg.path) ffmpeg_path_missing
  fail_if (is_empty c.ffmpeg.preset) preset_missing
  fail_if (ltb_ℤ c.ffmpeg.crf (pos 0) || ltb_ℤ (pos 51) c.ffmpeg.crf) crf_range

module _ (env : Env) where
  unfoldable pub recording_env : RecordingConfig → RecordingConfig
  recording_env r = record {
    output_fps = int env (codes "OUTPUT_FPS") r.output_fps;
    timelapse_factor = int env (codes "TIMELAPSE_FACTOR") r.timelapse_factor;
    segment_raw_duration = string env (codes "SEGMENT_RAW_DURATION") r.segment_raw_duration;
    max_file_bytes = int64 env (codes "MAX_FILE_BYTES") r.max_file_bytes;
    keep_files_per_camera = int env (codes "KEEP_FILES_PER_CAMERA") r.keep_files_per_camera;
    queue_size_per_camera = int env (codes "QUEUE_SIZE_PER_CAMERA") r.queue_size_per_camera;
    inactive_close_duration =
        string env (codes "INACTIVE_CLOSE_DURATION") r.inactive_close_duration;
  }

  unfoldable pub apply_env : Config → Config
  unfolding recording_env
  apply_env c = record c {
    http_addr = string env (codes "HTTP_ADDR") c.http_addr;
    upstream_tcp_addr = string env (codes "UPSTREAM_TCP_ADDR") c.upstream_tcp_addr;
    recording = recording_env c.recording;
    storage = record {
      type = c.storage.type;
      root_dir = string env (codes "STORAGE_ROOT_DIR") c.storage.root_dir;
    };
    ffmpeg = record {
      path = string env (codes "FFMPEG_PATH") c.ffmpeg.path;
      preset = string env (codes "FFMPEG_PRESET") c.ffmpeg.preset;
      crf = int env (codes "FFMPEG_CRF") c.ffmpeg.crf;
    };
  }

pub data LoadError : Type 0 where
  file_missing : LoadError
  unreadable : LoadError
  not_json : LoadError
  rejected : Problem → LoadError

-- What os.ReadFile fails with: os.ErrNotExist or another error.
pub data ReadError : Type 0 where
  missing : ReadError
  other : ReadError

-- The duration that a text stands for; 0 where there is none.
abbrev pub duration_or_zero : Option ℤ → ℤ
duration_or_zero none = pos 0
duration_or_zero (some d) = d

abbrev pub checked : Config → Result Problem (Unit {0}) → Result LoadError Config
checked c (err e) = err (rejected e)
checked c (ok u) =
    let segment = duration_or_zero (parse_duration c.recording.segment_raw_duration) in
    let inactive = duration_or_zero (parse_duration c.recording.inactive_close_duration) in
    ok (record c { segment_duration = segment; inactive_timeout = inactive })

abbrev read_error : ReadError → LoadError
read_error missing = file_missing
read_error other = unreadable

module _ (read_file : Text → Result ReadError (List ℕ))
    (unmarshal : List ℕ → Config → Option Config) where
  abbrev from_bytes : Result ReadError (List ℕ) → Result LoadError Config
  from_bytes (err e) = err (read_error e)
  from_bytes (ok b) = elim (unmarshal b defaults) [ none ↦ err not_json | some c ↦ ok c ]

  abbrev pub from_file : Text → Result LoadError Config
  from_file [] = ok defaults
  from_file (c ∷ path) = from_bytes (read_file (c ∷ path))

  unfoldable pub load : Env → Text → Result LoadError Config
  load env path = from_file path >>= λ c. checked (apply_env env c) (validate (apply_env env c))

  abbrev defaults_if_missing : Env → Result LoadError Config → Result LoadError Config
  defaults_if_missing env (ok c) = ok c
  defaults_if_missing env (err file_missing) = load env []
  defaults_if_missing env (err unreadable) = err unreadable
  defaults_if_missing env (err not_json) = err not_json
  defaults_if_missing env (err (rejected p)) = err (rejected p)

  -- app.Run: a missing file means the defaults.
  unfoldable pub load_or_defaults : Env → Result LoadError Config
  load_or_defaults env =
      defaults_if_missing env (load env (string env (codes "CONFIG_FILE") (codes "config.json")))

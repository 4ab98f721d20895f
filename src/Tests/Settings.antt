-- ===== src/Tests/Settings.antt =====
-- Settings from the environment and from defaults, at concrete values.
use instachron.Base.{
  ℕ, ◌*◌, ◌^◌, ◌≡◌, ◌<◌, ◌≤◌, ◌↔◌, refl, arith, Option, none, List, [], Result, ok, err,
}
use instachron.Base.Int.{pos, pos_part, neg_part, ◌+ℤ◌}
use instachron.Text.{Text, codes, text_eq}
use instachron.Strconv.{format_uint}
use instachron.Duration.{parse_duration}
use instachron.EnvConf.{Env, string, int, int64, seconds}
use instachron.EnvConf.Readers.{seconds_overflow}
use instachron.Recorder.Config.{
  Config, defaults, validate, apply_env, recording_env, load, load_or_defaults, ReadError, missing,
}
use instachron.Recorder.Config.Checked.{
  IsUsable, IsLoaded, validate-IsUsable, load_or_defaults-IsLoaded,
}

abbrev too_long : Env
too_long key = format_uint (10 ^ 10)

seconds_overflow_example :
    let s = seconds too_long (codes "WAIT") (pos 1) in
    (k : ℕ) × (0 < k)
    × (s +ℤ pos (k * 2 ^ 64) ≡ pos (10 ^ 10 * 1_000_000_000))
    × (pos_part s < 2 ^ 63)
    × (neg_part s ≤ 2 ^ 63)
seconds_overflow_example =
    seconds_overflow too_long (codes "WAIT") (10 ^ 10) (pos 1) refl (omega arith) (omega arith)

validate-IsUsable_example : (validate defaults ≡ ok tt) ↔ IsUsable defaults
validate-IsUsable_example = validate-IsUsable defaults

abbrev no_env : Env
no_env key = []

abbrev no_file : Text → Result ReadError (List ℕ)
no_file path = err missing

abbrev no_json : List ℕ → Config → Option Config
no_json bytes c = none

abbrev started : Config
unfolding defaults
started = record defaults {
  segment_duration = pos 600_000_000_000;
  inactive_timeout = pos 30_000_000_000;
}

load_or_defaults-IsLoaded_example : IsLoaded no_env started
unfolding load_or_defaults load validate apply_env recording_env string int int64 parse_duration
    defaults text_eq
load_or_defaults-IsLoaded_example = load_or_defaults-IsLoaded no_file no_json no_env started refl

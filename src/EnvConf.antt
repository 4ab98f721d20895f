-- ===== src/EnvConf.antt =====
-- shared/envconf/envconf.go: settings from environment variables. os.Getenv is a function that
-- gives the empty text for a variable that is not set. Text is ASCII where a reader ignores case.
pub mod Readers
use instachron.Base.{
  ℕ, ◌+◌, ◌-◌, ◌*◌, ◌%◌, ◌^◌, ◌≡◌, refl, Bool, true, false, ◌&&◌, ◌||◌, not, Option, none, some,
  List, [], ◌∷◌, Result, ok, err, ltb, leb, if◌then◌else◌, map,
}
use instachron.Base.Int.{ℤ, pos, negsuc, pos_part, neg_part, sub_ℕ}
use instachron.Text.{Text, codes, text_eq}
use instachron.Strconv.{NumError, atoi, parse_uint}
use instachron.Duration.{parse_duration}

abbrev pub Env : Type 0
Env = Text → Text

abbrev is_set : Text → Bool
is_set v = not (text_eq v [])

unfoldable pub string : Env → Text → Text → Text
string env key fallback = let v = env key in if is_set v then v else fallback

unfoldable pub lookup_string : Env → Text → Text × Bool
lookup_string env key = let v = env key in (v, is_set v)

-- What a reader does with a parsed value.
abbrev pub or_fallback : {E A : Type 0} → A → Result E A → A
or_fallback fallback (ok n) = n
or_fallback fallback (err e) = fallback

unfoldable pub int : Env → Text → ℤ → ℤ
int env key fallback =
    let v = env key in if is_set v then or_fallback fallback (atoi v) else fallback

-- ParseInt(v, 10, 64), which is Atoi where an int has 64 bits.
unfoldable pub int64 : Env → Text → ℤ → ℤ
int64 env key fallback =
    let v = env key in if is_set v then or_fallback fallback (atoi v) else fallback

abbrev uint32_value : ℕ → Result NumError ℕ → ℕ
uint32_value fallback (ok n) = n % 2 ^ 32
uint32_value fallback (err e) = fallback

unfoldable pub uint32 : Env → Text → ℕ → ℕ
uint32 env key fallback =
    let v = env key in
    if is_set v then uint32_value fallback (parse_uint (2 ^ 32 - 1) v) else fallback

to_lower : Text → Text
to_lower v = map (λ c. if leb b'A' c && leb c b'Z' then c + 32 else c) v

unfoldable pub bool : Env → Text → Bool → Bool
unfolding to_lower
bool env key fallback =
    let v = to_lower (env key) in
    if text_eq v (codes "true")
      || (text_eq v (codes "1") || (text_eq v (codes "yes") || text_eq v (codes "on")))
    then true
    else if text_eq v (codes "false")
        || (text_eq v (codes "0") || (text_eq v (codes "no") || text_eq v (codes "off")))
    then false
    else fallback

abbrev or_default : ℤ → Option ℤ → ℤ
or_default fallback none = fallback
or_default fallback (some d) = d

unfoldable pub duration : Env → Text → ℤ → ℤ
duration env key fallback =
    let v = env key in if is_set v then or_default fallback (parse_duration v) else fallback

-- A product of int64 values, which wraps around.
unfoldable pub wrap_int64 : ℤ → ℤ
wrap_int64 a =
    let bits = (pos_part a + (2 ^ 64 - neg_part a % 2 ^ 64)) % 2 ^ 64 in
    if ltb bits (2 ^ 63) then pos bits else sub_ℕ bits (2 ^ 64)

abbrev in_seconds : ℤ → ℤ
in_seconds (pos n) = wrap_int64 (pos (n * 1_000_000_000))
in_seconds (negsuc n) = wrap_int64 (sub_ℕ 0 ((n + 1) * 1_000_000_000))

abbrev second_value : ℤ → Result NumError ℤ → ℤ
second_value fallback (ok n) = in_seconds n
second_value fallback (err e) = fallback

unfoldable pub seconds : Env → Text → ℤ → ℤ
seconds env key fallback =
    let v = env key in if is_set v then second_value fallback (atoi v) else fallback

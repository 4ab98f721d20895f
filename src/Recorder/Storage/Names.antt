-- ===== src/Recorder/Storage/Names.antt =====
-- The names that local.go makes: safeName, cameraDir, the names of segments and their metadata.
use instachron.Base.{
  ℕ, zero, suc, ap, sym, ◌+◌, ◌-◌, ◌^◌, ◌≤◌, ◌<◌, ◌≡◌, ◌≢◌, refl, ◌∙◌, arith, true, false, [], ◌∷◌,
  ◌++◌, All, All-append, length, get_or, take, drop, Bool-cases, inl, inr, length-append,
  drop-append_length, drop-drop, leb, take-append_length,
}
use mathlib.Core.List.{append_assoc}
use instachron.Text.{Text, codes, text_eq, text_eq_iff, contains, has_suffix}
use instachron.Strconv.{DigitCode, format_uint, format_uint-DigitCode, parse_uint-format_uint}
use instachron.StreamProto.{unix_nano, unix_epoch}
use instachron.StreamProto.CameraId.{camera_id_string, camera_id_string_injective}
use instachron.Recorder.Storage.Calendar.{
  format_time, format_time_head, length-format_time, PathByte, format_time-PathByte,
}
use instachron.Recorder.Storage.{
  is_plain, safe_char, more_bytes, rune_tail, safe_from, safe_name, camera_dir, tmp_dir, json_name,
  segment_file_name, format_unix_nano, valid_file_name,
}

-- A test on texts fails for different ones.
pub text_eq-false : (a b : Text) → a ≢ b → text_eq a b ≡ false
text_eq-false a b h = elim (Bool-cases (text_eq a b)) [
  | inl e ↦ absurd (h ((text_eq_iff a b).0 e))
  | inr e ↦ e
]

safe_char_digit : (c : ℕ) → DigitCode c → safe_char c ≡ c
unfolding safe_char
safe_char_digit c h = ground arith

more_bytes_digit : (c : ℕ) → DigitCode c → more_bytes c ≡ 0
unfolding more_bytes
more_bytes_digit c h = ground arith

rune_tail_digit : (c : ℕ) (v : Text) → DigitCode c → rune_tail c v ≡ 0
unfolding rune_tail
rune_tail_digit c [] h = refl
rune_tail_digit c (d ∷ v) h = rw (more_bytes_digit c h) (ground arith)

safe_name_digits : (v : Text) → All DigitCode v → safe_from 0 v ≡ v
unfolding safe_from
safe_name_digits [] h = refl
safe_name_digits (c ∷ v) h =
    rw (rune_tail_digit c v h.0) (cc (safe_char_digit c h.0, safe_name_digits v h.1))

pub safe_name-camera_id_string : (id : ℕ) → safe_name (camera_id_string id) ≡ camera_id_string id
unfolding camera_id_string safe_name
safe_name-camera_id_string id = safe_name_digits (format_uint id) (format_uint-DigitCode id)

safe_char-is_plain : (c : ℕ) → is_plain (safe_char c) ≡ true
unfolding safe_char
safe_char-is_plain c = ground arith

safe_from-Plain : (skip : ℕ) (v : Text) → All (λ c. is_plain c ≡ true) (safe_from skip v)
unfolding safe_from
safe_from-Plain skip [] = tt
safe_from-Plain zero (c ∷ v) = (safe_char-is_plain c, safe_from-Plain (rune_tail c v) v)
safe_from-Plain (suc skip) (c ∷ v) = safe_from-Plain skip v

-- Whatever the id of a camera: its safe form has letters, digits, - and _ only, and is safe.
pub safe_name-Plain : (v : Text) → All (λ c. is_plain c ≡ true) (safe_name v)
unfolding safe_name
safe_name-Plain v = safe_from-Plain 0 v

pub camera_dir-ne-tmp_dir : (id : Text) → camera_dir id ≢ tmp_dir
unfolding camera_dir
camera_dir-ne-tmp_dir id h = cc

pub json_name-ne : (n : Text) → json_name n ≢ n
json_name-ne n h = omega (arith, ap length h, length-append n (codes ".json"))

drop_front : (n : Text) → length n ≡ 5 → drop 5 (json_name n) ≡ codes ".json"
drop_front n e = rw (← e) (drop-append_length n (codes ".json"))

pub json_name-ne-latest : (n : Text) → json_name n ≢ codes "latest.mp4"
json_name-ne-latest n h =
    let five : length n ≡ 5 = omega (arith, ap length h, length-append n (codes ".json")) in
    let heads : get_or (codes ".json") 0 0 ≡ get_or (codes "t.mp4") 0 0 =
      ap (λ t. get_or t 0 0) (sym (drop_front n five) ∙ ap (drop 5) h) in
    omega (arith, heads)

pub segment_file_name-ne-latest : (start : ℕ) → segment_file_name start ≢ codes "latest.mp4"
unfolding segment_file_name
segment_file_name-ne-latest start h =
    let (c, rest, e, digit) = format_time_head start in
    let same : c ∷ (rest ++ _) ≡ codes "latest.mp4" = rw e at h in
    let first : c ≡ b'l' = ap (λ t. get_or t 0 0) same in omega (arith, first)

-- Cameras with different ids have different directories.
pub camera_dir_injective :
    (a b : ℕ)
    → a < 2 ^ 32
    → b < 2 ^ 32
    → camera_dir (camera_id_string a) ≡ camera_dir (camera_id_string b)
    → a ≡ b
unfolding camera_dir
camera_dir_injective a b ha hb e =
    camera_id_string_injective a b ha hb
      (sym (safe_name-camera_id_string a) ∙ (ap (drop 7) e ∙ safe_name-camera_id_string b))

append_cancel : (xs ys zs : Text) → xs ++ zs ≡ ys ++ zs → xs ≡ ys
append_cancel xs ys zs e =
    let same : length xs ≡ length ys =
      omega (arith, ap length e, length-append xs zs, length-append ys zs) in
    sym (take-append_length xs zs)
    ∙ (ap (take (length xs)) e ∙ (ap (λ n. take n (ys ++ zs)) same ∙ take-append_length ys zs))

format_uint_injective : (a b : ℕ) → a < 2 ^ 64 → b < 2 ^ 64 → format_uint a ≡ format_uint b → a ≡ b
format_uint_injective a b ha hb e = cc (
  parse_uint-format_uint (2 ^ 64) a ha (omega arith),
  parse_uint-format_uint (2 ^ 64) b hb (omega arith),
)

-- A time that UnixNano can express and that is not before 1970.
abbrev pub Dated : ℕ → Type 0
Dated t = (unix_epoch ≤ t) × (t < unix_epoch + 2 ^ 63)

unix_nano-Dated : (t : ℕ) → Dated t → unix_nano t ≡ t - unix_epoch
unfolding unix_nano
unix_nano-Dated t h = omega arith

format_unix_nano-Dated :
    (t : ℕ) → Dated t → format_unix_nano (unix_nano t) ≡ format_uint (t - unix_epoch)
unfolding format_unix_nano
format_unix_nano-Dated t h =
    let small : leb (2 ^ 63) (t - unix_epoch) ≡ false = ground arith in
    rw (unix_nano-Dated t h) (rw small refl)

after_date :
    (t : ℕ) → Dated t → drop 17 (segment_file_name t) ≡ format_uint (t - unix_epoch) ++ codes ".mp4"
unfolding segment_file_name
after_date t h =
    let behind = b'_' ∷ (format_unix_nano (unix_nano t) ++ codes ".mp4") in
    let dropped : drop 16 (segment_file_name t) ≡ behind =
      ap (λ n. drop n (format_time t ++ behind)) (sym (length-format_time t))
      ∙ drop-append_length (format_time t) behind in
    sym (drop-drop 1 16 (segment_file_name t))
    ∙ (ap (drop 1) dropped ∙ ap (λ x. x ++ codes ".mp4") (format_unix_nano-Dated t h))

-- Segments that start at different times have different file names.
pub segment_file_name_injective :
    (a b : ℕ) → Dated a → Dated b → segment_file_name a ≡ segment_file_name b → a ≡ b
segment_file_name_injective a b ha hb e =
    let names : format_uint (a - unix_epoch) ≡ format_uint (b - unix_epoch) =
      append_cancel _ _ (codes ".mp4")
        (sym (after_date a ha) ∙ (ap (drop 17) e ∙ after_date b hb)) in
    let same : a - unix_epoch ≡ b - unix_epoch =
      format_uint_injective _ _ (omega arith) (omega arith) names in
    omega (arith, same)

DigitCode-PathByte : (v : Text) → All DigitCode v → All PathByte v
DigitCode-PathByte [] h = tt
DigitCode-PathByte (c ∷ v) h =
    ((λ e. omega (arith, h.0), λ e. omega (arith, h.0)), DigitCode-PathByte v h.1)

format_unix_nano-PathByte : (ns : ℕ) → All PathByte (format_unix_nano ns)
unfolding format_unix_nano
format_unix_nano-PathByte ns = elim (Bool-cases (leb (2 ^ 63) ns)) [
  | inl e ↦ rw e (
    (λ h. omega arith, λ h. omega arith),
    DigitCode-PathByte _ (format_uint-DigitCode (2 ^ 64 - ns)),
  )
  | inr e ↦ rw e (DigitCode-PathByte _ (format_uint-DigitCode ns))
]

apart : (c : ℕ) → 92 < c → PathByte c
apart c h = (λ e. omega arith, λ e. omega arith)

extension-PathByte : All PathByte (codes ".mp4")
extension-PathByte = (
  (λ e. omega arith, λ e. omega arith),
  (
    apart b'm' (omega arith),
    (apart b'p' (omega arith), ((λ e. omega arith, λ e. omega arith), tt)),
  ),
)

segment_file_name-PathByte : (start : ℕ) → All PathByte (segment_file_name start)
unfolding segment_file_name
segment_file_name-PathByte start =
    All-append PathByte (format_time start) _ (format_time-PathByte start) (
      (λ h. omega arith, λ h. omega arith),
      All-append PathByte (format_unix_nano (unix_nano start)) _
          (format_unix_nano-PathByte (unix_nano start)) extension-PathByte,
    )

contains-PathByte :
    (v : Text) → All PathByte v → (contains v b'/' ≡ false) × (contains v 0x5c ≡ false)
unfolding contains
contains-PathByte [] h = (refl, refl)
contains-PathByte (c ∷ v) h = ground (arith, contains-PathByte v h.1, h.0)

has_suffix-append : (xs ys : Text) → has_suffix (xs ++ ys) ys ≡ true
unfolding has_suffix
has_suffix-append xs ys =
    let e : length (xs ++ ys) - length ys ≡ length xs = omega (arith, length-append xs ys) in
    (text_eq_iff _ _).1 (ap (λ n. drop n (xs ++ ys)) e ∙ drop-append_length xs ys)

segment_file_name_cons :
    (start : ℕ) → (c : ℕ) × (rest : Text) × (segment_file_name start ≡ c ∷ rest)
unfolding segment_file_name
segment_file_name_cons start =
    let (c, rest, e, digit) = format_time_head start in
    let behind = b'_' ∷ (format_unix_nano (unix_nano start) ++ codes ".mp4") in
    (c, rest ++ behind, ap (λ v. v ++ behind) e)

segment_file_name-suffix : (start : ℕ) → has_suffix (segment_file_name start) (codes ".mp4") ≡ true
unfolding segment_file_name
segment_file_name-suffix start =
    let number = format_unix_nano (unix_nano start) in
    let e : (format_time start ++ (b'_' ∷ number)) ++ codes ".mp4" ≡ segment_file_name start =
      append_assoc (format_time start) (b'_' ∷ number) (codes ".mp4") in
    ap (λ v. has_suffix v (codes ".mp4")) (sym e)
    ∙ has_suffix-append (format_time start ++ (b'_' ∷ number)) (codes ".mp4")

-- BeginSegment chooses a name that Open accepts.
pub segment_file_name-valid : (start : ℕ) → valid_file_name (segment_file_name start) ≡ true
unfolding valid_file_name
segment_file_name-valid start =
    let name = segment_file_name start in
    let (no_slash, no_backslash) = contains-PathByte name (segment_file_name-PathByte start) in
    let (c, rest, e) = segment_file_name_cons start in
    let suffix = segment_file_name-suffix start in
    let not_empty : text_eq name [] ≡ false = text_eq-false name [] (λ h. cc) in
    rw (not_empty, no_slash, no_backslash, suffix) refl

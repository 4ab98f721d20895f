-- ===== src/Recorder/Storage/Calendar.antt =====
-- time.Time.Format with the layout 20060102T150405Z, in UTC. Times are nanoseconds since the first
-- of January of year 1, Go's zero Time; the year is given four digits.
use instachron.Base.{
  ℕ, zero, suc, ◌+◌, ◌-◌, ◌*◌, ◌/◌, ◌%◌, ◌≡◌, refl, ◌&&◌, ◌||◌, not, Bool, List, [], ◌∷◌, ◌++◌,
  length, length-append, All, All-append, ◌≢◌, ◌≤◌, min, ltb, ◌==◌, if◌then◌else◌, arith,
}
use instachron.Text.{Text, codes}
use instachron.StreamProto.{unix_epoch}

-- The lowest k digits, with leading zeros.
digits : ℕ → ℕ → Text
digits zero n = []
digits (suc k) n = digits k (n / 10) ++ ((b'0' + n % 10) ∷ [])

-- The year, counted from 1, and the day in it, counted from 0.
year_day : ℕ → ℕ × ℕ
year_day days =
    let in_400 = days % 146_097 in
    let centuries = min 3 (in_400 / 36_524) in
    let in_100 = in_400 - centuries * 36_524 in
    let in_4 = in_100 % 1461 in
    let years = min 3 (in_4 / 365) in
    ((days / 146_097) * 400 + centuries * 100 + (in_100 / 1461) * 4 + years + 1, in_4 - years * 365)

is_leap : ℕ → Bool
is_leap y = y % 4 == 0 && (not (y % 100 == 0) || y % 400 == 0)

abbrev month_lengths : Bool → List ℕ
month_lengths leap =
    31 ∷ (if leap then 29 else 28) ∷ 31 ∷ 30 ∷ 31 ∷ 30 ∷ 31 ∷ 31 ∷ 30 ∷ 31 ∷ 30 ∷ 31 ∷ []

-- The month and the day in it, both counted from 1.
month_day : ℕ → ℕ → List ℕ → ℕ × ℕ
month_day month day [] = (month, day + 1)
month_day month day (n ∷ ns) =
    let rest = month_day (month + 1) (day - n) ns in if ltb day n then (month, day + 1) else rest

format_date : ℕ → ℕ → ℕ → Text
unfolding digits
format_date year month day = digits 4 year ++ (digits 2 month ++ digits 2 day)

format_clock : ℕ → Text
unfolding digits
format_clock secs =
    digits 2 ((secs / 3600) % 24)
    ++ (digits 2 ((secs / 60) % 60) ++ (digits 2 (secs % 60) ++ (b'Z' ∷ [])))

unfoldable pub format_time : ℕ → Text
unfolding year_day is_leap month_day format_date format_clock
format_time t =
    let secs = t / 1_000_000_000 in
    let (year, yday) = year_day (secs / 86_400) in
    let (month, day) = month_day 1 yday (month_lengths (is_leap year)) in
    format_date year month day ++ (b'T' ∷ format_clock secs)

length-digits : (k n : ℕ) → length (digits k n) ≡ k
unfolding digits
length-digits zero n = refl
length-digits (suc k) n =
    omega
      (arith, length-append (digits k (n / 10)) ((b'0' + n % 10) ∷ []), length-digits k (n / 10))

-- A time is formatted to 16 bytes, the first of which is a digit.
pub length-format_time : (t : ℕ) → length (format_time t) ≡ 16
unfolding format_time
length-format_time t = refl

pub format_time_head : (t : ℕ) → (c : ℕ) × (rest : Text) × (format_time t ≡ c ∷ rest) × (c ≤ b'9')
unfolding format_time
format_time_head t = (_, _, refl, omega arith)

-- No byte of a formatted time separates the parts of a path.
abbrev pub PathByte : ℕ → Type 0
PathByte c = (c ≢ b'/') × (c ≢ 0x5c)

digits-PathByte : (k n : ℕ) → All PathByte (digits k n)
unfolding digits
digits-PathByte zero n = tt
digits-PathByte (suc k) n =
    All-append PathByte (digits k (n / 10)) _ (digits-PathByte k (n / 10))
      ((λ e. omega arith, λ e. omega arith), tt)

format_date-PathByte : (year month day : ℕ) → All PathByte (format_date year month day)
unfolding format_date
format_date-PathByte year month day =
    All-append PathByte (digits 4 year) (digits 2 month ++ digits 2 day) (digits-PathByte 4 year) (
      All-append PathByte (digits 2 month) (digits 2 day) (digits-PathByte 2 month)
        (digits-PathByte 2 day))

format_clock-PathByte : (secs : ℕ) → All PathByte (format_clock secs)
unfolding format_clock
format_clock-PathByte secs =
    let zone : All PathByte (b'Z' ∷ []) = ((λ e. omega arith, λ e. omega arith), tt) in
    let seconds = digits 2 (secs % 60) ++ (b'Z' ∷ []) in
    let minutes = digits 2 ((secs / 60) % 60) ++ seconds in
    All-append PathByte (digits 2 ((secs / 3600) % 24)) minutes
      (digits-PathByte 2 ((secs / 3600) % 24))
      (All-append PathByte (digits 2 ((secs / 60) % 60)) seconds
        (digits-PathByte 2 ((secs / 60) % 60))
        (All-append PathByte (digits 2 (secs % 60)) (b'Z' ∷ []) (digits-PathByte 2 (secs % 60))
          zone))

date_and_clock-PathByte :
    (date clock : Text)
    → All PathByte date
    → All PathByte clock
    → All PathByte (date ++ (b'T' ∷ clock))
date_and_clock-PathByte date clock first second =
    All-append PathByte date (b'T' ∷ clock) first ((λ e. omega arith, λ e. omega arith), second)

pub format_time-PathByte : (t : ℕ) → All PathByte (format_time t)
unfolding format_time
format_time-PathByte t =
    let secs = t / 1_000_000_000 in
    let (year, yday) = year_day (secs / 86_400) in
    let (month, day) = month_day 1 yday (month_lengths (is_leap year)) in
    date_and_clock-PathByte (format_date year month day) (format_clock secs)
      (format_date-PathByte year month day) (format_clock-PathByte secs)

format_time_today :
    format_time (unix_epoch + 1_709_210_096 * 1_000_000_000) ≡ codes "20240229T123456Z"
unfolding format_time
format_time_today = refl

format_time_new_year :
    format_time (unix_epoch + 1_767_225_599 * 1_000_000_000) ≡ codes "20251231T235959Z"
unfolding format_time
format_time_new_year = refl

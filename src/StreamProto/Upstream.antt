-- ===== src/StreamProto/Upstream.antt =====
-- shared/streamproto/tcpupstream.go, NewTCPUpstream and Run: the reconnect policy. Durations are
-- numbers of nanoseconds, far below the 2 ^ 62 at which doubling would wrap.
use instachron.Base.{ℕ, zero, suc, ◌*◌, ◌^◌, ◌≤◌, ◌<◌, ◌≡◌, sym, ◌∙◌, ap, arith, min}
use instachron.Base.{List, [], ◌∷◌, All, get_elem?, some, ltb, ◌==◌, if◌then◌else◌}
use native.Mathlib.Decide.{dec_le}
use native.Mathlib.Nat.{pow-suc, mul-le-mul_left}

pub record Config : Type 0 where
  pub min_backoff : ℕ
  pub max_backoff : ℕ

-- NewTCPUpstream: a zero takes the default, 500ms and 10s.
pub with_defaults : Config → Config
with_defaults c = record {
  min_backoff = if c.min_backoff == 0 then 500_000_000 else c.min_backoff;
  max_backoff = if c.max_backoff == 0 then 10_000_000_000 else c.max_backoff;
}

-- The backoff after a connection that delivered `frames` frames.
pub next_backoff : Config → ℕ → ℕ → ℕ
next_backoff c backoff frames =
    if ltb 0 frames then c.min_backoff else min (backoff * 2) c.max_backoff

-- What Run waits after each of its connections, until the context ends.
pub waits : Config → ℕ → List ℕ → List ℕ
waits c backoff [] = []
waits c backoff (frames ∷ rest) = let b = next_backoff c backoff frames in b ∷ waits c b rest

pub run : Config → List ℕ → List ℕ
unfolding waits
run c connections = waits c c.min_backoff connections

next_backoff_bounds :
    (c : Config) (backoff frames : ℕ)
    → c.min_backoff ≤ c.max_backoff
    → c.min_backoff ≤ backoff
    → (c.min_backoff ≤ next_backoff c backoff frames)
      × (next_backoff c backoff frames ≤ c.max_backoff)
unfolding next_backoff
next_backoff_bounds c backoff frames h lo = ground arith

waits_bounds :
    (c : Config) (backoff : ℕ) (connections : List ℕ)
    → c.min_backoff ≤ c.max_backoff
    → c.min_backoff ≤ backoff
    → All (λ w. (c.min_backoff ≤ w) × (w ≤ c.max_backoff)) (waits c backoff connections)
unfolding waits
waits_bounds c backoff [] h lo = tt
waits_bounds c backoff (frames ∷ rest) h lo =
    let b = next_backoff_bounds c backoff frames h lo in
    (b, waits_bounds c (next_backoff c backoff frames) rest h b.0)

-- Every wait of the upstream client between two connections is within the bounds of its
-- configuration, when these are in order.
pub run_bounds :
    (c : Config) (connections : List ℕ)
    → c.min_backoff ≤ c.max_backoff
    → All (λ w. (c.min_backoff ≤ w) × (w ≤ c.max_backoff)) (run c connections)
unfolding run
run_bounds c connections h = waits_bounds c c.min_backoff connections h (omega arith)

abbrev pub failures : ℕ → List ℕ
failures zero = []
failures (suc n) = 0 ∷ failures n

capped_double : (b p m : ℕ) → 0 < p → min (min (b * 2) m * p) m ≡ min (b * (p * 2)) m
capped_double b p m h = elim (dec_le (b * 2) m) [
  | yes small ↦ let e : min (b * 2) m ≡ b * 2 = omega arith in rw e (omega arith)
  | no large ↦
      let e : min (b * 2) m ≡ m = omega arith in
      rw e (omega (arith, mul-le-mul_left (b * 2) h, mul-le-mul_left m h))
]

two_pow_pos : (k : ℕ) → 0 < 2 ^ k
two_pow_pos zero = omega arith
two_pow_pos (suc k) = omega (arith, two_pow_pos k, pow-suc 2 k)

waits_failing :
    (c : Config) (n k b : ℕ)
    → k < n
    → get_elem? (waits c b (failures n)) k ≡ some (min (b * 2 ^ suc k) c.max_backoff)
unfolding waits next_backoff
waits_failing c zero k b h = absurd (omega arith)
waits_failing c (suc n) zero b h = ground arith
waits_failing c (suc n) (suc k) b h =
    waits_failing c n k (min (b * 2) c.max_backoff) (omega arith)
    ∙ ap some (
        capped_double b (2 ^ suc k) c.max_backoff (two_pow_pos (suc k))
        ∙ ap (λ t. min (b * t) c.max_backoff) (sym (pow-suc 2 (suc k))))

-- While no connection of the upstream client delivers a frame, its waits double from the minimum
-- on up to the maximum.
pub run_failing :
    (c : Config) (n k : ℕ)
    → k < n
    → get_elem? (run c (failures n)) k ≡ some (min (c.min_backoff * 2 ^ suc k) c.max_backoff)
unfolding run
run_failing c n k h = waits_failing c n k c.min_backoff h

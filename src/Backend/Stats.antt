-- ===== src/Backend/Stats.antt =====
-- internal/server/stats.go: the frame counters of one connection. A uint64 wraps.
use instachron.Base.{ℕ, ◌+◌, ◌%◌, ◌^◌, ◌<◌, ◌≡◌, refl, ◌∙◌, ap, arith, Option, none, some}
use instachron.Base.{
  List, [], ◌∷◌, length, Map, lookup, insert, nat_instance, lookup-insert, ◌==◌, count_if,
}

abbrev pub Counts : Type 0
Counts = Map ℕ ℕ

abbrev pub or_zero : Option ℕ → ℕ
or_zero none = 0
or_zero (some n) = n

-- s.byCamera[cameraID]++
pub record_frame : ℕ → Counts → Counts
record_frame id counts = insert id ((or_zero (lookup id counts) + 1) % 2 ^ 64) counts

abbrev sum_counts : Counts → ℕ
sum_counts [] = 0
sum_counts ((id, n) ∷ rest) = (n + sum_counts rest) % 2 ^ 64

-- The total and the counts of a report, or nothing where no frame came in; the map is cleared.
pub log_and_reset : Counts → Option (ℕ × Counts) × Counts
log_and_reset [] = (none, [])
log_and_reset (c ∷ counts) = (some (sum_counts (c ∷ counts), c ∷ counts), [])

pub record_all : List ℕ → Counts → Counts
record_all [] counts = counts
record_all (id ∷ ids) counts = record_all ids (record_frame id counts)

record_all_count :
    (ids : List ℕ) (id : ℕ) (counts : Counts)
    → or_zero (lookup id counts) < 2 ^ 64
    → or_zero (lookup id (record_all ids counts))
      ≡ (or_zero (lookup id counts) + count_if (λ x. x == id) ids) % 2 ^ 64
unfolding record_all record_frame
record_all_count [] id counts h = omega arith
record_all_count (x ∷ ids) id counts h = ground (
  arith,
  lookup-insert x id ((or_zero (lookup x counts) + 1) % 2 ^ 64) counts,
  record_all_count ids id (record_frame x counts),
)

sum_counts-insert :
    (id : ℕ) (counts : Counts)
    → sum_counts (record_frame id counts) ≡ (sum_counts counts + 1) % 2 ^ 64
unfolding record_frame insert lookup
sum_counts-insert id [] = refl
sum_counts-insert id ((j, n) ∷ counts) = ground (arith, sum_counts-insert id counts)

record_all_sum :
    (ids : List ℕ) (counts : Counts)
    → sum_counts counts < 2 ^ 64
    → sum_counts (record_all ids counts) ≡ (sum_counts counts + length ids) % 2 ^ 64
unfolding record_all
record_all_sum [] counts h = omega arith
record_all_sum (x ∷ ids) counts h =
    let e = sum_counts-insert x counts in
    omega (arith, e, record_all_sum ids (record_frame x counts) (omega (arith, e)))

report-some :
    (counts : Counts)
    → 0 < length counts
    → log_and_reset counts ≡ (some (sum_counts counts, counts), [])
unfolding log_and_reset
report-some [] h = absurd (omega arith)
report-some (c ∷ counts) h = refl

length-record_frame : (id : ℕ) (counts : Counts) → 0 < length (record_frame id counts)
unfolding record_frame insert
length-record_frame id [] = omega arith
length-record_frame id ((j, n) ∷ counts) = ground arith

length-record_all :
    (ids : List ℕ) (counts : Counts) → 0 < length counts → 0 < length (record_all ids counts)
unfolding record_all
length-record_all [] counts h = h
length-record_all (x ∷ ids) counts h =
    length-record_all ids (record_frame x counts) (length-record_frame x counts)

length-record_all_cons :
    (x : ℕ) (ids : List ℕ) (counts : Counts) → 0 < length (record_all (x ∷ ids) counts)
unfolding record_all
length-record_all_cons x ids counts =
    length-record_all ids (record_frame x counts) (length-record_frame x counts)

-- When at least one frame was recorded, logAndReset reports how many were, in all and for each
-- camera, modulo 2 ^ 64, and leaves nothing behind.
pub log_and_reset-record_all :
    (x : ℕ) (ids : List ℕ)
    → (report : Counts) × (log_and_reset (record_all (x ∷ ids) [])
        ≡ (some (length (x ∷ ids) % 2 ^ 64, report), []))
      × ((id : ℕ) → or_zero (lookup id report) ≡ count_if (λ y. y == id) (x ∷ ids) % 2 ^ 64)
log_and_reset-record_all x ids =
    let report = record_all (x ∷ ids) [] in
    let total = record_all_sum (x ∷ ids) [] (omega arith) in
    let some_counts = length-record_all_cons x ids [] in
    (
      report,
      report-some report some_counts ∙ ap (λ n. (some (n, report), [])) (total ∙ start_sum),
      λ id. record_all_count (x ∷ ids) id [] (unfold lookup in omega arith) ∙ start_count id,
    )
  where
    start_sum : (sum_counts [] + length (x ∷ ids)) % 2 ^ 64 ≡ length (x ∷ ids) % 2 ^ 64
    start_sum = omega arith

    start_count :
        (id : ℕ)
        → (or_zero (lookup id []) + count_if (λ y. y == id) (x ∷ ids)) % 2 ^ 64
          ≡ count_if (λ y. y == id) (x ∷ ids) % 2 ^ 64
    start_count id = unfold lookup in omega arith

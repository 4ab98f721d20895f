-- ===== src/Wire/BigEndian.antt =====
-- binary.BigEndian: PutUint16, PutUint32, PutUint64 and their readers, for any number of bytes.
use instachron.Base.{ℕ, zero, suc, ◌+◌, ◌*◌, ◌/◌, ◌%◌, ◌^◌, ◌<◌, ◌≡◌, refl, arith}
use instachron.Base.{List, [], ◌∷◌, ◌++◌, length, length-append, All, All-append}
use native.Mathlib.Nat.{pow-suc}

abbrev pub IsByte : ℕ → Type 0
IsByte b = b < 256

-- The `k` low bytes of `v`, the highest first.
unfoldable pub put_be : ℕ → ℕ → List ℕ
put_be zero v = []
put_be (suc k) v = put_be k (v / 256) ++ (v % 256 ∷ [])

get_be_loop : ℕ → List ℕ → ℕ
get_be_loop acc [] = acc
get_be_loop acc (b ∷ bs) = get_be_loop (acc * 256 + b) bs

unfoldable pub get_be : List ℕ → ℕ
unfolding get_be_loop
get_be bs = get_be_loop 0 bs

get_be_loop-append :
    (acc : ℕ) (bs : List ℕ) (b : ℕ)
    → get_be_loop acc (bs ++ (b ∷ [])) ≡ get_be_loop acc bs * 256 + b
unfolding get_be_loop
get_be_loop-append acc [] b = refl
get_be_loop-append acc (x ∷ bs) b = get_be_loop-append (acc * 256 + x) bs b

div-lt : (p v : ℕ) → v < p * 256 → v / 256 < p
div-lt p v h = omega arith

get_be-append : (bs : List ℕ) (b : ℕ) → get_be (bs ++ (b ∷ [])) ≡ get_be bs * 256 + b
unfolding get_be
get_be-append bs b = get_be_loop-append 0 bs b

get_be-put_be_step :
    (k v : ℕ) → get_be (put_be k (v / 256)) ≡ v / 256 → get_be (put_be (suc k) v) ≡ v
unfolding put_be
get_be-put_be_step k v h = omega (arith, get_be-append (put_be k (v / 256)) (v % 256))

pub get_be-put_be : (k v : ℕ) → v < 256 ^ k → get_be (put_be k v) ≡ v
get_be-put_be zero v h = unfold get_be put_be in omega arith
get_be-put_be (suc k) v h =
    get_be-put_be_step k v
      (get_be-put_be k (v / 256) (div-lt (256 ^ k) v (omega (arith, pow-suc 256 k))))

pub length-put_be : (k v : ℕ) → length (put_be k v) ≡ k
unfolding put_be
length-put_be zero v = refl
length-put_be (suc k) v =
    omega (arith, length-append (put_be k (v / 256)) (v % 256 ∷ []), length-put_be k (v / 256))

pub put_be-IsByte : (k v : ℕ) → All IsByte (put_be k v)
unfolding put_be
put_be-IsByte zero v = tt
put_be-IsByte (suc k) v =
    All-append IsByte (put_be k (v / 256)) (v % 256 ∷ []) (put_be-IsByte k (v / 256)) (omega arith)

-- ===== src/Text.antt =====
-- Go strings: their bytes, equality, order and prefix tests.
use Prim.Native.Char.{code}
use Prim.Native.String.{String}
use instachron.Base.{ℕ, ◌-◌, ◌≡◌, refl, arith, Bool, true, false, ◌&&◌}
use instachron.Base.{ltb, ◌==◌, List, [], ◌∷◌, ◌↔◌, ◌||◌, length, drop, Eq}

abbrev pub Text : Type 0
Text = List ℕ

abbrev pub codes : String → Text
codes String.[] = []
codes (String.◌∷◌ c s) = code c ∷ codes s

unfoldable pub text_eq : Text → Text → Bool
text_eq [] [] = true
text_eq [] (b ∷ y) = false
text_eq (a ∷ x) [] = false
text_eq (a ∷ x) (b ∷ y) = let rest = text_eq x y in a == b && rest

text_eq→eq : (x y : Text) → text_eq x y ≡ true → x ≡ y
unfolding text_eq
text_eq→eq [] [] h = refl
text_eq→eq [] (b ∷ y) h = cc
text_eq→eq (a ∷ x) [] h = cc
text_eq→eq (a ∷ x) (b ∷ y) h = ground (arith, text_eq→eq x y)

text_eq_refl : (x : Text) → text_eq x x ≡ true
unfolding text_eq
text_eq_refl [] = refl
text_eq_refl (a ∷ x) = ground (arith, text_eq_refl x)

pub text_eq_iff : (x y : Text) → (text_eq x y ≡ true) ↔ (x ≡ y)
text_eq_iff x y = (text_eq→eq x y, λ e. rw e (text_eq_refl y))

instance abbrev pub text_instance : Eq Text
text_instance = record { beq = text_eq; beq_iff = text_eq_iff }

-- `x < y` on strings.
unfoldable pub text_ltb : Text → Text → Bool
text_ltb x [] = false
text_ltb [] (b ∷ y) = true
text_ltb (a ∷ x) (b ∷ y) = let rest = text_ltb x y in ltb a b || (a == b && rest)

-- strings.HasPrefix and HasSuffix.
unfoldable pub has_prefix : Text → Text → Bool
has_prefix s [] = true
has_prefix [] (p ∷ ps) = false
has_prefix (c ∷ s) (p ∷ ps) = let rest = has_prefix s ps in c == p && rest

unfoldable pub has_suffix : Text → Text → Bool
has_suffix s p = text_eq (drop (length s - length p) s) p

unfoldable pub contains : Text → ℕ → Bool
contains [] b = false
contains (c ∷ s) b = let rest = contains s b in c == b || rest

pub text_ltb_asymmetric : (x y : Text) → text_ltb x y ≡ true → text_ltb y x ≡ false
unfolding text_ltb
text_ltb_asymmetric [] [] h = refl
text_ltb_asymmetric (a ∷ x) [] h = cc
text_ltb_asymmetric [] (b ∷ y) h = refl
text_ltb_asymmetric (a ∷ x) (b ∷ y) h = ground (arith, text_ltb_asymmetric x y)

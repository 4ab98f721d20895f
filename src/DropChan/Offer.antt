-- ===== src/DropChan/Offer.antt =====
-- The other policy that the services use: `select { case ch <- v: default: }` with nothing taken
-- out, as in livefeed's Hub.Push and in the publisher's fanOut. A full channel loses the new value.
use mathlib.Core.List.{Sublist}
use mathlib.Core.List.Sublist
use instachron.Base.{ℕ, zero, suc, ◌≤◌, ◌<◌, ◌≡◌, refl, sym, ◌∙◌, ap, arith, none, some}
use instachron.Base.{List, [], ◌∷◌, ◌++◌, length, length-append, take}
use instachron.DropChan.{try_send}
use native.Mathlib.Decide.{dec_lt}
use mathlib.Core.List.{append_assoc, append-nil}

module _ {A : Type 0} where
  unfoldable pub offer : ℕ → A → List A → List A
  unfolding try_send
  offer cap v queue = elim (try_send cap v queue) [ none ↦ queue | some queue' ↦ queue' ]

  unfoldable pub offer_all : ℕ → List A → List A → List A
  offer_all cap [] queue = queue
  offer_all cap (v ∷ vs) queue = offer_all cap vs (offer cap v queue)

  take_all : (n : ℕ) (xs : List A) → length xs ≤ n → take n xs ≡ xs
  take_all zero [] h = refl
  take_all zero (x ∷ xs) h = absurd (omega arith)
  take_all (suc n) [] h = refl
  take_all (suc n) (x ∷ xs) h = ap (◌∷◌ x) (take_all n xs (omega arith))

  take-append_full : (n : ℕ) (xs ys : List A) → n ≤ length xs → take n (xs ++ ys) ≡ take n xs
  take-append_full zero xs ys h = refl
  take-append_full (suc n) [] ys h = absurd (omega arith)
  take-append_full (suc n) (x ∷ xs) ys h = ap (◌∷◌ x) (take-append_full n xs ys (omega arith))

  pub length-offer :
      (cap : ℕ) (v : A) (queue : List A) → length queue ≤ cap → length (offer cap v queue) ≤ cap
  unfolding offer
  length-offer cap v queue fits = ground (arith, length-append queue (v ∷ []))

  offer_all_step :
      (cap : ℕ) (v : A) (vs queue : List A)
      → offer_all cap (v ∷ vs) queue ≡ offer_all cap vs (offer cap v queue)
  unfolding offer_all
  offer_all_step cap v vs queue = refl

  offer_room :
      (cap : ℕ) (v : A) (queue : List A)
      → length queue < cap
      → offer cap v queue ≡ queue ++ (v ∷ [])
  unfolding offer
  offer_room cap v queue h = ground arith

  offer_full : (cap : ℕ) (v : A) (queue : List A) → cap ≤ length queue → offer cap v queue ≡ queue
  unfolding offer
  offer_full cap v queue h = ground arith

  -- What an offer leaves is in order, and nothing is in it twice.
  pub offer-Sublist :
      (cap : ℕ) (v : A) (queue : List A) → Sublist (offer cap v queue) (queue ++ (v ∷ []))
  offer-Sublist cap v queue = elim (dec_lt (length queue) cap) [
    | yes room ↦ rw (offer_room cap v queue room) (Sublist.refl (queue ++ (v ∷ [])))
    | no full ↦ rw (offer_full cap v queue (omega arith)) (
        rw (append-nil queue) at
          (Sublist.append (Sublist.refl queue) (Sublist.cons v (Sublist.refl []))))
  ]

  -- Offers to a channel within its capacity, while nobody receives, leave the first values that
  -- fit: the later ones are lost.
  pub offer_all-take :
      (cap : ℕ) (vs queue : List A)
      → length queue ≤ cap
      → offer_all cap vs queue ≡ take cap (queue ++ vs)
  offer_all-take cap [] queue fits =
      unfold offer_all in rw append-nil (sym (take_all cap queue fits))
  offer_all-take cap (v ∷ vs) queue fits =
      offer_all_step cap v vs queue ∙ elim (dec_lt (length queue) cap) [
        | yes room ↦ rw (offer_room cap v queue room) (
            offer_all-take cap vs (queue ++ (v ∷ [])) (omega (arith, length-append queue (v ∷ [])))
            ∙ ap (take cap) (append_assoc queue (v ∷ []) vs))
        | no full ↦
            let top : cap ≤ length queue = omega arith in
            rw (offer_full cap v queue top) (
              offer_all-take cap vs queue fits
              ∙ take-append_full cap queue vs top
              ∙ sym (take-append_full cap queue (v ∷ vs) top))
      ]

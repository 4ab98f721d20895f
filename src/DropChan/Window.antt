-- ===== src/DropChan/Window.antt =====
-- The abstract view of a drop-oldest queue: a window on the last values that were sent.
use instachron.Base.{drop-nil}
use mathlib.Core.List.{append-nil}
use instachron.Base.{sym, drop-append_le, drop-drop}
use instachron.Base.{ℕ, ◌+◌, ◌-◌, ◌≤◌, ◌<◌, ◌≡◌, refl, ◌∙◌, ap, arith}
use instachron.Base.{
  List, [], ◌∷◌, ◌++◌, length, length-append, drop, length-drop, ltb, if◌then◌else◌,
}
use instachron.DropChan.{Outcome, delivered, replaced_oldest, lost, send}
use mathlib.Core.List.{append_assoc}

module _ {A : Type 0} where
  -- The last `cap` values.
  abbrev pub window : ℕ → List A → List A
  window cap xs = drop (length xs - cap) xs

  -- One Send on a queue within its capacity: the queue is the window on what it would have been,
  -- the value is in it, and the outcome says whether the oldest one went.
  pub send-window :
      (cap : ℕ) (v : A) (queue : List A)
      → 0 < cap
      → length queue ≤ cap
      → send cap v queue ≡ (
        (if ltb (length queue) cap then delivered else replaced_oldest),
        window cap (queue ++ (v ∷ [])),
      )
  unfolding send
  send-window cap v [] pos fits = ground arith
  send-window cap v (x ∷ queue) pos fits =
      ground (arith, length-append queue (v ∷ []), length-append (x ∷ queue) (v ∷ []))

  pub window_fits : (cap : ℕ) (xs : List A) → length xs ≤ cap → window cap xs ≡ xs
  window_fits cap xs fits = let e : length xs - cap ≡ 0 = omega arith in rw e refl

  pub length-window : (cap : ℕ) (xs : List A) → length (window cap xs) ≤ cap
  length-window cap xs = omega (arith, length-drop (length xs - cap) xs)

  pub window-append :
      (cap : ℕ) (xs ys : List A) → window cap (window cap xs ++ ys) ≡ window cap (xs ++ ys)
  window-append cap xs ys =
      let n = length xs - cap in
      let k = length (drop n xs ++ ys) - cap in
      ap (drop k) (sym (drop-append_le n xs ys (omega arith)))
      ∙ drop-drop k n (xs ++ ys)
      ∙ ap (λ j. drop j (xs ++ ys))
          (omega (arith, length-append (drop n xs) ys, length-append xs ys, length-drop n xs))

  -- One producer and no consumer: the sends of `values`, and how many of them reported a loss.
  unfoldable pub send_all : ℕ → List A → ℕ × List A → ℕ × List A
  send_all cap [] s = s
  send_all cap (v ∷ values) (count, queue) =
      let (outcome, queue') = send cap v queue in
      send_all cap values ((if lost outcome then count + 1 else count), queue')

  send_all_step :
      (cap : ℕ) (v : A) (values : List A) (count : ℕ) (queue queue' : List A) (o : Outcome)
      → send cap v queue ≡ (o, queue')
      → send_all cap (v ∷ values) (count, queue)
        ≡ send_all cap values ((if lost o then count + 1 else count), queue')
  unfolding send_all
  send_all_step cap v values count queue queue' o e = ground arith

  -- The count that a send leaves, when the values before it were `before`.
  count_step :
      (cap : ℕ) (before : List A) (v : A) (count : ℕ)
      → count ≡ length before - cap
      → (if lost (if ltb (length (window cap before)) cap then delivered else replaced_oldest)
          then count + 1
          else count)
        ≡ length (before ++ (v ∷ [])) - cap
  unfolding lost
  count_step cap before v count e =
      ground (arith, length-append before (v ∷ []), length-drop (length before - cap) before)

  send_all_from :
      (cap : ℕ) (before values : List A) (count : ℕ)
      → 0 < cap
      → count ≡ length before - cap
      → send_all cap values (count, window cap before)
        ≡ (length (before ++ values) - cap, window cap (before ++ values))
  send_all_from cap before [] count pos e = unfold send_all in rw (append-nil before, e)
  send_all_from cap before (v ∷ values) count pos e =
      let q = window cap before in
      let sent = send-window cap v q pos (length-window cap before) in
      send_all_step cap v values count q _ _ sent
      ∙ rw (window-append cap before (v ∷ []), ← append_assoc before (v ∷ []) values)
          (send_all_from cap (before ++ (v ∷ [])) values _ pos (count_step cap before v count e))

  -- Sends of any values to a fresh channel of positive capacity, while nobody receives, leave the
  -- last values that fit, oldest first, and report a loss exactly as often as values are missing.
  pub send_all-window :
      (cap : ℕ) (values : List A)
      → 0 < cap
      → send_all cap values (0, []) ≡ (length values - cap, window cap values)
  send_all-window cap values pos =
      rw (drop-nil (0 - cap)) at (send_all_from cap [] values 0 pos (omega arith))

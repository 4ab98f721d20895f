-- ===== src/DropChan.antt =====
-- shared/dropchan/dropchan.go: Send, which never blocks and makes room by throwing away the oldest
-- value. A channel is its buffer; no receiver waits on a full one, and nobody closes it.
pub mod Window
pub mod Concurrent
pub mod Offer
use instachron.Base.{ℕ, ◌+◌, ◌<◌, Bool, true, false, not, Option, none, some, ltb, if◌then◌else◌}
use instachron.Base.{List, [], ◌∷◌, ◌++◌, length}

pub data Outcome : Type 0 where
  delivered replaced_oldest dropped : Outcome

unfoldable pub lost : Outcome → Bool
lost delivered = false
lost _ = true

module _ {A : Type 0} where
  -- select { case ch <- v: ... default: ... }
  unfoldable pub try_send : ℕ → A → List A → Option (List A)
  try_send cap v queue = if ltb (length queue) cap then some (queue ++ (v ∷ [])) else none

  -- select { case <-ch: ... default: ... }
  unfoldable pub try_receive : List A → Bool × List A
  try_receive [] = (false, [])
  try_receive (x ∷ queue) = (true, queue)

  -- The last select of Send: `displaced` says whether the middle one took a value out.
  unfoldable pub send_again : ℕ → A → Bool → List A → Outcome × List A
  unfolding try_send
  send_again cap v displaced queue = elim (try_send cap v queue) [
    | some queue' ↦ ((if displaced then replaced_oldest else delivered), queue')
    | none ↦ (dropped, queue)
  ]

  -- Send, where `between` and `later` are what other goroutines do to the buffer between its three
  -- selects.
  unfoldable pub send_among :
      (List A → List A) → (List A → List A) → ℕ → A → List A → Outcome × List A
  unfolding try_send try_receive send_again
  send_among between later cap v queue = elim (try_send cap v queue) [
    | some queue' ↦ (delivered, queue')
    | none ↦
        let (displaced, rest) = try_receive (between queue) in
        send_again cap v displaced (later rest)
  ]

  -- Send with nobody in between.
  unfoldable pub send : ℕ → A → List A → Outcome × List A
  unfolding send_among
  send = send_among (λ q. q) (λ q. q)

-- ===== src/DropChan/Concurrent.antt =====
-- Send from many goroutines at once: its three selects as steps that interleave with those of the
-- other producers and with a consumer.
use instachron.Base.{ℕ, suc, ◌+◌, ◌≤◌, ◌<◌, ◌≡◌, ◌≢◌, refl, arith, Bool, true, false, none, some}
use instachron.Base.{List, [], ◌∷◌, length, length-append, drop, length-drop}
use instachron.DropChan.{
  Outcome, delivered, replaced_oldest, dropped, try_send, try_receive, send_again, send_among,
}

-- The buffer; how many producers found it full and have not yet made room, have taken a value out,
-- or have found nothing to take out; and the outcomes and the values so far.
pub record State (A : Type 0) : Type 0 where
  pub queue : List A
  pub full : ℕ
  pub displacing : ℕ
  pub empty_handed : ℕ
  pub delivered_count : ℕ
  pub replaced_count : ℕ
  pub dropped_count : ℕ
  pub displaced : ℕ
  pub received : ℕ

module _ {A : Type 0} where
  unfoldable pub start : State A
  start = record {
    queue = [];
    full = 0;
    displacing = 0;
    empty_handed = 0;
    delivered_count = 0;
    replaced_count = 0;
    dropped_count = 0;
    displaced = 0;
    received = 0;
  }

  -- The first select succeeds, or finds the channel full.
  pub sends : State A → List A → State A
  sends s queue = record s { queue = queue; delivered_count = s.delivered_count + 1 }

  pub finds_full : State A → State A
  finds_full s = record s { full = s.full + 1 }

  -- The second select takes the oldest value out, or finds the channel drained.
  pub displaces : State A → ℕ → List A → State A
  displaces s full queue = record s {
    full = full;
    queue = queue;
    displacing = s.displacing + 1;
    displaced = s.displaced + 1;
  }

  pub finds_empty : State A → ℕ → State A
  finds_empty s full = record s { full = full; empty_handed = s.empty_handed + 1 }

  -- The third select, for a producer that has displaced a value and for one that has not.
  count_outcome : Outcome → State A → State A
  count_outcome delivered s = record s { delivered_count = s.delivered_count + 1 }
  count_outcome replaced_oldest s = record s { replaced_count = s.replaced_count + 1 }
  count_outcome dropped s = record s { dropped_count = s.dropped_count + 1 }

  pub ends_displacing : State A → ℕ → Outcome × List A → State A
  unfolding count_outcome
  ends_displacing s displacing (o, queue) =
      count_outcome o (record s { displacing = displacing; queue = queue })

  pub ends_empty_handed : State A → ℕ → Outcome × List A → State A
  unfolding count_outcome
  ends_empty_handed s empty_handed (o, queue) =
      count_outcome o (record s { empty_handed = empty_handed; queue = queue })

  pub receives : State A → List A → State A
  receives s queue = record s { queue = queue; received = s.received + 1 }

  pub data Step (limit : ℕ) (s : State A) : State A → Type 0 where
    send_ok : (v : A) (q : List A) → try_send limit v s.queue ≡ some q → Step limit s (sends s q)
    send_full : (v : A) → try_send limit v s.queue ≡ none → Step limit s (finds_full s)
    make_room :
        (n : ℕ) (q : List A)
        → s.full ≡ suc n
        → try_receive s.queue ≡ (true, q)
        → Step limit s (displaces s n q)
    no_need :
        (n : ℕ) (q : List A)
        → s.full ≡ suc n
        → try_receive s.queue ≡ (false, q)
        → Step limit s (finds_empty s n)
    end_displacing :
        (v : A) (n : ℕ)
        → s.displacing ≡ suc n
        → Step limit s (ends_displacing s n (send_again limit v true s.queue))
    end_empty_handed :
        (v : A) (n : ℕ)
        → s.empty_handed ≡ suc n
        → Step limit s (ends_empty_handed s n (send_again limit v false s.queue))
    receive : (q : List A) → try_receive s.queue ≡ (true, q) → Step limit s (receives s q)

  pub data Reach (limit : ℕ) (s : State A) : State A → Type 0 where
    here : Reach limit s s
    next : {t u : State A} → Reach limit s t → Step limit t u → Reach limit s u

  -- Within the capacity; every value that went in is in the buffer, received or displaced; every
  -- displaced value belongs to a send that replaced it, is about to, or was dropped as well.
  pub record Inv (limit : ℕ) (s : State A) : Type 0 where
    pub bounded : length s.queue ≤ limit
    pub conserved : s.delivered_count + s.replaced_count ≡ length s.queue + s.received + s.displaced
    pub replaced_le : s.replaced_count + s.displacing ≤ s.displaced
    pub displaced_le : s.displaced ≤ s.replaced_count + s.displacing + s.dropped_count

  try_receive-cases :
      (b : Bool) (q r : List A) → try_receive q ≡ (b, r) → (b ≡ true) → length q ≡ length r + 1
  unfolding try_receive
  try_receive-cases b [] r e h = cc
  try_receive-cases b (x ∷ q) r e h = ground arith

  Step-Inv : (limit : ℕ) (s t : State A) → Step limit s t → Inv limit s → Inv limit t
  Step-Inv limit s t (send_ok v q e) i =
      unfold sends try_send in ground (arith, length-append s.queue (v ∷ []))
  Step-Inv limit s t (send_full v e) i = unfold finds_full in ground arith
  Step-Inv limit s t (make_room n q e r) i =
      unfold displaces in ground (arith, try_receive-cases true s.queue q r refl)
  Step-Inv limit s t (no_need n q e r) i = unfold finds_empty in ground arith
  Step-Inv limit s t (end_displacing v n e) i =
      unfold ends_displacing send_again in ground (arith, length-append s.queue (v ∷ []))
  Step-Inv limit s t (end_empty_handed v n e) i =
      unfold ends_empty_handed send_again in ground (arith, length-append s.queue (v ∷ []))
  Step-Inv limit s t (receive q r) i =
      unfold receives in ground (arith, try_receive-cases true s.queue q r refl)

  -- In any interleaving of the selects of any number of Sends with a receiver, the buffer stays
  -- within its capacity; the values counted as delivered or replaced are those in the buffer,
  -- received or displaced; and each displaced value belongs to a send that replaced it, is about
  -- to, or was dropped.
  pub reachable-Inv : (limit : ℕ) (s : State A) → Reach limit start s → Inv limit s
  reachable-Inv limit s here = unfold start in omega arith
  reachable-Inv limit s (next {t} r st) = Step-Inv limit t s st (reachable-Inv limit t r)

  try_receive_room :
      (limit : ℕ) (q : List A) → 0 < limit → length q ≤ limit → length (try_receive q).1 < limit
  unfolding try_receive
  try_receive_room limit [] pos fits = pos
  try_receive_room limit (x ∷ q) pos fits = omega arith

  send_again_room :
      (limit : ℕ) (v : A) (b : Bool) (q : List A)
      → length q < limit
      → ((send_again limit v b q).0 ≢ dropped) × (length (send_again limit v b q).1 ≤ limit)
  unfolding send_again
  send_again_room limit v true q room = ground (arith, length-append q (v ∷ []))
  send_again_room limit v false q room = ground (arith, length-append q (v ∷ []))

  -- A Send on a channel of positive capacity is never reported as dropped, and keeps the buffer
  -- within the capacity, when the others only receive between its selects.
  pub send_among-ne-dropped :
      (limit : ℕ) (v : A) (queue : List A) (j k : ℕ)
      → 0 < limit
      → length queue ≤ limit
      → ((send_among (drop j) (drop k) limit v queue).0 ≢ dropped)
        × (length (send_among (drop j) (drop k) limit v queue).1 ≤ limit)
  unfolding send_among
  send_among-ne-dropped limit v queue j k pos fits =
      let rest = (try_receive (drop j queue)).1 in
      let b = (try_receive (drop j queue)).0 in
      ground (
        arith,
        length-append queue (v ∷ []),
        length-drop j queue,
        length-drop k rest,
        try_receive_room limit (drop j queue) pos,
        send_again_room limit v b (drop k rest),
      )

-- ===== src/Mailbox.antt =====
-- include/engine/threading: latestValue.hpp and threadSafeQueue.hpp, the two ways in which threads
-- hand values over. Every method holds the mutex for its whole body, so threads that share one of
-- them take turns at whole methods.
pub mod Queue
pub mod Told
pub mod Latest
pub mod Tests
use gef_engine.Prelude.{
  ℕ, ◌+◌, ◌%◌, ◌^◌, Bool, true, false, not, ◌&&◌, List, [], ◌∷◌, ◌++◌, Option, none, some, length,
  if◌then◌else◌, ◌==◌,
}

-- LatestValue<T>
pub record LatestValue (T : Type 0) : Type 0 where
  pub slot : Option T
  pub published : ℕ
  pub overwritten : ℕ

abbrev pub empty_slot : {T : Type 0} → LatestValue T
empty_slot = record { slot = none; published = 0; overwritten = 0 }

unfoldable pub has_pending : {T : Type 0} → LatestValue T → Bool
has_pending l = elim l.slot [ none ↦ false | some _ ↦ true ]

unfoldable pub publish : {T : Type 0} → T → LatestValue T → LatestValue T
unfolding has_pending
publish value l = record {
  slot = some value;
  published = (l.published + 1) % 2 ^ 64;
  overwritten = if has_pending l then (l.overwritten + 1) % 2 ^ 64 else l.overwritten;
}

unfoldable pub take_latest : {T : Type 0} → LatestValue T → Option T × LatestValue T
take_latest l = (l.slot, record l { slot = none })

-- ThreadSafeQueue<T>; a capacity of 0 is no bound.
pub record ThreadSafeQueue (T : Type 0) : Type 0 where
  pub queue : List T
  pub capacity : ℕ
  pub dropped : ℕ

unfoldable pub queue_of : {T : Type 0} → ℕ → ThreadSafeQueue T
queue_of capacity = record { queue = []; capacity = capacity; dropped = 0 }

-- `pop_front` of a queue that is not empty.
unfoldable pub pop_front : {T : Type 0} → List T → List T
pop_front [] = []
pop_front (x ∷ xs) = xs

-- push
unfoldable pub push : {T : Type 0} → T → ThreadSafeQueue T → ThreadSafeQueue T
unfolding pop_front
push value q =
    if not (q.capacity == 0) && (length q.queue == q.capacity)
    then record q { queue = pop_front q.queue ++ (value ∷ []); dropped = (q.dropped + 1) % 2 ^ 64 }
    else record q { queue = q.queue ++ (value ∷ []) }

-- popLocked: tryPop, and waitPop once its wait is over.
unfoldable pub pop : {T : Type 0} → ThreadSafeQueue T → Option T × ThreadSafeQueue T
pop q = elim q.queue [ [] ↦ (none, q) | x ∷ xs ↦ (some x, record q { queue = xs }) ]

unfoldable pub drain_all : {T : Type 0} → ThreadSafeQueue T → List T × ThreadSafeQueue T
drain_all q = (q.queue, record q { queue = [] })

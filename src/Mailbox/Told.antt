-- ===== src/Mailbox/Told.antt =====
-- include/engine/threading/threadSafeQueue.hpp: every history of a queue is told.
use gef_engine.Prelude.{
  ℕ, ◌+◌, ◌%◌, ◌^◌, ◌≡◌, refl, ap, subst, inl, inr, List, [], ◌∷◌, ◌++◌, not, ◌&&◌, true, ◌==◌,
  Bool-cases, length, arith, append-nil,
}
use gef_engine.Mailbox.{ThreadSafeQueue, queue_of, push, pop_front}
use gef_engine.Mailbox.Queue.{
  leave-IsTold, drain-IsTold, enter-IsTold, pop-IsTold, push_one, pop_one, drain, start, next, lost,
  List-cases, Use, Step, Reach, unused, IsTold, holding,
}

push_full :
    {T : Type 0} (x y : T) (ys : List T) (q : ThreadSafeQueue T)
    → (not (q.capacity == 0) && (length q.queue == q.capacity)) ≡ true
    → q.queue ≡ y ∷ ys
    → push x q ≡ holding (ys ++ (x ∷ [])) ((q.dropped + 1) % 2 ^ 64) q
unfolding push pop_front
push_full x y ys q full e = let front : pop_front q.queue ≡ ys = ap pop_front e in rw (full, front)

-- A push into a full queue is a departure and then an arrival.
push-IsTold :
    {T : Type 0} (capacity : ℕ) (u : Use T) (t : IsTold capacity u) (x : T)
    → IsTold capacity (record u { queue = push x u.queue; pushed = u.pushed ++ (x ∷ []) })
unfolding push
push-IsTold capacity u t x =
    let q = u.queue in
    elim (Bool-cases (not (q.capacity == 0) && (length q.queue == q.capacity))) [
      | inr room ↦
          rw (room, push)
            (enter-IsTold capacity u t x
              (λ c. ground (arith, room, c, t.bounded c, t.same_capacity)))
      | inl full ↦ elim (List-cases q.queue) [
        | inl e ↦ absurd (ground (arith, full, e))
        | inr (y, ys, e) ↦
            let dropped = (q.dropped + 1) % 2 ^ 64 in
            let left =
              leave-IsTold capacity u t (lost y ∷ []) ys dropped e (omega arith)
                (λ z. absurd (ground (arith, full, z, t.same_capacity)))
                (omega (arith, ap length e)) in
            rw (push_full x y ys q full e) (
              enter-IsTold capacity (record u { queue = holding ys dropped q })
                (subst
                  (λ l. IsTold capacity (record u { queue = holding ys dropped q; popped = l }))
                  (append-nil u.popped) left)
                x (λ c. omega (arith, t.bounded c, ap length e)))
      ]
    ]

Step-IsTold :
    {T : Type 0} (capacity : ℕ) {u v : Use T} → Step u v → IsTold capacity u → IsTold capacity v
Step-IsTold capacity (push_one u x) t = push-IsTold capacity u t x
Step-IsTold capacity (pop_one u) t = pop-IsTold capacity u t
Step-IsTold capacity (drain u) t = drain-IsTold capacity u t

-- However pushes, pops and drains follow one another, the elements pushed are those that left, in
-- order, and then those that wait, in order; what the pops and drains gave out are the former less
-- the ones dropped, which `dropped` counts. An unbounded queue drops nothing, and a bounded one
-- never holds more than its capacity.
pub Reach-IsTold :
    {T : Type 0} (capacity : ℕ) (u : Use T) → Reach (unused capacity) u → IsTold capacity u
unfolding queue_of
Reach-IsTold capacity u start = record {
  gone = [];
  same_capacity = refl;
  order = refl;
  outputs = refl;
  counted = refl;
  unbounded = λ _. refl;
  bounded = λ _. omega arith;
}
Reach-IsTold capacity u (next {t} r s) = Step-IsTold capacity s (Reach-IsTold capacity t r)

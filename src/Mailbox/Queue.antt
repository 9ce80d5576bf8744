-- ===== src/Mailbox/Queue.antt =====
-- ThreadSafeQueue: what it gives out against what was pushed.
use gef_engine.Prelude.{
  ℕ, suc, ◌+◌, ◌%◌, ◌^◌, ◌<◌, ◌≤◌, ◌≡◌, ◌≢◌, refl, sym, ap, subst, ◌∙◌, ◌⊎◌, inl, inr, List, [],
  ◌∷◌, ◌++◌, map, Option, none, some, length, arith, append_assoc, append-nil, length-append,
}
use gef_engine.Mailbox.{ThreadSafeQueue, queue_of, push, pop, drain_all}

-- What `pop` gives, as a list.
abbrev pub listed : {T : Type 0} → Option T → List T
listed none = []
listed (some x) = x ∷ []

pub List-cases : {T : Type 0} (xs : List T) → (xs ≡ []) ⊎ ((x : T) × (ys : List T) × (xs ≡ x ∷ ys))
List-cases [] = inl refl
List-cases (x ∷ xs) = inr (x, xs, refl)

-- A queue in use. `pushed` is all that was pushed, `popped` what was given out, in order, `lost` what
-- was dropped, in order.
pub record Use (T : Type 0) : Type 0 where
  pub queue : ThreadSafeQueue T
  pub pushed : List T
  pub popped : List T

pub data Step {T : Type 0} : Use T → Use T → Type 0 where
  push_one :
      (u : Use T) (x : T)
      → Step u (record u { queue = push x u.queue; pushed = u.pushed ++ (x ∷ []) })
  pop_one :
      (u : Use T)
      → Step u (record u { queue = (pop u.queue).1; popped = u.popped ++ listed (pop u.queue).0 })
  drain :
      (u : Use T)
      → Step u
          (record u { queue = (drain_all u.queue).1; popped = u.popped ++ (drain_all u.queue).0 })

pub data Reach {T : Type 0} (s : Use T) : Use T → Type 0 where
  start : Reach s s
  next : {t u : Use T} → Reach s t → Step t u → Reach s u

abbrev pub unused : {T : Type 0} → ℕ → Use T
unused capacity = record { queue = queue_of capacity; pushed = []; popped = [] }

-- How an element left the queue: handed out, or dropped to make room.
pub data Departure (T : Type 0) : Type 0 where
  given : T → Departure T
  lost : T → Departure T

abbrev pub departed : {T : Type 0} → List (Departure T) → List T
departed [] = []
departed (given x ∷ ds) = x ∷ departed ds
departed (lost x ∷ ds) = x ∷ departed ds

abbrev pub handed_out : {T : Type 0} → List (Departure T) → List T
handed_out [] = []
handed_out (given x ∷ ds) = x ∷ handed_out ds
handed_out (lost x ∷ ds) = handed_out ds

abbrev pub losses : {T : Type 0} → List (Departure T) → ℕ
losses [] = 0
losses (given x ∷ ds) = losses ds
losses (lost x ∷ ds) = suc (losses ds)

abbrev all_given : {T : Type 0} → List T → List (Departure T)
all_given = map given

module _ {T : Type 0} where
  departed-append : (ds es : List (Departure T)) → departed (ds ++ es) ≡ departed ds ++ departed es
  departed-append [] es = refl
  departed-append (given x ∷ ds) es = ap (λ l. x ∷ l) (departed-append ds es)
  departed-append (lost x ∷ ds) es = ap (λ l. x ∷ l) (departed-append ds es)

  handed_out-append :
      (ds es : List (Departure T)) → handed_out (ds ++ es) ≡ handed_out ds ++ handed_out es
  handed_out-append [] es = refl
  handed_out-append (given x ∷ ds) es = ap (λ l. x ∷ l) (handed_out-append ds es)
  handed_out-append (lost x ∷ ds) es = handed_out-append ds es

  losses-append : (ds es : List (Departure T)) → losses (ds ++ es) ≡ losses ds + losses es
  losses-append [] es = omega arith
  losses-append (given x ∷ ds) es = losses-append ds es
  losses-append (lost x ∷ ds) es = omega (arith, losses-append ds es)

  departed-given : (xs : List T) → departed (all_given xs) ≡ xs
  departed-given [] = refl
  departed-given (x ∷ xs) = ap (λ l. x ∷ l) (departed-given xs)

  handed_out-given : (xs : List T) → handed_out (all_given xs) ≡ xs
  handed_out-given [] = refl
  handed_out-given (x ∷ xs) = ap (λ l. x ∷ l) (handed_out-given xs)

  losses-given : (xs : List T) → losses (all_given xs) ≡ 0
  losses-given [] = refl
  losses-given (x ∷ xs) = losses-given xs

-- Where every element pushed has gone: it has left, in order, or it waits, in order.
pub record IsTold {T : Type 0} (capacity : ℕ) (u : Use T) : Type 0 where
  pub gone : List (Departure T)
  pub same_capacity : u.queue.capacity ≡ capacity
  pub order : u.pushed ≡ departed gone ++ u.queue.queue
  pub outputs : u.popped ≡ handed_out gone
  pub counted : u.queue.dropped ≡ losses gone % 2 ^ 64
  pub unbounded : capacity ≡ 0 → losses gone ≡ 0
  pub bounded : capacity ≢ 0 → length u.queue.queue ≤ capacity

-- The queue `q`, what it holds and has dropped replaced.
abbrev pub holding : {T : Type 0} → List T → ℕ → ThreadSafeQueue T → ThreadSafeQueue T
holding xs dropped q = record { queue = xs; capacity = q.capacity; dropped = dropped }

module _ {T : Type 0} (capacity : ℕ) (u : Use T) (t : IsTold capacity u) where
  -- The elements `ds` leave at the front.
  pub leave-IsTold :
      (ds : List (Departure T)) (rest : List T) (dropped : ℕ)
      → u.queue.queue ≡ departed ds ++ rest
      → dropped ≡ (u.queue.dropped + losses ds) % 2 ^ 64
      → (capacity ≡ 0 → losses ds ≡ 0)
      → length rest ≤ length u.queue.queue
      → IsTold capacity
          (record u { queue = holding rest dropped u.queue; popped = u.popped ++ handed_out ds })
  leave-IsTold ds rest dropped e n f le = record {
    gone = t.gone ++ ds;
    same_capacity = t.same_capacity;
    order =
        t.order
        ∙ (ap (λ l. departed t.gone ++ l) e
            ∙ (sym (append_assoc (departed t.gone) (departed ds) rest)
                ∙ ap (λ l. l ++ rest) (sym (departed-append t.gone ds))));
    outputs = ap (λ l. l ++ handed_out ds) t.outputs ∙ sym (handed_out-append t.gone ds);
    counted = omega (arith, n, t.counted, losses-append t.gone ds);
    unbounded = λ z. omega (arith, t.unbounded z, f z, losses-append t.gone ds);
    bounded = λ z. omega (arith, t.bounded z);
  }

  -- An element comes in where there is room.
  pub enter-IsTold :
      (x : T)
      → (capacity ≢ 0 → length u.queue.queue < capacity)
      → IsTold capacity (record u {
        queue = holding (u.queue.queue ++ (x ∷ [])) u.queue.dropped u.queue;
        pushed = u.pushed ++ (x ∷ []);
      })
  enter-IsTold x room = record {
    gone = t.gone;
    same_capacity = t.same_capacity;
    order = ap (λ l. l ++ (x ∷ [])) t.order ∙ append_assoc (departed t.gone) u.queue.queue (x ∷ []);
    outputs = t.outputs;
    counted = t.counted;
    unbounded = t.unbounded;
    bounded = λ z. omega (arith, room z, length-append u.queue.queue (x ∷ []));
  }

  pub pop-IsTold :
      IsTold capacity
        (record u { queue = (pop u.queue).1; popped = u.popped ++ listed (pop u.queue).0 })
  unfolding pop
  pop-IsTold = elim (List-cases u.queue.queue) [
    | inl e ↦ rw (e, pop) (rw (append-nil u.popped) t)
    | inr (x, xs, e) ↦
        rw (e, pop)
          (leave-IsTold (given x ∷ []) xs u.queue.dropped e (omega (arith, t.counted)) (λ _. refl)
            (omega (arith, ap length e)))
  ]

  pub drain-IsTold :
      IsTold capacity
        (record u { queue = (drain_all u.queue).1; popped = u.popped ++ (drain_all u.queue).0 })
  unfolding drain_all
  drain-IsTold =
      let q = u.queue.queue in
      subst
        (λ l.
          IsTold capacity
            (record u { queue = holding [] u.queue.dropped u.queue; popped = u.popped ++ l }))
        (handed_out-given q)
        (leave-IsTold (all_given q) [] u.queue.dropped
          (sym (append-nil (departed (all_given q)) ∙ departed-given q))
          (omega (arith, t.counted, losses-given q)) (λ _. losses-given q) (omega arith))

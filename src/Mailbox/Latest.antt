-- ===== src/Mailbox/Latest.antt =====
-- LatestValue: what it gives out against what was published.
use gef_engine.Prelude.{
  ◌+◌, ◌%◌, ◌^◌, ◌≡◌, refl, ap, List, [], ◌∷◌, ◌++◌, some, Option-cases, inl, inr, length, arith,
  length-append,
}
use gef_engine.Mailbox.{LatestValue, empty_slot, publish, take_latest, has_pending}
use gef_engine.Mailbox.Queue.{listed}

-- A mailbox in use, `sent` all that was published and `given` all that was taken.
pub record Use (T : Type 0) : Type 0 where
  pub box : LatestValue T
  pub sent : List T
  pub given : List T

pub data Step {T : Type 0} : Use T → Use T → Type 0 where
  publish_one :
      (u : Use T) (x : T) → Step u (record u { box = publish x u.box; sent = u.sent ++ (x ∷ []) })
  take_one :
      (u : Use T)
      → Step u (record u {
        box = (take_latest u.box).1;
        given = u.given ++ listed (take_latest u.box).0;
      })

pub data Reach {T : Type 0} (s : Use T) : Use T → Type 0 where
  start : Reach s s
  next : {t u : Use T} → Reach s t → Step t u → Reach s u

abbrev pub unused : {T : Type 0} → Use T
unused = record { box = empty_slot; sent = []; given = [] }

-- Every value published was taken, was overwritten or waits, and the one that waits is the newest.
pub record IsTold {T : Type 0} (u : Use T) : Type 0 where
  pub published : u.box.published ≡ length u.sent % 2 ^ 64
  pub accounted :
      u.box.published ≡ (length u.given + u.box.overwritten + length (listed u.box.slot)) % 2 ^ 64
  pub newest : (x : T) → u.box.slot ≡ some x → (before : List T) × (u.sent ≡ before ++ (x ∷ []))

publish-IsTold :
    {T : Type 0} (u : Use T) (x : T)
    → IsTold u
    → IsTold (record u { box = publish x u.box; sent = u.sent ++ (x ∷ []) })
unfolding publish has_pending
publish-IsTold {T} u x t = record {
  published = omega (arith, t.published, length-append u.sent (x ∷ []));
  accounted = elim (Option-cases u.box.slot) [
    | inl e ↦ ground (arith, t.accounted, e)
    | inr (y, e) ↦ ground (arith, t.accounted, e)
  ];
  newest = λ y e. (u.sent, ap (λ z. u.sent ++ (z ∷ [])) (cc));
}

take-IsTold :
    {T : Type 0} (u : Use T)
    → IsTold u
    → IsTold
        (record u { box = (take_latest u.box).1; given = u.given ++ listed (take_latest u.box).0 })
unfolding take_latest
take-IsTold u t = record {
  published = t.published;
  accounted = omega (arith, t.accounted, length-append u.given (listed u.box.slot));
  newest = λ y e. absurd cc;
}

-- Whatever publishes and takes follow one another: the counters account for every value, which was
-- taken, overwritten or still waits, and a take gives the value published last of all.
pub Reach-IsAccounted : {T : Type 0} (u : Use T) → Reach unused u → IsTold u
Reach-IsAccounted u start = record { published = refl; accounted = refl; newest = λ y e. absurd cc }
Reach-IsAccounted u (next r (publish_one t x)) = publish-IsTold t x (Reach-IsAccounted t r)
Reach-IsAccounted u (next r (take_one t)) = take-IsTold t (Reach-IsAccounted t r)

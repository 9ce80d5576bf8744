-- ===== src/Mailbox/Tests.antt =====
-- Runs of the mailboxes.
use gef_engine.Prelude.{ℕ, [], ◌∷◌}
use gef_engine.Mailbox.{queue_of, push, pop}
use gef_engine.Mailbox.Queue.{Use, IsTold, unused, push_one, pop_one, start, next}
use gef_engine.Mailbox.Told.{Reach-IsTold}

-- Three pushes into room for two, and a pop.
abbrev three : Use ℕ
three = record {
  queue = push 3 (push 2 (push 1 (unused 2).queue));
  pushed = 1 ∷ 2 ∷ 3 ∷ [];
  popped = [];
}

abbrev used : Use ℕ
used = record three { queue = (pop three.queue).1; popped = 2 ∷ [] }

Reach-IsTold_example : IsTold 2 used
unfolding push pop queue_of
Reach-IsTold_example =
    Reach-IsTold 2 used
      (next (next (next (next start (push_one _ 1)) (push_one _ 2)) (push_one _ 3)) (pop_one three))

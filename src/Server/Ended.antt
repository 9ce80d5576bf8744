-- ===== src/Server/Ended.antt =====
-- src/networking/sessionServer.cpp: the parts of stop, and what is there once it has returned.
use gef_engine.Prelude.{
  ◌<◌, ◌≤◌, ◌≡◌, refl, subst, inl, inr, false, not, ◌||◌, [], ◌++◌, find_key, arith, ◌==◌,
  Bool-cases,
}
use gef_engine.Protocol.{ClientId}
use gef_engine.Server.{Server, init}
use gef_engine.Server.Threads.{
  Host, host, join_each, join_finished, end_joins, end_watchdog, slots_of, collect_slots,
  join_slots,
}
use gef_engine.Server.Valid.{infos, IsValid, init-IsValid, Keyed-find}
use gef_engine.Server.Steps.{find-infos}
use gef_engine.Server.Handling.{handle_join-IsValid}
use gef_engine.Server.Moves.{Filed, Filed-left, Filed-right, Held, handle_join-Moves}
use gef_engine.Server.Stopping.{
  Step, Reach, Call-IsValid, Call-Moves, Call-Stays, begins, joins, calls, watches, finishes, stops,
  rounds_end, collects, ends, origin, next,
}
use gef_engine.Server.Hosted.{
  Joined, IsHosted, Joined-left, join_each-Joined, Filed-slots_of, server-IsHosted, start-IsHosted,
  watch-IsHosted,
}

join_finished-IsHosted : (h : Host) → IsHosted h → IsHosted (join_finished h)
unfolding join_finished
join_finished-IsHosted h v = record {
  valid = v.valid;
  begun = v.begun;
  going = v.going;
  quiet = λ le. ((v.quiet le).0, refl);
  empty = v.empty;
  unused = v.unused;
  over = v.over;
  upto = v.upto;
  first = v.first;
  placed = λ k l lt. elim (v.placed k l lt) [
    | inl held ↦ inl held
    | inr (inl filed) ↦ inr (inr (inr (join_each-Joined k h.joined h.finished filed)))
    | inr (inr (inl filed)) ↦ inr (inr (inl filed))
    | inr (inr (inr joined)) ↦
        inr (inr (inr (Joined-left k h.joined (join_each h.finished) joined)))
  ];
}

end_joins-IsHosted : (h : Host) → IsHosted h → IsHosted (end_joins h)
unfolding end_joins
end_joins-IsHosted h v = elim (Bool-cases (not h.started || h.stopped)) [
  | inl e ↦ rw (e, end_joins) v
  | inr e ↦
      let fresh : h.stage ≡ 0 = elim (Bool-cases (h.stage == 0)) [
        | inl z ↦ ground (arith, z)
        | inr z ↦ absurd (ground (arith, e, v.begun (ground (arith, z))))
      ] in
      rw (e, end_joins)
        (record {
          valid = λ lt. v.valid (omega (arith, fresh));
          begun = λ le. (ground (arith, e), refl, refl);
          going = λ z. absurd (omega (arith, z));
          quiet = λ le. absurd (omega (arith, le));
          empty = λ le. absurd (omega (arith, le));
          unused = λ lt. v.unused (omega (arith, fresh));
          over = λ z. absurd (omega (arith, z));
          upto = omega arith;
          first = v.first;
          placed = v.placed;
        })
]

end_watchdog-IsHosted :
    (h : Host) → h.stage ≡ 1 → h.finished ≡ [] → IsHosted h → IsHosted (end_watchdog h)
unfolding end_watchdog
end_watchdog-IsHosted h at none_left v = record {
  valid = λ lt. v.valid (omega (arith, at));
  begun = λ le. v.begun (omega (arith, at));
  going = λ z. absurd (omega (arith, z));
  quiet = λ le. (refl, none_left);
  empty = λ le. absurd (omega (arith, le));
  unused = λ lt. v.unused (omega (arith, at));
  over = λ z. absurd (omega (arith, z));
  upto = omega arith;
  first = v.first;
  placed = v.placed;
}

-- Every slot that is left goes to stop's list.
collected :
    (k : ClientId) (s : Server) → IsValid s → Held k s → Filed k (slots_of s.clients ++ s.retired)
collected k s v (inl there) = Filed-left k (slots_of s.clients) s.retired (
    Filed-slots_of k s.clients there (λ slot e.
      Keyed-find k slot.info (infos s.clients) v.book.keyed (find-infos k slot s.clients e)))
collected k s v (inr filed) = Filed-right k (slots_of s.clients) s.retired filed

collect_slots-IsHosted : (h : Host) → h.stage ≡ 2 → IsHosted h → IsHosted (collect_slots h)
unfolding collect_slots
collect_slots-IsHosted h at v = record {
  valid = λ lt. absurd (omega (arith, lt));
  begun = λ le. v.begun (omega (arith, at));
  going = λ z. absurd (omega (arith, z));
  quiet = λ le. v.quiet (omega (arith, at));
  empty = λ le. (refl, refl);
  unused = λ lt. absurd (omega (arith, lt));
  over = λ z. absurd (omega (arith, z));
  upto = omega arith;
  first = v.first;
  placed = λ k l lt. elim (v.placed k l lt) [
    | inl held ↦ inr (inr (inl (collected k h.server (v.valid (omega (arith, at))) held)))
    | inr (inl filed) ↦ inr (inl filed)
    | inr (inr (inl filed)) ↦ absurd (subst (Filed k) (v.unused (omega (arith, at))) filed)
    | inr (inr (inr joined)) ↦ inr (inr (inr joined))
  ];
}

join_slots-IsHosted : (h : Host) → h.stage ≡ 3 → IsHosted h → IsHosted (join_slots h)
unfolding join_slots
join_slots-IsHosted h at v = record {
  valid = λ lt. absurd (omega (arith, lt));
  begun = λ le. v.begun (omega (arith, at));
  going = λ z. absurd (omega (arith, z));
  quiet = λ le. v.quiet (omega (arith, at));
  empty = λ le. v.empty (omega (arith, at));
  unused = λ lt. absurd (omega (arith, lt));
  over = λ z. refl;
  upto = omega arith;
  first = v.first;
  placed = λ k l lt. elim (v.placed k l lt) [
    | inl held ↦ inl held
    | inr (inl filed) ↦ inr (inl filed)
    | inr (inr (inl filed)) ↦ inr (inr (inr (join_each-Joined k h.joined h.slots filed)))
    | inr (inr (inr joined)) ↦ inr (inr (inr (Joined-left k h.joined (join_each h.slots) joined)))
  ];
}

Step-IsHosted : {h i : Host} → Step h i → IsHosted h → IsHosted i
Step-IsHosted (begins h) v = start-IsHosted h v
Step-IsHosted (joins h socket now request runs) v =
    server-IsHosted h _ v (handle_join-IsValid socket now request h.server)
      (λ valid. handle_join-Moves socket now request h.server)
      (λ le. absurd (ground (arith, runs, v.begun (omega (arith, le)))))
Step-IsHosted (calls h t call) v =
    server-IsHosted h t v (Call-IsValid call) (Call-Moves call) (λ le. Call-Stays call (v.empty le))
Step-IsHosted (watches h now runs none_left) v = watch-IsHosted h now runs none_left v
Step-IsHosted (finishes h) v = join_finished-IsHosted h v
Step-IsHosted (stops h) v = end_joins-IsHosted h v
Step-IsHosted (rounds_end h at none_left) v = end_watchdog-IsHosted h at none_left v
Step-IsHosted (collects h at) v = collect_slots-IsHosted h at v
Step-IsHosted (ends h at) v = join_slots-IsHosted h at v

Reach-IsHosted : {h : Host} → Reach host h → IsHosted h
unfolding host init
Reach-IsHosted origin = record {
  valid = λ lt. init-IsValid;
  begun = λ le. absurd (omega (arith, le));
  going = λ z. refl;
  quiet = λ le. absurd (omega (arith, le));
  empty = λ le. absurd (omega (arith, le));
  unused = λ lt. refl;
  over = λ z. refl;
  upto = omega arith;
  first = omega arith;
  placed = λ k l lt. absurd (omega (arith, l, lt));
}
Reach-IsHosted (next r step) = Step-IsHosted step (Reach-IsHosted r)

-- However the threads of a new server are interleaved with its start and its stop, once stop has
-- returned: the join thread and the watchdog have ended, no client and no retired slot is left, and
-- for every id that was given out there is a slot whose handler was stopped and whose thread was
-- joined, whether its client had left, had timed out or was still there.
pub Reach-joined :
    (h : Host)
    → Reach host h
    → h.stage ≡ 4
    → (h.join_runs ≡ false)
      × (h.watchdog_runs ≡ false)
      × (h.server.clients ≡ [])
      × (h.server.retired ≡ [])
      × ((k : ClientId) → 1 ≤ k → k < h.server.next_id → Joined k h.joined)
unfolding find_key
Reach-joined h r at =
    let v = Reach-IsHosted r in
    let quiet = v.quiet (omega (arith, at)) in
    let gone = v.empty (omega (arith, at)) in
    (
      (v.begun (omega (arith, at))).2,
      quiet.0,
      gone.0,
      gone.1,
      λ k l lt. elim (v.placed k l lt) [
        | inl (inl there) ↦ absurd (ground (arith, gone.0, there))
        | inl (inr filed) ↦ absurd (subst (Filed k) gone.1 filed)
        | inr (inl filed) ↦ absurd (subst (Filed k) quiet.1 filed)
        | inr (inr (inl filed)) ↦ absurd (subst (Filed k) (v.over at) filed)
        | inr (inr (inr joined)) ↦ joined
      ],
    )

-- ===== src/Server/Roster.antt =====
-- src/networking/sessionServer.cpp: the roster events of a reply bring its client's roster up to
-- date. The client's side is Roster, of peerSession.cpp.
use gef_engine.Prelude.{
  ℕ, suc, ◌≡◌, refl, sym, ap, subst, ◌∙◌, inl, inr, [], ◌∷◌, ◌++◌, some, Map, find_key, put_key,
  From, Under, length, take, drop, arith, take-append-drop, append-nil, append_assoc, ◌==◌,
  Bool-cases,
}
use gef_engine.Prelude.MapLaws.{put_last, Under-mono, Under-append}
use native.Mathlib.Nat.{mod-eq_of_lt}
use gef_engine.Protocol.{ClientInfo, UpdateRequest}
use gef_engine.Roster.{apply_event, replay, replay-append}
use gef_engine.Server.{ClientSlot, Server}
use gef_engine.Server.Exchange.{full_roster, roster_since, updated_slot, absorb, exchange, respond}
use gef_engine.Server.Valid.{infos, IsBook, IsValid, Keyed, infos-put}
use gef_engine.Server.Updating.{answer-reply, respond_known, intake_of}

replay-full_roster :
    (n : ℕ) (m : Map ClientSlot) (known : Map ClientInfo)
    → Under n known
    → From n (infos m)
    → Keyed (infos m)
    → replay (full_roster m) known ≡ known ++ infos m
unfolding full_roster replay apply_event
replay-full_roster n [] known u f k = sym (append-nil known)
replay-full_roster n ((j, slot) ∷ m) known u f k =
    let last : put_key slot.info.id slot.info known ≡ known ++ ((j, slot.info) ∷ []) =
      ap (λ i. put_key i slot.info known) k.0
      ∙ put_last j slot.info known (Under-mono n j known u f.0) in
    ap (replay (full_roster m)) last
    ∙ (replay-full_roster (suc j) m (known ++ ((j, slot.info) ∷ []))
          (Under-append (suc j) j slot.info known (Under-mono n (suc j) known u (omega arith))
            (omega arith))
          f.1 k.1
        ∙ append_assoc known ((j, slot.info) ∷ []) (infos m))

replay-roster_since :
    (version : ℕ) (s : Server)
    → IsBook (infos s.clients) s.next_id s.roster_log
    → replay (roster_since version s) (replay (take version s.roster_log) []) ≡ infos s.clients
unfolding roster_since replay
replay-roster_since version s b = elim (Bool-cases (version == 0)) [
  | inl zero_version ↦
      let e : version ≡ 0 = ground arith in
      rw e (replay-full_roster 1 s.clients [] tt b.ordered b.keyed)
  | inr later ↦ rw later (
      sym (replay-append (take version s.roster_log) (drop version s.roster_log) [])
      ∙ ap (λ l. replay l []) (take-append-drop version s.roster_log)
      ∙ b.replayed)
]

-- Whatever version of the roster a client reports, 0 included, the events in the reply take the
-- roster of that version to exactly the clients of the server, and the reply names the version
-- reached.
pub respond_roster :
    (id now : ℕ) (req : UpdateRequest) (slot : ClientSlot) (s : Server)
    → IsValid s
    → req.id ≡ id
    → find_key id s.clients ≡ some slot
    → (replay
          (respond id now req s).1.roster_events
          (replay (take req.roster_version s.roster_log) [])
        ≡ infos s.clients)
      × ((respond id now req s).1.roster_version ≡ length s.roster_log)
unfolding exchange absorb updated_slot
respond_roster id now req slot s v own e =
    let slot' = updated_slot now req (intake_of id req slot s) slot in
    let s' = absorb id now req slot s in
    let reply = answer-reply id req slot' s' in
    let kept = infos-put id slot slot' s.clients v.book.ordered e refl in
    rw (respond_known id now req slot s own e) (
      rw reply.4 (
          replay-roster_since req.roster_version s'
            (subst (λ k. IsBook k s.next_id s.roster_log) (sym kept) v.book)
          ∙ kept),
      reply.3 ∙ mod-eq_of_lt (omega (arith, v.book.bounded, v.book.last)),
    )

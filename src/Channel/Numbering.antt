-- ===== src/Channel/Numbering.antt =====
-- The loops of Channel on messages that are numbered one after the other.
use gef_engine.Prelude.{
  ℕ, zero, suc, ◌+◌, ◌-◌, ◌^◌, ◌<◌, ◌≤◌, ◌≡◌, sym, ap, subst, ◌∙◌, inl, inr, List, [], ◌∷◌, ◌++◌,
  map, length, take, drop, max, arith, append_assoc, append-nil, Bool-cases, ℕ-cases, leb, drop_nil,
}
use gef_engine.Protocol.{ClientId, WireMessage, ReceivedMessage}
use gef_engine.Channel.{Intake, take_one, take_in, received, drop_acked}

-- The numbers go up by one from `n`.
abbrev pub Numbered : ℕ → List WireMessage → Type 0
Numbered n [] = Unit {0}
Numbered n (m ∷ ms) = (m.seq ≡ n) × Numbered (suc n) ms

pub Numbered-append :
    (n : ℕ) (xs ys : List WireMessage)
    → Numbered n xs
    → Numbered (n + length xs) ys
    → Numbered n (xs ++ ys)
Numbered-append n [] ys h k = let e : n + 0 ≡ n = omega arith in subst (λ j. Numbered j ys) e k
Numbered-append n (x ∷ xs) ys h k =
    let e : n + suc (length xs) ≡ suc n + length xs = omega arith in
    (h.0, Numbered-append (suc n) xs ys h.1 (subst (λ j. Numbered j ys) e k))

pub Numbered-drop : (n k : ℕ) (xs : List WireMessage) → Numbered n xs → Numbered (n + k) (drop k xs)
Numbered-drop n zero xs h = let e : n ≡ n + 0 = omega arith in subst (λ j. Numbered j xs) e h
Numbered-drop n (suc k) [] h = tt
Numbered-drop n (suc k) (x ∷ xs) h =
    let e : suc n + k ≡ n + suc k = omega arith in
    subst (λ j. Numbered j (drop k xs)) e (Numbered-drop (suc n) k xs h.1)

pub Numbered-take : (n k : ℕ) (xs : List WireMessage) → Numbered n xs → Numbered n (take k xs)
Numbered-take n zero xs h = tt
Numbered-take n (suc k) [] h = tt
Numbered-take n (suc k) (x ∷ xs) h = (h.0, Numbered-take (suc n) k xs h.1)

abbrev pub receive_all : ClientId → List WireMessage → List ReceivedMessage
receive_all from = map (received from)

-- What a batch numbered from `k + 1` leaves behind, with nothing missing before it: the part that
-- is new is taken, in order, and the rest is dropped.
abbrev pub Takes : ClientId → ℕ → List WireMessage → Intake → Intake → Type 0
Takes from k ms s t =
    (t.last ≡ max s.last (k + length ms))
    × (t.inbox ≡ s.inbox ++ receive_all from (drop (s.last - k) ms))

take_old :
    (from k : ℕ) (m : WireMessage) (s : Intake)
    → m.seq ≡ suc k
    → suc k ≤ s.last
    → s.last + 1 < 2 ^ 32
    → take_one from m s ≡ s
unfolding take_one
take_old from k m s e h fits = ground arith

take_next :
    (from k : ℕ) (m : WireMessage) (s : Intake)
    → m.seq ≡ suc k
    → k ≡ s.last
    → s.last + 1 < 2 ^ 32
    → take_one from m s ≡ record { last = suc k; inbox = s.inbox ++ (received from m ∷ []) }
unfolding take_one
take_next from k m s e h fits = ground arith

pub take_in-Takes :
    (from k : ℕ) (ms : List WireMessage) (s : Intake)
    → Numbered (suc k) ms
    → k ≤ s.last
    → k + length ms + 1 < 2 ^ 32
    → s.last + 1 < 2 ^ 32
    → Takes from k ms s (take_in from ms s)
unfolding take_in
take_in-Takes from k [] s h le fits room =
    (omega arith, rw (drop_nil {A = WireMessage} (s.last - k)) (sym (append-nil s.inbox)))
take_in-Takes from k (m ∷ ms) s h le fits room = elim (ℕ-cases k s.last) [
  | inl e ↦
      let s' : Intake = record { last = suc k; inbox = s.inbox ++ (received from m ∷ []) } in
      let rest = take_in-Takes from (suc k) ms s' h.1 (omega arith) (omega arith) (omega arith) in
      let none_old : s.last - k ≡ 0 = omega arith in
      let all_new : suc k - suc k ≡ 0 = omega arith in
      subst (λ t. Takes from k (m ∷ ms) s (take_in from ms t))
        (sym (take_next from k m s h.0 e room))
        (
          omega (arith, rest.0),
          rest.1
              ∙ ap (λ j. s'.inbox ++ receive_all from (drop j ms)) all_new
              ∙ append_assoc s.inbox (received from m ∷ []) (receive_all from ms)
              ∙ ap (λ j. s.inbox ++ receive_all from (drop j (m ∷ ms))) (sym none_old),
        )
  | inr e ↦
      let rest = take_in-Takes from (suc k) ms s h.1 (omega arith) (omega arith) room in
      let one_old : s.last - k ≡ suc (s.last - suc k) = omega arith in
      subst (λ t. Takes from k (m ∷ ms) s (take_in from ms t))
        (sym (take_old from k m s h.0 (omega arith) room))
        (
          omega (arith, rest.0),
          rest.1 ∙ ap (λ j. s.inbox ++ receive_all from (drop j (m ∷ ms))) (sym one_old),
        )
]

-- An acknowledgement of `ack` drops what it covers.
pub drop_acked-Numbered :
    (k ack : ℕ) (ms : List WireMessage)
    → Numbered (suc k) ms
    → drop_acked ack ms ≡ drop (ack - k) ms
unfolding drop_acked
drop_acked-Numbered k ack [] h = sym (drop_nil (ack - k))
drop_acked-Numbered k ack (m ∷ ms) h = elim (Bool-cases (leb m.seq ack)) [
  | inl e ↦
      let covered : ack - k ≡ suc (ack - suc k) = ground (arith, h.0) in
      rw (e, covered) (drop_acked-Numbered (suc k) ack ms h.1)
  | inr e ↦ let kept : ack - k ≡ 0 = ground (arith, h.0) in rw (e, kept)
]

-- ===== src/Socket/Gapless.antt =====
-- Rows of messages through `handle_message` of source/net/websocket_client.cpp.
use kalshi_market_maker.Prelude.{
  suc, ◌≤◌, ℤ, pos, ◌+ℤ◌, eqb_ℤ, eqb_ℤ_iff, Bool, true, false, String, List, [], ◌∷◌, Option, none,
  some, if◌then◌else◌, Bool-cases, inl, inr, ◌≡◌, ◌⊎◌, refl, ◌∙◌, arith,
}
use mathlib.Core.Path.{subst}
use kalshi_market_maker.Float.{Double}
use kalshi_market_maker.Socket.{JsonReader, WebSocketClient}
use kalshi_market_maker.Socket.Messages.{with_seq, sequence_intact, handle_message}
use kalshi_market_maker.Socket.InOrder.{IsRun, numbers, seqs_of, listen, Moves, message-Moves}

-- The number is the one after the last, if there is a last.
abbrev Follows : Option ℤ → ℤ → Type 0
Follows none seq = Unit
Follows (some last) seq = seq ≡ last +ℤ pos 1

module _ {W : Type 0} (sid seq : ℤ) (c : WebSocketClient W) where
  -- The check passes, or it asks for a new connection.
  abbrev Checks : WebSocketClient W → Type 0
  Checks after =
      (after.close_requests ≡ suc c.close_requests)
      ⊎ ((after.close_requests ≡ c.close_requests)
          × (after.last_seq_by_sid ≡ with_seq sid seq c.last_seq_by_sid)
          × Follows (c.last_seq_by_sid sid) seq)

  sequence_intact-Checks : Checks (sequence_intact sid seq c).1
  unfolding sequence_intact
  sequence_intact-Checks = found (c.last_seq_by_sid sid)
    where
      heard : WebSocketClient W
      heard = record c { last_seq_by_sid = with_seq sid seq c.last_seq_by_sid }

      gap : WebSocketClient W
      gap = record c { last_seq_by_sid = λ _. none; close_requests = suc c.close_requests }

      found :
          (last : Option ℤ)
          → let after =
              (elim last as (λ _. Bool × WebSocketClient W) [
                | none ↦ (true, heard)
                | some last ↦ if eqb_ℤ seq (last +ℤ pos 1) then (true, heard) else (false, gap)
              ]).1 in
            (after.close_requests ≡ suc c.close_requests)
            ⊎ ((after.close_requests ≡ c.close_requests)
                × (after.last_seq_by_sid ≡ with_seq sid seq c.last_seq_by_sid)
                × Follows last seq)
      found none = inr (refl, refl, tt)
      found (some last) = elim (Bool-cases (eqb_ℤ seq (last +ℤ pos 1))) [
        | inl h ↦ rw h (inr (refl, refl, (eqb_ℤ_iff seq (last +ℤ pos 1)).0 h))
        | inr h ↦ rw h (inl refl)
      ]

-- One message in front.
extend :
    (last : Option ℤ) (seq : ℤ) (rest : List ℤ)
    → Follows last seq
    → IsRun (some seq) rest
    → IsRun last (seq ∷ rest)
extend none seq rest f r = r
extend (some last) seq rest f r = (f, r)

extended :
    (last after : ℤ → Option ℤ) (s seq sid : ℤ) (rest : List ℤ)
    → after ≡ with_seq s seq last
    → Follows (last s) seq
    → IsRun (after sid) rest
    → IsRun (last sid) (if eqb_ℤ s sid then seq ∷ rest else rest)
extended last after s seq sid rest e f r = elim (Bool-cases (eqb_ℤ s sid)) [
  | inl h ↦ rw h (
      subst (λ t. IsRun (last t) (seq ∷ rest)) ((eqb_ℤ_iff s sid).0 h)
        (extend (last s) seq rest f (subst (λ o. IsRun o rest) (rw e (rw h refl)) r)))
  | inr h ↦ rw h (subst (λ o. IsRun o rest) (rw e (rw h refl)) r)
]

module _ {W J : Type 0} ⦃d : Double W⦄ (json : JsonReader J) (stod : String → Option W) where
  one_grows :
      (now : ℤ) (raw : String) (c : WebSocketClient W)
      → c.close_requests ≤ (handle_message json stod now raw c).1.close_requests
  one_grows now raw c = grows (numbers json raw) (message-Moves json stod now raw c)
    where
      heard : WebSocketClient W
      heard = record c { last_message_time = now }

      after : WebSocketClient W
      after = (handle_message json stod now raw c).1

      grows :
          (n : Option (ℤ × ℤ))
          → Moves json stod heard after n
          → c.close_requests ≤ after.close_requests
      grows none (_, same) = omega (arith, same)
      grows (some (sid, seq)) (_, same) = elim (sequence_intact-Checks sid seq heard) [
        | inl gap ↦ omega (arith, same, gap)
        | inr (kept, _, _) ↦ omega (arith, same, kept)
      ]

  listen_grows :
      (raws : List (ℤ × String)) (c : WebSocketClient W)
      → c.close_requests ≤ (listen json stod raws c).close_requests
  listen_grows [] c = ground arith
  listen_grows ((now, raw) ∷ raws) c =
      omega (arith, one_grows now raw c, listen_grows raws (handle_message json stod now raw c).1)

  -- If no new connection is asked for while a row of messages comes in, the sequence numbers
  -- of the data messages of each subscription follow one another without a gap, from the last
  -- one known before, if there is one.
  pub listen-IsRun :
      (raws : List (ℤ × String)) (c : WebSocketClient W)
      → (listen json stod raws c).close_requests ≡ c.close_requests
      → (sid : ℤ) → IsRun (c.last_seq_by_sid sid) (seqs_of json sid raws)
  listen-IsRun [] c e sid = tt
  listen-IsRun ((now, raw) ∷ raws) c e sid =
      joined (numbers json raw) (message-Moves json stod now raw c) (
        listen-IsRun raws (handle_message json stod now raw c).1
          (omega (
            arith,
            e,
            one_grows now raw c,
            listen_grows raws (handle_message json stod now raw c).1,
          ))
          sid)
    where
      heard : WebSocketClient W
      heard = record c { last_message_time = now }

      after : WebSocketClient W
      after = (handle_message json stod now raw c).1

      quiet : after.close_requests ≡ c.close_requests
      quiet = omega (arith, e, one_grows now raw c, listen_grows raws after)

      joined :
          (n : Option (ℤ × ℤ))
          → Moves json stod heard after n
          → IsRun (after.last_seq_by_sid sid) (seqs_of json sid raws)
          → IsRun (c.last_seq_by_sid sid) (elim n as (λ _. List ℤ) [
            | none ↦ seqs_of json sid raws
            | some (s, seq) ↦
                if eqb_ℤ s sid then seq ∷ seqs_of json sid raws else seqs_of json sid raws
          ])
      joined none (last, _) later =
          subst (λ (m : ℤ → Option ℤ). IsRun (m sid) (seqs_of json sid raws)) last later
      joined (some (s, seq)) (last, same) later = elim (sequence_intact-Checks s seq heard) [
        | inl gap ↦ absurd (omega (arith, same, gap, quiet))
        | inr (_, next, follows) ↦
            extended c.last_seq_by_sid after.last_seq_by_sid s seq sid (seqs_of json sid raws)
              (last ∙ next) follows later
      ]

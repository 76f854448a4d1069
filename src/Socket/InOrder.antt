-- ===== src/Socket/InOrder.antt =====
-- The sequence numbers of source/net/websocket_client.cpp, and the exception of `handle_message`.
use kalshi_market_maker.Prelude.{
  ℤ, pos, ◌+ℤ◌, eqb_ℤ, Bool, true, false, not, ◌&&◌, String, List, [], ◌∷◌, Option, none, some,
  if◌then◌else◌, ◌≡◌, refl, Outcome, done, threw, str_eq,
}
use kalshi_market_maker.Float.{Double}
use kalshi_market_maker.Socket.{JsonReader, WebSocketClient, Callback}
use kalshi_market_maker.Socket.Bodies.{and_then}
use kalshi_market_maker.Socket.Messages.{
  sequence_intact, deliver, read_body, sequence_numbers, check_sequence, handle_typed,
  handle_parsed, handle_message,
}

-- The numbers follow one another, from the last one before.
abbrev pub IsRun : Option ℤ → List ℤ → Type 0
IsRun last [] = Unit
IsRun none (s ∷ ss) = IsRun (some s) ss
IsRun (some last) (s ∷ ss) = (s ≡ last +ℤ pos 1) × IsRun (some s) ss

module _ {J : Type 0} (json : JsonReader J) where
  -- The type and the body of a message that is neither an error nor a confirmation.
  abbrev pub is_data : J → Bool
  is_data parsed = elim (and_then (json.find "type" parsed) json.text) [
    | none ↦ false
    | some msg_type ↦
        not (str_eq msg_type "error")
        && (not (str_eq msg_type "subscribed")
            && elim (json.find "msg" parsed) [ none ↦ false | some _ ↦ true ])
  ]

  -- The numbers that a message carries, if it is checked at all.
  abbrev pub numbers : String → Option (ℤ × ℤ)
  numbers raw =
      and_then (json.parse raw)
        (λ parsed. if is_data parsed then sequence_numbers json parsed else none)

  -- The numbers of one subscription in a row of messages, each with its time.
  abbrev pub seqs_of : ℤ → List (ℤ × String) → List ℤ
  seqs_of sid [] = []
  seqs_of sid ((now, raw) ∷ raws) = elim (numbers raw) [
    | none ↦ seqs_of sid raws
    | some (s, seq) ↦ if eqb_ℤ s sid then seq ∷ seqs_of sid raws else seqs_of sid raws
  ]

module _ {W J : Type 0} ⦃d : Double W⦄ (json : JsonReader J) (stod : String → Option W) where
  -- The client after a row of messages.
  abbrev pub listen : List (ℤ × String) → WebSocketClient W → WebSocketClient W
  listen [] c = c
  listen ((now, raw) ∷ raws) c = listen raws (handle_message json stod now raw c).1

  -- As far as sequence numbers go, the clients are the same.
  abbrev pub IsSame : WebSocketClient W → WebSocketClient W → Type 0
  IsSame b c = (b.last_seq_by_sid ≡ c.last_seq_by_sid) × (b.close_requests ≡ c.close_requests)

  -- What a message with these numbers does to them.
  abbrev pub Moves : WebSocketClient W → WebSocketClient W → Option (ℤ × ℤ) → Type 0
  Moves c after none = IsSame after c
  Moves c after (some (sid, seq)) = IsSame after (sequence_intact sid seq c).1

  delivered :
      (intact : Bool) (called : Option (Callback W)) (c : WebSocketClient W)
      → IsSame (if intact then deliver called c else c) c
  delivered true none c = (refl, refl)
  delivered true (some made) c = (refl, refl)
  delivered false called c = (refl, refl)

  body-Moves :
      (numbered : Option (ℤ × ℤ)) (called : Option (Callback W)) (c : WebSocketClient W)
      → let r = elim numbered as (λ _. Bool × WebSocketClient W) [
        | none ↦ (true, c)
        | some (sid, seq) ↦ sequence_intact sid seq c
      ] in
        Moves c (if r.0 then deliver called r.1 else r.1) numbered
  body-Moves none called c = delivered true called c
  body-Moves (some (sid, seq)) called c =
      delivered (sequence_intact sid seq c).0 called (sequence_intact sid seq c).1

  open-Moves :
      (confirmed : Bool) (numbered : Option (ℤ × ℤ)) (called : Option (Callback W))
      (c : WebSocketClient W)
      → confirmed ≡ false
      → let r = elim numbered as (λ _. Bool × WebSocketClient W) [
        | none ↦ (true, c)
        | some (sid, seq) ↦ sequence_intact sid seq c
      ] in
        Moves c (if confirmed then c else if r.0 then deliver called r.1 else r.1) numbered
  open-Moves true numbered called c e = cc e
  open-Moves false numbered called c e = body-Moves numbered called c

  shut :
      (confirmed : Bool) (c after : WebSocketClient W)
      → confirmed ≡ true
      → IsSame (if confirmed then c else after) c
  shut true c after e = (refl, refl)
  shut false c after e = cc e

  told-Moves :
      (error confirmed : Bool) (body : Option J) (c : WebSocketClient W)
      (typed : J → WebSocketClient W) (numbered : Option (ℤ × ℤ))
      → (confirmed ≡ false → (b : J) → Moves c (typed b) numbered)
      → (confirmed ≡ true → (b : J) → IsSame (typed b) c)
      → Moves c
          (if error
            then c
            else elim body as (λ _. WebSocketClient W) [ none ↦ c | some b ↦ typed b ])
          (if not error
              && (not confirmed && elim body as (λ _. Bool) [ none ↦ false | some _ ↦ true ])
            then numbered
            else none)
  told-Moves true confirmed body c typed numbered h g = (refl, refl)
  told-Moves false true none c typed numbered h g = (refl, refl)
  told-Moves false true (some b) c typed numbered h g = g refl b
  told-Moves false false none c typed numbered h g = (refl, refl)
  told-Moves false false (some b) c typed numbered h g = h refl b

  parsed-Moves :
      (parsed : J) (c : WebSocketClient W)
      → Moves c
          (handle_parsed json stod parsed c).1
          (if is_data json parsed then sequence_numbers json parsed else none)
  unfolding handle_parsed handle_typed check_sequence
  parsed-Moves parsed c = of_type (json.find "type" parsed)
    where
      body : Option J
      body = json.find "msg" parsed

      told : String → Outcome (Unit {0}) × WebSocketClient W
      told msg_type = (
        done tt,
        if str_eq msg_type "error" then c else elim body as (λ _. WebSocketClient W) [
          | none ↦ c
          | some b ↦ handle_typed json stod msg_type parsed b c
        ],
      )

      is_told : String → Bool
      is_told msg_type =
          not (str_eq msg_type "error")
          && (not (str_eq msg_type "subscribed")
              && elim body as (λ _. Bool) [ none ↦ false | some _ ↦ true ])

      of_text :
          (text : Option String)
          → Moves c
              (elim text as (λ _. Outcome (Unit {0}) × WebSocketClient W) [
                | none ↦ (threw, c)
                | some msg_type ↦ told msg_type
              ]).1
              (if elim text as (λ _. Bool) [ none ↦ false | some msg_type ↦ is_told msg_type ]
                then sequence_numbers json parsed
                else none)
      of_text none = (refl, refl)
      of_text (some msg_type) =
          told-Moves (str_eq msg_type "error") (str_eq msg_type "subscribed") body c
            (λ b. handle_typed json stod msg_type parsed b c) (sequence_numbers json parsed)
            (λ e b.
              open-Moves (str_eq msg_type "subscribed") (sequence_numbers json parsed)
                (read_body json stod msg_type b) c e)
            (λ e b. shut (str_eq msg_type "subscribed") c _ e)

      of_type :
          (type_of : Option J)
          → Moves c
              (elim type_of as (λ _. Outcome (Unit {0}) × WebSocketClient W) [
                | none ↦ (done tt, c)
                | some t ↦ elim (json.text t) as (λ _. Outcome (Unit {0}) × WebSocketClient W) [
                  | none ↦ (threw, c)
                  | some msg_type ↦ told msg_type
                ]
              ]).1
              (if elim (and_then type_of json.text) as (λ _. Bool) [
                | none ↦ false
                | some msg_type ↦ is_told msg_type
              ]
                then sequence_numbers json parsed
                else none)
      of_type none = (refl, refl)
      of_type (some t) = of_text (json.text t)

  pub message-Moves :
      (now : ℤ) (raw : String) (c : WebSocketClient W)
      → Moves
          (record c { last_message_time = now })
          (handle_message json stod now raw c).1
          (numbers json raw)
  unfolding handle_message
  message-Moves now raw c = of_raw (json.parse raw)
    where
      heard : WebSocketClient W
      heard = record c { last_message_time = now }

      of_raw :
          (parsed : Option J)
          → Moves heard
              (elim parsed as (λ _. Outcome (Unit {0}) × WebSocketClient W) [
                | none ↦ (done tt, heard)
                | some parsed ↦ handle_parsed json stod parsed heard
              ]).1
              (and_then parsed
                (λ parsed. if is_data json parsed then sequence_numbers json parsed else none))
      of_raw none = (refl, refl)
      of_raw (some parsed) = parsed-Moves parsed heard

-- ===== src/Socket/Escapes.antt =====
-- The exception that `handle_message` of source/net/websocket_client.cpp lets out.
use kalshi_market_maker.Prelude.{
  ℤ, Bool, true, false, String, Option, none, some, ◌≡◌, ◌↔◌, refl, Outcome, done, threw,
}
use kalshi_market_maker.Float.{Double}
use kalshi_market_maker.Socket.{JsonReader, WebSocketClient}
use kalshi_market_maker.Socket.Messages.{handle_parsed, handle_message}

-- The message is valid JSON whose "type" is no text.
abbrev pub is_mistyped : {J : Type 0} → JsonReader J → String → Bool
is_mistyped json raw = elim (json.parse raw) [
  | none ↦ false
  | some parsed ↦ elim (json.find "type" parsed) [
    | none ↦ false
    | some type_of ↦ elim (json.text type_of) [ none ↦ true | some _ ↦ false ]
  ]
]

module _ {W J : Type 0} ⦃d : Double W⦄ (json : JsonReader J) (stod : String → Option W) where
  -- An exception leaves handle_message exactly on valid JSON that has a type which is not a
  -- text.
  pub handle_message_throws :
      (now : ℤ) (raw : String) (c : WebSocketClient W)
      → ((handle_message json stod now raw c).0 ≡ threw) ↔ (is_mistyped json raw ≡ true)
  unfolding handle_message handle_parsed
  handle_message_throws now raw c = of_raw (json.parse raw)
    where
      heard : WebSocketClient W
      heard = record c { last_message_time = now }

      of_text :
          (text : Option String) (told : String → WebSocketClient W)
          → ((elim text as (λ _. Outcome (Unit {0}) × WebSocketClient W) [
            | none ↦ (threw, heard)
            | some msg_type ↦ (done tt, told msg_type)
          ]).0
              ≡ threw)
            ↔ (elim text as (λ _. Bool) [ none ↦ true | some _ ↦ false ] ≡ true)
      of_text none told = ((λ e. refl), (λ e. refl))
      of_text (some msg_type) told = ((λ e. cc e), (λ e. cc e))

      of_type :
          (type_of : Option J) (told : String → WebSocketClient W)
          → ((elim type_of as (λ _. Outcome (Unit {0}) × WebSocketClient W) [
            | none ↦ (done tt, heard)
            | some t ↦ elim (json.text t) as (λ _. Outcome (Unit {0}) × WebSocketClient W) [
              | none ↦ (threw, heard)
              | some msg_type ↦ (done tt, told msg_type)
            ]
          ]).0
              ≡ threw)
            ↔ (elim type_of as (λ _. Bool) [
              | none ↦ false
              | some t ↦ elim (json.text t) as (λ _. Bool) [ none ↦ true | some _ ↦ false ]
            ]
                ≡ true)
      of_type none told = ((λ e. cc e), (λ e. cc e))
      of_type (some t) told = of_text (json.text t) told

      of_raw :
          (parsed : Option J)
          → ((elim parsed as (λ _. Outcome (Unit {0}) × WebSocketClient W) [
            | none ↦ (done tt, heard)
            | some parsed ↦ handle_parsed json stod parsed heard
          ]).0
              ≡ threw)
            ↔ (elim parsed as (λ _. Bool) [
              | none ↦ false
              | some parsed ↦ elim (json.find "type" parsed) as (λ _. Bool) [
                | none ↦ false
                | some type_of ↦ elim (json.text type_of) as (λ _. Bool) [
                  | none ↦ true
                  | some _ ↦ false
                ]
              ]
            ]
                ≡ true)
      of_raw none = ((λ e. cc e), (λ e. cc e))
      of_raw (some parsed) = of_type (json.find "type" parsed) _

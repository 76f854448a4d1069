-- ===== src/Prelude/Outcomes.antt =====
-- Calls that change a state and may throw, and core/ensure.cpp. What was written before a throw stays
-- written. A panic (`ensure`) leaves all code at once and no handler of exceptions catches it: the
-- state goes to the panic handler as it is at that moment, and then the process ends.
use mathlib.Core.Path.{◌≡◌, refl, sym, subst}
use mathlib.Core.Bool.{Bool, true, false}
use kalshi_market_maker.Prelude.Lists.{All}
use mathlib.Core.List.{List, [], ◌∷◌}

pub data Outcome (A : Type 0) : Type 0 where
  done : A → Outcome A
  threw : Outcome A
  panicked : Outcome A

abbrev pub Action : Type 0 → Type 0 → Type 0
Action S A = S → Outcome A × S

abbrev pub pure : {S A : Type 0} → A → Action S A
pure a s = (done a, s)

infixl 5 ◌>>=◌ ◌>>◌
abbrev pub ◌>>=◌ : {S A B : Type 0} → Action S A → (A → Action S B) → Action S B
◌>>=◌ m f s =
    let (r, s') = m s in
    elim r [ done a ↦ f a s' | threw ↦ (threw, s') | panicked ↦ (panicked, s') ]

abbrev pub ◌>>◌ : {S B : Type 0} → Action S (Unit {0}) → Action S B → Action S B
m >> k = m >>= λ _. k

-- `ensure`: a condition that fails is a panic, in the state of that moment.
abbrev pub ensure : {S : Type 0} → Bool → Action S (Unit {0})
ensure true s = (done tt, s)
ensure false s = (panicked, s)

-- `run_panic_handler`: after a panic the registered handler runs, on the state that the panic left.
-- Whatever becomes of it (an exception is swallowed, a panic inside does not run it again), the
-- process ends.
abbrev pub with_panic_handler : {S A : Type 0} → Action S (Unit {0}) → Action S A → Action S A
with_panic_handler handler m s =
    let (r, s') = m s in
    elim r [ done a ↦ (done a, s') | threw ↦ (threw, s') | panicked ↦ (panicked, (handler s').1) ]

-- `try { … } catch (const std::exception &) { … }`
abbrev pub try_catch : {S A : Type 0} → Action S A → Action S A → Action S A
try_catch m handler s =
    let (r, s') = m s in
    elim r [ done a ↦ (done a, s') | threw ↦ handler s' | panicked ↦ (panicked, s') ]

-- A loop over a collection.
unfoldable pub for_each : {S A : Type 0} → List A → (A → Action S (Unit {0})) → Action S (Unit {0})
for_each [] body = pure tt
for_each (x ∷ xs) body = body x >> for_each xs body

pub then_done :
    {S B : Type 0} (m : Action S (Unit {0})) (k : Action S B) (s : S)
    → (m s).0 ≡ done tt
    → (m >> k) s ≡ k (m s).1
then_done m k s e = rw (e, ◌>>=◌)

-- Loops whose rounds always return.
module _ {S A : Type 0} (body : A → Action S (Unit {0}))
    (returns : (x : A) (s : S) → (body x s).0 ≡ done tt) where
  for_each_round :
      (x : A) (xs : List A) (s : S) → for_each (x ∷ xs) body s ≡ for_each xs body (body x s).1
  unfolding for_each
  for_each_round x xs s = rw (returns x s, ◌>>=◌)

  pub for_each_returns : (xs : List A) (s : S) → (for_each xs body s).0 ≡ done tt
  for_each_returns [] s = unfold for_each in refl
  for_each_returns (x ∷ xs) s = rw (for_each_round x xs s) (for_each_returns xs (body x s).1)

  -- What the rounds keep, the loop keeps.
  pub for_each_keeps :
      (P : S → Type 0)
      → ((x : A) (s : S) → P s → P (body x s).1)
      → (xs : List A) (s : S) → P s
      → P (for_each xs body s).1
  for_each_keeps P k [] s p = unfold for_each in p
  for_each_keeps P k (x ∷ xs) s p =
      rw (for_each_round x xs s) (for_each_keeps P k xs (body x s).1 (k x s p))

  -- What the round of an element establishes and every round keeps, holds of each element.
  pub for_each-All :
      (Q : A → S → Type 0)
      → ((x : A) (s : S) → Q x (body x s).1)
      → ((x y : A) (s : S) → Q y s → Q y (body x s).1)
      → (xs : List A) (s : S) → All (λ x. Q x (for_each xs body s).1) xs
  for_each-All Q est keep [] s = tt
  for_each-All Q est keep (x ∷ xs) s =
      subst (λ (r : Outcome (Unit {0}) × S). All (λ y. Q y r.1) (x ∷ xs))
        (sym (for_each_round x xs s))
        (
          for_each_keeps (Q x) (λ y t q. keep y x t q) xs (body x s).1 (est x s),
          for_each-All Q est keep xs (body x s).1,
        )

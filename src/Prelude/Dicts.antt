-- ===== src/Prelude/Dicts.antt =====
-- `std::unordered_map<std::string, V>` and `std::unordered_set<std::string>` as association lists.
-- The order of the list stands for the unspecified order of iteration.
use Prim.Native.String.{String}
use mathlib.Core.Path.{◌≡◌, refl}
use mathlib.Core.Logic.{◌↔◌, ◌≢◌}
use mathlib.Core.Bool.{Bool, true, false, ◌||◌}
use mathlib.Core.List.{List, [], ◌∷◌, ◌++◌}
use mathlib.Core.Option.{Option, none, some}
use native.Mathlib.Omega.{arith}
use text.Mathlib.Text.{◌==◌}
use text.Mathlib.TextEquality.{eq_iff}
use kalshi_market_maker.Prelude.Tests.{if◌then◌else◌}

abbrev pub str_eq : String → String → Bool
str_eq a b = a == b

pub str_eq_iff : (a b : String) → (str_eq a b ≡ true) ↔ (a ≡ b)
str_eq_iff a b = eq_iff a b

pub str_eq_refl : (a : String) → str_eq a a ≡ true
str_eq_refl a = (eq_iff a a).1 refl

pub str_eq_comm : (a b : String) → str_eq a b ≡ str_eq b a
str_eq_comm a b = ground (arith, eq_iff a b, eq_iff b a)

pub str_ne : (a b : String) → a ≢ b → str_eq a b ≡ false
str_ne a b h = ground (arith, eq_iff a b)

abbrev pub Dict : Type 0 → Type 0
Dict V = List (String × V)

module _ {V : Type 0} where
  unfoldable pub lookup : String → Dict V → Option V
  lookup k [] = none
  lookup k ((key, value) ∷ rest) = if str_eq key k then some value else lookup k rest

  -- `m[k] = v`
  unfoldable pub insert : String → V → Dict V → Dict V
  insert k v [] = (k, v) ∷ []
  insert k v ((key, old) ∷ rest) =
      if str_eq key k then (k, v) ∷ rest else (key, old) ∷ insert k v rest

  unfoldable pub erase : String → Dict V → Dict V
  erase k [] = []
  erase k ((j, w) ∷ m) = if str_eq j k then erase k m else (j, w) ∷ erase k m

  -- `m[k]` of a missing key is value-initialised.
  unfoldable pub get_or : String → V → Dict V → V
  get_or k d m = elim (lookup k m) [ none ↦ d | some v ↦ v ]

  unfoldable pub has_key : String → Dict V → Bool
  has_key k m = elim (lookup k m) [ none ↦ false | some v ↦ true ]

  pub lookup-insert :
      (k j : String) (v : V) (m : Dict V)
      → lookup j (insert k v m) ≡ (if str_eq k j then some v else lookup j m)
  unfolding lookup insert
  lookup-insert k j v [] = refl
  lookup-insert k j v ((key, old) ∷ rest) =
      ground (arith, lookup-insert k j v rest, eq_iff key j, eq_iff key k, eq_iff k j)

  pub lookup-erase :
      (k j : String) (m : Dict V) → lookup j (erase k m) ≡ (if str_eq k j then none else lookup j m)
  unfolding lookup erase
  lookup-erase k j [] = ground arith
  lookup-erase k j ((i, w) ∷ m) =
      ground (arith, eq_iff k j, eq_iff i k, eq_iff i j, lookup-erase k j m)

  pub get_or-insert :
      (k j : String) (v d : V) (m : Dict V)
      → get_or j d (insert k v m) ≡ (if str_eq k j then v else get_or j d m)
  unfolding get_or
  get_or-insert k j v d m = ground (arith, lookup-insert k j v m)

  pub get_or-erase :
      (k j : String) (d : V) (m : Dict V)
      → get_or j d (erase k m) ≡ (if str_eq k j then d else get_or j d m)
  unfolding get_or
  get_or-erase k j d m = ground (arith, lookup-erase k j m)

  pub has_key-erase :
      (k j : String) (m : Dict V)
      → has_key j (erase k m) ≡ (if str_eq k j then false else has_key j m)
  unfolding has_key
  has_key-erase k j m = ground (arith, lookup-erase k j m)

  -- What holds of every entry holds after a write or a removal.
  abbrev pub AllEntries {κ} : (String → V → Type κ) → Dict V → Type κ
  AllEntries P [] = Unit
  AllEntries P ((k, v) ∷ m) = P k v × AllEntries P m

  pub insert-AllEntries {κ} :
      (P : String → V → Type κ) (k : String) (v : V) (m : Dict V)
      → P k v
      → AllEntries P m
      → AllEntries P (insert k v m)
  unfolding insert
  insert-AllEntries P k v [] p _ = (p, tt)
  insert-AllEntries P k v ((j, w) ∷ m) p (q, qs) = ground (arith, insert-AllEntries P k v m p qs)

  pub erase-AllEntries {κ} :
      (P : String → V → Type κ) (k : String) (m : Dict V)
      → AllEntries P m
      → AllEntries P (erase k m)
  unfolding erase
  erase-AllEntries P k [] _ = tt
  erase-AllEntries P k ((j, w) ∷ m) (q, qs) = ground (arith, erase-AllEntries P k m qs)

  pub lookup-AllEntries {κ} :
      (P : String → V → Type κ) (k : String) (v : V) (m : Dict V)
      → AllEntries P m
      → lookup k m ≡ some v
      → P k v
  unfolding lookup
  lookup-AllEntries P k v [] _ e = cc
  lookup-AllEntries P k v ((j, w) ∷ m) (q, qs) e =
      ground (arith, eq_iff j k, lookup-AllEntries P k v m qs)

-- Sets of texts.
unfoldable pub contains : String → List String → Bool
contains k [] = false
contains k (j ∷ s) = str_eq j k || contains k s

pub contains-append :
    (k : String) (s t : List String) → contains k (s ++ t) ≡ contains k s || contains k t
unfolding contains
contains-append k [] t = refl
contains-append k (j ∷ s) t = ground (arith, contains-append k s t)

pub has_key-insert :
    {V : Type 0} (k j : String) (v : V) (m : Dict V)
    → has_key j (insert k v m) ≡ (str_eq k j || has_key j m)
unfolding has_key
has_key-insert k j v m = ground (arith, lookup-insert k j v m)

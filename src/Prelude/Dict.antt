-- ===== src/Prelude/Dict.antt =====
-- Go's maps with a comparable key, as association lists. The keys of the program (symbols, client
-- order ids) are only compared, so they are numbers.
use Prim.Native.Nat.{ℕ}
use mathlib.Core.Path.{◌≡◌, refl}
use mathlib.Core.Logic.{◌≢◌}
use mathlib.Core.Option.{Option, none, some}
use mathlib.Core.List.{List, [], ◌∷◌}
use native.Mathlib.Omega.{arith}
use crypto_swing_bot.Prelude.Tests.{◌==◌, if◌then◌else◌}

abbrev pub Dict : Type 0 → Type 0
Dict V = List (ℕ × V)

module _ {V : Type 0} where
  -- `v, ok := m[k]`
  abbrev pub lookup : ℕ → Dict V → Option V
  lookup k [] = none
  lookup k ((j, v) ∷ m) = if j == k then some v else lookup k m

  -- `m[k] = v`
  abbrev pub insert : ℕ → V → Dict V → Dict V
  insert k v [] = (k, v) ∷ []
  insert k v ((j, w) ∷ m) = if j == k then (j, v) ∷ m else (j, w) ∷ insert k v m

  -- `delete(m, k)`
  abbrev pub erase : ℕ → Dict V → Dict V
  erase k [] = []
  erase k ((j, w) ∷ m) = if j == k then m else (j, w) ∷ erase k m

  abbrev pub keys : Dict V → List ℕ
  keys [] = []
  keys ((j, w) ∷ m) = j ∷ keys m

  -- No key is listed twice.
  abbrev pub IsDict : Dict V → Type 0
  IsDict [] = Unit
  IsDict ((j, w) ∷ m) = (lookup j m ≡ none) × IsDict m

  pub lookup-insert :
      (j k : ℕ) (v : V) (m : Dict V)
      → lookup j (insert k v m) ≡ (if k == j then some v else lookup j m)
  lookup-insert j k v [] = refl
  lookup-insert j k v ((i, w) ∷ m) = ground (arith, lookup-insert j k v m)

  pub lookup-erase_ne : (j k : ℕ) (m : Dict V) → j ≢ k → lookup j (erase k m) ≡ lookup j m
  lookup-erase_ne j k [] h = refl
  lookup-erase_ne j k ((i, w) ∷ m) h = ground (arith, lookup-erase_ne j k m h)

  pub lookup-erase_self : (k : ℕ) (m : Dict V) → IsDict m → lookup k (erase k m) ≡ none
  lookup-erase_self k [] h = refl
  lookup-erase_self k ((i, w) ∷ m) h = ground (arith, lookup-erase_self k m h.1)

  pub lookup-erase :
      (j k : ℕ) (m : Dict V)
      → IsDict m
      → lookup j (erase k m) ≡ (if k == j then none else lookup j m)
  lookup-erase j k m h = ground (arith, lookup-erase_ne j k m, lookup-erase_self k m h)

  pub insert-IsDict : (k : ℕ) (v : V) (m : Dict V) → IsDict m → IsDict (insert k v m)
  insert-IsDict k v [] h = (refl, tt)
  insert-IsDict k v ((i, w) ∷ m) h = ground (arith, insert-IsDict k v m h.1, lookup-insert i k v m)

  pub erase-IsDict : (k : ℕ) (m : Dict V) → IsDict m → IsDict (erase k m)
  erase-IsDict k [] h = tt
  erase-IsDict k ((i, w) ∷ m) h = ground (arith, erase-IsDict k m h.1, lookup-erase_ne i k m)

-- ===== src/Prelude/Dict.antt =====
-- A Go map from strings as an association list; the entry that is met first counts.
use mathlib.Core.Path.{◌≡◌, refl, ap, ◌∙◌}
use mathlib.Core.Logic.{◌↔◌, inl, inr}
use mathlib.Core.Bool.{Bool, true, false, false≢true}
use mathlib.Core.Option.{Option, none, some}
use mathlib.Core.List.{List, [], ◌∷◌}
use Prim.Native.Nat.{ℕ}
use native.Mathlib.Omega.{arith}
use portbase.Prelude.Tests.{◌==◌, if◌then◌else◌, Bool-cases, ==_iff}

-- Strings as lists of bytes.
abbrev pub same : List ℕ → List ℕ → Bool
same [] [] = true
same [] (y ∷ ys) = false
same (x ∷ xs) [] = false
same (x ∷ xs) (y ∷ ys) = if x == y then same xs ys else false

same_eq : (xs ys : List ℕ) → same xs ys ≡ true → xs ≡ ys
same_eq [] [] h = refl
same_eq [] (y ∷ ys) h = absurd (false≢true h)
same_eq (x ∷ xs) [] h = absurd (false≢true h)
same_eq (x ∷ xs) (y ∷ ys) h = elim (Bool-cases (x == y)) [
  | inl e ↦ rw ((==_iff x y).0 e) (ap (λ l. y ∷ l) (same_eq xs ys (rw e at h)))
  | inr n ↦ absurd (false≢true (rw n at h))
]

pub same_self : (xs : List ℕ) → same xs xs ≡ true
same_self [] = refl
same_self (x ∷ xs) = rw ((==_iff x x).1 refl) (same_self xs)

pub same_iff : (xs ys : List ℕ) → (same xs ys ≡ true) ↔ (xs ≡ ys)
same_iff xs ys = (same_eq xs ys, λ e. rw e (same_self ys))

abbrev pub Dict {ℓ} : Type ℓ → Type ℓ
Dict V = List (List ℕ × V)

module _ {ℓ} {V : Type ℓ} where
  abbrev pub lookup : List ℕ → Dict V → Option V
  lookup k [] = none
  lookup k ((j, v) ∷ m) = if same j k then some v else lookup k m

  abbrev pub insert : List ℕ → V → Dict V → Dict V
  insert k v [] = (k, v) ∷ []
  insert k v ((j, w) ∷ m) = if same j k then (k, v) ∷ m else (j, w) ∷ insert k v m

  abbrev pub remove : List ℕ → Dict V → Dict V
  remove k [] = []
  remove k ((j, w) ∷ m) = if same j k then remove k m else (j, w) ∷ remove k m

  pub lookup-insert :
      (k j : List ℕ) (v : V) (m : Dict V)
      → lookup j (insert k v m) ≡ (if same k j then some v else lookup j m)
  lookup-insert k j v [] = refl
  lookup-insert k j v ((i, w) ∷ m) =
      ground (arith, same_iff k j, same_iff i k, same_iff i j, lookup-insert k j v m)

  pub lookup-remove :
      (k j : List ℕ) (m : Dict V) → lookup j (remove k m) ≡ (if same k j then none else lookup j m)
  lookup-remove k j [] = ground arith
  lookup-remove k j ((i, w) ∷ m) =
      ground (arith, same_iff k j, same_iff i k, same_iff i j, lookup-remove k j m)

module _ {ℓ} {V : Type ℓ} where
  -- Each key is met once, as in a Go map.
  abbrev pub HasDistinctKeys : Dict V → Type ℓ
  HasDistinctKeys [] = Unit
  HasDistinctKeys ((k, v) ∷ m) = (lookup k m ≡ none) × HasDistinctKeys m

  pub insert-HasDistinctKeys :
      (k : List ℕ) (v : V) (m : Dict V) → HasDistinctKeys m → HasDistinctKeys (insert k v m)
  insert-HasDistinctKeys k v [] h = (refl, tt)
  insert-HasDistinctKeys k v ((j, w) ∷ m) (fresh, h) = elim (Bool-cases (same j k)) [
    | inl e ↦ rw e (rw ((same_iff j k).0 e) at fresh, h)
    | inr e ↦ rw e (lookup-insert k j v m ∙ other e, insert-HasDistinctKeys k v m h)
  ]
    where
      other : same j k ≡ false → (if same k j then some v else lookup j m) ≡ none
      other e = ground (arith, same_iff k j, same_iff j k, same_self j)

  pub remove-HasDistinctKeys :
      (k : List ℕ) (m : Dict V) → HasDistinctKeys m → HasDistinctKeys (remove k m)
  remove-HasDistinctKeys k [] h = tt
  remove-HasDistinctKeys k ((j, w) ∷ m) (fresh, h) = elim (Bool-cases (same j k)) [
    | inl e ↦ rw e (remove-HasDistinctKeys k m h)
    | inr e ↦ rw e (lookup-remove k j m ∙ still, remove-HasDistinctKeys k m h)
  ]
    where
      still : (if same k j then none else lookup j m) ≡ none
      still = ground (arith, fresh)

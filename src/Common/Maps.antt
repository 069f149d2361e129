-- ===== src/Common/Maps.antt =====
-- Go's `map[string]V` as an association list. `get` and `put` are sealed behind their laws;
-- `keys` is what a `range` loop goes over.
use Prim.Native.Nat.{ℕ, suc}
use Prim.Native.String.{String}
use mathlib.Core.Path.{◌≡◌, refl, sym, ap, ◌∙◌}
use mathlib.Core.Logic.{◌≢◌, ◌⊎◌, inl, inr}
use mathlib.Core.Bool.{Bool, true, false, ◌||◌}
use mathlib.Core.Option.{Option, none, some}
use mathlib.Core.List.{List, [], ◌∷◌}
use native.Mathlib.Omega.{arith}
use optionx_assignment.Common.Tests.{if◌then◌else◌, ◌==◌, str_eq_iff, str_eq_refl, str_eq-cases}

abbrev pub Dict {ℓ} : Type ℓ → Type ℓ
Dict V = List (String × V)

module _ {ℓ} {V : Type ℓ} where
  unfoldable pub get : String → Dict V → Option V
  get k [] = none
  get k ((j, v) ∷ m) = if j == k then some v else get k m

  unfoldable pub put : String → V → Dict V → Dict V
  put k v [] = (k, v) ∷ []
  put k v ((j, w) ∷ m) = if j == k then (k, v) ∷ m else (j, w) ∷ put k v m

  unfoldable pub keys : Dict V → List String
  keys [] = []
  keys ((k, v) ∷ m) = k ∷ keys m

  unfoldable pub remove : String → Dict V → Dict V
  remove k [] = []
  remove k ((j, w) ∷ m) = let rest = remove k m in if j == k then rest else (j, w) ∷ rest

  pub get-put :
      (k j : String) (v : V) (m : Dict V) → get j (put k v m) ≡ (if k == j then some v else get j m)
  unfolding get put
  get-put k j v [] = refl
  get-put k j v ((i, w) ∷ m) =
      ground (arith, str_eq_iff k j, str_eq_iff i k, str_eq_iff i j, get-put k j v m)

  pub get-put_self : (k : String) (v : V) (m : Dict V) → get k (put k v m) ≡ some v
  get-put_self k v m = rw (get-put, str_eq_refl)

  pub get-put_ne : (k j : String) (v : V) (m : Dict V) → k ≢ j → get j (put k v m) ≡ get j m
  get-put_ne k j v m h = ground (arith, get-put k j v m, str_eq_iff k j)

  abbrev pub is_key : String → Dict V → Bool
  is_key k [] = false
  is_key k ((j, v) ∷ m) = j == k || is_key k m

  pub get-remove :
      (k j : String) (m : Dict V) → get j (remove k m) ≡ (if k == j then none else get j m)
  unfolding get remove
  get-remove k j [] = ground arith
  get-remove k j ((i, w) ∷ m) =
      ground (arith, str_eq_iff k j, str_eq_iff i k, str_eq_iff i j, get-remove k j m)

  -- No key stands twice.
  abbrev pub IsUnique : Dict V → Type 0
  IsUnique [] = Unit {0}
  IsUnique ((k, v) ∷ m) = (is_key k m ≡ false) × IsUnique m

  is_key-put :
      (j k : String) (v : V) (m : Dict V)
      → is_key j (put k v m) ≡ (if k == j then true else is_key j m)
  unfolding put
  is_key-put j k v [] = ground arith
  is_key-put j k v ((i, w) ∷ m) =
      ground (arith, str_eq_iff k j, str_eq_iff i k, str_eq_iff i j, is_key-put j k v m)

  pub put-IsUnique : (k : String) (v : V) (m : Dict V) → IsUnique m → IsUnique (put k v m)
  unfolding put
  put-IsUnique k v [] u = (refl, tt)
  put-IsUnique k v ((j, w) ∷ m) (n, u) = elim (str_eq-cases j k) [
    | inl (h, e) ↦ rw h (ap (λ x. is_key x m) (sym e) ∙ n, u)
    | inr (h, ne) ↦
        rw h
          (ground (arith, is_key-put j k v m, str_eq_iff k j, str_eq_iff j k), put-IsUnique k v m u)
  ]

  pub get-no_key : (k : String) (m : Dict V) → is_key k m ≡ false → get k m ≡ none
  unfolding get
  get-no_key k [] h = refl
  get-no_key k ((j, w) ∷ m) h = ground (arith, get-no_key k m)

abbrev pub length {ℓ} : {A : Type ℓ} → List A → ℕ
length [] = 0
length (x ∷ xs) = suc (length xs)

-- Membership, by recursion on the list.
abbrev pub InList : String → List String → Type 0
InList id [] = ⊥
InList id (x ∷ xs) = (id ≡ x) ⊎ InList id xs

module _ {ℓ} {V : Type ℓ} where
  pub get-keys : (k : String) (m : Dict V) (v : V) → get k m ≡ some v → InList k (keys m)
  unfolding get keys
  get-keys k [] v g = cc
  get-keys k ((j, w) ∷ m) v g = elim (str_eq-cases j k) [
    | inl (h, e) ↦ inl (sym e)
    | inr (h, e) ↦ inr (get-keys k m v (ground arith))
  ]

-- ===== src/Base/Dict.antt =====
-- Go maps with string keys, as association lists. The order of a list stands for the order of one
-- `range`, which Go leaves open.
use Prim.Native.Nat.{◌<◌, ◌≤◌}
use Prim.Native.String.{String}
use mathlib.Core.Path.{◌≡◌, refl}
use mathlib.Core.Logic.{◌≢◌}
use mathlib.Core.Bool.{true}
use mathlib.Core.Option.{Option, none, some}
use mathlib.Core.List.{List, [], ◌∷◌, map}
use native.Mathlib.Omega.{arith}
use text.Mathlib.Text.{◌==◌}
use text.Mathlib.TextEquality.{eq_iff}
use cnr_sandbox.Base.Tests.{if◌then◌else◌, length, first_some, has_value}

abbrev pub Dict {ℓ} : Type ℓ → Type ℓ
Dict V = List (String × V)

module _ {ℓ} {V : Type ℓ} where
  unfoldable pub lookup : String → Dict V → Option V
  lookup k [] = none
  lookup k ((j, v) ∷ d) = if j == k then some v else lookup k d

  -- `d[k] = v`
  unfoldable pub insert : String → V → Dict V → Dict V
  insert k v [] = (k, v) ∷ []
  insert k v ((j, w) ∷ d) = if j == k then (k, v) ∷ d else (j, w) ∷ insert k v d

  -- `delete(d, k)`
  unfoldable pub erase : String → Dict V → Dict V
  erase k [] = []
  erase k ((j, v) ∷ d) = let rest = erase k d in if j == k then rest else (j, v) ∷ rest

  -- `for k, v := range src { dst[k] = v }`
  unfoldable pub set_all : Dict V → Dict V → Dict V
  set_all [] dst = dst
  set_all ((k, v) ∷ src) dst = insert k v (set_all src dst)

  -- `for k, v := range src { if _, ok := dst[k]; !ok { dst[k] = v } }`
  unfoldable pub set_missing : Dict V → Dict V → Dict V
  set_missing [] dst = dst
  set_missing ((k, v) ∷ src) dst =
      set_missing src (if has_value (lookup k dst) then dst else insert k v dst)

  abbrev pub keys : Dict V → List String
  keys d = map (λ e. e.0) d

  abbrev pub values : Dict V → List V
  values d = map (λ e. e.1) d

module _ {ℓ} {V : Type ℓ} where
  pub lookup-insert :
      (k j : String) (v : V) (d : Dict V)
      → lookup j (insert k v d) ≡ (if k == j then some v else lookup j d)
  unfolding lookup insert
  lookup-insert k j v [] = refl
  lookup-insert k j v ((i, w) ∷ d) =
      ground (arith, eq_iff k j, eq_iff i k, eq_iff i j, lookup-insert k j v d)

  pub lookup-erase :
      (k j : String) (d : Dict V) → lookup j (erase k d) ≡ (if k == j then none else lookup j d)
  unfolding lookup erase
  lookup-erase k j [] = ground arith
  lookup-erase k j ((i, w) ∷ d) =
      ground (arith, eq_iff k j, eq_iff i k, eq_iff i j, lookup-erase k j d)

  pub lookup-set_all :
      (j : String) (src dst : Dict V)
      → lookup j (set_all src dst) ≡ first_some (lookup j src) (lookup j dst)
  unfolding lookup set_all
  lookup-set_all j [] dst = refl
  lookup-set_all j ((k, v) ∷ src) dst =
      ground (arith, lookup-insert k j v (set_all src dst), lookup-set_all j src dst)

  length-erase_le : (k : String) (d : Dict V) → length (erase k d) ≤ length d
  unfolding erase
  length-erase_le k [] = omega arith
  length-erase_le k ((j, v) ∷ d) = ground (arith, length-erase_le k d)

  pub length-erase_lt :
      (k : String) (d : Dict V) → has_value (lookup k d) ≡ true → length (erase k d) < length d
  unfolding lookup erase
  length-erase_lt k [] h = cc
  length-erase_lt k ((j, v) ∷ d) h = ground (arith, length-erase_lt k d, length-erase_le k d)

  pub lookup-insert_self : (k : String) (v : V) (d : Dict V) → lookup k (insert k v d) ≡ some v
  lookup-insert_self k v d = ground (arith, lookup-insert k k v d, eq_iff k k)

  lookup-insert_ne :
      (k j : String) (v : V) (d : Dict V) → k ≢ j → lookup j (insert k v d) ≡ lookup j d
  lookup-insert_ne k j v d h = ground (arith, lookup-insert k j v d, eq_iff k j)

  lookup-erase_self : (k : String) (d : Dict V) → lookup k (erase k d) ≡ none
  lookup-erase_self k d = ground (arith, lookup-erase k k d, eq_iff k k)

  pub lookup-erase_ne : (k j : String) (d : Dict V) → k ≢ j → lookup j (erase k d) ≡ lookup j d
  lookup-erase_ne k j d h = ground (arith, lookup-erase k j d, eq_iff k j)

module _ {ℓ} {V : Type ℓ} where
  -- No key stands twice.
  abbrev pub NodupKeys : Dict V → Type ℓ
  NodupKeys [] = Unit
  NodupKeys ((k, v) ∷ d) = (lookup k d ≡ none) × NodupKeys d

  pub erase_of_absent : (k : String) (d : Dict V) → lookup k d ≡ none → erase k d ≡ d
  unfolding lookup erase
  erase_of_absent k [] h = refl
  erase_of_absent k ((j, v) ∷ d) h = ground (arith, erase_of_absent k d)

  pub insert-NodupKeys : (k : String) (v : V) (d : Dict V) → NodupKeys d → NodupKeys (insert k v d)
  unfolding insert lookup
  insert-NodupKeys k v [] u = (refl, tt)
  insert-NodupKeys k v ((j, w) ∷ d) u =
      ground (arith, eq_iff j k, eq_iff k j, lookup-insert k j v d, insert-NodupKeys k v d u.1)

  erase-NodupKeys : (k : String) (d : Dict V) → NodupKeys d → NodupKeys (erase k d)
  unfolding erase
  erase-NodupKeys k [] u = tt
  erase-NodupKeys k ((j, w) ∷ d) u = ground (arith, lookup-erase k j d, erase-NodupKeys k d u.1)

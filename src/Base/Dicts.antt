-- ===== src/Base/Dicts.antt =====
-- Go's `map[string]V`. A dictionary is an association list with one entry for a key; nothing
-- depends on the order of the entries.
use Prim.Native.Nat.{◌+◌, ◌≤◌}
use Prim.Native.String.{String}
use mathlib.Core.Path.{◌≡◌, refl}
use mathlib.Core.Option.{Option, none, some}
use mathlib.Core.List.{List, [], ◌∷◌}
use native.Mathlib.Omega.{arith}
use text.Mathlib.Text.{◌==◌}
use text.Mathlib.TextEquality.{eq_iff}
use text.Mathlib.TextPositions.{eq_refl}
use pub_sub_go.Base.Lists.{length}
use pub_sub_go.Base.Tests.{if◌then◌else◌}

abbrev pub Dict {ℓ} : Type ℓ → Type ℓ
Dict V = List (String × V)

module _ {ℓ} {V : Type ℓ} where
  -- delete(m, key)
  unfoldable pub delete : String → Dict V → Dict V
  delete key [] = []
  delete key ((other, value) ∷ entries) =
      let rest = delete key entries in if other == key then rest else (other, value) ∷ rest

  -- m[key] = value
  unfoldable pub insert : String → V → Dict V → Dict V
  insert key value [] = (key, value) ∷ []
  insert key value ((other, old) ∷ entries) =
      if other == key then (key, value) ∷ entries else (other, old) ∷ insert key value entries

  -- m[key]
  unfoldable pub lookup : String → Dict V → Option V
  lookup key [] = none
  lookup key ((other, value) ∷ entries) = if other == key then some value else lookup key entries

  pub lookup-delete :
      (key asked : String) (entries : Dict V)
      → lookup asked (delete key entries) ≡ (if key == asked then none else lookup asked entries)
  unfolding lookup delete
  lookup-delete key asked [] = ground arith
  lookup-delete key asked ((other, value) ∷ entries) = ground (
    arith,
    lookup-delete key asked entries,
    eq_iff other key,
    eq_iff other asked,
    eq_iff key asked,
  )

  pub lookup-insert :
      (key asked : String) (value : V) (entries : Dict V)
      → lookup asked (insert key value entries)
        ≡ (if key == asked then some value else lookup asked entries)
  unfolding lookup insert
  lookup-insert key asked value [] = refl
  lookup-insert key asked value ((other, old) ∷ entries) = ground (
    arith,
    lookup-insert key asked value entries,
    eq_iff other key,
    eq_iff other asked,
    eq_iff key asked,
  )

  pub lookup-insert_self :
      (key : String) (value : V) (entries : Dict V)
      → lookup key (insert key value entries) ≡ some value
  lookup-insert_self key value entries = rw (lookup-insert, eq_refl) refl

  pub length-insert-le :
      (key : String) (value : V) (entries : Dict V)
      → length (insert key value entries) ≤ length entries + 1
  unfolding insert
  length-insert-le key value [] = omega arith
  length-insert-le key value ((other, old) ∷ entries) =
      ground (arith, length-insert-le key value entries)

  pub length-delete-le :
      (key : String) (entries : Dict V) → length (delete key entries) ≤ length entries
  unfolding delete
  length-delete-le key [] = omega arith
  length-delete-le key ((other, old) ∷ entries) = ground (arith, length-delete-le key entries)

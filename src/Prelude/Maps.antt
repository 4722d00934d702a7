-- ===== src/Prelude/Maps.antt =====
-- A Go `map[string]V` as an association list with one entry for each key. Go leaves the order of
-- a `range` over a map unspecified; the list is one such order, that of first insertion.
use Prim.Native.String.{String}
use mathlib.Core.Path.{◌≡◌}
use mathlib.Core.List.{List, [], ◌∷◌}
use mathlib.Core.Option.{Option, none, some}
use native.Mathlib.Omega.{arith}
use text.Mathlib.Text.{◌==◌}
use text.Mathlib.TextEquality.{eq_iff}
use agent_transponder.Prelude.Tests.{if◌then◌else◌, get_or}

abbrev pub Map {ℓ} : Type ℓ → Type ℓ
Map V = List (String × V)

module _ {ℓ} {V : Type ℓ} where
  -- delete(m, k)
  unfoldable pub delete : String → Map V → Map V
  delete k [] = []
  delete k ((key, old) ∷ entries) =
      let kept = delete k entries in if k == key then kept else (key, old) ∷ kept

  -- m[k] = v: in place if the key is there, else at the end.
  unfoldable pub insert : String → V → Map V → Map V
  insert k v [] = (k, v) ∷ []
  insert k v ((key, old) ∷ entries) =
      let later = insert k v entries in if k == key then (key, v) ∷ entries else (key, old) ∷ later

  -- v, ok := m[k]
  unfoldable pub lookup : String → Map V → Option V
  lookup k [] = none
  lookup k ((key, v) ∷ entries) = let later = lookup k entries in if k == key then some v else later

module _ {ℓ} {V : Type ℓ} where
  pub lookup-delete :
      (k k' : String) (m : Map V) → lookup k' (delete k m) ≡ (if k' == k then none else lookup k' m)
  unfolding delete lookup
  lookup-delete k k' [] = ground arith
  lookup-delete k k' ((key, old) ∷ entries) =
      let ih = lookup-delete k k' entries in
      ground (arith, ih, eq_iff k' k, eq_iff k key, eq_iff k' key)

  pub lookup-insert :
      (k k' : String) (v : V) (m : Map V)
      → lookup k' (insert k v m) ≡ (if k' == k then some v else lookup k' m)
  unfolding insert lookup
  lookup-insert k k' v [] = ground arith
  lookup-insert k k' v ((key, old) ∷ entries) =
      let ih = lookup-insert k k' v entries in
      ground (arith, ih, eq_iff k' k, eq_iff k key, eq_iff k' key)

  pub get_or-insert :
      (default : V) (k k' : String) (v : V) (m : Map V)
      → get_or default (lookup k' (insert k v m))
        ≡ (if k' == k then v else get_or default (lookup k' m))
  get_or-insert default k k' v m = ground (arith, lookup-insert k k' v m)

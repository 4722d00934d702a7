-- ===== src/Detectors/Loop/Starts.antt =====
-- The ids that the loops of internal/analyzer/detectors/loop.go begin with, none of them twice.
use agent_transponder.Prelude.{
  ◌≡◌, refl, ap, ◌∙◌, String, ◌==◌, eq_iff, false, List, [], ◌∷◌, ◌++◌, map, any-append, arith,
}
use agent_transponder.Detectors.Finding.{has}

abbrev pub first_id : List String → String
first_id [] = ""
first_id (id ∷ ids) = id

abbrev pub NoDup : List String → Type 0
NoDup [] = Unit
NoDup (x ∷ xs) = (has x xs ≡ false) × NoDup xs

pub NoDup-snoc :
    (k : String) (xs : List String) → has k xs ≡ false → NoDup xs → NoDup (xs ++ k ∷ [])
NoDup-snoc k [] h n = (refl, tt)
NoDup-snoc k (x ∷ xs) h n =
    let other : (k == x) ≡ false = ground (arith, h) in
    let away : has k xs ≡ false = ground (arith, h) in
    (
      any-append (λ key. x == key) xs (k ∷ []) ∙ ground (arith, n.0, other, eq_iff k x, eq_iff x k),
      NoDup-snoc k xs away n.1,
    )

pub map-append {ℓ κ} :
    {A : Type ℓ} {B : Type κ} (f : A → B) (xs ys : List A) → map f (xs ++ ys) ≡ map f xs ++ map f ys
map-append f [] ys = refl
map-append f (x ∷ xs) ys = ap (λ l. f x ∷ l) (map-append f xs ys)

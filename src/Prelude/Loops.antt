-- ===== src/Prelude/Loops.antt =====
-- Go's `for` with a condition and a body that can panic, on fuel: `none` is a panic or the end of
-- the fuel. With a measure below the fuel there is neither.
use agent_transponder.Prelude.Tests.{Bool-cases, Option-cases, get_or}
use Prim.Native.Nat.{ℕ, zero, suc, ◌<◌}
use mathlib.Core.Path.{◌≡◌, refl, sym, subst, ◌∙◌, ap}
use mathlib.Core.Logic.{inl, inr}
use mathlib.Core.Bool.{Bool, true, false}
use mathlib.Core.Option.{Option, none, some}
use native.Mathlib.Omega.{arith}

unfoldable pub while {ℓ} : {S : Type ℓ} → ℕ → (S → Bool) → (S → Option S) → S → Option S
while zero test body s = none
while (suc fuel) test body s = elim (test s) [
  | true ↦ elim (body s) [ some s' ↦ while fuel test body s' | none ↦ none ]
  | false ↦ some s
]

-- What holds of the state that a loop ends in.
pub record IsEnd {ℓ κ} {S : Type ℓ} (P : S → Type κ) (test : S → Bool) (r : Option S)
    : Type (ℓ ⊔ κ) where
  pub state : S
  pub ends : r ≡ some state
  pub holds : P state
  pub stops : test state ≡ false

-- What a round of the body does.
pub record IsRound {ℓ κ} {S : Type ℓ} (P : S → Type κ) (measure : S → ℕ) (s : S) (r : Option S)
    : Type (ℓ ⊔ κ) where
  pub next : S
  pub returns : r ≡ some next
  pub kept : P next
  pub less : measure next < measure s

infixl 10 ◌>>=◌
abbrev pub ◌>>=◌ {ℓ κ} : {A : Type ℓ} {B : Type κ} → Option A → (A → Option B) → Option B
none >>= f = none
some a >>= f = f a

pub bind_some {ℓ κ} :
    {A : Type ℓ} {B : Type κ} (o : Option A) (a : A) (f : A → Option B)
    → o ≡ some a
    → (o >>= f) ≡ f a
bind_some o a f e = ap (λ r. r >>= f) e

module _ {ℓ} {S : Type ℓ} (test : S → Bool) (body : S → Option S) where
  pub while_next :
      (fuel : ℕ) (s s' : S)
      → test s ≡ true
      → body s ≡ some s'
      → while (suc fuel) test body s ≡ while fuel test body s'
  unfolding while
  while_next fuel s s' t b = ground (arith, t, b)

  pub while_stop : (fuel : ℕ) (s : S) → test s ≡ false → while (suc fuel) test body s ≡ some s
  unfolding while
  while_stop fuel s t = ground (arith, t)

module _ {ℓ κ} {S : Type ℓ} (P : S → Type κ) (measure : S → ℕ) (test : S → Bool)
    (body : S → Option S)
    (keep : (s : S) → P s → test s ≡ true → IsRound P measure s (body s)) where
  pub while_lem :
      (fuel : ℕ) (s : S) → measure s < fuel → P s → IsEnd P test (while fuel test body s)
  unfolding while
  while_lem zero s m h = absurd (omega arith)
  while_lem (suc fuel) s m h = elim (Bool-cases (test s)) [
    | inl t ↦
        let round = keep s h t in
        let rest = while_lem fuel round.next (omega (arith, round.less)) round.kept in
        record {
          state = rest.state;
          ends = while_next test body fuel s round.next t round.returns ∙ rest.ends;
          holds = rest.holds;
          stops = rest.stops;
        }
    | inr t ↦ record { state = s; ends = while_stop test body fuel s t; holds = h; stops = t }
  ]

pub some_injective {ℓ} : {A : Type ℓ} (a b : A) → some a ≡ some b → a ≡ b
some_injective a b e = ap (get_or b) e

pub bind-some_split {ℓ κ} :
    {A : Type ℓ} {B : Type κ} (o : Option A) (f : A → Option B) (b : B)
    → (o >>= f) ≡ some b
    → (a : A) × (o ≡ some a) × (f a ≡ some b)
bind-some_split none f b e = absurd (ground arith)
bind-some_split (some a) f b e = (a, refl, e)

-- What each round keeps, of a loop that has returned.
module _ {ℓ κ} {S : Type ℓ} (P : S → Type κ) (test : S → Bool) (body : S → Option S)
    (keep : (s s' : S) → P s → test s ≡ true → body s ≡ some s' → P s') where
  pub while_kept :
      (fuel : ℕ) (s r : S) → while fuel test body s ≡ some r → P s → P r × (test r ≡ false)
  unfolding while
  while_kept zero s r e h = absurd (ground arith)
  while_kept (suc fuel) s r e h = elim (Bool-cases (test s)) [
    | inl t ↦ elim (Option-cases (body s)) [
      | inl k ↦ absurd (ground (arith, t, k))
      | inr (s', k) ↦
          while_kept fuel s' r (sym (while_next test body fuel s s' t k) ∙ e) (keep s s' h t k)
    ]
    | inr t ↦
        let same : s ≡ r = some_injective s r (sym (while_stop test body fuel s t) ∙ e) in
        subst (λ x. P x × (test x ≡ false)) same (h, t)
  ]

-- ===== src/Prelude/Float.antt =====
-- Go's float64, whose values and rounding the model does not compute: the operations that the
-- program uses, as the fields of a record that the parts take as a parameter. Each theorem that
-- needs a fact of IEEE 754 arithmetic takes it as a hypothesis.
use Prim.Native.Nat.{ℕ, ◌+◌, ◌-◌, ◌*◌, ◌/◌, ◌^◌}
use mathlib.Core.Bool.{Bool}
use agent_transponder.Prelude.Tests.{ltb, leb, eqb}
use agent_transponder.Prelude.Int.{ℤ, pos, negsuc}

pub record Float : Type 1 where
  pub F : Type 0
  -- float64(n)
  pub of_int : ℤ → F
  -- The constant m / 10 ^ k.
  pub lit : ℕ → ℕ → F
  pub add : F → F → F
  pub sub : F → F → F
  pub mul : F → F → F
  pub div : F → F → F
  -- a < b, a <= b, a == b
  pub lt : F → F → Bool
  pub le : F → F → Bool
  pub eq : F → F → Bool
  -- int64(f)
  pub trunc : F → ℤ

abbrev thousandths : ℤ → ℕ
thousandths (pos n) = n * 1000
thousandths (negsuc n) = 0

-- Thousandths, cut at 0: enough for the concrete runs.
abbrev pub milli : Float
milli = record {
  F = ℕ;
  of_int = thousandths;
  lit = λ m k. m * 1000 / 10 ^ k;
  add = λ a b. a + b;
  sub = λ a b. a - b;
  mul = λ a b. a * b / 1000;
  div = λ a b. a * 1000 / b;
  lt = ltb;
  le = leb;
  eq = eqb;
  trunc = λ a. pos (a / 1000);
}

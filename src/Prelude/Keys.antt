-- ===== src/Prelude/Keys.antt =====
-- Equality and order of keys and scores, as the program's `==`, `in` and `sorted` use them.
use Prim.Native.Nat.{ℕ}
use Prim.Native.String.{String}
use mathlib.Core.Path.{◌≡◌, refl}
use mathlib.Core.Logic.{◌↔◌}
use mathlib.Core.Bool.{Bool, true, false, ◌||◌}
use mathlib.Core.List.{List, [], ◌∷◌}
use native.Mathlib.Omega.{arith}
use text.Mathlib.Text.{◌==◌ as str_eq}
use text.Mathlib.TextEquality.{eq_iff}
use cascade_search_engine.Prelude.Tests.{nat_beq, nat_beq_iff, leb}

-- `a == b`
pub record Eq {ℓ} (A : Type ℓ) : Type ℓ where
  pub is_same : A → A → Bool
  pub is_same-iff : (a b : A) → (is_same a b ≡ true) ↔ (a ≡ b)

infix 50 ◌==◌
abbrev pub ◌==◌ {ℓ} : {A : Type ℓ} ⦃e : Eq A⦄ → A → A → Bool
◌==◌ ⦃e⦄ = e.is_same

-- `a <= b`, a total preorder: numbers, and floats none of which is NaN.
pub record Order {ℓ} (A : Type ℓ) : Type ℓ where
  pub le : A → A → Bool
  pub total : (a b : A) → le a b ≡ false → le b a ≡ true
  pub trans : (a b c : A) → le a b ≡ true → le b c ≡ true → le a c ≡ true

infix 50 ◌<=◌
abbrev pub ◌<=◌ {ℓ} : {A : Type ℓ} ⦃o : Order A⦄ → A → A → Bool
◌<=◌ ⦃o⦄ = o.le

instance abbrev pub nat_eq : Eq ℕ
nat_eq = record { is_same = nat_beq; is_same-iff = nat_beq_iff }

instance abbrev pub string_eq : Eq String
string_eq = record { is_same = str_eq; is_same-iff = eq_iff }

pub leb_total : (a b : ℕ) → leb a b ≡ false → leb b a ≡ true
leb_total a b h = ground arith

pub leb_trans : (a b c : ℕ) → leb a b ≡ true → leb b c ≡ true → leb a c ≡ true
leb_trans a b c h k = ground arith

instance abbrev pub nat_order : Order ℕ
nat_order = record { le = leb; total = leb_total; trans = leb_trans }

module _ {ℓ} {A : Type ℓ} ⦃e : Eq A⦄ where
  -- `a in xs`
  abbrev pub is_in : A → List A → Bool
  is_in a [] = false
  is_in a (x ∷ xs) = x == a || is_in a xs

  -- no two elements are equal
  abbrev pub Distinct : List A → Type 0
  Distinct [] = Unit
  Distinct (x ∷ xs) = (is_in x xs ≡ false) × Distinct xs

  pub beq_refl : (a : A) → (a == a) ≡ true
  beq_refl a = (e.is_same-iff a a).1 refl

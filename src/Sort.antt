-- ===== src/Sort.antt =====
-- Python's `sorted` and `list.sort`: a stable sort by a key. `may_precede x y` says that `x` may stand
-- before `y`: for `key=k` it is `k(x) <= k(y)`, and with `reverse=True` it is `k(y) <= k(x)`, since
-- Python keeps equal elements in their order in both directions.
pub mod Laws
pub mod Top
use cascade_search_engine.Prelude.{Bool, true, false, List, [], ◌∷◌, ◌≡◌, if◌then◌else◌, All, refl}
use cascade_search_engine.Prelude.Keys.{Order, ◌<=◌}

module _ {ℓ} {A : Type ℓ} (may_precede : A → A → Bool) where
  unfoldable pub insert : A → List A → List A
  insert x [] = x ∷ []
  insert x (y ∷ ys) = if may_precede x y then x ∷ y ∷ ys else y ∷ insert x ys

  unfoldable pub sort : List A → List A
  unfolding insert
  sort [] = []
  sort (x ∷ xs) = insert x (sort xs)

  -- no element stands before one that it may not precede
  abbrev pub IsSorted : List A → Type ℓ
  IsSorted [] = Unit
  IsSorted (x ∷ xs) = All (λ y. may_precede x y ≡ true) xs × IsSorted xs

-- What a test must satisfy for the sort to be one.
pub record IsTotal {ℓ} {A : Type ℓ} (may_precede : A → A → Bool) : Type ℓ where
  pub total : (a b : A) → may_precede a b ≡ false → may_precede b a ≡ true
  pub trans : (a b c : A) → may_precede a b ≡ true → may_precede b c ≡ true → may_precede a c ≡ true

module _ {ℓ κ} {A : Type ℓ} {K : Type κ} ⦃o : Order K⦄ (key : A → K) where
  -- `sorted(xs, key=key)`
  abbrev pub ascending : A → A → Bool
  ascending x y = key x <= key y

  -- `sorted(xs, key=key, reverse=True)`
  abbrev pub descending : A → A → Bool
  descending x y = key y <= key x

  pub ascending-IsTotal : IsTotal ascending
  ascending-IsTotal = record {
    total = λ a b. o.total (key a) (key b);
    trans = λ a b c. o.trans (key a) (key b) (key c);
  }

  pub descending-IsTotal : IsTotal descending
  descending-IsTotal = record {
    total = λ a b. o.total (key b) (key a);
    trans = λ a b c h k. o.trans (key c) (key b) (key a) k h;
  }

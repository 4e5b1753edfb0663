-- ===== src/Base/Fault.antt =====
-- A Go computation that may panic: an index out of range, a nil pointer, a failed type assertion.
use mathlib.Core.Path.{◌≡◌, refl}
use mathlib.Core.Logic.{◌⊎◌, inl, inr}
use mathlib.Core.Option.{Option, none, some}

pub data Run {ℓ} (A : Type ℓ) : Type ℓ where
  done : A → Run A
  panic : Run A

infixl 5 ◌>>=◌ ◌>>◌
abbrev pub ◌>>=◌ {ℓ κ} : {A : Type ℓ} {B : Type κ} → Run A → (A → Run B) → Run B
done a >>= f = f a
panic >>= f = panic

abbrev pub ◌>>◌ {ℓ} : {B : Type ℓ} → Run (Unit {0}) → Run B → Run B
m >> k = m >>= λ _. k

-- A value that the source takes without a test.
abbrev pub must {ℓ} : {A : Type ℓ} → Option A → Run A
must none = panic
must (some a) = done a

pub >>=-eq-done {ℓ κ} :
    {A : Type ℓ} {B : Type κ} (m : Run A) (f : A → Run B) {b : B}
    → (m >>= f) ≡ done b
    → (a : A) × (m ≡ done a) × (f a ≡ done b)
>>=-eq-done (done a) f h = (a, refl, h)
>>=-eq-done panic f h = cc

pub Run-cases {ℓ} : {A : Type ℓ} (m : Run A) → (m ≡ panic) ⊎ ((a : A) × (m ≡ done a))
Run-cases (done a) = inr (a, refl)
Run-cases panic = inl refl

pub >>=-eq-panic {ℓ κ} :
    {A : Type ℓ} {B : Type κ} (m : Run A) (f : A → B) → (m >>= λ a. done (f a)) ≡ panic → m ≡ panic
>>=-eq-panic (done a) f h = cc
>>=-eq-panic panic f h = refl

-- Two computations that begin with the same step agree if they do so after it.
module _ {ℓ} {P X Z : Type ℓ} (r : Run P) (f : P → Run X) (k : X → Run Z) where
  pub >>=-congr :
      {Y : Type ℓ} (g : P → Run Y) (l : Y → Run Z)
      → ((p : P) → (f p >>= k) ≡ (g p >>= l))
      → ((r >>= f) >>= k) ≡ ((r >>= g) >>= l)
  >>=-congr g l h = go r
    where
      go : (m : Run P) → ((m >>= f) >>= k) ≡ ((m >>= g) >>= l)
      go (done p) = h p
      go panic = refl

  pub >>=-fuse : (l : P → Run Z) → ((p : P) → (f p >>= k) ≡ l p) → ((r >>= f) >>= k) ≡ (r >>= l)
  >>=-fuse l h = go r
    where
      go : (m : Run P) → ((m >>= f) >>= k) ≡ (m >>= l)
      go (done p) = h p
      go panic = refl

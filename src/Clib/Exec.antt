-- ===== src/Clib/Exec.antt =====
-- What a piece of C code does: it finishes with a value, it calls `exit`, or it leaves what the
-- language defines (an access outside an object, a use of NULL).
use distributed_storage.Base.{ℕ, Option, none, some, ◌≡◌, refl, ◌⊎◌, inl, inr}

pub data Exec {ℓ} (A : Type ℓ) : Type ℓ where
  done : A → Exec A
  exits : ℕ → Exec A
  fault : Exec A

infixl 5 ◌>>=◌ ◌>>◌
abbrev pub ◌>>=◌ {ℓ κ} : {A : Type ℓ} {B : Type κ} → Exec A → (A → Exec B) → Exec B
done a >>= f = f a
exits n >>= f = exits n
fault >>= f = fault

abbrev pub ◌>>◌ {ℓ κ} : {A : Type ℓ} {B : Type κ} → Exec A → Exec B → Exec B
m >> k = m >>= λ _. k

-- A pointer that is dereferenced, or moved: NULL is a fault.
abbrev pub nonnull {ℓ} : {A : Type ℓ} → Option A → Exec A
nonnull none = fault
nonnull (some a) = done a

pub >>=-eq-done {ℓ κ} :
    {A : Type ℓ} {B : Type κ} (m : Exec A) (f : A → Exec B) {b : B}
    → (m >>= f) ≡ done b
    → (a : A) × (m ≡ done a) × (f a ≡ done b)
>>=-eq-done (done a) f h = (a, refl, h)
>>=-eq-done (exits n) f h = cc
>>=-eq-done fault f h = cc

pub Exec-cases {ℓ} :
    {A : Type ℓ} (m : Exec A) → ((a : A) × (m ≡ done a)) ⊎ (((n : ℕ) × (m ≡ exits n)) ⊎ (m ≡ fault))
Exec-cases (done a) = inl (a, refl)
Exec-cases (exits n) = inr (inl (n, refl))
Exec-cases fault = inr (inr refl)

-- ===== src/Clib/After.antt =====
-- What holds of the value that code returns, if it returns one.
use distributed_storage.Base.{◌≡◌, refl}
use distributed_storage.Clib.Exec.{Exec, done, exits, fault, ◌>>=◌}

abbrev pub After {ℓ} : {A : Type ℓ} → (A → Type 0) → Exec A → Type 0
After P (done a) = P a
After P (exits n) = Unit
After P fault = Unit

pub After-bind {ℓ κ} :
    {A : Type ℓ} {B : Type κ} (P : B → Type 0) (m : Exec A) (f : A → Exec B)
    → ((a : A) → m ≡ done a → After P (f a))
    → After P (m >>= f)
After-bind P (done a) f h = h a refl
After-bind P (exits n) f h = tt
After-bind P fault f h = tt

pub After-done {ℓ} :
    {A : Type ℓ} (P : A → Type 0) (m : Exec A) (a : A) → After P m → m ≡ done a → P a
After-done P (done b) a h e = let same : b ≡ a = cc in rw same at h
After-done P (exits n) a h e = cc
After-done P fault a h e = cc

pub After-intro {ℓ} :
    {A : Type ℓ} (P : A → Type 0) (m : Exec A) → ((a : A) → m ≡ done a → P a) → After P m
After-intro P (done a) h = h a refl
After-intro P (exits n) h = tt
After-intro P fault h = tt

-- ===== src/RedisOp/Ends.antt =====
-- What holds of the value and the state with which code ends, if it does.
use distributed_storage.Base.{◌≡◌, refl}
use distributed_storage.Clib.Exec as Exec
use distributed_storage.Clib.Exec.{Exec, done, exits, fault}
use distributed_storage.RedisOp.Action.{Action, ◌>>=◌, lift}

abbrev pub Ends {ℓ} : {A : Type ℓ} {W : Type 0} → (A → W → Type 0) → Exec (A × W) → Type 0
Ends P (done r) = P r.0 r.1
Ends P (exits n) = Unit
Ends P fault = Unit

module _ {W : Type 0} where
  pub Ends-bind {ℓ κ} :
      {A : Type ℓ} {B : Type κ} (P : B → W → Type 0) (m : Action W A) (f : A → Action W B) (w : W)
      → ((a : A) (u : W) → m w ≡ done (a, u) → Ends P (f a u))
      → Ends P ((m >>= f) w)
  Ends-bind {A} P m f w h = by_run (m w) refl
    where
      by_run : (r : Exec (A × W)) → m w ≡ r → Ends P (Exec.◌>>=◌ r (λ r. f r.0 r.1))
      by_run (done r) e = h r.0 r.1 e
      by_run (exits n) e = tt
      by_run fault e = tt

  pub Ends-lift {ℓ κ} :
      {A : Type ℓ} {B : Type κ} (P : B → W → Type 0) (m : Exec A) (f : A → Action W B) (w : W)
      → ((a : A) → m ≡ done a → Ends P (f a w))
      → Ends P ((lift m >>= f) w)
  Ends-lift P (done a) f w h = h a refl
  Ends-lift P (exits n) f w h = tt
  Ends-lift P fault f w h = tt

  pub Ends-done {ℓ} :
      {A : Type ℓ} (P : A → W → Type 0) (m : Exec (A × W)) (a : A) (w : W)
      → Ends P m
      → m ≡ done (a, w)
      → P a w
  Ends-done P (done r) a w h e = let same : r ≡ (a, w) = cc in rw same at h
  Ends-done P (exits n) a w h e = cc
  Ends-done P fault a w h e = cc

  pub Ends-lift_last {ℓ} :
      {A : Type ℓ} (P : A → W → Type 0) (m : Exec A) (w : W)
      → ((a : A) → m ≡ done a → P a w)
      → Ends P (lift m w)
  Ends-lift_last P (done a) w h = h a refl
  Ends-lift_last P (exits n) w h = tt
  Ends-lift_last P fault w h = tt

  -- The two together: what holds behind the first part is handed to the second.
  pub Ends-then {ℓ κ} :
      {A : Type ℓ} {B : Type κ} (Q : A → W → Type 0) (P : B → W → Type 0) (m : Action W A)
      (f : A → Action W B) (w : W)
      → Ends Q (m w)
      → ((a : A) (u : W) → Q a u → Ends P (f a u))
      → Ends P ((m >>= f) w)
  Ends-then Q P m f w first second =
      Ends-bind P m f w λ a u e. second a u (Ends-done Q (m w) a u first e)

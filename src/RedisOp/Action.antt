-- ===== src/RedisOp/Action.antt =====
-- Code that works on a state: it returns a value and the new state, unless it exits or faults.
use distributed_storage.Base.{◌≡◌, refl}
use distributed_storage.Clib.Exec as Exec
use distributed_storage.Clib.Exec.{Exec, done, exits, fault}

abbrev pub Action {ℓ} : Type 0 → Type ℓ → Type ℓ
Action W A = W → Exec (A × W)

module _ {W : Type 0} where
  infixl 5 ◌>>=◌ ◌>>◌
  abbrev pub ◌>>=◌ {ℓ κ} : {A : Type ℓ} {B : Type κ} → Action W A → (A → Action W B) → Action W B
  ◌>>=◌ m f w = Exec.◌>>=◌ (m w) (λ r. f r.0 r.1)

  abbrev pub ◌>>◌ {ℓ κ} : {A : Type ℓ} {B : Type κ} → Action W A → Action W B → Action W B
  m >> k = m >>= λ _. k

  abbrev pub return {ℓ} : {A : Type ℓ} → A → Action W A
  return a w = done (a, w)

  -- Code that does not look at the state.
  abbrev pub lift {ℓ} : {A : Type ℓ} → Exec A → Action W A
  lift m w = Exec.◌>>=◌ m (λ a. done (a, w))

  -- A call of the interface that gives a value.
  abbrev pub call {ℓ} : {A : Type ℓ} → (W → A × W) → Action W A
  call f w = done (f w)

  -- A call that gives none.
  abbrev pub effect : (W → W) → Action W (Unit {0})
  effect f w = done (tt, f w)

  -- Inversion of a chain that gives a value.
  pub >>=-eq-done {ℓ κ} :
      {A : Type ℓ} {B : Type κ} (m : Action W A) (f : A → Action W B) {b : B} {w w' : W}
      → (m >>= f) w ≡ done (b, w')
      → (a : A) × (u : W) × (m w ≡ done (a, u)) × (f a u ≡ done (b, w'))
  >>=-eq-done m f {b} {w} {w'} h =
      let ((a, u), e, e') = Exec.>>=-eq-done (m w) (λ r. f r.0 r.1) h in (a, u, e, e')

  -- The same for code that does not look at the state, which leaves it as it was.
  pub lift-eq-done {ℓ κ} :
      {A : Type ℓ} {B : Type κ} (m : Exec A) (f : A → Action W B) {b : B} {w w' : W}
      → (lift m >>= f) w ≡ done (b, w')
      → (a : A) × (m ≡ done a) × (f a w ≡ done (b, w'))
  lift-eq-done (done a) f h = (a, refl, h)
  lift-eq-done (exits n) f h = cc
  lift-eq-done fault f h = cc

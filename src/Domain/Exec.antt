-- ===== src/Domain/Exec.antt =====
-- Methods on `&mut self` that return a `Result`: what was written before an error stays written, so
-- the state comes back beside the error too. `?` is the bind.
pub mod Keeps
use edge.Prelude.{Bool, if◌then◌else◌}
use edge.Domain.Errors.{AppError, Result, ok, err}

abbrev pub Exec {ℓ κ} : Type ℓ → Type κ → Type (ℓ ⊔ κ)
Exec S A = S → Result A × S

module _ {ℓ κ} {S : Type ℓ} {A : Type κ} where
  abbrev pub pure : A → Exec S A
  pure a s = (ok a, s)

  abbrev pub throw : AppError → Exec S A
  throw e s = (err e, s)

  abbrev pub lift : Result A → Exec S A
  lift r s = (r, s)

  abbrev pub gets : (S → A) → Exec S A
  gets f s = (ok (f s), s)

abbrev pub modify {ℓ} : {S : Type ℓ} → (S → S) → Exec S (Unit {0})
modify f s = (ok tt, f s)

module _ {ℓ κ μ} {S : Type ℓ} {A : Type κ} {B : Type μ} where
  abbrev pub resume : Result A → S → (A → Exec S B) → Result B × S
  resume (ok a) s f = f a s
  resume (err e) s f = (err e, s)

  infixl 5 ◌>>=◌
  unfoldable pub ◌>>=◌ : Exec S A → (A → Exec S B) → Exec S B
  ◌>>=◌ m f s = let (r, s') = m s in resume r s' f

infixl 5 ◌>>◌
abbrev pub ◌>>◌ {ℓ μ} : {S : Type ℓ} {B : Type μ} → Exec S (Unit {0}) → Exec S B → Exec S B
m >> n = m >>= λ _. n

-- An early `return` of an error.
abbrev pub unless {ℓ} : {S : Type ℓ} → Bool → Exec S (Unit {0}) → Exec S (Unit {0})
unless b m = if b then pure tt else m

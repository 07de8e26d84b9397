-- ===== src/Domain/Exec/Keeps.antt =====
-- A method keeps a property of the state when it holds after the call, on errors too.
use edge.Prelude.{Bool, true, false, if◌then◌else◌}
use edge.Domain.Errors.{Result, ok, err}
use edge.Domain.Exec.{Exec, unless, resume, ◌>>=◌}

abbrev pub Keeps {ℓ κ μ} : {S : Type ℓ} {A : Type κ} → (S → Type μ) → Exec S A → Type (ℓ ⊔ μ)
Keeps {S = S} P m = (s : S) → P s → P (m s).1

resume-Keeps {ℓ κ ν μ} :
    {S : Type ℓ} {A : Type κ} {B : Type ν} (P : S → Type μ) (r : Result A) (s : S)
    (f : A → Exec S B)
    → P s
    → ((a : A) → Keeps P (f a))
    → P (resume r s f).1
resume-Keeps P (ok a) s f p k = k a s p
resume-Keeps P (err e) s f p k = p

pub bind-Keeps {ℓ κ ν μ} :
    {S : Type ℓ} {A : Type κ} {B : Type ν} (P : S → Type μ) (m : Exec S A) (f : A → Exec S B)
    → Keeps P m
    → ((a : A) → Keeps P (f a))
    → Keeps P (m >>= f)
unfolding ◌>>=◌
bind-Keeps P m f hm hf s p = resume-Keeps P (m s).0 (m s).1 f (hm s p) hf

pub unless-Keeps {ℓ μ} :
    {S : Type ℓ} (P : S → Type μ) (b : Bool) (m : Exec S (Unit {0}))
    → Keeps P m
    → Keeps P (unless b m)
unless-Keeps P true m h s p = p
unless-Keeps P false m h s p = h s p

pub if-Keeps {ℓ κ μ} :
    {S : Type ℓ} {A : Type κ} (P : S → Type μ) (b : Bool) (m n : Exec S A)
    → Keeps P m
    → Keeps P n
    → Keeps P (if b then m else n)
if-Keeps P true m n h k = h
if-Keeps P false m n h k = k

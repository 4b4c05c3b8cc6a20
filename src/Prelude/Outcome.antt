-- ===== src/Prelude/Outcome.antt =====
-- The outcome of a piece of C: a value, undefined behaviour (a read or write outside a block, a
-- dereference of NULL or of freed memory), or a loop that was given too few rounds of fuel.
use mathlib.Core.Path.{◌≡◌, refl}
use mathlib.Core.Bool.{Bool, true, false}

pub data Exec {ℓ} (A : Type ℓ) : Type ℓ where
  ok : A → Exec A
  ub : Exec A
  spent : Exec A

infixl 5 ◌>>=◌
abbrev pub ◌>>=◌ {ℓ κ} : {A : Type ℓ} {B : Type κ} → Exec A → (A → Exec B) → Exec B
ok a >>= f = f a
ub >>= f = ub
spent >>= f = spent

infixl 5 ◌>>◌
abbrev pub ◌>>◌ {ℓ κ} : {A : Type ℓ} {B : Type κ} → Exec A → Exec B → Exec B
m >> k = m >>= λ _. k

-- A read or write that is undefined outside its block.
abbrev pub checked {ℓ} : {A : Type ℓ} → Bool → A → Exec A
checked true a = ok a
checked false a = ub

-- Two continuations that agree can be exchanged.
pub bind_cong {ℓ κ} :
    {A : Type ℓ} {B : Type κ} (m : Exec A) {f g : A → Exec B}
    → ((a : A) → f a ≡ g a)
    → (m >>= f) ≡ (m >>= g)
bind_cong (ok a) h = h a
bind_cong ub h = refl
bind_cong spent h = refl

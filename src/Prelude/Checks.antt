-- ===== src/Prelude/Checks.antt =====
-- Go's (value, error): a result or an error, the chains of early returns, and what a chain that succeeded
-- has passed.
use arkade_2fa_vault_poc.Prelude.{◌≡◌, refl, Bool, true, false, Option, none, some}

pub data Checked (E A : Type 0) : Type 0 where
  refused : E → Checked E A
  accepted : A → Checked E A

module _ {E : Type 0} where
  module _ {A B : Type 0} where
    infixr 5 ◌>>=◌ ◌>>◌
    abbrev pub ◌>>=◌ : Checked E A → (A → Checked E B) → Checked E B
    refused e >>= f = refused e
    accepted a >>= f = f a

    abbrev pub ◌>>◌ : Checked E A → Checked E B → Checked E B
    m >> n = m >>= λ _. n

    pub >>=-accepted :
        (m : Checked E A) (f : A → Checked E B) (b : B)
        → (m >>= f) ≡ accepted b
        → (a : A) × (m ≡ accepted a) × (f a ≡ accepted b)
    >>=-accepted (refused e) f b h = cc
    >>=-accepted (accepted a) f b h = (a, refl, h)

  abbrev pub require : Bool → E → Checked E (Unit {0})
  require true e = accepted tt
  require false e = refused e

  pub require-accepted :
      {B : Type 0} (t : Bool) (e : E) (m : Checked E B) (b : B)
      → (require t e >> m) ≡ accepted b
      → (t ≡ true) × (m ≡ accepted b)
  require-accepted true e m b h = (refl, h)
  require-accepted false e m b h = cc

  pub require-true : (t : Bool) (e : E) (u : Unit {0}) → require t e ≡ accepted u → t ≡ true
  require-true true e u h = refl
  require-true false e u h = cc

  abbrev pub from_option : {A : Type 0} → E → Option A → Checked E A
  from_option e none = refused e
  from_option e (some a) = accepted a

  pub from_option-accepted :
      {A : Type 0} (e : E) (o : Option A) (a : A) → from_option e o ≡ accepted a → o ≡ some a
  from_option-accepted e none a h = cc
  from_option-accepted e (some x) a h = cc

  pub accepted-eq : {A : Type 0} (a b : A) → ◌≡◌ {A = Checked E A} (accepted a) (accepted b) → a ≡ b
  accepted-eq a b h = cc h

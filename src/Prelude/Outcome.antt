-- ===== src/Prelude/Outcome.antt =====
-- A Go function that may panic, and a Go channel that is only ever closed.
use Prim.Native.String.{String}
use mathlib.Core.Path.{◌≡◌, refl}

pub data Outcome {ℓ} (A : Type ℓ) : Type ℓ where
  returns : A → Outcome A
  panics : String → Outcome A

infixl 5 ◌>>=◌ ◌>>◌
abbrev pub ◌>>=◌ {ℓ κ} : {A : Type ℓ} {B : Type κ} → Outcome A → (A → Outcome B) → Outcome B
returns a >>= f = f a
panics why >>= f = panics why

abbrev pub ◌>>◌ {ℓ} : {B : Type ℓ} → Outcome (Unit {0}) → Outcome B → Outcome B
m >> k = m >>= λ _. k

pub >>=-eq-returns {ℓ κ} :
    {A : Type ℓ} {B : Type κ} (m : Outcome A) (f : A → Outcome B) {b : B}
    → (m >>= f) ≡ returns b
    → (a : A) × (m ≡ returns a) × (f a ≡ returns b)
>>=-eq-returns (returns a) f h = (a, refl, h)
>>=-eq-returns (panics why) f h = cc

pub data Channel : Type 0 where
  no_channel open_channel closed_channel : Channel

-- close(*c)
abbrev pub close_channel : Channel → Outcome Channel
close_channel no_channel = panics "invalid memory address or nil pointer dereference"
close_channel open_channel = returns closed_channel
close_channel closed_channel = panics "close of closed channel"

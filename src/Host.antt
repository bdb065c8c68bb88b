-- ===== src/Host.antt =====
-- Calls of the operating system: they keep the state of a device, and a fatal log line ends the
-- program (`log_print` of source/log.c calls `exit`).
use raspdif.Prelude.{ℕ, List}

pub data Outcome (A : Type 0) : Type 0 where
  ok : A → Outcome A
  exited : Outcome A

-- The state of the device, and the messages it was sent, the latest first. The program does not
-- keep `sent`.
pub record Host (S : Type 0) : Type 0 where
  pub device : S
  pub sent : List (List ℕ)

abbrev pub Action : Type 0 → Type 0 → Type 0
Action S A = Host S → Outcome A × Host S

module _ {S : Type 0} where
  abbrev pub pure : {A : Type 0} → A → Action S A
  pure a h = (ok a, h)

  abbrev pub or_exit : {A B : Type 0} → Outcome A × Host S → (A → Action S B) → Outcome B × Host S
  or_exit (ok a, h) f = f a h
  or_exit (exited, h) f = (exited, h)

  infixl 5 ◌>>=◌
  abbrev pub ◌>>=◌ : {A B : Type 0} → Action S A → (A → Action S B) → Action S B
  (m >>= f) h = or_exit (m h) f

-- ===== src/Audio/Float.antt =====
-- float64 and the functions of package math that internal/audio uses, as the operations of a type.
use sip_relay.Prelude.{ℕ, Bool}
use sip_relay.Prelude.Int.{ℤ}

-- `of_int` is the conversion of an int or an int16; `floor`, `ceil` and `round` convert their result
-- to an int; `decimal a b` is the constant a / b.
pub record Float (F : Type 0) : Type 0 where
  pub of_int : ℤ → F
  pub decimal : ℕ → ℕ → F
  pub add : F → F → F
  pub sub : F → F → F
  pub mul : F → F → F
  pub div : F → F → F
  pub less : F → F → Bool
  pub equal : F → F → Bool
  pub floor : F → ℤ
  pub ceil : F → ℤ
  pub round : F → ℤ
  pub sin : F → F
  pub cos : F → F
  pub pi : F

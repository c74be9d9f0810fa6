-- ===== src/Metrics/Float.antt =====
-- Go's float64 as the monitoring services use it, as a parameter.
use vmware_go_kcl_v2_test.Prelude.{ℕ, ◌<◌, ◌≡◌, Bool, true, false}

-- `of_int` is the conversion of an int64, given by its 64 bits; `of_count` that of a length.
pub record Float64 : Type 1 where
  pub Value : Type 0
  pub zero_value : Value
  pub of_int : ℕ → Value
  pub of_count : ℕ → Value
  pub add : Value → Value → Value
  pub less : Value → Value → Bool

-- The integers below 2 ^ 53 are converted exactly: `to_int` reads them back.
pub record IsExact (f : Float64) : Type 0 where
  pub to_int : f.Value → ℕ
  pub exact : (n : ℕ) → n < 9007199254740992 → to_int (f.of_int n) ≡ n

-- What holds of the order on values none of which is a NaN.
pub record IsOrdered (f : Float64) : Type 0 where
  pub irreflexive : (x : f.Value) → f.less x x ≡ false
  pub transitive : (x y z : f.Value) → f.less x y ≡ false → f.less y z ≡ false → f.less x z ≡ false
  pub asymmetric : (x y : f.Value) → f.less x y ≡ true → f.less y x ≡ false

-- ===== src/Double.antt =====
-- The C++ `double`, which the language has no model of here: the operations that the agent applies
-- to thresholds and metric values are a parameter, `Doubles D`, over an unknown type `D`.
use aegis_desk.Prelude.{ℕ, Bool}
use aegis_desk.Prelude.Text.{Str}

pub record Doubles (D : Type 0) : Type 0 where
  -- std::isfinite, `<`, `<=` and `==`; `a > b` is `lt b a`.
  pub is_finite : D → Bool
  pub lt : D → D → Bool
  pub le : D → D → Bool
  pub eq : D → D → Bool
  -- static_cast<double> of an unsigned integer; also the literals 0.0 and 100.0.
  pub of_ℕ : ℕ → D
  -- `std::ostringstream << std::setprecision(8) << value`.
  pub format : D → Str

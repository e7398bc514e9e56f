-- ===== src/Service/Samples.antt =====
-- Whole numbers that stand for internal/service's float64 in the tests.
use mcp_grand_lyon.Base.{ℕ, ◌+◌, ◌*◌, ◌-◌, false, ltb, ◌==◌}
use mcp_grand_lyon.Base.Int.{pos, or_default}
use mcp_grand_lyon.Model.Float.{Float}
use mcp_grand_lyon.Model.PlaceRef.{Coordinates}

abbrev pub whole : Float
whole = record {
  F = ℕ;
  literal = λ s. 1;
  of_int = λ n. or_default n 0;
  to_int = λ n. pos n;
  add = λ a b. a + b;
  sub = λ a b. a - b;
  mul = λ a b. a * b;
  div = λ a b. a;
  min = λ a b. a;
  max = λ a b. a;
  sin = λ a. 0;
  cos = λ a. 1;
  asin = λ a. a;
  sqrt = λ a. a;
  pi = 3;
  lt = ltb;
  eq = λ a b. a == b;
}

abbrev pub everywhere : Coordinates ℕ
everywhere = record {
  is_nan = λ x. false;
  beyond_latitude = λ x. false;
  beyond_longitude = λ x. false;
}

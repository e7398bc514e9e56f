-- ===== src/Model/Float.antt =====
-- float64 and internal/model/helpers.go's `Point` and `Distance`. The type and its operations are
-- parameters: the code's decisions are modelled, and not the rounding.
use mcp_grand_lyon.Base.{String, Bool}
use mcp_grand_lyon.Base.Int.{ℤ}

-- `literal` is a constant as it is written in the source; `to_int` is the conversion `int(x)`.
pub record Float : Type 1 where
  pub F : Type 0
  pub literal : String → F
  pub of_int : ℤ → F
  pub to_int : F → ℤ
  pub add : F → F → F
  pub sub : F → F → F
  pub mul : F → F → F
  pub div : F → F → F
  pub min : F → F → F
  pub max : F → F → F
  pub sin : F → F
  pub cos : F → F
  pub asin : F → F
  pub sqrt : F → F
  pub pi : F
  pub lt : F → F → Bool
  pub eq : F → F → Bool

pub record Point (F : Type 0) : Type 0 where
  pub latitude : F
  pub longitude : F

module _ (fl : Float) where
  open fl use {F, literal, add, sub, mul, div, min, sin, cos, asin, sqrt, pi}

  abbrev square : F → F
  square x = mul x x

  -- The haversine formula; `math.Pow(x, 2)` is the square.
  unfoldable pub distance : Point F → Point F → F
  distance a b =
      let radians = div pi (literal "180") in
      let dlat = mul (sub b.latitude a.latitude) radians in
      let dlon = mul (sub b.longitude a.longitude) radians in
      let cosines = mul (cos (mul a.latitude radians)) (cos (mul b.latitude radians)) in
      let h =
        add (square (sin (div dlat (literal "2"))))
          (mul cosines (square (sin (div dlon (literal "2"))))) in
      mul (literal "12742000") (asin (sqrt (min (literal "1") h)))

-- ===== src/App/Plot.antt =====
-- crates/app/src/state.rs: the samples of the elevation chart. A time and a value are what the
-- caller passes: their type, and the minimum and maximum of two values, are parameters.
pub mod Bounded
use open_ntripclient.Base.{
  ℕ, zero, suc, ◌+◌, ◌-◌, ◌*◌, ◌%◌, ◌≤◌, Bool, true, false, Option, none, some, List, [], ◌∷◌, ◌++◌,
  ◌≡◌, refl, arith, leb, if◌then◌else◌, length, length-append,
}

abbrev pub u32_size : ℕ
u32_size = 4294967296

-- `retain` with a count of the items seen: the first, the third, and so on.
abbrev pub every_other {ℓ} : {A : Type ℓ} → List A → List A
every_other [] = []
every_other (x ∷ []) = x ∷ []
every_other (x ∷ y ∷ rest) = x ∷ every_other rest

module _ (V : Type 0) (min max : V → V → V) where
  pub record PlotSeries : Type 0 where
    pub points : List (V × V)
    pub cap : ℕ
    pub stride : ℕ
    pub skip : ℕ
    pub lowest : Option V
    pub highest : Option V
    pub current : Option V

  unfoldable pub new : ℕ → PlotSeries
  new cap = record {
    points = [];
    cap = if leb 2 cap then cap else 2;
    stride = 1;
    skip = 0;
    lowest = none;
    highest = none;
    current = none;
  }

  abbrev pub widen : (V → V → V) → Option V → V → V
  widen f none v = v
  widen f (some m) v = f m v

  unfoldable pub observe : V → PlotSeries → PlotSeries
  observe v s = record s {
    current = some v;
    lowest = some (widen min s.lowest v);
    highest = some (widen max s.highest v);
  }

  unfoldable pub thin : Bool → PlotSeries → PlotSeries
  thin true s = record s { points = every_other s.points; stride = s.stride * 2 % u32_size }
  thin false s = s

  -- `skip = stride - 1`, as a 32-bit subtraction.
  unfoldable pub rearm : PlotSeries → PlotSeries
  rearm s = record s { skip = (s.stride + (u32_size - 1)) % u32_size }

  unfoldable pub retain_point : V × V → PlotSeries → PlotSeries
  unfolding thin rearm
  retain_point p s =
      let grown = record s { points = s.points ++ p ∷ [] } in
      rearm (thin (leb s.cap (length grown.points)) grown)

  unfoldable pub push_at : ℕ → V → V → PlotSeries → PlotSeries
  unfolding retain_point
  push_at (suc n) t v s = record s { skip = n }
  push_at zero t v s = retain_point (t, v) s

  unfoldable pub push : V → V → PlotSeries → PlotSeries
  unfolding observe push_at
  push t v s = push_at s.skip t v (observe v s)

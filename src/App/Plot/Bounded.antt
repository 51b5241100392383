-- ===== src/App/Plot/Bounded.antt =====
-- crates/app/src/state.rs: the chart stays small and true to the samples, however many they are.
use mathlib.Core.List.{Sublistᴰ}
use mathlib.Core.List.Sublistᴰ
use open_ntripclient.Base.{suc, ◌≤◌, Option, none, some, List, [], ◌∷◌, ◌≡◌, length}
use open_ntripclient.App.Plot.{PlotSeries, widen, push}

module _ (V : Type 0) (min max : V → V → V) where
  abbrev pub Sample : Type 0
  Sample = V × V

  abbrev pub push_all : List Sample → PlotSeries V min max → PlotSeries V min max
  push_all [] s = s
  push_all ((t, v) ∷ samples) s = push_all samples (push V min max t v s)

  -- The extreme of a list's values, seeded by the first.
  abbrev pub extreme : (V → V → V) → Option V → List Sample → Option V
  extreme f o [] = o
  extreme f o ((t, v) ∷ samples) = extreme f (some (widen V min max f o v)) samples

  pub record IsChart (seen : List Sample) (s : PlotSeries V min max) : Type 0 where
    pub room : 2 ≤ s.cap
    pub bounded : suc (length s.points) ≤ s.cap
    pub some_of : Sublistᴰ s.points seen
    pub least : s.lowest ≡ extreme min none seen
    pub greatest : s.highest ≡ extreme max none seen

  -- A chart that may have reached its capacity.
  record IsFull (seen : List Sample) (s : PlotSeries V min max) : Type 0 where
    pub room : 2 ≤ s.cap
    pub bounded : length s.points ≤ s.cap
    pub some_of : Sublistᴰ s.points seen
    pub least : s.lowest ≡ extreme min none seen
    pub greatest : s.highest ≡ extreme max none seen

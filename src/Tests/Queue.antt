-- ===== src/Tests/Queue.antt =====
-- Runs of the corrections queue, the ring and the chart (crates/app/src/workers/mod.rs, state.rs).
use open_ntripclient.Base.{
  ℕ, true, false, none, [], ◌∷◌, ◌++◌, ◌≡◌, refl, arith, leb, if◌then◌else◌,
}
use open_ntripclient.Base.Bytes.{ascii}
use open_ntripclient.App.Queue.{
  CorrQueue, new, set_active, push, try_pop, store, clearing, popping, pushing, dropped_oldest,
  steps,
}
use open_ntripclient.App.Queue.Accounting.{
  IsAccounted, new-IsBounded, accepted, taken, dropped, delivered, steps-IsAccounted,
}
use open_ntripclient.App.Queue.Detach.{no_stale_block}
use open_ntripclient.App.Ring
use open_ntripclient.App.Ring.{newest_lines}
use open_ntripclient.App.Plot
use open_ntripclient.App.Plot.Bounded.{push_all}

-- Two blocks fit; the third drops the oldest.
abbrev three_pushed : CorrQueue
unfolding steps new
three_pushed =
    steps (store true ∷ pushing (ascii "a") ∷ pushing (ascii "b") ∷ pushing (ascii "c") ∷ [])
      (new 2)

overflow_run : (three_pushed.q ≡ ascii "b" ∷ ascii "c" ∷ []) × (three_pushed.overruns ≡ 1)
unfolding steps new
overflow_run = (refl, refl)

next_overflow_run : (push (ascii "d") three_pushed).outcome ≡ dropped_oldest 2
unfolding push steps new
next_overflow_run = refl

detach_run : (set_active false three_pushed).q ≡ []
unfolding set_active
detach_run = refl

fates_run :
    taken (store true ∷ pushing (ascii "a") ∷ pushing (ascii "b") ∷ popping ∷ []) (new 1)
    ≡ (dropped, ascii "a") ∷ (delivered, ascii "b") ∷ []
unfolding steps new
fates_run = refl

steps-IsAccounted_example :
    IsAccounted
      (new 2)
      (steps (store true ∷ pushing (ascii "a") ∷ popping ∷ []) (new 2))
      (accepted (store true ∷ pushing (ascii "a") ∷ popping ∷ []) (new 2))
      (taken (store true ∷ pushing (ascii "a") ∷ popping ∷ []) (new 2))
steps-IsAccounted_example =
    steps-IsAccounted (store true ∷ pushing (ascii "a") ∷ popping ∷ []) (new 2) (new-IsBounded 2)

no_stale_block_example :
    (try_pop (
      steps
        (store false ∷ (pushing (ascii "x") ∷ []) ++ clearing ∷ pushing (ascii "y") ∷ [])
        three_pushed)).block
    ≡ none
no_stale_block_example =
    no_stale_block (pushing (ascii "x") ∷ []) (pushing (ascii "y") ∷ []) three_pushed tt tt

newest_lines_example :
    (Ring.push_all (ascii "1" ∷ ascii "2" ∷ ascii "3" ∷ []) (Ring.new 2)).buf
    ≡ ascii "2" ∷ ascii "3" ∷ []
newest_lines_example = newest_lines 2 (ascii "1" ∷ ascii "2" ∷ ascii "3" ∷ []) (omega arith)

abbrev smaller : ℕ → ℕ → ℕ
smaller a b = if leb a b then a else b

abbrev larger : ℕ → ℕ → ℕ
larger a b = if leb a b then b else a

thinned_run :
    (push_all ℕ smaller larger
      ((0, 5) ∷ (1, 9) ∷ (2, 3) ∷ (3, 4) ∷ (4, 1) ∷ (5, 2) ∷ [])
      (Plot.new ℕ smaller larger 4)).points
    ≡ (0, 5) ∷ (2, 3) ∷ (5, 2) ∷ []
unfolding Plot.push Plot.new
thinned_run = refl

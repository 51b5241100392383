-- ===== src/App/Queue.antt =====
-- crates/app/src/workers/mod.rs: the bounded corrections queue between the NTRIP worker and the
-- serial worker. Each step below is atomic in the program: it runs under the queue's lock, or is
-- one store to the flag. A lock is poisoned only by a panic under it, which no step has.
pub mod Accounting
pub mod Detach
use open_ntripclient.Base.{
  ℕ, ◌+◌, ◌%◌, Bool, true, false, Option, none, some, List, [], ◌∷◌, ◌++◌, ltb, leb, if◌then◌else◌,
  length, drop,
}
use open_ntripclient.Base.Bytes.{Bytes}

abbrev pub u64_size : ℕ
u64_size = 18446744073709551616

pub data PushOutcome : Type 0 where
  inactive queued : PushOutcome
  dropped_oldest : ℕ → PushOutcome

pub record CorrQueue : Type 0 where
  pub q : List Bytes
  pub cap : ℕ
  pub active : Bool
  pub overruns : ℕ

unfoldable pub new : ℕ → CorrQueue
new cap = record { q = []; cap = if leb 1 cap then cap else 1; active = false; overruns = 0 }

unfoldable pub clear : CorrQueue → CorrQueue
clear s = record s { q = [] }

-- The store that begins an attach or a detach.
unfoldable pub store_active : Bool → CorrQueue → CorrQueue
store_active active s = record s { active = active }

unfoldable pub set_active : Bool → CorrQueue → CorrQueue
unfolding store_active clear
set_active true s = store_active true s
set_active false s = clear (store_active false s)

pub record Pushed : Type 0 where
  pub queue : CorrQueue
  pub outcome : PushOutcome

unfoldable pub push_under_lock : Bool → Bool → Bytes → CorrQueue → Pushed
push_under_lock false full bytes s = record { queue = s; outcome = inactive }
push_under_lock true true bytes s =
    let n = (s.overruns + 1) % u64_size in
    record {
      queue = record s { q = drop 1 s.q ++ bytes ∷ []; overruns = n };
      outcome = dropped_oldest n;
    }
push_under_lock true false bytes s = record {
  queue = record s { q = s.q ++ bytes ∷ [] };
  outcome = queued;
}

unfoldable pub push : Bytes → CorrQueue → Pushed
unfolding push_under_lock
push bytes s = push_under_lock s.active (leb s.cap (length s.q)) bytes s

pub record Popped : Type 0 where
  pub queue : CorrQueue
  pub block : Option Bytes

unfoldable pub pop_front : List Bytes → CorrQueue → Popped
pop_front [] s = record { queue = s; block = none }
pop_front (b ∷ bs) s = record { queue = record s { q = bs }; block = some b }

-- Also the end of `pop_timeout`, when its wait is over.
unfoldable pub try_pop : CorrQueue → Popped
unfolding pop_front
try_pop s = pop_front s.q s

-- What the two threads do to the queue, one atomic step at a time.
pub data Step : Type 0 where
  store : Bool → Step
  clearing popping : Step
  pushing : Bytes → Step

unfoldable pub step : Step → CorrQueue → CorrQueue
unfolding store_active clear try_pop push
step (store active) s = store_active active s
step clearing s = clear s
step popping s = (try_pop s).queue
step (pushing bytes) s = (push bytes s).queue

unfoldable pub steps : List Step → CorrQueue → CorrQueue
unfolding step
steps [] s = s
steps (e ∷ es) s = steps es (step e s)

-- ===== src/App/Queue/Accounting.antt =====
-- crates/app/src/workers/mod.rs: every block that a push accepted is delivered, dropped, cleared
-- or held, in the order of the pushes.
use open_ntripclient.Base.{
  ℕ, suc, ◌+◌, ◌%◌, ◌≤◌, Bool, true, false, List, [], ◌∷◌, ◌++◌, ◌≡◌, refl, sym, ap, arith, leb,
  leb→le, length, take, drop, append-nil, append_assoc, ◌∙◌, length-append, length-drop,
  take-append-drop,
}
use open_ntripclient.Base.Bytes.{Bytes}
use open_ntripclient.App.Queue.{
  u64_size, CorrQueue, new, clear, store_active, push_under_lock, push, pop_front, try_pop, Step,
  store, clearing, popping, pushing, step, steps,
}

-- Why a block is no longer held.
pub data Fate : Type 0 where
  delivered dropped cleared : Fate

abbrev pub fates : Fate → List Bytes → List (Fate × Bytes)
fates f [] = []
fates f (b ∷ bs) = (f, b) ∷ fates f bs

abbrev pub blocks : List (Fate × Bytes) → List Bytes
blocks [] = []
blocks ((f, b) ∷ xs) = b ∷ blocks xs

abbrev pub accepted_if : Bool → Bytes → List Bytes
accepted_if true bytes = bytes ∷ []
accepted_if false bytes = []

-- The block a push accepts.
abbrev pub accepted_by : Step → CorrQueue → List Bytes
accepted_by (pushing bytes) s = accepted_if s.active bytes
accepted_by _ s = []

abbrev pub dropped_if : Bool → Bool → List Bytes → List (Fate × Bytes)
dropped_if true true bs = fates dropped (take 1 bs)
dropped_if _ _ bs = []

-- The blocks that a step takes out.
abbrev pub taken_by : Step → CorrQueue → List (Fate × Bytes)
taken_by (store _) s = []
taken_by clearing s = fates cleared s.q
taken_by popping s = fates delivered (take 1 s.q)
taken_by (pushing _) s = dropped_if s.active (leb s.cap (length s.q)) s.q

abbrev pub accepted : List Step → CorrQueue → List Bytes
accepted [] s = []
accepted (e ∷ es) s = accepted_by e s ++ accepted es (step e s)

abbrev pub taken : List Step → CorrQueue → List (Fate × Bytes)
taken [] s = []
taken (e ∷ es) s = taken_by e s ++ taken es (step e s)

abbrev pub count_dropped : List (Fate × Bytes) → ℕ
count_dropped [] = 0
count_dropped ((dropped, b) ∷ xs) = suc (count_dropped xs)
count_dropped ((delivered, b) ∷ xs) = count_dropped xs
count_dropped ((cleared, b) ∷ xs) = count_dropped xs

blocks-fates : (f : Fate) (bs : List Bytes) → blocks (fates f bs) ≡ bs
blocks-fates f [] = refl
blocks-fates f (b ∷ bs) = ap (◌∷◌ b) (blocks-fates f bs)

blocks-append : (xs ys : List (Fate × Bytes)) → blocks (xs ++ ys) ≡ blocks xs ++ blocks ys
blocks-append [] ys = refl
blocks-append ((f, b) ∷ xs) ys = ap (◌∷◌ b) (blocks-append xs ys)

count_dropped-append :
    (xs ys : List (Fate × Bytes)) → count_dropped (xs ++ ys) ≡ count_dropped xs + count_dropped ys
count_dropped-append [] ys = omega arith
count_dropped-append ((dropped, b) ∷ xs) ys = omega (arith, count_dropped-append xs ys)
count_dropped-append ((delivered, b) ∷ xs) ys = count_dropped-append xs ys
count_dropped-append ((cleared, b) ∷ xs) ys = count_dropped-append xs ys

-- What a queue keeps to.
pub record IsBounded (s : CorrQueue) : Type 0 where
  pub room : 1 ≤ s.cap
  pub held : length s.q ≤ s.cap
  pub counter : suc s.overruns ≤ u64_size

count_dropped_one :
    (bs : List Bytes) → 1 ≤ length bs → count_dropped (fates dropped (take 1 bs)) ≡ 1
count_dropped_one [] h = absurd (omega arith)
count_dropped_one (b ∷ bs) h = refl

count_dropped_others : (bs : List Bytes) → count_dropped (fates cleared bs) ≡ 0
count_dropped_others [] = refl
count_dropped_others (b ∷ bs) = count_dropped_others bs

-- A step takes from the front what it takes, and appends what it accepts.
pub record IsAccounted (s s' : CorrQueue) (into : List Bytes) (out : List (Fate × Bytes))
    : Type 0 where
  pub kept : s.q ++ into ≡ blocks out ++ s'.q
  pub counted : s'.overruns ≡ (s.overruns + count_dropped out) % u64_size
  pub bounded : IsBounded s'

module _ (s : CorrQueue) (h : IsBounded s) where
  unchanged : s.overruns ≡ (s.overruns + 0) % u64_size
  unchanged = omega (arith, h.counter)

  push-IsAccounted :
      (active full : Bool) (bytes : Bytes)
      → leb s.cap (length s.q) ≡ full
      → IsAccounted s
          (push_under_lock active full bytes s).queue
          (accepted_if active bytes)
          (dropped_if active full s.q)
  unfolding push_under_lock
  push-IsAccounted false full bytes e = record {
    kept = append-nil s.q;
    counted = unchanged;
    bounded = h;
  }
  push-IsAccounted true true bytes e =
      let some_held : 1 ≤ length s.q = omega (arith, h.room, leb→le s.cap (length s.q) e) in
      record {
        kept = rw (blocks-fates dropped (take 1 s.q)) (
            rw (sym (append_assoc (take 1 s.q) (drop 1 s.q) (bytes ∷ [])))
              (rw (take-append-drop 1 s.q) refl));
        counted = rw (count_dropped_one s.q some_held) refl;
        bounded = record {
          room = h.room;
          held = omega (
            arith,
            h.held,
            some_held,
            length-append (drop 1 s.q) (bytes ∷ []),
            length-drop 1 s.q,
          );
          counter = omega arith;
        };
      }
  push-IsAccounted true false bytes e = record {
    kept = refl;
    counted = unchanged;
    bounded = record {
      room = h.room;
      held = ground (arith, h.held, length-append s.q (bytes ∷ []));
      counter = h.counter;
    };
  }

  pop-IsAccounted :
      (bs : List Bytes)
      → s.q ≡ bs
      → IsAccounted s (pop_front bs s).queue [] (fates delivered (take 1 bs))
  unfolding pop_front
  pop-IsAccounted [] e = record { kept = append-nil s.q; counted = unchanged; bounded = h }
  pop-IsAccounted (b ∷ bs) e = record {
    kept = append-nil s.q ∙ e;
    counted = unchanged;
    bounded = record {
      room = h.room;
      held = omega (arith, h.held, ap length e);
      counter = h.counter;
    };
  }

step-IsAccounted :
    (e : Step) (s : CorrQueue)
    → IsBounded s
    → IsAccounted s (step e s) (accepted_by e s) (taken_by e s)
unfolding step store_active clear try_pop push
step-IsAccounted (store b) s h = record {
  kept = append-nil s.q;
  counted = unchanged s h;
  bounded = record { room = h.room; held = h.held; counter = h.counter };
}
step-IsAccounted clearing s h = record {
  kept = sym (ap (λ l. l ++ []) (blocks-fates cleared s.q));
  counted = rw (count_dropped_others s.q) (unchanged s h);
  bounded = record { room = h.room; held = omega arith; counter = h.counter };
}
step-IsAccounted popping s h = pop-IsAccounted s h s.q refl
step-IsAccounted (pushing bytes) s h =
    push-IsAccounted s h s.active (leb s.cap (length s.q)) bytes refl

-- Over any interleaving of the two threads' steps, the blocks held and accepted are, in order, the
-- blocks taken out followed by those held afterwards; the overrun counter grows, modulo 2 ^ 64, by
-- the blocks dropped, and the queue stays within its capacity.
pub steps-IsAccounted :
    (es : List Step) (s : CorrQueue)
    → IsBounded s
    → IsAccounted s (steps es s) (accepted es s) (taken es s)
unfolding steps
steps-IsAccounted [] s h = record { kept = append-nil s.q; counted = unchanged s h; bounded = h }
steps-IsAccounted (e ∷ es) s h =
    let one = step-IsAccounted e s h in
    let rest = steps-IsAccounted es (step e s) one.bounded in
    let into = accepted es (step e s) in
    let out = taken_by e s in
    record {
      kept = cc (
        one.kept,
        rest.kept,
        append_assoc s.q (accepted_by e s) into,
        append_assoc (blocks out) (step e s).q into,
        append_assoc (blocks out) (blocks (taken es (step e s))) (steps es (step e s)).q,
        blocks-append out (taken es (step e s)),
      );
      counted =
          omega (arith, one.counted, rest.counted, count_dropped-append out (taken es (step e s)));
      bounded = rest.bounded;
    }

pub new-IsBounded : (cap : ℕ) → IsBounded (new cap)
unfolding new
new-IsBounded cap = record { room = ground arith; held = omega arith; counter = omega arith }

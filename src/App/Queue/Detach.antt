-- ===== src/App/Queue/Detach.antt =====
-- crates/app/src/workers/mod.rs: no stale block outlives a detach, whatever the producer does
-- between the store and the clear.
use open_ntripclient.Base.{true, false, none, List, [], ◌∷◌, ◌++◌, ◌≡◌, ◌∙◌, refl}
use open_ntripclient.Base.Bytes.{Bytes}
use open_ntripclient.App.Queue.{
  CorrQueue, clear, store_active, push_under_lock, push, pop_front, try_pop, Step, store, clearing,
  popping, pushing, step, steps,
}

-- No step attaches a serial worker.
abbrev pub NeverAttaches : List Step → Type 0
NeverAttaches [] = Unit
NeverAttaches (store true ∷ es) = ⊥
NeverAttaches (e ∷ es) = NeverAttaches es

steps-append : (es fs : List Step) (s : CorrQueue) → steps (es ++ fs) s ≡ steps fs (steps es s)
unfolding steps
steps-append [] fs s = refl
steps-append (e ∷ es) fs s = steps-append es fs (step e s)

record IsDetached (s : CorrQueue) : Type 0 where
  pub off : s.active ≡ false
  pub none_held : s.q ≡ []

push_inactive : (s : CorrQueue) (b : Bytes) → s.active ≡ false → (push b s).queue ≡ s
unfolding push push_under_lock
push_inactive s b e = rw (e, push_under_lock) refl

pop_empty : (s : CorrQueue) → s.q ≡ [] → (try_pop s).queue ≡ s
unfolding try_pop pop_front
pop_empty s e = rw (e, pop_front) refl

pop_active : (bs : List Bytes) (s : CorrQueue) → (pop_front bs s).queue.active ≡ s.active
unfolding pop_front
pop_active [] s = refl
pop_active (b ∷ bs) s = refl

-- Whatever the blocks held, a detached queue stays inactive.
inactive_steps :
    (es : List Step) (s : CorrQueue)
    → NeverAttaches es
    → s.active ≡ false
    → (steps es s).active ≡ false
unfolding steps step store_active clear try_pop
inactive_steps [] s h e = e
inactive_steps (store true ∷ es) s h e = absurd h
inactive_steps (store false ∷ es) s h e = inactive_steps es _ h refl
inactive_steps (clearing ∷ es) s h e = inactive_steps es _ h e
inactive_steps (popping ∷ es) s h e = inactive_steps es _ h (pop_active s.q s ∙ e)
inactive_steps (pushing b ∷ es) s h e = inactive_steps es _ h (rw (push_inactive s b e) e)

steps-IsDetached :
    (es : List Step) (s : CorrQueue) → NeverAttaches es → IsDetached s → IsDetached (steps es s)
unfolding steps step store_active clear
steps-IsDetached [] s h d = d
steps-IsDetached (store true ∷ es) s h d = absurd h
steps-IsDetached (store false ∷ es) s h d =
    steps-IsDetached es _ h (record { off = refl; none_held = d.none_held })
steps-IsDetached (clearing ∷ es) s h d =
    steps-IsDetached es _ h (record { off = d.off; none_held = refl })
steps-IsDetached (popping ∷ es) s h d = steps-IsDetached es _ h (rw (pop_empty s d.none_held) d)
steps-IsDetached (pushing b ∷ es) s h d = steps-IsDetached es _ h (rw (push_inactive s b d.off) d)

-- A detach stores the flag, then clears. Whatever the threads do in between and afterwards, short
-- of attaching a serial worker, no block is held at the end, and a pop finds none.
pub no_stale_block :
    (es fs : List Step) (s : CorrQueue)
    → NeverAttaches es
    → NeverAttaches fs
    → (try_pop (steps (store false ∷ es ++ clearing ∷ fs) s)).block ≡ none
unfolding steps step store_active clear try_pop pop_front
no_stale_block es fs s h k =
    let before = inactive_steps es (store_active false s) h refl in
    let detached : IsDetached (clear (steps es (store_active false s))) = record {
      off = before;
      none_held = refl;
    } in
    let end = (steps-IsDetached fs _ k detached).none_held in
    rw (steps-append es (clearing ∷ fs) (store_active false s)) (rw (end, pop_front) refl)

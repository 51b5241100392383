-- ===== src/Base/Window.antt =====
-- The last items of a list, and how a bounded buffer keeps them.
use Prim.Native.Nat.{ℕ, zero, suc, ◌-◌, ◌≤◌}
use mathlib.Core.Path.{◌≡◌, refl, sym, ap, ◌∙◌}
use mathlib.Core.Bool.{Bool, true, false}
use mathlib.Core.List.{List, [], ◌∷◌, ◌++◌}
use native.Mathlib.Omega.{arith}
use open_ntripclient.Base.Tests.{leb, leb→le, if◌then◌else◌}
use open_ntripclient.Base.Lists.{length, drop, length-append, length-drop, drop-append_le}

module _ {ℓ} {A : Type ℓ} where
  -- The last `n` items.
  abbrev pub window : ℕ → List A → List A
  window n xs = drop (length xs - n) xs

  -- The items of a buffer that a push makes room in.
  abbrev pub make_room : Bool → List A → List A
  make_room full xs = if full then drop 1 xs else xs

  drop-drop : (n : ℕ) (xs : List A) → drop 1 (drop n xs) ≡ drop (suc n) xs
  drop-drop zero xs = refl
  drop-drop (suc n) [] = refl
  drop-drop (suc n) (x ∷ xs) = drop-drop n xs

  pub length-window : (n : ℕ) (xs : List A) → n ≤ length xs → length (window n xs) ≡ n
  length-window n xs h = omega (arith, h, length-drop (length xs - n) xs)

  pub window_short : (n : ℕ) (xs : List A) → length xs ≤ n → window n xs ≡ xs
  window_short n xs h = let all : length xs - n ≡ 0 = omega (arith, h) in ap (λ k. drop k xs) all

  -- A push into a full buffer of the last items, and into one with room.
  pub window-slide :
      (n : ℕ) (xs : List A) (x : A)
      → 1 ≤ n
      → n ≤ length xs
      → drop 1 (window n xs) ++ x ∷ [] ≡ window n (xs ++ x ∷ [])
  window-slide n xs x h k =
      let count : length (xs ++ x ∷ []) - n ≡ suc (length xs - n) =
        omega (arith, h, k, length-append xs (x ∷ [])) in
      ap (λ l. l ++ x ∷ []) (drop-drop (length xs - n) xs)
      ∙ sym (drop-append_le (suc (length xs - n)) xs (x ∷ []) (omega (arith, h, k)))
      ∙ ap (λ i. drop i (xs ++ x ∷ [])) (sym count)

  pub window-grow :
      (n : ℕ) (xs : List A) (x : A)
      → suc (length xs) ≤ n
      → window n xs ++ x ∷ [] ≡ window n (xs ++ x ∷ [])
  window-grow n xs x h =
      ap (λ l. l ++ x ∷ []) (window_short n xs (omega (arith, h)))
      ∙ sym (window_short n (xs ++ x ∷ []) (omega (arith, h, length-append xs (x ∷ []))))

  -- So with any test that says whether the window is full.
  pub window-push :
      (full : Bool) (n : ℕ) (xs : List A) (x : A)
      → 1 ≤ n
      → leb n (length (window n xs)) ≡ full
      → make_room full (window n xs) ++ x ∷ [] ≡ window n (xs ++ x ∷ [])
  window-push true n xs x h e =
      window-slide n xs x h
        (omega (arith, leb→le n (length (window n xs)) e, length-drop (length xs - n) xs))
  window-push false n xs x h e =
      window-grow n xs x (ground (arith, h, e, length-drop (length xs - n) xs))

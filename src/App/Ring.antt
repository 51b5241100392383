-- ===== src/App/Ring.antt =====
-- crates/app/src/state.rs: the ring of lines behind both log panes.
use open_ntripclient.Base.{
  ℕ, ◌-◌, ◌≤◌, Option, List, [], ◌∷◌, ◌++◌, ◌≡◌, refl, sym, arith, ◌==◌, leb, if◌then◌else◌, length,
  drop, get_elem?, append_assoc, append-nil, length-drop, window, window_short, window-push,
}
use open_ntripclient.Base.Bytes.{Bytes, lf}

pub record Ring : Type 0 where
  pub buf : List Bytes
  pub cap : ℕ

unfoldable pub new : ℕ → Ring
new cap = record { buf = []; cap = cap }

unfoldable pub push : Bytes → Ring → Ring
push line r = record r {
  buf = (if length r.buf == r.cap then drop 1 r.buf else r.buf) ++ line ∷ [];
}

unfoldable pub len : Ring → ℕ
len r = length r.buf

unfoldable pub get : ℕ → Ring → Option Bytes
get i r = get_elem? r.buf i

unfoldable pub clear : Ring → Ring
clear r = record r { buf = [] }

abbrev pub join_lines : List Bytes → Bytes
join_lines [] = []
join_lines (line ∷ rest) = line ++ lf ∷ join_lines rest

unfoldable pub join : Ring → Bytes
join r = join_lines r.buf

unfoldable pub push_all : List Bytes → Ring → Ring
unfolding push
push_all [] r = r
push_all (line ∷ lines) r = push_all lines (push line r)

-- What a ring of the lines `history` holds.
record IsWindow (cap : ℕ) (history : List Bytes) (r : Ring) : Type 0 where
  pub same_cap : r.cap ≡ cap
  pub newest : r.buf ≡ window cap history

-- The test by equality is the test by order, while the ring is within its capacity.
==-leb : (a b : ℕ) → a ≤ b → (a == b) ≡ leb b a
==-leb a b h = ground arith

push-IsWindow :
    (cap : ℕ) (history : List Bytes) (r : Ring) (line : Bytes)
    → 1 ≤ cap
    → IsWindow cap history r
    → IsWindow cap (history ++ line ∷ []) (push line r)
unfolding push
push-IsWindow cap history r line h w =
    let full = length (window cap history) == cap in
    let within : length (window cap history) ≤ cap =
      omega (arith, length-drop (length history - cap) history) in
    record {
      same_cap = w.same_cap;
      newest =
          rw (w.same_cap)
            (rw (w.newest) (window-push full cap history line h (sym (==-leb _ cap within))));
    }

push_all-IsWindow :
    (cap : ℕ) (lines history : List Bytes) (r : Ring)
    → 1 ≤ cap
    → IsWindow cap history r
    → IsWindow cap (history ++ lines) (push_all lines r)
unfolding push_all
push_all-IsWindow cap [] history r h w = rw (append-nil history) w
push_all-IsWindow cap (line ∷ lines) history r h w =
    rw (sym (append_assoc history (line ∷ []) lines)) (
      push_all-IsWindow cap lines (history ++ line ∷ []) (push line r) h
        (push-IsWindow cap history r line h w))

-- A ring of capacity 1 or more holds, whatever was pushed, exactly the newest lines, in order, as
-- many as its capacity allows.
pub newest_lines :
    (cap : ℕ) (lines : List Bytes) → 1 ≤ cap → (push_all lines (new cap)).buf ≡ window cap lines
unfolding new
newest_lines cap lines h =
    (push_all-IsWindow cap lines [] (new cap) h
      (record { same_cap = refl; newest = sym (window_short cap [] (omega arith)) })).newest

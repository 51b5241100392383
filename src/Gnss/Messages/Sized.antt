-- ===== src/Gnss/Messages/Sized.antt =====
-- crates/gnss/src/rtcm/decode.rs: a station position is decoded only from a payload that has it all.
use open_ntripclient.Base.{
  ℕ, ◌+◌, ◌*◌, ◌%◌, ◌^◌, ◌≤◌, Bool, true, false, none, some, ◌≡◌, refl, sym, ap, ◌∙◌, arith, ltb,
  ◌==◌, length, Bool-cases, Option-cases, inl, inr,
}
use open_ntripclient.Base.Bytes.{Bytes}
use open_ntripclient.Gnss.Decode.{
  BitReader, Read, ◌>>=◌, give, read_u, sign_extend, read_s, skip, Decoded,
}
use open_ntripclient.Gnss.Messages.{
  read_height, decode_base, decode_body, decode_numbered, decoded, decode,
}

-- What a successful read of so many bits does to the reader.
record Moves (n : ℕ) (r r' : BitReader) : Type 0 where
  pub moved : r'.position ≡ r.position + n
  pub within : r'.position ≤ length r'.data_bytes * 8
  pub same_data : r'.data_bytes ≡ r.data_bytes

abbrev Sized : {A : Type 0} → Read A → ℕ → Type 0
Sized {A} m n =
    (r : BitReader) (a : A) (r' : BitReader)
    → r.position ≤ length r.data_bytes * 8
    → m r ≡ some (a, r')
    → Moves n r r'

none-some : {A : Type 0} (a : A) → none ≡ some a → ⊥
none-some a h = cc

some_inj : {A : Type 0} (a b : A) → some a ≡ some b → a ≡ b
some_inj a b h = cc

give-Sized : {A : Type 0} (a : A) → Sized (give a) 0
give-Sized a r b r' w h =
    let e : r ≡ r' = ap (λ p. p.1) (some_inj _ _ h) in
    rw (sym e) (record { moved = omega arith; within = w; same_data = refl })

bind-Sized :
    {A B : Type 0} (m : Read A) (f : A → Read B) (n k : ℕ)
    → Sized m n
    → ((a : A) → Sized (f a) k)
    → Sized (m >>= f) (n + k)
bind-Sized m f n k s t r b r' w h = elim (Option-cases (m r)) [
  | inl e ↦ absurd (none-some _ (rw (e, ◌>>=◌) at h))
  | inr ((a, r1), e) ↦
      let x = s r a r1 w e in
      let y = t a r1 b r' x.within (rw (e, ◌>>=◌) at h) in
      record {
        moved = omega (arith, x.moved, y.moved);
        within = y.within;
        same_data = y.same_data ∙ x.same_data;
      }
]

read_u-Sized : (n : ℕ) → Sized (read_u n) n
unfolding read_u
read_u-Sized n r a r' w h = elim (Bool-cases (ltb (length r.data_bytes * 8) (r.position + n))) [
  | inl e ↦ absurd (none-some _ (rw (e, read_u) at h))
  | inr e ↦
      let q : record r { position = r.position + n } ≡ r' =
        ap (λ p. p.1) (some_inj _ _ (rw (e, read_u) at h)) in
      rw (sym q) (record { moved = refl; within = ground arith; same_data = refl })
]

skip-Sized : (n : ℕ) → Sized (skip n) n
unfolding skip
skip-Sized n r a r' w h = elim (Bool-cases (ltb (length r.data_bytes * 8) (r.position + n))) [
  | inl e ↦ absurd (none-some _ (rw (e, skip) at h))
  | inr e ↦
      let q : record r { position = r.position + n } ≡ r' =
        ap (λ p. p.1) (some_inj _ _ (rw (e, skip) at h)) in
      rw (sym q) (record { moved = refl; within = ground arith; same_data = refl })
]

read_s-Sized : (n : ℕ) → Sized (read_s n) (n + 0)
unfolding read_s
read_s-Sized n =
    bind-Sized (read_u n) (λ v. give (sign_extend n v)) n 0 (read_u-Sized n)
      (λ v. give-Sized (sign_extend n v))

-- The station position of 1006 has a height of 16 bits behind it.
abbrev height_bits : Bool → ℕ
height_bits true = 16
height_bits false = 0

read_height-Sized : (b : Bool) → Sized (read_height b) (height_bits b)
unfolding read_height
read_height-Sized true = bind-Sized (read_u 16) _ 16 0 (read_u-Sized 16) (λ h. give-Sized (some h))
read_height-Sized false = give-Sized none

abbrev base_bits : Bool → ℕ
base_bits b = 12 + (10 + (38 + 0 + (2 + (38 + 0 + (2 + (38 + 0 + (height_bits b + 0)))))))

decode_base-Sized : (b : Bool) → Sized (decode_base b) (base_bits b)
unfolding decode_base
decode_base-Sized b = bind-Sized (read_u 12) _ 12 _ (read_u-Sized 12) (λ id.
    bind-Sized (skip 10) _ 10 _ (skip-Sized 10) (λ _.
      bind-Sized (read_s 38) _ (38 + 0) _ (read_s-Sized 38) (λ x.
        bind-Sized (skip 2) _ 2 _ (skip-Sized 2) (λ _.
          bind-Sized (read_s 38) _ (38 + 0) _ (read_s-Sized 38) (λ y.
            bind-Sized (skip 2) _ 2 _ (skip-Sized 2) (λ _.
              bind-Sized (read_s 38) _ (38 + 0) _ (read_s-Sized 38) (λ z.
                bind-Sized (read_height b) _ (height_bits b) 0 (read_height-Sized b)
                  (λ h. give-Sized _))))))))

abbrev pub base_type : Bool → ℕ
base_type true = 1006
base_type false = 1005

abbrev pub base_bytes : Bool → ℕ
base_bytes true = 21
base_bytes false = 19

decode_body-Sized : (b : Bool) → Sized (decode_body (base_type b)) (base_bits b)
unfolding decode_body
decode_body-Sized true = decode_base-Sized true
decode_body-Sized false = decode_base-Sized false

numbered-Sized :
    (b : Bool) (number : ℕ) → Sized (decode_numbered (base_type b) number) (base_bits b)
numbered-Sized b number r d r' w h = elim (Bool-cases (number % 2 ^ 16 == base_type b)) [
  | inl e ↦ decode_body-Sized b r d r' w (rw (e, decode_numbered) at h)
  | inr e ↦ absurd (none-some _ (rw (e, decode_numbered) at h))
]

-- A station position is decoded only from a payload that has all of it: 19 bytes for message 1005,
-- and 21 bytes for message 1006, which has an antenna height. Every shorter payload gives nothing.
pub length-decode :
    (is_1006 : Bool) (payload : Bytes) (d : Decoded)
    → decode (base_type is_1006) payload ≡ some d
    → base_bytes is_1006 ≤ length payload
unfolding decode
length-decode b payload d h =
    let r : BitReader = record { data_bytes = payload; position = 0 } in
    let m = read_u 12 >>= λ number. decode_numbered (base_type b) number in
    elim (Option-cases (m r)) [
      | inl e ↦ absurd (none-some _ (rw (e, decoded) at h))
      | inr ((d', r'), e) ↦
          let x =
            bind-Sized (read_u 12) (decode_numbered (base_type b)) 12 (base_bits b)
              (read_u-Sized 12) (numbered-Sized b) r d' r' (omega arith) e in
          enough b (length payload) r'.position x.moved
            (omega (arith, x.within, ap (λ (bs : Bytes). length bs) x.same_data))
    ]
  where
    enough : (b : Bool) (n p : ℕ) → p ≡ 0 + (12 + base_bits b) → p ≤ n * 8 → base_bytes b ≤ n
    enough true n p e h = omega arith
    enough false n p e h = omega arith

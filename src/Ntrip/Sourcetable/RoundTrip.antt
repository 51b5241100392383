-- ===== src/Ntrip/Sourcetable/RoundTrip.antt =====
-- crates/ntrip-core/src/sourcetable.rs: a published row is read back field by field.
use open_ntripclient.Base.{
  true, List, [], ◌∷◌, ◌++◌, ◌≡◌, refl, ap, ◌∙◌, arith, ltb, length, length-append, drop_of_append,
}
use open_ntripclient.Base.Bytes.{Bytes, ascii}
use open_ntripclient.Base.Text.{split, Lacks, split-Lacks, split-some, join-split}
use open_ntripclient.Ntrip.Sourcetable.{semicolon, NetRecord, field, misc_from, parse_net}

-- The fields joined by semicolons, in front of the rest of the line.
abbrev pub published : List Bytes → Bytes → Bytes
published [] rest = rest
published (f ∷ fs) rest = f ++ semicolon ∷ published fs rest

abbrev pub AreClean : List Bytes → Type 0
AreClean [] = Unit
AreClean (f ∷ fs) = Lacks semicolon f × AreClean fs

split-published :
    (fs : List Bytes) (rest : Bytes)
    → AreClean fs
    → split semicolon (published fs rest) ≡ fs ++ split semicolon rest
split-published [] rest h = refl
split-published (f ∷ fs) rest h =
    split-Lacks semicolon f (published fs rest) h.0 ∙ ap (◌∷◌ f) (split-published fs rest h.1)

-- What follows the standard fields comes back verbatim.
misc_from-published :
    (fs : List Bytes) (rest : Bytes) → misc_from (fs ++ split semicolon rest) (length fs) ≡ rest
unfolding misc_from
misc_from-published fs rest =
    let (f, gs, e) = split-some semicolon rest in
    let longer : ltb (length fs) (length (fs ++ split semicolon rest)) ≡ true =
      ground (arith, length-append fs (split semicolon rest), ap length e) in
    rw (longer) (rw (drop_of_append fs (split semicolon rest)) (join-split semicolon rest))

abbrev pub net_fields : NetRecord → List Bytes
net_fields r =
    ascii "NET"
    ∷ r.identifier
    ∷ r.operator
    ∷ r.auth
    ∷ r.fee
    ∷ r.web_net
    ∷ r.web_str
    ∷ r.web_reg
    ∷ []

abbrev pub print_net : NetRecord → Bytes
print_net r = published (net_fields r) r.misc

-- A network whose fields have no semicolon, but for what follows the standard ones, is read back
-- from its row as it was published.
pub parse_net-print_net :
    (r : NetRecord) → AreClean (net_fields r) → parse_net (split semicolon (print_net r)) ≡ r
unfolding parse_net field
parse_net-print_net r h =
    ap parse_net (split-published (net_fields r) r.misc h)
    ∙ ap (λ m. record r { misc = m }) (misc_from-published (net_fields r) r.misc)

-- ===== src/Tests/Chunked.antt =====
-- Runs of the chunked decoder (crates/ntrip-core/src/chunked.rs).
use mathlib.Core.List.{flatten}
use open_ntripclient.Base.{ℕ, false, none, some, [], ◌∷◌, ◌++◌, ◌≡◌, ◌+◌, ◌<◌, refl, arith}
use open_ntripclient.Base.Bytes.{Bytes, ascii, cr, crlf}
use open_ntripclient.Base.Utf8.{from_utf8_lossy}
use open_ntripclient.Ntrip.Chunked.{
  done, fresh, fed, feed, expected_crlf, bad_size_character, size_line, crlf_after_data,
  parse_size_line, find_lf, take_line,
}
use open_ntripclient.Ntrip.Chunked.Bytewise.{run, run_at, observe}
use open_ntripclient.Ntrip.Chunked.Framing.{
  IsLine, with_cr, blank, IsBody, last_chunk, chunk, feed-IsBody,
}
use open_ntripclient.Ntrip.Chunked.Refine.{IsValid, feed-run}
use open_ntripclient.Ntrip.Chunked.SizeLine.{
  IsSizeLine, decimal, lower, first_digit, next_digit, with_crlf, extended,
}
use open_ntripclient.Ntrip.Chunked.Split.{feed_all, feed_all_split, feed-IsValid}

abbrev wiki : Bytes
wiki = ascii "4" ++ crlf ++ ascii "Wiki" ++ crlf ++ ascii "0" ++ crlf ++ crlf

abbrev start_of_wiki : Bytes
start_of_wiki = ascii "4" ++ crlf ++ ascii "Wi"

abbrev rest_of_wiki : Bytes
rest_of_wiki = ascii "ki" ++ crlf ++ ascii "0" ++ crlf ++ crlf

wiki_run : feed fresh wiki [] ≡ fed done [] (ascii "Wiki") none
unfolding feed take_line parse_size_line
wiki_run = refl

no_crlf_run :
    feed fresh (ascii "2" ++ crlf ++ ascii "abX") []
    ≡ fed (crlf_after_data false) [] (ascii "ab") (some (expected_crlf b'X'))
unfolding feed take_line parse_size_line
no_crlf_run = refl

bad_size_run :
    feed fresh (ascii "4G" ++ crlf) [] ≡ fed size_line [] [] (some (bad_size_character b'G'))
unfolding feed take_line parse_size_line
bad_size_run = refl

lossy_runs :
    from_utf8_lossy (0xc3 ∷ 0xa9 ∷ 0xe2 ∷ 0x82 ∷ 0x41 ∷ 0xff ∷ [])
    ≡ 0xc3 ∷ 0xa9 ∷ 0xef ∷ 0xbf ∷ 0xbd ∷ 0x41 ∷ 0xef ∷ 0xbf ∷ 0xbd ∷ []
unfolding from_utf8_lossy
lossy_runs = refl

fresh-IsValid : IsValid fresh
fresh-IsValid = record { positive = tt; bounded = omega arith }

feed-run_example : observe (feed fresh wiki []) ≡ run fresh wiki []
feed-run_example = feed-run fresh wiki [] fresh-IsValid

feed-IsValid_example : IsValid (feed fresh start_of_wiki []).decoder
feed-IsValid_example =
    feed-IsValid fresh start_of_wiki [] fresh-IsValid
      (unfold feed take_line parse_size_line in refl)

feed_all_split_example :
    feed_all fresh (start_of_wiki ∷ rest_of_wiki ∷ []) [] ≡ feed_all fresh (wiki ∷ []) []
feed_all_split_example =
    feed_all_split fresh (start_of_wiki ∷ rest_of_wiki ∷ []) (wiki ∷ []) [] fresh-IsValid
      (unfold flatten in refl)

-- The size line of a chunk, with its CR.
abbrev size_of : ℕ → Bytes
size_of digit = digit ∷ cr ∷ []

size-IsLine : (digit : ℕ) → find_lf (size_of digit) ≡ none → IsLine (size_of digit)
size-IsLine digit h = record { one_line = h; bounded = omega arith }

-- The size line of one decimal digit.
size-IsSizeLine : (d : ℕ) → d < 10 → IsSizeLine (size_of (b'0' + d)) d
size-IsSizeLine d h = with_crlf (first_digit (decimal h)) (omega (arith, h))

wiki-IsBody : IsBody wiki (ascii "Wiki")
wiki-IsBody =
    chunk {l = size_of b'4'} {chunk_data = ascii "Wiki"} (size-IsLine b'4' (unfold find_lf in refl))
      (size-IsSizeLine 4 (omega arith)) (λ e. cc) with_cr
      (last_chunk {l = size_of b'0'} (size-IsLine b'0' (unfold find_lf in refl))
        (size-IsSizeLine 0 (omega arith)) (blank with_cr))

-- A size of two digits, of either case, with an extension.
abbrev size_26 : Bytes
size_26 = ascii "1a;name=x"

size_26-IsSizeLine : IsSizeLine size_26 26
size_26-IsSizeLine =
    extended (ascii "name=x")
      (next_digit (first_digit (decimal {d = 1} (omega arith))) (lower {k = 0} (omega arith)))
      (omega arith)

feed-IsBody_example :
    observe (feed fresh (wiki ++ ascii "junk") (ascii "a ")) ≡ run_at done [] (ascii "a Wiki")
feed-IsBody_example = feed-IsBody (ascii "junk") (ascii "a ") wiki-IsBody

-- ===== src/Tests/Session.antt =====
-- Runs of the session (crates/ntrip-core/src/session.rs).
use open_ntripclient.Base.{true, List, [], ◌∷◌, ◌++◌, ◌≡◌, refl, ◌+◌}
use open_ntripclient.Base.Bytes.{Bytes, ascii, crlf, strip_cr}
use open_ntripclient.Ntrip.Chunked.{find_lf}
use open_ntripclient.Base.{some, none}
use open_ntripclient.Ntrip.Config.{
  v1, ntrip, raw_tcp, always, off, SessionConfig, Output, protocol_tx, protocol_rx, corrections,
  sourcetable, gga_due, close, stream_silence, unauthorized,
}
use open_ntripclient.Base.Utf8.{from_utf8_lossy}
use open_ntripclient.Ntrip.Request.{build}
use open_ntripclient.Ntrip.Session.{done, new, enter_streaming, take_hdr_leftover}
use open_ntripclient.Ntrip.Session.Body.{scan_end_line}
use open_ntripclient.Ntrip.Session.{NtripSession, next_line}
use open_ntripclient.Ntrip.Session.EndLine.{Searched, scan_end_line-Searched}
use open_ntripclient.Ntrip.Session.HeaderLoop.{next_line-drive_header}
use open_ntripclient.Ntrip.Session.Headers.{drive_header}
use open_ntripclient.Ntrip.Session.CloseOnce.{close_once}
use open_ntripclient.Ntrip.Session.Closing.{closes, flag}
use open_ntripclient.Ntrip.Session.Events.{
  Event, bytes, tick, sent, remote_close, cancel_request, handle_all,
}
use open_ntripclient.Ntrip.Session.Inert.{close_is_final}
use open_ntripclient.Ntrip.Session.Passthrough.{
  delivered, Reads, events, received, raw_tcp_passthrough,
}

abbrev cfg : SessionConfig
cfg = record {
  host = ascii "caster";
  port = 2101;
  mountpoint = ascii "RTK";
  username = [];
  password = [];
  version = v1;
  transport = ntrip;
  user_agent = ascii "NTRIP x";
  gga = always;
}

abbrev raw_cfg : SessionConfig
raw_cfg = record cfg { transport = raw_tcp }

abbrev sent_lines : List Output
sent_lines =
    protocol_tx (ascii "GET /RTK HTTP/1.0")
    ∷ protocol_tx (ascii "User-Agent: NTRIP x")
    ∷ protocol_tx (ascii "Accept: */*")
    ∷ protocol_tx (ascii "Connection: close")
    ∷ []

-- The status line in two packets, payload behind it, a position report, and silence.
abbrev stream_events : List Event
stream_events =
    bytes (ascii "ICY 2") 0
    ∷ bytes (ascii "00 OK" ++ crlf ++ (0xd3 ∷ 0x00 ∷ [])) 100
    ∷ tick 399
    ∷ tick 400
    ∷ sent 500
    ∷ tick 600
    ∷ tick 30100
    ∷ tick 30200
    ∷ []

stream_runs :
    (handle_all (new cfg 0).session stream_events []).out
    ≡ sent_lines
      ++ (protocol_rx (ascii "ICY 200 OK")
          ∷ corrections (0xd3 ∷ 0x00 ∷ [])
          ∷ gga_due
          ∷ close stream_silence
          ∷ [])
unfolding handle_all new from_utf8_lossy enter_streaming take_hdr_leftover build
stream_runs = refl

abbrev denied_events : List Event
denied_events =
    bytes (ascii "HTTP/1.1 401 Unauthorized" ++ crlf ++ crlf) 10
    ∷ cancel_request
    ∷ remote_close
    ∷ []

denied_runs :
    (handle_all (new cfg 0).session denied_events []).out
    ≡ sent_lines ++ (protocol_rx (ascii "HTTP/1.1 401 Unauthorized") ∷ close unauthorized ∷ [])
unfolding handle_all new from_utf8_lossy enter_streaming take_hdr_leftover build
denied_runs = refl

table_runs :
    (handle_all
      (new (record cfg { mountpoint = []; gga = off }) 0).session
      (bytes (ascii "SOURCETABLE 200 OK" ++ crlf ++ ascii "STR;A" ++ crlf) 10
        ∷ bytes (ascii "EndSourceTable" ++ crlf ++ ascii "more") 20
        ∷ remote_close
        ∷ [])
      []).out
    ≡ protocol_tx (ascii "GET / HTTP/1.0")
      ∷ protocol_tx (ascii "User-Agent: NTRIP x")
      ∷ protocol_tx (ascii "Accept: */*")
      ∷ protocol_tx (ascii "Connection: close")
      ∷ protocol_rx (ascii "SOURCETABLE 200 OK")
      ∷ sourcetable (ascii "STR;A" ++ crlf ++ ascii "EndSourceTable" ++ crlf)
      ∷ []
unfolding handle_all new from_utf8_lossy enter_streaming take_hdr_leftover build
table_runs = refl

close_once_example :
    let r = handle_all (new cfg 0).session stream_events [] in
    (closes r.out + closes r.session.pending ≡ flag r.session.closed)
    × (r.session.closed ≡ true → r.session.phase ≡ done)
close_once_example = close_once cfg 0 stream_events

denied_closed : (handle_all (new cfg 0).session denied_events []).session.closed ≡ true
unfolding handle_all new from_utf8_lossy enter_streaming take_hdr_leftover build
denied_closed = refl

close_is_final_example :
    let r = handle_all (new cfg 0).session denied_events [] in
    (handle_all r.session stream_events r.out).out ≡ r.out
close_is_final_example = close_is_final cfg 0 denied_events stream_events denied_closed

abbrev reads : Reads
reads = (0xd3 ∷ 0 ∷ [], 5) ∷ ([], 6) ∷ (ascii "ICY", 7) ∷ []

raw_tcp_passthrough_example :
    delivered (handle_all (new raw_cfg 0).session (events reads) []).out ≡ received reads
raw_tcp_passthrough_example = raw_tcp_passthrough raw_cfg 0 reads refl

abbrev two_lines : Bytes
two_lines = ascii "STR;A" ++ crlf ++ ascii "EndSourceTable" ++ crlf

end_line_run : (scan_end_line two_lines 0).found ≡ some 23
unfolding scan_end_line
end_line_run = refl

scan_end_line-Searched_example : Searched two_lines 0 (scan_end_line two_lines 0)
scan_end_line-Searched_example = scan_end_line-Searched two_lines 0

-- A session whose buffer has a status line, a header, and the start of another.
abbrev header_session : NtripSession
header_session = record (new cfg 0).session {
  hdr = ascii "HTTP/1.1 200 OK" ++ crlf ++ ascii "Server: x" ++ crlf ++ ascii "Content";
}

next_line-drive_header_example : next_line (drive_header 0 header_session []).session ≡ none
unfolding drive_header next_line new enter_streaming take_hdr_leftover find_lf from_utf8_lossy
    strip_cr
next_line-drive_header_example = next_line-drive_header 0 header_session [] refl refl

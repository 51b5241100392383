-- ===== src/App/Worker/Dispatch.antt =====
-- crates/app/src/workers/ntrip.rs: what the worker does with each output of the session.
use open_ntripclient.Base.{◌-◌, Option, none, some, List, [], ◌∷◌, ◌++◌, length}
use open_ntripclient.Base.Bytes.{Bytes, ascii, decimal}
use open_ntripclient.Ntrip.Config.{
  Output, protocol_tx, protocol_rx, corrections, sourcetable, gga_due, close, CloseReason,
  mountpoint_not_found, unknown_response,
}
use open_ntripclient.Ntrip.Session.{NtripSession}
use open_ntripclient.Ntrip.Sourcetable.{parse}
use open_ntripclient.App.Job.{FloatText}
use open_ntripclient.App.Closes.{close_event_line}
use open_ntripclient.App.Policy.{PositionTrouble, gga_hint, position_verdict}
use open_ntripclient.App.Bus.{HubCall, event, conn, status, position_trouble, sourcetable_ready}
use open_ntripclient.App.Bus
use open_ntripclient.App.Worker.{
  Cx, ConnState, Moment, Worked, SessionEnd, table_done, closed, post, on_corrections,
}
use open_ntripclient.App.Worker.Gga.{Live, report_trouble, position_ready, on_gga_due}

abbrev pub both : Bytes → List HubCall
both line = event line ∷ conn line ∷ []

unfoldable pub on_sourcetable : Bytes → Bytes → Cx → Cx
unfolding parse post decimal
on_sourcetable raw what cx =
    let table = parse raw in
    let line =
      what
      ++ (ascii ": "
          ++ (decimal 20 (length table.strs)
              ++ (ascii " streams, "
                  ++ (decimal 20 (length table.casters)
                      ++ (ascii " casters, "
                          ++ (decimal 20 (length table.networks) ++ ascii " networks")))))) in
    post (event line ∷ status (sourcetable_ready cx.job.host cx.job.port table) ∷ []) cx

-- `if conn.terminal.is_none() { conn.terminal = Some(end) }`
abbrev pub end_once : SessionEnd → Option SessionEnd → Option SessionEnd
end_once end none = some end
end_once end (some earlier) = some earlier

abbrev pub end_with : SessionEnd → ConnState → ConnState
end_with end c = record c { terminal = end_once end c.terminal }

-- What a close brings along: the table, or the raw response.
unfoldable pub surface : CloseReason → Cx → Cx
unfolding on_sourcetable post
surface (mountpoint_not_found table) cx =
    on_sourcetable table (ascii "Caster answered with its sourcetable") cx
surface (unknown_response []) cx = cx
surface (unknown_response (b ∷ bs)) cx = post (status (Bus.unknown_response (b ∷ bs)) ∷ []) cx
surface _ cx = cx

abbrev pub hint_calls : Option (Bytes × Bytes) → List HubCall
hint_calls none = []
hint_calls (some lines) = both lines.0 ++ both lines.1

unfoldable pub post_verdict : Option PositionTrouble → Cx → Cx
unfolding report_trouble post
post_verdict (some trouble) cx = report_trouble trouble cx
post_verdict none cx = post (status (position_trouble none) ∷ []) cx

module _ (fixed : FloatText) where
  unfoldable pub on_close : Moment → CloseReason → Cx → ConnState → Worked
  unfolding surface close_event_line post gga_hint position_verdict position_ready post_verdict
  on_close m reason cx c =
      let job = cx.job in
      let connected_for = m.now - c.connected_at in
      let line =
        close_event_line fixed reason job.mountpoint connected_for
          (cx.total_bytes - c.bytes_at_connect) in
      let hints =
        gga_hint reason job.transport job.mountpoint job.stream_requires_gga c.gga_sent
          connected_for in
      let verdict =
        position_verdict reason job.transport job.mountpoint job.stream_requires_gga c.gga_sent
          connected_for (position_ready job m.last_gga) in
      record {
        cx = post_verdict verdict (post (both line ++ hint_calls hints) (surface reason cx));
        conn = end_with (closed reason) c;
      }

  unfoldable pub dispatch_one : Moment → Output → Cx → ConnState → NtripSession → Live
  unfolding post on_gga_due on_corrections on_sourcetable on_close
  dispatch_one m (protocol_tx line) cx c s = record {
    work = record { cx = post (both (ascii "> " ++ line)) cx; conn = c };
    session = s;
  }
  dispatch_one m (protocol_rx line) cx c s = record {
    work = record {
      cx = post (both (ascii "< " ++ line)) cx;
      conn = record c { answered_at = some (elim c.answered_at [ some at ↦ at | none ↦ m.now ]) };
    };
    session = s;
  }
  dispatch_one m gga_due cx c s = on_gga_due m cx c s
  dispatch_one m (corrections bytes) cx c s = record {
    work = on_corrections fixed m bytes cx c;
    session = s;
  }
  dispatch_one m (sourcetable raw) cx c s = record {
    work = record {
      cx = on_sourcetable raw (ascii "Downloaded sourcetable") cx;
      conn = end_with table_done c;
    };
    session = s;
  }
  dispatch_one m (close reason) cx c s = record { work = on_close m reason cx c; session = s }

  unfoldable pub dispatch : Moment → List Output → Cx → ConnState → NtripSession → Live
  unfolding dispatch_one
  dispatch m [] cx c s = record { work = record { cx = cx; conn = c }; session = s }
  dispatch m (o ∷ os) cx c s =
      let l = dispatch_one m o cx c s in dispatch m os l.work.cx l.work.conn l.session

-- ===== src/App/Worker/Gga.antt =====
-- crates/app/src/workers/ntrip.rs: the answer to a due GGA.
use open_ntripclient.Base.{
  ℕ, ◌-◌, Bool, true, false, not, ◌&&◌, Option, none, some, List, [], ◌∷◌, ◌++◌, leb, ◌==◌,
  if◌then◌else◌,
}
use open_ntripclient.Base.Bytes.{Bytes, ascii, crlf}
use open_ntripclient.Base.Text.{trim_end}
use open_ntripclient.Ntrip.Config.{GgaPolicy, off, always, when_required}
use open_ntripclient.Ntrip.Session.{NtripSession, gga_sent, gga_missed}
use open_ntripclient.App.Job.{has_manual, NtripJob, GgaSource, manual, receiver, gga_policy}
use open_ntripclient.App.Policy.{PositionTrouble, starved, refused}
use open_ntripclient.App.Bus.{HubCall, event, conn, status, position_trouble, hint}
use open_ntripclient.App.Worker.{Cx, ConnState, Moment, Worked, post, is_some, add32}

abbrev pub miss_no_receiver : Bytes × Bytes
miss_no_receiver = (
  ascii "No receiver GGA available; position not sent (no GPS receiver is connected)",
  ascii "Connect one on the Serial side, or switch the position source to manual",
)

abbrev pub miss_no_manual : Bytes × Bytes
miss_no_manual = (
  ascii "No manual position set; GGA not sent (the profile has no usable coordinates)",
  ascii "Set the manual position in the profile, or switch the source to receiver",
)

abbrev pub miss_repeat : Bytes
miss_repeat = ascii "Still no position to send; the caster may be waiting for a GGA"

unfoldable pub note_gga_miss : Option ℕ → ℕ → Bytes × Bytes → Cx → ConnState → Worked
unfolding post
note_gga_miss none now texts cx c = record {
  cx = post (event texts.0 ∷ event texts.1 ∷ []) cx;
  conn = record c { last_miss_note = some now };
}
note_gga_miss (some prev) now texts cx c =
    if not c.streaming && leb 10000 (now - prev)
    then record {
      cx = post (event miss_repeat ∷ []) cx;
      conn = record c { last_miss_note = some now };
    }
    else record { cx = cx; conn = c }

-- Would this connection send a GGA right now.
unfoldable pub position_available : GgaSource → Bool → Option Bytes → Bool
position_available manual manual_set last_gga = manual_set
position_available receiver manual_set last_gga = is_some last_gga

abbrev pub position_wanted : GgaPolicy → Bool
position_wanted off = false
position_wanted always = true
position_wanted (when_required stream_requires) = stream_requires

unfoldable pub position_ready : NtripJob → Option Bytes → Bool
unfolding gga_policy position_available
position_ready job last_gga =
    position_wanted (gga_policy job.gga_mode job.stream_requires_gga)
    && position_available job.gga_source (has_manual job) last_gga

unfoldable pub report_trouble : PositionTrouble → Cx → Cx
unfolding post hint
report_trouble starved cx =
    let told = post (status (position_trouble (some starved)) ∷ []) cx in
    if cx.starved_hint_logged
    then told
    else post (event (hint starved) ∷ []) (record told { starved_hint_logged = true })
report_trouble refused cx =
    let told = post (status (position_trouble (some refused)) ∷ []) cx in
    if cx.refused_hint_logged
    then told
    else post (event (hint refused) ∷ []) (record told { refused_hint_logged = true })

-- The sentence to write, or what to say for want of one.
pub data Sentence : Type 0 where
  ready : Bytes → Sentence
  missing : Bytes × Bytes → Sentence

unfoldable pub sentence_for : GgaSource → Bool → Moment → Sentence
sentence_for manual false m = missing miss_no_manual
sentence_for manual true m = ready m.fabricated
sentence_for receiver manual_set m = elim m.last_gga [
  | some raw ↦ ready (raw ++ crlf)
  | none ↦ missing miss_no_receiver
]

-- A connection, and its session.
pub record Live : Type 0 where
  pub work : Worked
  pub session : NtripSession

abbrev pub first_sent_calls : Bool → List HubCall
first_sent_calls true = status (position_trouble none) ∷ []
first_sent_calls false = []

unfoldable pub write_gga : Bytes → Option Bytes → ℕ → Cx → ConnState → NtripSession → Live
unfolding post gga_sent gga_missed trim_end
write_gga sentence none now cx c s =
    let sent = add32 c.gga_sent 1 in
    record {
      work = record {
        cx = post (first_sent_calls (sent == 1) ++ conn (ascii "> " ++ trim_end sentence) ∷ []) cx;
        conn = record c { gga_sent = sent };
      };
      session = gga_sent s now;
    }
write_gga sentence (some e) now cx c s = record {
  work = record { cx = post (event (ascii "Failed to send GGA: " ++ e) ∷ []) cx; conn = c };
  session = gga_missed s now;
}

unfoldable pub answer_gga : Sentence → Moment → Cx → ConnState → NtripSession → Live
unfolding note_gga_miss gga_missed write_gga
answer_gga (missing texts) m cx c s = record {
  work = note_gga_miss c.last_miss_note m.now texts cx c;
  session = gga_missed s m.now;
}
answer_gga (ready sentence) m cx c s = write_gga sentence m.write_error m.now cx c s

unfoldable pub on_gga_due : Moment → Cx → ConnState → NtripSession → Live
unfolding sentence_for answer_gga
on_gga_due m cx c s = answer_gga (sentence_for cx.job.gga_source (has_manual cx.job) m) m cx c s

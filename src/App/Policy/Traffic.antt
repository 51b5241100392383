-- ===== src/App/Policy/Traffic.antt =====
-- crates/app/src/workers/ntrip.rs: the traffic milestones do not flood the event log.
use open_ntripclient.Base.{
  ℕ, ◌+◌, ◌/◌, ◌≤◌, Option, none, some, List, [], ◌∷◌, ◌≡◌, refl, arith, ltb, leb, ltb→lt,
  Bool-cases, inl, inr, if◌then◌else◌,
}
use open_ntripclient.Base.Bytes.{Bytes}
use open_ntripclient.App.Policy.{mib_crossed, early_mark, mark_of, report_mark, traffic_milestone}

-- A chunk: its bytes, and the frames and CRC failures counted by then.
pub record Chunk : Type 0 where
  pub size : ℕ
  pub frames : ℕ
  pub crc_failures : ℕ

abbrev pub count_some : Option Bytes → ℕ
count_some none = 0
count_some (some line) = 1

-- How many milestones are reported while the chunks arrive.
abbrev pub reports : ℕ → List Chunk → ℕ
reports total [] = 0
reports total (c ∷ cs) =
    count_some (traffic_milestone total (total + c.size) c.frames c.crc_failures)
    + reports (total + c.size) cs

abbrev pub total_after : ℕ → List Chunk → ℕ
total_after total [] = total
total_after total (c ∷ cs) = total_after (total + c.size) cs

abbrev passed : ℕ → ℕ → ℕ
passed mark total = if leb mark total then 1 else 0

-- The milestones up to a total.
abbrev milestones : ℕ → ℕ
milestones total = total / 1048576 + passed 100000 total + passed 10000 total

count_some-report_mark :
    (mark : Option Bytes) (f c : ℕ) → count_some (report_mark mark f c) ≡ count_some mark
count_some-report_mark none f c = refl
count_some-report_mark (some m) f c = refl

count_some-early_mark :
    (before after : ℕ)
    → before ≤ after
    → count_some (early_mark before after) + passed 100000 before + passed 10000 before
      ≤ passed 100000 after + passed 10000 after
count_some-early_mark before after h = ground arith

passed_grow : (mark before n : ℕ) → passed mark before ≤ passed mark (before + n)
passed_grow mark before n = ground arith

passed_one : (mark total : ℕ) → passed mark total ≤ 1
passed_one mark total = ground arith

count_some-mark :
    (before n : ℕ)
    → count_some (mark_of (mib_crossed before (before + n)) before (before + n)) + milestones before
      ≤ milestones (before + n)
unfolding mib_crossed
count_some-mark before n = elim (Bool-cases (ltb (before / 1048576) ((before + n) / 1048576))) [
  | inl e ↦ rw e (
      omega (
        arith,
        ltb→lt (before / 1048576) ((before + n) / 1048576) e,
        passed_grow 100000 before n,
        passed_grow 10000 before n,
      ))
  | inr e ↦ rw e (omega (arith, count_some-early_mark before (before + n) (omega arith)))
]

reports_within :
    (total : ℕ) (cs : List Chunk)
    → reports total cs + milestones total ≤ milestones (total_after total cs)
unfolding traffic_milestone
reports_within total [] = omega arith
reports_within total (c ∷ cs) = omega (
  arith,
  reports_within (total + c.size) cs,
  count_some-mark total c.size,
  count_some-report_mark (mark_of (mib_crossed total (total + c.size)) total (total + c.size))
      c.frames c.crc_failures,
)

-- However the bytes of a run are cut into chunks, at most two milestones are reported, and one more
-- for each MiB received.
pub reports-bound : (cs : List Chunk) → reports 0 cs ≤ 2 + total_after 0 cs / 1048576
reports-bound cs = omega (
  arith,
  reports_within 0 cs,
  passed_one 100000 (total_after 0 cs),
  passed_one 10000 (total_after 0 cs),
)

-- ===== src/Driver/Events/Said.antt =====
-- What the backend's conversions, of MedusaBackend/Event.go, make of the events of
-- MedusaKernelDriver.
use open_anti_cheat.Common.{
  ℕ, ◌%◌, ◌^◌, ◌<◌, ◌≡◌, Option, none, some, List, [], ◌∷◌, All, arith, take, pos, int32_value,
}
use open_anti_cheat.Text.Ascii.{codes}
use open_anti_cheat.Text.Utf16.{IsUnit, until_nul}
use open_anti_cheat.Text.Json.Objects.{text, number, Member}
use open_anti_cheat.Event.{IsEvent}
use open_anti_cheat.Event.Json.Reading.{said}
use open_anti_cheat.Backend.Strings.{utf16_buf_to_string}
use open_anti_cheat.Backend.Json.{shown}
use open_anti_cheat.Driver.Strings.Shown.{
  every_other, utf16_to_string-wcsncpy_s, int32_to_string-wcsncpy_s_ints,
}
use open_anti_cheat.Driver.Notify.{Current}
use open_anti_cheat.Driver.Events.{Notice, process, thread, image, handle, IsNotice, IsText}
use open_anti_cheat.Driver.Events.Shape.{named-IsEvent, lined-IsEvent, built-IsEvent}
use open_anti_cheat.Driver.Events.Reports.{Report, report, reported}

-- A text as it comes out of an array of wchar_ts, and of the array of ints.
abbrev pub whole : ℕ → List ℕ → List ℕ
whole n us = utf16_buf_to_string (take n (until_nul us))

abbrev pub halves : ℕ → List ℕ → List ℕ
halves n us = utf16_buf_to_string (every_other (take n (until_nul us)))

-- The line of a report.
abbrev pub report_line : Current → Report → List Member
report_line current r =
    (codes "CallerPID", number (int32_value (current.process % 2 ^ 32)))
    ∷ (codes "CommandLine", text (whole 1023 r.line))
    ∷ (codes "EventType", text (whole 259 r.type))
    ∷ (codes "ImageBase", number (pos r.base))
    ∷ (codes "ImageFileName", text (halves 259 r.name))
    ∷ (codes "ImageSize", number (pos r.size))
    ∷ (codes "IsCreate", number (int32_value r.create))
    ∷ (codes "Src", number (pos 0))
    ∷ (codes "TargetPID", number (int32_value (r.pid % 2 ^ 32)))
    ∷ (codes "ThreadID", number (int32_value (r.tid % 2 ^ 32)))
    ∷ []

pub record IsReport (r : Report) : Type 0 where
  type : All IsUnit r.type
  name : All IsUnit r.name
  line : All IsUnit r.line
  create : r.create < 2
  base : r.base < 256 ^ 8
  size : r.size < 256 ^ 4

module _ (current : Current) (r : Report) (ok : IsReport r) where
  pub reported-IsEvent : IsEvent (reported current r)
  reported-IsEvent = named-IsEvent r.name _ ok.name (
      lined-IsEvent r.line _ ok.line (
        built-IsEvent r.type current r.pid r.tid r.create r.base r.size ok.type
          (omega (arith, ok.create)) ok.base ok.size))

  pub said-reported : said (shown (reported current r)) (reported current r) ≡ report_line current r
  said-reported = λ i.
      (codes "CallerPID", number (int32_value (current.process % 2 ^ 32)))
      ∷ (codes "CommandLine", text (utf16_to_string-wcsncpy_s 1024 r.line ok.line i))
      ∷ (codes "EventType", text (utf16_to_string-wcsncpy_s 260 r.type ok.type i))
      ∷ (codes "ImageBase", number (pos r.base))
      ∷ (codes "ImageFileName", text (int32_to_string-wcsncpy_s_ints 260 r.name ok.name i))
      ∷ (codes "ImageSize", number (pos r.size))
      ∷ (codes "IsCreate", number (int32_value r.create))
      ∷ (codes "Src", number (pos 0))
      ∷ (codes "TargetPID", number (int32_value (r.pid % 2 ^ 32)))
      ∷ (codes "ThreadID", number (int32_value (r.tid % 2 ^ 32)))
      ∷ []

created-IsReport :
    (current : Current) (pid : ℕ) (name line : Option (List ℕ))
    → IsText name
    → IsText line
    → IsReport (
        report current
          (process pid (some (record { image_file_name = name; command_line = line }))))
created-IsReport current pid none line hn hl = record {
  type = ground arith;
  name = ground arith;
  line = ground arith;
  create = omega arith;
  base = omega arith;
  size = omega arith;
}
created-IsReport current pid (some name) none hn hl = record {
  type = ground arith;
  name = hn;
  line = tt;
  create = omega arith;
  base = omega arith;
  size = omega arith;
}
created-IsReport current pid (some name) (some line) hn hl = record {
  type = ground arith;
  name = hn;
  line = hl;
  create = omega arith;
  base = omega arith;
  size = omega arith;
}

pub report-IsReport : (current : Current) (n : Notice) → IsNotice n → IsReport (report current n)
report-IsReport current (process pid none) h = record {
  type = ground arith;
  name = ground arith;
  line = tt;
  create = omega arith;
  base = omega arith;
  size = omega arith;
}
report-IsReport current (process pid (some info)) h =
    created-IsReport current pid info.image_file_name info.command_line h.0 h.1
report-IsReport current (thread pid tid create) h = record {
  type = ground arith;
  name = tt;
  line = tt;
  create = omega arith;
  base = omega arith;
  size = omega arith;
}
report-IsReport current (image none pid info) h = record {
  type = ground arith;
  name = ground arith;
  line = tt;
  create = omega arith;
  base = h.1;
  size = omega arith;
}
report-IsReport current (image (some name) pid info) h = record {
  type = ground arith;
  name = h.0;
  line = tt;
  create = omega arith;
  base = h.1;
  size = omega arith;
}
report-IsReport current (handle op) h = record {
  type = ground arith;
  name = tt;
  line = tt;
  create = omega arith;
  base = omega arith;
  size = omega arith;
}

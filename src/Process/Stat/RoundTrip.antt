-- ===== src/Process/Stat/RoundTrip.antt =====
-- A line of the kernel is read back, whatever the name of the program holds.
use heim.Prelude.{ℕ, ◌-◌, ◌^◌, List, [], ◌∷◌, ◌++◌, ◌≡◌, arith, All, Lacks}
use heim.Outcome.{ok}
use heim.Text.{Str, is_whitespace}
use heim.Text.Split.{words}
use heim.Text.Laws.{splitn_two}
use heim.Text.Number.{max_u64}
use heim.Text.Decimal.{parse_unsigned-decimal}
use heim.Text.Signed.{show_int, InRange, parse_signed-show_int}
use heim.Common.Errors.{ℤ}
use heim.Process.Stat.Layout.{letter_of, Fields, IsFields, texts, spaced, stat_line}
use heim.Process.Stat.Words.{
  IsWord, show_int-IsWord, words-spaced, cut_last-append, spaced-Lacks, texts-IsWord,
  try_from_char-letter_of, letter-IsWord,
}
use heim.Process.Stat.{Status, Stat, read_fields, from_str}

module _ {Time : Type 0} (seconds : ℕ → Time) where
  abbrev pub stat_of : ℤ → Str → Status → Fields → Stat Time
  stat_of pid name state f = record {
    pid = pid;
    name = name;
    state = state;
    ppid = f.ppid;
    create_time = seconds f.start_time;
    utime = seconds f.utime;
    stime = seconds f.stime;
    cutime = seconds f.cutime;
    cstime = seconds f.cstime;
  }

  read_fields-texts :
      (pid : ℤ) (name : Str) (state : Status) (f : Fields) (rest : List Str)
      → IsFields f
      → read_fields seconds pid name ((letter_of state ∷ []) ∷ (texts f ++ rest))
        ≡ ok (stat_of pid name state f)
  unfolding read_fields
  read_fields-texts pid name state f rest h = simp (
    try_from_char-letter_of state,
    parse_signed-show_int (2 ^ 31) f.ppid h.ppid_fits,
    parse_signed-show_int (2 ^ 31) f.pgrp h.pgrp_fits,
    parse_signed-show_int (2 ^ 31) f.session_id h.session_id_fits,
    parse_signed-show_int (2 ^ 31) f.tty_nr h.tty_nr_fits,
    parse_signed-show_int (2 ^ 31) f.tpgid h.tpgid_fits,
    parse_unsigned-decimal (2 ^ 32 - 1) f.flags h.flags_fits,
    parse_unsigned-decimal max_u64 f.minflt h.minflt_fits,
    parse_unsigned-decimal max_u64 f.cminflt h.cminflt_fits,
    parse_unsigned-decimal max_u64 f.majflt h.majflt_fits,
    parse_unsigned-decimal max_u64 f.cmajflt h.cmajflt_fits,
    parse_unsigned-decimal max_u64 f.utime h.utime_fits,
    parse_unsigned-decimal max_u64 f.stime h.stime_fits,
    parse_unsigned-decimal max_u64 f.cutime h.cutime_fits,
    parse_unsigned-decimal max_u64 f.cstime h.cstime_fits,
    parse_signed-show_int (2 ^ 63) f.priority h.priority_fits,
    parse_signed-show_int (2 ^ 63) f.nice h.nice_fits,
    parse_signed-show_int (2 ^ 63) f.num_threads h.num_threads_fits,
    parse_signed-show_int (2 ^ 63) f.itrealvalue h.itrealvalue_fits,
    parse_unsigned-decimal max_u64 f.start_time h.start_time_fits,
    parse_signed-show_int (2 ^ 63) f.vsize h.vsize_fits,
    parse_signed-show_int (2 ^ 63) f.rss h.rss_fits,
    parse_unsigned-decimal max_u64 f.rsslim h.rsslim_fits,
  )

  -- The line of a process is read back into its number, name, state and times, whatever characters
  -- the name of its program has, parentheses and spaces among them, if every number fits its type
  -- and no field behind those that are read holds a closing parenthesis.
  pub from_str-stat_line :
      (pid : ℤ) (name : Str) (state : Status) (f : Fields) (more : Str)
      → InRange (2 ^ 31) pid
      → IsFields f
      → Lacks b')' more
      → from_str seconds (stat_line pid name state f more) ≡ ok (stat_of pid name state f)
  unfolding from_str
  from_str-stat_line pid name state f more fits h m =
      let all = (letter_of state ∷ []) ∷ texts f in
      let is_words : All IsWord all = (letter-IsWord state, texts-IsWord f) in
      let fields = spaced all more in
      let (ne, solid, closing, blank) = show_int-IsWord pid in
      rw (splitn_two b' ' (show_int pid) (b'(' ∷ (name ++ b')' ∷ b' ' ∷ fields)) blank) (
        rw (parse_signed-show_int (2 ^ 31) pid fits) (
          rw
            (cut_last-append b')' (b'(' ∷ name) (b' ' ∷ fields)
              (omega arith, spaced-Lacks all more is_words m))
            (rw (words-spaced all more is_words)
              (read_fields-texts pid name state f (words is_whitespace more) h))))

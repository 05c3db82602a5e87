-- ===== src/Process/Statm.antt =====
-- heim-process/src/sys/linux/process/procfs/statm.rs. The product with the size of a page wraps, as
-- in a release build; `byte` makes an `Information` of a number of bytes.
use heim.Prelude.{
  ℕ, ◌*◌, ◌%◌, ◌^◌, ◌≤◌, false, List, [], ◌∷◌, ◌++◌, map, ◌≡◌, ◌≢◌, refl, ap, ◌∙◌, arith, All,
}
use heim.Outcome.{ok, ◌>>=◌}
use heim.Text.{Str, is_ascii_whitespace}
use heim.Text.Split.{words}
use heim.Text.Laws.{Solid, words-append}
use heim.Text.Number.{max_u64, parse_u64}
use heim.Text.Decimal.{decimal, IsDigit, decimal-IsDigit, decimal-ne-nil, parse_unsigned-decimal}
use heim.Common.Errors.{Result, from_parse_int}
use heim.Common.Iter.{try_parse_next}
use heim.Process.Stat.Layout.{spaced}

pub record Memory (Information : Type 0) : Type 0 where
  pub size : Information
  pub resident : Information
  pub shared : Information
  pub text : Information
  pub data_size : Information

abbrev tail : List Str → List Str
tail [] = []
tail (part ∷ parts) = parts

module _ {Information : Type 0} (byte : ℕ → Information) (page_size : ℕ) where
  -- `try_parse_next` and the `map` behind it
  abbrev pub pages : List Str → Result (Information × List Str)
  pages parts = do
    (value, rest) ← try_parse_next from_parse_int parse_u64 parts
    ok (byte ((value * page_size) % 2 ^ 64), rest)

  -- The fields, on the words of the text.
  abbrev pub read_pages : List Str → Result (Memory Information)
  read_pages parts = do
    (size, parts) ← pages parts
    (resident, parts) ← pages parts
    (shared, parts) ← pages parts
    (text, parts) ← pages parts
    (data_size, parts) ← pages (tail parts)
    ok (record {
      size = size;
      resident = resident;
      shared = shared;
      text = text;
      data_size = data_size;
    })

  -- `Memory::from_str`
  unfoldable pub from_str : Str → Result (Memory Information)
  from_str value = read_pages (words is_ascii_whitespace value)

pub digits_Solid : (s : Str) → All IsDigit s → Solid is_ascii_whitespace s
unfolding is_ascii_whitespace
digits_Solid [] h = tt
digits_Solid (c ∷ s) h =
    let solid : is_ascii_whitespace c ≡ false = ground arith in (solid, digits_Solid s h.1)

pub words-word :
    (t s : Str)
    → t ≢ []
    → Solid is_ascii_whitespace t
    → words is_ascii_whitespace (t ++ b' ' ∷ s) ≡ t ∷ words is_ascii_whitespace s
words-word [] s ne h = absurd (ne refl)
words-word (c ∷ t) s ne h =
    words-append is_ascii_whitespace c t b' ' s h (unfold is_ascii_whitespace in refl)

words-decimals :
    (ns : List ℕ) (more : Str)
    → words is_ascii_whitespace (spaced (map decimal ns) more)
      ≡ map decimal ns ++ words is_ascii_whitespace more
words-decimals [] more = refl
words-decimals (n ∷ ns) more =
    words-word (decimal n) (spaced (map decimal ns) more) (decimal-ne-nil n)
      (digits_Solid (decimal n) (decimal-IsDigit n))
    ∙ ap (λ w. decimal n ∷ w) (words-decimals ns more)

-- Six numbers of pages in the order of the file, a space behind each and anything behind them, are
-- read as sizes in bytes, by a product that wraps at 2 ^ 64, if those that are read fit a u64; the
-- fifth is passed over.
from_str-spaced :
    {Information : Type 0} (byte : ℕ → Information) (page_size : ℕ)
    (size resident shared text lib data_size : ℕ) (more : Str)
    → size ≤ max_u64
    → resident ≤ max_u64
    → shared ≤ max_u64
    → text ≤ max_u64
    → data_size ≤ max_u64
    → from_str byte page_size
        (spaced (map decimal (size ∷ resident ∷ shared ∷ text ∷ lib ∷ data_size ∷ [])) more)
      ≡ ok (record {
        size = byte ((size * page_size) % 2 ^ 64);
        resident = byte ((resident * page_size) % 2 ^ 64);
        shared = byte ((shared * page_size) % 2 ^ 64);
        text = byte ((text * page_size) % 2 ^ 64);
        data_size = byte ((data_size * page_size) % 2 ^ 64);
      })
unfolding from_str
from_str-spaced byte page_size size resident shared text lib data_size more hs hr hh ht hd =
    rw (words-decimals (size ∷ resident ∷ shared ∷ text ∷ lib ∷ data_size ∷ []) more) (
      simp (
        parse_unsigned-decimal max_u64 size hs,
        parse_unsigned-decimal max_u64 resident hr,
        parse_unsigned-decimal max_u64 shared hh,
        parse_unsigned-decimal max_u64 text ht,
        parse_unsigned-decimal max_u64 data_size hd,
      ))

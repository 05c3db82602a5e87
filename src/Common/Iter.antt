-- ===== src/Common/Iter.antt =====
-- heim-common/src/utils/iter.rs: `next` on an iterator, with an error at its end. An iterator is
-- the list of the items that are left.
use heim.Prelude.{List, [], ◌∷◌}
use heim.Outcome.{Outcome, ok, err, ◌>>=◌, map_err}
use heim.Common.Errors.{Error, Result, simple, invalid_data, from_io}

abbrev pub end_of_input : Error
end_of_input = from_io (simple invalid_data)

module _ {I : Type 0} where
  abbrev pub try_next : List I → Result (I × List I)
  try_next [] = err end_of_input
  try_next (i ∷ is) = ok (i, is)

module _ {I E R : Type 0} (into : E → Error) (convert : I → Outcome E R) where
  abbrev pub try_convert_next : List I → Result (R × List I)
  try_convert_next is = do
    (value, rest) ← try_next is
    r ← map_err into (convert value)
    ok (r, rest)

  -- `R::try_from` of the next item
  abbrev pub try_from_next : List I → Result (R × List I)
  try_from_next = try_convert_next

  -- `R::from_str` of the next item
  abbrev pub try_parse_next : List I → Result (R × List I)
  try_parse_next = try_convert_next

-- ===== src/Database.antt =====
-- How a call of the database can end: MongoDB's driver answers, or returns an error; and when it
-- returns an error the write may have been made all the same, its answer lost.
use ecommerce_commons.Prelude.{Bool, true, false}

pub data Fault : Type 0 where
  fine refused lost : Fault

module _ {S : Type 0} where
  -- A write, with whether it returned without an error.
  abbrev pub attempt : Fault → (S → S) → S → Bool × S
  attempt fine write s = (true, write s)
  attempt refused write s = (false, s)
  attempt lost write s = (false, write s)

  -- `if err != nil { return err }`
  abbrev pub and_then : Bool × S → (S → Bool × S) → Bool × S
  and_then (true, s) next = next s
  and_then (false, s) next = (false, s)

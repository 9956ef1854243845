-- ===== src/Id/Tests.antt =====
-- Concrete identifiers, and the theorems about package id on them.
use murlog.Prelude.{◌+◌, All, ℕ, ◌≡◌, arith, some, List, [], ◌∷◌, true}
use murlog.Id.{new_with_time, time, parse, string, strip_hyphens}
use murlog.Id.Text.{IsId, IsByte, parse-string, parse-strip_hyphens}
use murlog.Id.Layout.{time-new_with_time, less, less-new_with_time, new_with_time-IsId}

abbrev random : List ℕ
random = 255 ∷ 1 ∷ 254 ∷ 3 ∷ 4 ∷ 5 ∷ 6 ∷ 7 ∷ 8 ∷ 9 ∷ []

abbrev moment : ℕ
moment = 1773500000123

random-bytes : All IsByte random
random-bytes = (
  omega arith,
  (
    omega arith,
    (
      omega arith,
      (
        omega arith,
        (
          omega arith,
          (omega arith, (omega arith, (omega arith, (omega arith, (omega arith, tt))))),
        ),
      ),
    ),
  ),
)

made-IsId : IsId (new_with_time moment random)
made-IsId = (new_with_time-IsId moment random random-bytes).0

time-new_with_time_example : time (new_with_time moment random) ≡ moment
time-new_with_time_example = time-new_with_time moment random (omega arith)

less-new_with_time_example :
    less (new_with_time moment random) (new_with_time (moment + 1) []) ≡ true
less-new_with_time_example =
    less-new_with_time moment (moment + 1) random [] (omega arith) (omega arith)

parse-string_example :
    parse (string (new_with_time moment random)) ≡ some (new_with_time moment random)
parse-string_example = parse-string (new_with_time moment random) made-IsId

parse-strip_hyphens_example :
    parse (strip_hyphens (string (new_with_time moment random)))
    ≡ parse (string (new_with_time moment random))
parse-strip_hyphens_example = parse-strip_hyphens (string (new_with_time moment random))

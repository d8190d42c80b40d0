-- ===== src/Tests/Date.antt =====
-- Dates at concrete inputs.
use excelize.Common.{◌≡◌, arith}
use excelize.Common.Int.{pos}
use excelize.Date.Machine.{
  do_the_fliegel_and_van_flandern_algorithm, go_date, julian_to_gregorian-date_after,
}
use excelize.Date.Successor.{date_after}

julian_to_gregorian-date_after_example :
    do_the_fliegel_and_van_flandern_algorithm (pos 40) ≡ go_date (date_after 40)
julian_to_gregorian-date_after_example = julian_to_gregorian-date_after 40 (omega arith)

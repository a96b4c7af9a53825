-- ===== src/Tests/Texts.antt =====
-- The theorems on the string helpers of common/utils.c at concrete texts.
use mod_gearman.Common.{ℕ, Bytes, codes, Lacks, [], ◌∷◌, some, length, ◌%◌, ◌≡◌, ◌↔◌, arith}
use mod_gearman.Text.Escape.{newline, backslash, escape_newlines_loop}
use mod_gearman.Text.Replace.{Replaced, size_max, replace_str}
use mod_gearman.Text.Replace.Laws.{Substituted, replace_str_lem}
use mod_gearman.Text.Replace.Newlines.{escaped_newline, newlines_round_trip}

abbrev output : Bytes
output = codes " OK - load\n"

replace_str_lem_example :
    (r : Replaced) × (replace_str (codes "a-b-c") (codes "-") (codes "::") ≡ some r)
    × Substituted (codes "-") (codes "::") (codes "a-b-c") r.ret
    × (r.retlen ≡ length r.ret % size_max)
replace_str_lem_example =
    replace_str_lem (codes "a-b-c") (codes "-") (codes "::") (omega arith) (omega arith)
      (omega arith)

newlines_round_trip_example :
    (size : ℕ) × (ret : Bytes) × (replace_str
        (escape_newlines_loop output)
        escaped_newline
        (newline ∷ [])
      ≡ some (record { retlen = size; ret = ret }))
    × ((ret ≡ output) ↔ Lacks backslash output)
newlines_round_trip_example = newlines_round_trip output

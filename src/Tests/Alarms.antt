-- ===== src/Tests/Alarms.antt =====
-- The arguments of commands and the alarm of a check: common/check_utils.c.
use mod_gearman.Common.{Bytes, codes, true, false, Lacks, [], ◌∷◌, take, ◌≡◌, refl, arith}
use mod_gearman.Text.{isspace}
use mod_gearman.Crypt.{c_string}
use mod_gearman.Job.Command.{parse_command_line}
use mod_gearman.Job.Command.Split.{words}
use mod_gearman.Job.Command.Words.{parse_command_line-words}
use mod_gearman.Job.Delivery.{timed_out}
use mod_gearman.Job.Alarm.{interrupted, interrupted-Answered}
use mod_gearman.Job.Answered.{Answered}
use mod_gearman.Job.Exec.{is_plain, Options}
use mod_gearman.Tests.Jobs.{world, options, job}

abbrev command : Bytes
command = codes "/bin/cmd  blah x"

command_clean : Lacks 0 command
command_clean = ground arith

two_words : words (codes " a  bc ") ≡ codes "a" ∷ codes "bc" ∷ []
unfolding words isspace
two_words = refl

-- The opening quote ends the argument at once.
quoted : parse_command_line (codes "x 'a b'") ≡ codes "x" ∷ codes "" ∷ codes "a" ∷ codes "b'" ∷ []
unfolding parse_command_line isspace c_string
quoted = refl

parse_command_line-words_example : parse_command_line command ≡ take 4095 (words command)
unfolding is_plain
parse_command_line-words_example = parse_command_line-words command refl command_clean

abbrev unforked : Options
unforked = record options { fork_on_exec = false }

interrupted-Answered_example :
    Answered unforked world (
      timed_out unforked world job,
      (interrupted unforked world 42 true (0, codes "OK") [] job).0.sent,
    )
    × ((interrupted unforked world 42 true (0, codes "OK") [] job).0.is_complete ≡ true)
    × ((interrupted unforked world 42 true (0, codes "OK") [] job).1 ≡ [])
interrupted-Answered_example =
    interrupted-Answered unforked world 42 true (0, codes "OK") [] job (codes "check_results") refl
      refl refl

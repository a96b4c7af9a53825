-- ===== src/Tests/Configs.antt =====
-- The theorems on the configuration of common/utils.c at concrete files.
use mod_gearman.Common.{
  ℕ, Bytes, codes, str_eq, false, if◌then◌else◌, [], ◌∷◌, none, replicate, ◌≡◌, ◌≢◌, arith,
}
use mod_gearman.Common.Int.{pos}
use mod_gearman.Config.{Load, Libc, Options, exhausted, fault, failed, set_default_options}
use mod_gearman.Config.Files.{missing, file, Files, read_node, read_config_file}
use mod_gearman.Config.Limits.{AllLimits, read_config_file-Limits, read_config_file_ends}
use mod_gearman.Config.Blank.{blank, read_node-blanks}

abbrev toy : Libc
toy = record {
  Double = ℕ;
  zero_double = 0;
  is_negative = λ x. false;
  atoi = λ s. pos 7;
  port_bits = λ s. 4730;
  atof = λ s. 0;
  string2timeval = λ s. record { tv_sec = pos 0; tv_usec = pos 0 };
}

abbrev main_name : Bytes
main_name = codes "worker.conf"

-- A file that includes itself, behind a number that is out of its limits.
abbrev files : Files
files = record {
  node = λ name.
      if str_eq name main_name
      then file (codes "orphan_return=7\n" ∷ codes "include=worker.conf\n" ∷ [])
      else missing;
  key_line = λ name. none;
}

abbrev memory : Load → toy.Double
memory l = 0

abbrev callbacks : ℕ → Bytes
callbacks n = codes "NEBCALLBACK"

abbrev defaults : Options toy
defaults = set_default_options toy [] [] memory

read_config_file-Limits_example :
    AllLimits (read_config_file toy callbacks files 12 0 main_name defaults)
read_config_file-Limits_example =
    read_config_file-Limits toy callbacks files [] [] memory 12 main_name (omega arith)

read_config_file_ends_example :
    read_config_file toy callbacks files 12 0 main_name defaults ≢ exhausted
read_config_file_ends_example =
    read_config_file_ends toy callbacks files 12 main_name defaults (omega arith)

read_node-blanks_example :
    read_node toy callbacks files
      (λ name opt. failed opt)
      main_name
      (file (replicate 65536 blank))
      defaults
    ≡ fault
read_node-blanks_example =
    read_node-blanks toy callbacks files (λ name opt. failed opt) 65536 main_name defaults
      (omega arith)

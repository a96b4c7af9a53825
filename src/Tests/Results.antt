-- ===== src/Tests/Results.antt =====
-- The theorems on neb_module_naemon/result_thread.c at a concrete result.
use mod_gearman.Common.{
  ℕ, suc, Bytes, codes, true, false, [], ◌∷◌, ◌++◌, Option, none, some, length, map, replicate, ◌+◌,
  ◌-◌, ◌%◌, ◌≡◌, ◌≢◌, refl, arith, ap, Lacks,
}
use mathlib.Core.Path.{subst}
use mod_gearman.Common.Int.{pos}
use mod_gearman.Common.Outcome.{ok}
use mod_gearman.Job.{Job}
use mod_gearman.Job.Exec.{Options, World}
use mod_gearman.Job.Delivery.{result_text}
use mod_gearman.Job.Fields.{OneLine}
use mod_gearman.Crypt.{encode_and_encrypt, mod_gm_encrypt}
use mod_gearman.Result.{
  Float, CheckResult, Core, Statistics, null, dangling, complete, get_results, host_check, active,
  no_time,
}
use mod_gearman.Result.RoundTrip.{Prints, Sendable, whole_text, arrived, get_results-result_text}
use mod_gearman.Result.Ends.{AllSettled, get_results-Settled}
use mod_gearman.Tests.OpenSsl.{toy, toy_laws, key}

abbrev first : Bytes → ℕ
first [] = 0
first (c ∷ s) = c

abbrev shown : Option Bytes → Bytes
shown none = codes "(null)"
shown (some s) = s

abbrev pub float : Float
float = record {
  Double = ℕ;
  zero_double = 0;
  is_negative = λ x. false;
  plus = λ a b. a + b;
  minus = λ a b. a - b;
  of_int = λ n. 0;
  millionths = λ n. 0;
  atof = λ s. 0;
  atoi = λ s. pos (first s - 11);
  string2timeval = λ s. record { tv_sec = pos 5; tv_usec = pos 0 };
}

abbrev pub world : World
world = record {
  wifsignaled = λ s. false;
  wtermsig = λ s. 0;
  wifexited = λ s. true;
  wexitstatus = λ s. 0;
  exited = λ n. pos 0;
  killed = λ n. pos n;
  calls = record {
    pipe_stdout = true;
    pipe_stderr = true;
    fork = true;
    fdopen_stdout = true;
    fdopen_stderr = true;
  };
  is_overdue = false;
  plugin = λ cmd. (pos 0, [], []);
  piped = λ s. s;
  fork_works = true;
  show = λ n. (n + 11) ∷ [];
  show_time = λ t. codes "5.0";
  show_text = shown;
  started = no_time;
  finished = no_time;
}

printed : Prints world float
printed = record {
  atoi_show = λ n h. let e : n + 11 - 11 ≡ n = omega arith in ap pos e;
  show_OneLine = λ n. ((λ e. omega (arith, e), tt), λ e. cc e);
  show_time_OneLine = λ t. (ground arith, λ e. cc e);
}

abbrev pub options : Options
options = record {
  restrict_path = [];
  restrict_command_characters = [];
  job_timeout = pos 60;
  max_age = pos 0;
  timeout_return = 2;
  workaround_rc_25 = false;
  fork_on_exec = true;
  identifier = codes "worker";
  hostname = codes "host";
  debug_result = false;
  show_error_output = true;
  dupserver_num = 0;
  dup_results_are_passive = true;
}

abbrev pub job : Job
job = record {
  host_name = some (codes "web");
  service_description = some (codes "http");
  type = some (codes "service");
  result_queue = some (codes "check_results");
  command_line = some (codes "/usr/lib/check_http web");
  source = some (codes "worker");
  output = some (codes "OK\\nfast");
  long_output = none;
  error = none;
  exited_ok = true;
  scheduled_check = pos 1;
  check_options = pos 0;
  return_code = 2;
  early_timeout = false;
  timeout = pos 60;
  next_check = no_time;
  core_time = no_time;
  start_time = no_time;
  finish_time = no_time;
  has_been_sent = true;
}

abbrev output : Bytes
output = codes "OK\\nfast"

abbrev pub init : CheckResult float
init = record {
  object_check_type = host_check;
  check_type = active;
  host_name = none;
  service_description = none;
  source = null;
  output = none;
  check_options = pos 0;
  scheduled_check = pos 0;
  latency = 0;
  start_time = no_time;
  finish_time = no_time;
  early_timeout = pos 0;
  exited_ok = pos 1;
  return_code = pos 0;
}

abbrev stats : Statistics float
stats = record {
  hostname = codes "core";
  current_submit_rate = [];
  avg_duration_ms = [];
  gm_version = [];
  result_workers = [];
  current_avg_submit_duration = [];
  current_submit_max = [];
  total_submit_jobs = [];
  total_submit_errors = [];
}

abbrev core : Core float
core = record { mod_gm_result_list = []; cancel_enabled = true }

abbrev text : Bytes
text = whole_text options world job output

abbrev padded : Bytes
padded = map suc (text ++ 0 ∷ replicate (16 - (length text + 1) % 16) 0)

abbrev ciphertext : Bytes
ciphertext = toy.encode_block padded

sent : mod_gm_encrypt toy key text encode_and_encrypt ≡ ok ciphertext
unfolding mod_gm_encrypt mod_gearman.Crypt.mod_gm_aes_encrypt mod_gearman.Crypt.base64_encode
sent = refl

text-Lacks : Lacks 0 text
text-Lacks = ground arith

not_check : ciphertext ≢ codes "check"
not_check e = cc e

sendable : Sendable options world job output
sendable = record {
  host_OneLine = (ground arith, λ e. cc e);
  source_OneLine = (ground arith, λ e. cc e);
  service_OneLine =
      λ d e. let same : codes "http" ≡ d = cc e in subst OneLine same (ground arith, λ n. cc n);
  return_code_fits = refl;
  output_Lacks = ground arith;
  fits = omega arith;
}

get_results-Settled_example : AllSettled [] (
    get_results toy float init stats no_time
      (pos 9)
      key
      encode_and_encrypt
      false
      []
      []
      (some (codes "check"))
      core)
get_results-Settled_example =
    get_results-Settled toy float init stats no_time (pos 9) key encode_and_encrypt false [] []
      (some (codes "check")) core

get_results-result_text_example :
    (result_text options world job output ≡ some text)
    × (get_results toy float init stats no_time
          (pos 9)
          key
          encode_and_encrypt
          false
          []
          []
          (some ciphertext)
          core
        ≡ some (
          record { success = true; result = none },
          record {
            mod_gm_result_list =
                record (complete float no_time
                  (pos 9)
                  (arrived float world printed options job output init)) { source = dangling }
                ∷ [];
            cancel_enabled = true;
          },
        ))
get_results-result_text_example =
    get_results-result_text toy toy_laws float world printed options job output key ciphertext [] []
      init stats no_time (pos 9) core sendable refl text-Lacks sent not_check

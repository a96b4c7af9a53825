-- ===== src/Tests/Tools.antt =====
-- The theorems on tools/send_multi.c, tools/check_gearman.c and the status of a gearmand at concrete
-- inputs.
use mod_gearman.Common.{
  Bytes, codes, true, false, List, [], ◌∷◌, ◌++◌, none, some, ℕ, Lacks, if◌then◌else◌, ◌==◌, ◌+◌,
  ◌-◌, ◌<◌, ap, ◌≡◌, refl, arith,
}
use mod_gearman.Common.Int.{fits_int, ℤ, pos, negsuc, ◌-ℤ◌}
use mod_gearman.Result.{no_time}
use mod_gearman.Status.{Function, Status, ok, warning, get_gearman_server_data}
use mod_gearman.Status.RoundTrip.{
  Prints, IsFunction, status_text, get_gearman_server_data-status_text,
}
use mod_gearman.Status.Check.{tally}
use mod_gearman.Status.Check.Severity.{Code, tally-Code}
use mod_gearman.Multi.{Options, Env, decode_xml, read_child_check}
use mod_gearman.Multi.Ends.{Ends}

-- A number is a sign and one byte behind the separators.
abbrev show : ℤ → Bytes
show (pos n) = b'+' ∷ (n + 11) ∷ []
show (negsuc n) = b'-' ∷ (n + 11) ∷ []

abbrev atoi : Bytes → ℤ
atoi [] = pos 0
atoi (c ∷ []) = pos 0
atoi (c ∷ d ∷ s) = if c == b'-' then negsuc (d - 11) else pos (d - 11)

atoi_back : (n : ℤ) → fits_int n ≡ true → atoi (show n) ≡ n
atoi_back (pos n) h = let e : n + 11 - 11 ≡ n = omega arith in ap pos e
atoi_back (negsuc n) h = let e : n + 11 - 11 ≡ n = omega arith in ap negsuc e

show-Lacks : (b : ℕ) (n : ℤ) → b < 11 → Lacks b (show n)
show-Lacks b (pos n) h = (λ e. omega (arith, e, h), (λ e. omega (arith, e, h), tt))
show-Lacks b (negsuc n) h = (λ e. omega (arith, e, h), (λ e. omega (arith, e, h), tt))

prints : Prints show atoi
prints = record {
  atoi_show = atoi_back;
  no_tab = λ n. show-Lacks 9 n (omega arith);
  no_newline = λ n. show-Lacks 10 n (omega arith);
  no_nul = λ n. show-Lacks 0 n (omega arith);
}

abbrev host_queue : Function
host_queue = record {
  queue = codes "host";
  running = pos 1;
  total = pos 3;
  worker = pos 0;
  waiting = pos 2;
}

abbrev service_queue : Function
service_queue = record {
  queue = codes "service";
  running = pos 2;
  total = pos 14;
  worker = pos 5;
  waiting = pos 12;
}

abbrev queues : List Function
queues = host_queue ∷ service_queue ∷ []

host_queue-IsFunction : IsFunction host_queue
unfolding ◌-ℤ◌
host_queue-IsFunction = record {
  no_tab = ground arith;
  no_newline = ground arith;
  no_nul = ground arith;
  total_fits = refl;
  running_fits = refl;
  worker_fits = refl;
  waiting_fits = refl;
  waits = refl;
}

service_queue-IsFunction : IsFunction service_queue
unfolding ◌-ℤ◌
service_queue-IsFunction = record {
  no_tab = ground arith;
  no_newline = ground arith;
  no_nul = ground arith;
  total_fits = refl;
  running_fits = refl;
  worker_fits = refl;
  waiting_fits = refl;
  waits = refl;
}

get_gearman_server_data-status_text_example :
    get_gearman_server_data atoi
      (λ fs. fs)
      (record {
        connects = true;
        writes = true;
        reads = some (status_text show queues (codes "1.1.19"));
      })
    ≡ some (record { rc = ok; functions = queues; version = codes "1.1.19"; is_valid = true })
get_gearman_server_data-status_text_example =
    get_gearman_server_data-status_text show atoi (λ fs. fs) queues (codes "1.1.19") prints
      (host_queue-IsFunction, (service_queue-IsFunction, tt)) (omega arith) (ground arith)
      (ground arith) (omega arith)

abbrev limits : mod_gearman.Status.Check.Options
limits = record {
  queue = none;
  job_warning = pos 10;
  job_critical = pos 100;
  worker_warning = pos 25;
  worker_critical = pos 50;
  crit_zero_worker = false;
  show = show;
}

abbrev status : Status
status = record { rc = ok; functions = queues; version = codes "1.1.19"; is_valid = true }

tally-Code_example : Code limits queues (tally limits [] status).rc
tally-Code_example = tally-Code limits [] (codes "1.1.19") true queues

-- The queue without a worker is critical, and the one behind it turns this to a warning.
masked : (tally limits [] status).rc ≡ warning
unfolding tally mod_gearman.Status.Check.check_functions mod_gearman.Status.Check.problem
    mod_gearman.Common.Int.◌+ℤ◌
masked = refl

abbrev env : Env
env = record {
  atoi = atoi;
  started = λ end_time s. end_time;
  show = show;
  show_time = λ t. codes "5.0";
  takes = λ m. true;
  behind = λ n. 0;
}

abbrev options : Options
options = record {
  result_queue = some (codes "check_results");
  active = false;
  host = codes "web";
  service = none;
  return_code = pos 0;
  starttime = no_time;
  finishtime = no_time;
  message = none;
  dupserver_num = 0;
}

abbrev stream : Bytes
stream =
    codes "<CHILD><no>1</no><name>disk</name><rc>+2</rc><runtime>1</runtime>"
    ++ codes "<output>5 &lt; 7</output><error></error></CHILD>"

abbrev chunk : Bytes
chunk =
    codes "<no>1</no><name>disk</name><rc>+=</rc><runtime>1</runtime>"
    ++ codes "<output>5 &lt; 7</output><error>slow</error>"

child :
    read_child_check env no_time chunk options
    ≡ some (
      true,
      record options {
        service = some (codes "disk");
        return_code = pos 50;
        message = some (codes "5 < 7 [slow]");
      },
    )
unfolding read_child_check mod_gearman.Multi.read_multi_attribute mod_gearman.Multi.decode_xml
    mod_gearman.Multi.decode_stage mod_gearman.Text.Replace.strstr
    mod_gearman.Text.Replace.is_prefix mod_gearman.Crypt.c_string
child = refl

-- What is encoded twice is decoded twice where its code stands behind that of the ampersand.
twice : decode_xml (codes "&amp;#124;") ≡ codes "|"
unfolding decode_xml mod_gearman.Multi.decode_stage mod_gearman.Text.Replace.strstr
    mod_gearman.Text.Replace.is_prefix
twice = refl

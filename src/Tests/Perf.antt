-- ===== src/Tests/Perf.antt =====
-- The theorem on `handle_perfdata` of neb_module_naemon/mod_gearman.c at a concrete check.
use mod_gearman.Common.{codes, true, false, [], ◌∷◌, ◌++◌, none, some, ◌≡◌, refl}
use mod_gearman.Neb.Perfdata.{
  PerfOptions, Processed, service_check_data, zero_code, error_code, accepted, handle_perfdata,
  handle_perfdata-service,
}
use mod_gearman.Neb.{make_uniq, prio_normal}
use mod_gearman.Tests.Results.{float}
use mod_gearman.Tests.Nebs.{options, env}

abbrev perf : PerfOptions
perf = record {
  process_performance_data = true;
  perfdata_send_all = false;
  is_overwrite = true;
  host_perfdata_template = codes "HOST";
  service_perfdata_template = codes "SERVICE";
  perfdata_queues_list = codes "perfdata" ∷ codes "copy" ∷ [];
}

abbrev check : Processed
check = record {
  is_processed = true;
  perf_data = some (codes "rta=5ms");
  host_name = codes "web";
  service_description = codes "http";
  process_performance_data = true;
  process_macros = λ s. some s;
}

handle_perfdata-service_example :
    handle_perfdata perf float options env (service_check_data (some check)) [] ≡ (
      zero_code,
      []
          ++ accepted perf float options env (
              record {
                queue = codes "perfdata";
                uniq = some (make_uniq float options env (codes "perfdata-web-http"));
                data_text = codes "SERVICE\n";
                priority = prio_normal;
              }
              ∷ record {
                queue = codes "copy";
                uniq = some (make_uniq float options env (codes "copy-web-http"));
                data_text = codes "SERVICE\n";
                priority = prio_normal;
              }
              ∷ []),
    )
handle_perfdata-service_example =
    handle_perfdata-service perf float options env check (codes "rta=5ms") (codes "SERVICE\n") []
      refl refl refl refl refl

-- Macros that fail are an error.
failed :
    handle_perfdata perf float options env
      (service_check_data (some (record check { process_macros = λ s. none })))
      []
    ≡ (error_code, [])
unfolding handle_perfdata mod_gearman.Neb.Perfdata.gathered
failed = refl

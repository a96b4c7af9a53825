-- ===== src/Job/Received/Exports.antt =====
-- The environment of `get_job` of worker/worker_client.c: the variables of notifications, and the others.
use mod_gearman.Common.{
  Bytes, codes, str_eq, true, false, Option, none, some, ◌≡◌, refl, ◌∙◌, if_both,
}
use mod_gearman.Job.{Job}
use mod_gearman.Job.Received.{
  Environment, setenv, unsetenv, by_service, output_name, long_output_name, put_outputs,
  is_notification, export_outputs, clear_outputs,
}

-- No variable of a notification.
pub record Other (name : Bytes) : Type 0 where
  host : str_eq name (codes "NAGIOS_HOSTOUTPUT") ≡ false
  long_host : str_eq name (codes "NAGIOS_LONGHOSTOUTPUT") ≡ false
  service : str_eq name (codes "NAGIOS_SERVICEOUTPUT") ≡ false
  long_service : str_eq name (codes "NAGIOS_LONGSERVICEOUTPUT") ≡ false

abbrev pub Same : Environment → Environment → Type 0
Same env env' = (name : Bytes) → Other name → env' name ≡ env name

-- A long output comes without an output.
pub record IsLongOnly (job : Job) : Type 0 where
  notification : is_notification job ≡ true
  no_output : job.output ≡ none
  long : (l : Bytes) × (job.long_output ≡ some l)

abbrev pub Exported : Job → Environment → Option Environment → Type 0
Exported job env none = IsLongOnly job
Exported job env (some env') = Same env env'

by_service-other :
    (d : Option Bytes) (name host service : Bytes)
    → str_eq name host ≡ false
    → str_eq name service ≡ false
    → str_eq name (by_service d host service) ≡ false
by_service-other none name host service h s = h
by_service-other (some d) name host service h s = s

output_name-Other : (job : Job) (name : Bytes) → Other name → str_eq name (output_name job) ≡ false
output_name-Other job name o = by_service-other job.service_description name _ _ o.host o.service

long_output_name-Other :
    (job : Job) (name : Bytes) → Other name → str_eq name (long_output_name job) ≡ false
long_output_name-Other job name o =
    by_service-other job.service_description name _ _ o.long_host o.long_service

setenv-other :
    (key value name : Bytes) (env : Environment)
    → str_eq name key ≡ false
    → setenv key value env name ≡ env name
unfolding setenv
setenv-other key value name env e = rw e refl

unsetenv-other :
    (key name : Bytes) (env : Environment)
    → str_eq name key ≡ false
    → unsetenv key env name ≡ env name
unfolding unsetenv
unsetenv-other key name env e = rw e refl

put_outputs-Exported :
    (job : Job) (o l : Option Bytes) (env : Environment)
    → is_notification job ≡ true
    → job.output ≡ o
    → job.long_output ≡ l
    → Exported job env (put_outputs (output_name job) (long_output_name job) o l env)
put_outputs-Exported job none none env n e e' = λ name other. refl
put_outputs-Exported job none (some l) env n e e' = record {
  notification = n;
  no_output = e;
  long = (l, e');
}
put_outputs-Exported job (some o) none env n e e' =
    λ name other. setenv-other (output_name job) o name env (output_name-Other job name other)
put_outputs-Exported job (some o) (some l) env n e e' = λ name other.
    setenv-other (long_output_name job) o name (setenv (output_name job) o env)
      (long_output_name-Other job name other)
    ∙ setenv-other (output_name job) o name env (output_name-Other job name other)

pub export_outputs-Exported :
    (job : Job) (env : Environment) → Exported job env (export_outputs job env)
unfolding export_outputs
export_outputs-Exported job env =
    if_both (Exported job env) (is_notification job)
      (λ n. put_outputs-Exported job job.output job.long_output env n refl refl)
      (λ _. λ name other. refl)

pub clear_outputs-Same : (job : Job) (env : Environment) → Same env (clear_outputs job env)
unfolding clear_outputs
clear_outputs-Same job env =
    if_both (Same env) (is_notification job)
      (λ _ name other.
        unsetenv-other (long_output_name job) name (unsetenv (output_name job) env)
          (long_output_name-Other job name other)
        ∙ unsetenv-other (output_name job) name env (output_name-Other job name other))
      (λ _ name other. refl)

-- ===== src/Tests/Routes.antt =====
-- The theorems on the queues of checks at a concrete host: neb_module_naemon/mod_gearman.c.
use mod_gearman.Common.{Member, codes, true, false, str_eq, [], ◌∷◌, none, some, refl, arith}
use mod_gearman.Routing.{Object, Options, set_target_queue, worker, set_worker}
use mod_gearman.Routing.Served.{set_target_queue-Member}

abbrev web : Object
web = record { custom_variables = []; is_member = λ g. str_eq g (codes "dmz") }

abbrev options : Options
options = record {
  identifier = codes "host";
  queue_cust_var = some (codes "WORKER");
  local_servicegroups_list = [];
  local_hostgroups_list = [];
  servicegroups_list = [];
  hostgroups_list = codes "dmz" ∷ [];
  hosts = true;
  services = true;
  events = false;
  notifications = false;
}

set_target_queue-Member_example :
    Member (set_target_queue options web none) (set_worker worker options)
set_target_queue-Member_example =
    set_target_queue-Member options web none (unfold mod_gearman.Routing.custom_queue in refl)
      (omega arith, tt) tt
      (unfold set_target_queue mod_gearman.Routing.from_groups mod_gearman.Routing.first_group
          mod_gearman.Routing.custom_queue in
        λ e. cc e)

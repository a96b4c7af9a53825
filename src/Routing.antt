-- ===== src/Routing.antt =====
-- Which queue a check goes to: `set_target_queue` of neb_module_naemon/mod_gearman.c; and which
-- queues a worker serves: `set_worker` of worker/worker_client.c.
-- The hosts and services of Naemon are records of what the code asks of them: their custom
-- variables, and whether a group of a name is known and has them as a member.
pub mod Served
pub mod Local
use mod_gearman.Common.{
  ℕ, Bytes, codes, str_eq, Bool, true, false, if◌then◌else◌, List, [], ◌∷◌, ◌++◌, Option, none,
  some, map, take, ◌-◌,
}

-- `GM_SMALLBUFSIZE` and `GM_BUFFERSIZE`
abbrev pub smallbufsize : ℕ
smallbufsize = 1024

abbrev pub buffersize : ℕ
buffersize = 65536

pub record Object : Type 0 where
  pub custom_variables : List (Bytes × Bytes)
  pub is_member : Bytes → Bool

pub record Options : Type 0 where
  pub identifier : Bytes
  pub queue_cust_var : Option Bytes
  pub local_servicegroups_list : List Bytes
  pub local_hostgroups_list : List Bytes
  pub servicegroups_list : List Bytes
  pub hostgroups_list : List Bytes
  pub hosts : Bool
  pub services : Bool
  pub events : Bool
  pub notifications : Bool

-- `snprintf( target_queue, GM_SMALLBUFSIZE-1, ...)`
abbrev pub printed : Bytes → Bytes
printed s = take (smallbufsize - 2) s

-- The first custom variable of the name. The value `local` leaves the queue empty.
unfoldable pub custom_queue : Bytes → List (Bytes × Bytes) → Option Bytes
custom_queue var [] = none
custom_queue var ((name, value) ∷ vars) =
    let rest = custom_queue var vars in
    if str_eq var name
    then some (if str_eq value (codes "local") then [] else printed value)
    else rest

infixr 5 ◌or_else◌
abbrev pub ◌or_else◌ : Option Bytes → Option Bytes → Option Bytes
none or_else b = b
some a or_else b = some a

-- The first group of the list that has the object as a member.
unfoldable pub first_group : Object → List Bytes → Option Bytes
first_group o [] = none
first_group o (g ∷ groups) =
    let rest = first_group o groups in if o.is_member g then some g else rest

abbrev pub custom_of : Bytes → Object → Option Object → Option Bytes
custom_of var hst none = custom_queue var hst.custom_variables
custom_of var hst (some svc) =
    custom_queue var svc.custom_variables or_else custom_queue var hst.custom_variables

abbrev pub from_custom : Option Bytes → Object → Option Object → Option Bytes
from_custom none hst svc = none
from_custom (some var) hst svc = custom_of var hst svc

-- A local group leaves the queue empty.
abbrev pub stays : Option Bytes → Option Bytes
stays none = none
stays (some g) = some []

abbrev pub named : Bytes → Option Bytes → Option Bytes
named prefix none = none
named prefix (some g) = some (printed (prefix ++ g))

abbrev pub of_service : (Object → Option Bytes) → Option Object → Option Bytes
of_service f none = none
of_service f (some svc) = f svc

abbrev pub general : Options → Option Object → Option Bytes
general opt none = if opt.hosts then some (codes "host") else none
general opt (some svc) = if opt.services then some (codes "service") else none

unfoldable pub from_groups : Options → Object → Option Object → Option Bytes
unfolding first_group
from_groups opt hst svc =
    of_service (λ s. stays (first_group s opt.local_servicegroups_list)) svc
    or_else (stays (first_group hst opt.local_hostgroups_list)
        or_else (of_service
              (λ s. named (codes "servicegroup_") (first_group s opt.servicegroups_list)) svc
            or_else (named (codes "hostgroup_") (first_group hst opt.hostgroups_list)
                or_else general opt svc)))

abbrev pub or_empty : Option Bytes → Bytes
or_empty none = []
or_empty (some s) = s

-- The new content of `target_queue`; if it is empty, the check is not sent to a queue.
unfoldable pub set_target_queue : Options → Object → Option Object → Bytes
set_target_queue opt hst svc =
    or_empty (from_custom opt.queue_cust_var hst svc or_else from_groups opt hst svc)

pub data RunMode : Type 0 where
  status worker : RunMode

abbrev pub if_enabled : Bool → Bytes → List Bytes
if_enabled b name = if b then name ∷ [] else []

-- The names of `worker_add_function`, in order.
unfoldable pub set_worker : RunMode → Options → List Bytes
set_worker status opt = take (buffersize - 1) (codes "worker_" ++ opt.identifier) ∷ []
set_worker worker opt =
    if_enabled opt.hosts (codes "host")
    ++ (if_enabled opt.services (codes "service")
        ++ (if_enabled opt.events (codes "eventhandler")
            ++ (if_enabled opt.notifications (codes "notification")
                ++ (map (λ g. take (buffersize - 2) (codes "hostgroup_" ++ g)) opt.hostgroups_list
                    ++ map (λ g. take (buffersize - 2) (codes "servicegroup_" ++ g))
                        opt.servicegroups_list))))

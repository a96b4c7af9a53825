-- ===== src/Neb/Registered.antt =====
-- Which callbacks the module asks Naemon for: `register_neb_callbacks` of
-- neb_module_naemon/mod_gearman.c.
use mod_gearman.Common.{
  Bytes, Bool, true, false, ◌&&◌, ◌||◌, if◌then◌else◌, Bool-cases, List, [], ◌∷◌, ◌++◌, Option,
  none, some, Member, Member-right, ◌≡◌, ◌≢◌, inl, inr, refl, arith,
}
use mod_gearman.Common.Int.{ℤ, pos, ltb_ℤ}
use mod_gearman.Routing.{
  Object, Options, first_group, ◌or_else◌, stays, from_groups, set_target_queue, or_empty,
}

pub data Handler : Type 0 where
  on_host_check on_svc_check on_eventhandler : Handler
  on_perfdata_host on_perfdata_service on_notifications : Handler
  on_hst_check_result on_svc_check_result : Handler

pub record Settings : Type 0 where
  pub routing : Options
  pub do_hostchecks : Bool
  pub perfdata : Bool
  pub latency_flatten_window : ℤ

abbrev pub is_some : Option Bytes → Bool
is_some none = false
is_some (some s) = true

abbrev pub has_elements : List Bytes → Bool
has_elements [] = false
has_elements (g ∷ groups) = true

abbrev pub wants_hosts : Options → Bool
wants_hosts opt = has_elements opt.hostgroups_list || (opt.hosts || is_some opt.queue_cust_var)

abbrev pub wants_services : Options → Bool
wants_services opt =
    has_elements opt.servicegroups_list
    || (has_elements opt.hostgroups_list || (opt.services || is_some opt.queue_cust_var))

abbrev pub if_wanted : Bool → List Handler → List Handler
if_wanted b handlers = if b then handlers else []

-- The handlers in the order of their registration.
unfoldable pub register_neb_callbacks : Settings → List Handler
register_neb_callbacks s =
    if_wanted (s.do_hostchecks && wants_hosts s.routing) (on_host_check ∷ [])
    ++ (if_wanted (wants_services s.routing) (on_svc_check ∷ [])
        ++ (if_wanted s.routing.events (on_eventhandler ∷ [])
            ++ (if_wanted s.perfdata (on_perfdata_host ∷ on_perfdata_service ∷ [])
                ++ (if_wanted s.routing.notifications (on_notifications ∷ [])
                    ++ if_wanted (ltb_ℤ (pos 0) s.latency_flatten_window)
                        (on_hst_check_result ∷ on_svc_check_result ∷ [])))))

-- Without a group, a general queue and a custom variable nothing has a queue.
stays_empty : (a : Option Bytes) → or_empty (stays a or_else none) ≡ []
stays_empty none = refl
stays_empty (some g) = refl

two_stay_empty : (a b : Option Bytes) → or_empty (stays a or_else (stays b or_else none)) ≡ []
two_stay_empty none b = stays_empty b
two_stay_empty (some g) b = refl

no_elements : (groups : List Bytes) → has_elements groups ≡ false → groups ≡ []
no_elements [] e = refl
no_elements (g ∷ groups) e = cc e

not_some : (o : Option Bytes) → is_some o ≡ false → o ≡ none
not_some none e = refl
not_some (some s) e = cc e

unwanted_host :
    (opt : Options) (hst : Object) → wants_hosts opt ≡ false → set_target_queue opt hst none ≡ []
unfolding set_target_queue from_groups first_group
unwanted_host opt hst e =
    let groups : has_elements opt.hostgroups_list ≡ false = ground arith in
    let general : opt.hosts ≡ false = ground arith in
    let custom : is_some opt.queue_cust_var ≡ false = ground arith in
    rw (not_some opt.queue_cust_var custom, no_elements opt.hostgroups_list groups, general)
      (stays_empty (first_group hst opt.local_hostgroups_list))

unwanted_service :
    (opt : Options) (hst svc : Object)
    → wants_services opt ≡ false
    → set_target_queue opt hst (some svc) ≡ []
unfolding set_target_queue from_groups first_group
unwanted_service opt hst svc e =
    let groups : has_elements opt.hostgroups_list ≡ false = ground arith in
    let sgroups : has_elements opt.servicegroups_list ≡ false = ground arith in
    let general : opt.services ≡ false = ground arith in
    let custom : is_some opt.queue_cust_var ≡ false = ground arith in
    rw
      (
        not_some opt.queue_cust_var custom,
        no_elements opt.hostgroups_list groups,
        no_elements opt.servicegroups_list sgroups,
        general,
      )
      (two_stay_empty (first_group svc opt.local_servicegroups_list)
        (first_group hst opt.local_hostgroups_list))

-- A host check that has a queue, where the module processes host checks, is seen by the module: the
-- handler of host checks is registered.
pub register_host-Member :
    (s : Settings) (hst : Object)
    → s.do_hostchecks ≡ true
    → set_target_queue s.routing hst none ≢ []
    → Member on_host_check (register_neb_callbacks s)
unfolding register_neb_callbacks
register_host-Member s hst enabled queue = elim (Bool-cases (wants_hosts s.routing)) [
  | inl e ↦ rw (enabled, e) (inl refl)
  | inr e ↦ absurd (queue (unwanted_host s.routing hst e))
]

-- A service check that has a queue by its own variables and groups, by those of its host or by the
-- general queue is seen by the module: the handler of service checks is registered.
pub register_service-Member :
    (s : Settings) (hst svc : Object)
    → set_target_queue s.routing hst (some svc) ≢ []
    → Member on_svc_check (register_neb_callbacks s)
unfolding register_neb_callbacks
register_service-Member s hst svc queue = elim (Bool-cases (wants_services s.routing)) [
  | inl e ↦
      Member-right on_svc_check
        (if_wanted (s.do_hostchecks && wants_hosts s.routing) (on_host_check ∷ [])) _
        (rw e (inl refl))
  | inr e ↦ absurd (queue (unwanted_service s.routing hst svc e))
]

-- ===== src/Routing/Served.antt =====
-- A check that neb_module_naemon/mod_gearman.c sends to a queue of its own choice goes to a queue
-- that a worker with the same options serves.
use mod_gearman.Common.{
  Bytes, codes, Bool, true, false, if◌then◌else◌, List, [], ◌∷◌, ◌++◌, Option, none, some, map,
  take, length, All, ◌-◌, ◌≡◌, ◌≢◌, ◌≤◌, inl, inr, refl, sym, ◌∙◌, arith, if_both, Member,
  Member-left, Member-right, take_long,
}
use mod_gearman.Routing.{
  Object, Options, smallbufsize, buffersize, first_group, ◌or_else◌, from_custom, stays, named,
  of_service, general, from_groups, or_empty, set_target_queue, worker, if_enabled, set_worker,
  printed,
}

-- A text that a list of queues has, or nothing.
abbrev Among : List Bytes → Option Bytes → Type 0
Among queues none = Unit
Among queues (some q) = (q ≢ []) → Member q queues

Among-or_else :
    (queues : List Bytes) (a b : Option Bytes)
    → Among queues a
    → Among queues b
    → Among queues (a or_else b)
Among-or_else queues none b h k = k
Among-or_else queues (some q) b h k = h

Among-stays : (queues : List Bytes) (a : Option Bytes) → Among queues (stays a)
Among-stays queues none = tt
Among-stays queues (some g) = λ h. absurd (h refl)

abbrev pub Short : Bytes → Bytes → Type 0
Short prefix g = length (prefix ++ g) ≤ smallbufsize - 2

Among-more :
    (q : Bytes) (queues : List Bytes) (a : Option Bytes) → Among queues a → Among (q ∷ queues) a
Among-more q queues none h = tt
Among-more q queues (some b) h = λ ne. inr (h ne)

Among-left : (xs ys : List Bytes) (a : Option Bytes) → Among xs a → Among (xs ++ ys) a
Among-left xs ys none h = tt
Among-left xs ys (some b) h = λ ne. Member-left b xs ys (h ne)

Among-right : (xs ys : List Bytes) (a : Option Bytes) → Among ys a → Among (xs ++ ys) a
Among-right xs ys none h = tt
Among-right xs ys (some b) h = λ ne. Member-right b xs ys (h ne)

both_short : (s : Bytes) → length s ≤ smallbufsize - 2 → printed s ≡ take (buffersize - 2) s
both_short s h =
    take_long (smallbufsize - 2) s h ∙ sym (take_long (buffersize - 2) s (omega (arith, h)))

-- The name of a group that was found is the name of a function of the worker.
Among-named :
    (o : Object) (prefix : Bytes) (groups : List Bytes)
    → All (Short prefix) groups
    → Among
        (map (λ g. take (buffersize - 2) (prefix ++ g)) groups)
        (named prefix (first_group o groups))
unfolding first_group
Among-named o prefix [] h = tt
Among-named o prefix (g ∷ groups) (short, h) =
    let queues = map (λ g. take (buffersize - 2) (prefix ++ g)) groups in
    let q = take (buffersize - 2) (prefix ++ g) in
    if_both (λ r. Among (q ∷ queues) (named prefix r)) (o.is_member g)
      (λ _ _. inl (both_short (prefix ++ g) short))
      (λ _.
        Among-more q queues (named prefix (first_group o groups)) (Among-named o prefix groups h))

Among-general :
    (name : Bytes) (b : Bool) → Among (if_enabled b name) (if b then some name else none)
Among-general name true = λ _. inl refl
Among-general name false = tt

Among-service :
    (queues : List Bytes) (f : Object → Option Bytes) (svc : Option Object)
    → ((s : Object) → Among queues (f s))
    → Among queues (of_service f svc)
Among-service queues f none h = tt
Among-service queues f (some s) h = h s

general_served :
    (opt : Options) (svc : Option Object) → Among (set_worker worker opt) (general opt svc)
unfolding set_worker
general_served opt none =
    Among-left (if_enabled opt.hosts (codes "host")) _ _ (Among-general (codes "host") opt.hosts)
general_served opt (some svc) = Among-right (if_enabled opt.hosts (codes "host")) _ _ (
    Among-left (if_enabled opt.services (codes "service")) _ _
      (Among-general (codes "service") opt.services))

hostgroup_served :
    (opt : Options) (hst : Object)
    → All (Short (codes "hostgroup_")) opt.hostgroups_list
    → Among
        (set_worker worker opt)
        (named (codes "hostgroup_") (first_group hst opt.hostgroups_list))
unfolding set_worker
hostgroup_served opt hst h = Among-right (if_enabled opt.hosts (codes "host")) _ _ (
    Among-right (if_enabled opt.services (codes "service")) _ _ (
      Among-right (if_enabled opt.events (codes "eventhandler")) _ _ (
        Among-right (if_enabled opt.notifications (codes "notification")) _ _ (
          Among-left
            (map (λ g. take (buffersize - 2) (codes "hostgroup_" ++ g)) opt.hostgroups_list) _ _
            (Among-named hst (codes "hostgroup_") opt.hostgroups_list h)))))

servicegroup_served :
    (opt : Options) (svc : Object)
    → All (Short (codes "servicegroup_")) opt.servicegroups_list
    → Among
        (set_worker worker opt)
        (named (codes "servicegroup_") (first_group svc opt.servicegroups_list))
unfolding set_worker
servicegroup_served opt svc h = Among-right (if_enabled opt.hosts (codes "host")) _ _ (
    Among-right (if_enabled opt.services (codes "service")) _ _ (
      Among-right (if_enabled opt.events (codes "eventhandler")) _ _ (
        Among-right (if_enabled opt.notifications (codes "notification")) _ _ (
          Among-right
            (map (λ g. take (buffersize - 2) (codes "hostgroup_" ++ g)) opt.hostgroups_list) _ _
            (Among-named svc (codes "servicegroup_") opt.servicegroups_list h)))))

groups_served :
    (opt : Options) (hst : Object) (svc : Option Object)
    → All (Short (codes "hostgroup_")) opt.hostgroups_list
    → All (Short (codes "servicegroup_")) opt.servicegroups_list
    → Among (set_worker worker opt) (from_groups opt hst svc)
unfolding from_groups
groups_served opt hst svc h s =
    let queues = set_worker worker opt in
    Among-or_else queues _ _
      (Among-service queues _ svc
        (λ o. Among-stays queues (first_group o opt.local_servicegroups_list)))
      (Among-or_else queues _ _ (Among-stays queues (first_group hst opt.local_hostgroups_list)) (
        Among-or_else queues _ _ (Among-service queues _ svc (λ o. servicegroup_served opt o s))
          (Among-or_else queues _ _ (hostgroup_served opt hst h) (general_served opt svc))))

or_empty-Member :
    (queues : List Bytes) (a : Option Bytes)
    → Among queues a
    → or_empty a ≢ []
    → Member (or_empty a) queues
or_empty-Member queues none h ne = absurd (ne refl)
or_empty-Member queues (some q) h ne = h ne

-- A check without a custom variable for its queue is kept back, or goes to a queue that every
-- worker with the same options serves. The names of the groups are short enough for the buffer.
pub set_target_queue-Member :
    (opt : Options) (hst : Object) (svc : Option Object)
    → from_custom opt.queue_cust_var hst svc ≡ none
    → All (Short (codes "hostgroup_")) opt.hostgroups_list
    → All (Short (codes "servicegroup_")) opt.servicegroups_list
    → set_target_queue opt hst svc ≢ []
    → Member (set_target_queue opt hst svc) (set_worker worker opt)
unfolding set_target_queue
set_target_queue-Member opt hst svc e h s = rw e (
    or_empty-Member (set_worker worker opt) (from_groups opt hst svc)
      (groups_served opt hst svc h s))

-- ===== src/Routing/Local.antt =====
-- Checks that neb_module_naemon/mod_gearman.c leaves to the core itself.
use mod_gearman.Common.{
  Member, Bytes, true, false, List, [], ◌∷◌, Option, none, some, ◌≡◌, ◌⊎◌, inl, inr, refl, ap, sym,
  ◌∙◌, Bool-cases,
}
use mod_gearman.Routing.{
  Object, Options, first_group, ◌or_else◌, from_custom, stays, of_service, from_groups, or_empty,
  set_target_queue,
}

first_group_here :
    (o : Object) (g : Bytes) (groups : List Bytes)
    → o.is_member g ≡ true
    → first_group o (g ∷ groups) ≡ some g
unfolding first_group
first_group_here o g groups e = rw e

first_group_later :
    (o : Object) (g : Bytes) (groups : List Bytes)
    → o.is_member g ≡ false
    → first_group o (g ∷ groups) ≡ first_group o groups
unfolding first_group
first_group_later o g groups e = rw e

-- A group that the object is a member of is found, or one before it.
first_group-Member :
    (o : Object) (g : Bytes) (groups : List Bytes)
    → Member g groups
    → o.is_member g ≡ true
    → (h : Bytes) × (first_group o groups ≡ some h)
first_group-Member o g [] m e = elim m [ ]
first_group-Member o g (x ∷ groups) (inl same) e =
    (x, first_group_here o x groups (ap o.is_member (sym same) ∙ e))
first_group-Member o g (x ∷ groups) (inr m) e = elim (Bool-cases (o.is_member x)) [
  | inl here ↦ (x, first_group_here o x groups here)
  | inr other ↦
      let (h, f) = first_group-Member o g groups m e in (h, first_group_later o x groups other ∙ f)
]

-- Nothing, or the empty queue.
abbrev Stays : Option Bytes → Type 0
Stays a = (a ≡ none) ⊎ (a ≡ some [])

stays-Stays : (a : Option Bytes) → Stays (stays a)
stays-Stays none = inl refl
stays-Stays (some g) = inr refl

of_service-Stays :
    (f : Object → Option Bytes) (svc : Option Object)
    → ((s : Object) → Stays (f s))
    → Stays (of_service f svc)
of_service-Stays f none h = inl refl
of_service-Stays f (some s) h = h s

Stays-first :
    (a b : Option Bytes)
    → Stays a
    → (c : Option Bytes) → b ≡ some []
    → or_empty (a or_else (b or_else c)) ≡ []
Stays-first a b (inl e) c h = rw (e, h)
Stays-first a b (inr e) c h = rw e

-- A check of a host in a local hostgroup goes to no queue, whatever other groups have it or its
-- service as a member, unless a custom variable names its queue.
set_target_queue_local :
    (opt : Options) (hst : Object) (svc : Option Object) (g : Bytes)
    → from_custom opt.queue_cust_var hst svc ≡ none
    → Member g opt.local_hostgroups_list
    → hst.is_member g ≡ true
    → set_target_queue opt hst svc ≡ []
unfolding set_target_queue from_groups
set_target_queue_local opt hst svc g e m h =
    let (x, found) = first_group-Member hst g opt.local_hostgroups_list m h in
    rw e (
      Stays-first (of_service (λ s. stays (first_group s opt.local_servicegroups_list)) svc)
        (stays (first_group hst opt.local_hostgroups_list))
        (of_service-Stays _ svc (λ s. stays-Stays (first_group s opt.local_servicegroups_list))) _
        (ap stays found))

-- ===== src/Setup/Servers.antt =====
-- The list of servers that common/utils.c builds, and the spelling of yes and no.
use mod_gearman.Common.{
  ℕ, Bytes, Bool, true, false, List, [], ◌∷◌, ◌++◌, some, map, All, ◌≡◌, refl, ap, sym, ◌∙◌, arith,
  if_both, Bool-cases, inl, inr,
}
use mod_gearman.Text.{lc, tolower, toupper}
use mod_gearman.Setup.{
  Server, same_server, check_param_server, add_server, new_server_of, parse_yes_or_no, yes_or_no,
}

tolower-toupper : (c : ℕ) → tolower (toupper c) ≡ tolower c
unfolding tolower toupper
tolower-toupper c = ground arith

lc-toupper : (s : Bytes) → lc (map toupper s) ≡ lc s
unfolding lc
lc-toupper [] = refl
lc-toupper (c ∷ s) = rw (tolower-toupper c) (ap (λ t. tolower c ∷ t) (lc-toupper s))

-- The case of the letters does not matter: a value in capitals is read as it is.
pub parse_yes_or_no-toupper :
    (value : Bytes) (dfl : Bool)
    → parse_yes_or_no (some (map toupper value)) dfl ≡ parse_yes_or_no (some value) dfl
unfolding parse_yes_or_no
parse_yes_or_no-toupper value dfl = ap (λ v. yes_or_no v dfl) (lc-toupper value)

-- The servers of a list are pairwise different, and each has a host.
abbrev pub Distinct : List Server → Type 0
Distinct [] = Unit
Distinct (s ∷ servers) = All (λ t. same_server t s ≡ false) servers × Distinct servers

check_same :
    (new s : Server) (servers : List Server)
    → same_server new s ≡ true
    → check_param_server new (s ∷ servers) ≡ false
unfolding check_param_server
check_same new s servers e = rw e

check_other :
    (new s : Server) (servers : List Server)
    → same_server new s ≡ false
    → check_param_server new (s ∷ servers) ≡ check_param_server new servers
unfolding check_param_server
check_other new s servers e = rw e

check_param_server-All :
    (new : Server) (servers : List Server)
    → check_param_server new servers ≡ true
    → All (λ s. same_server new s ≡ false) servers
check_param_server-All new [] h = tt
check_param_server-All new (s ∷ servers) h = elim (Bool-cases (same_server new s)) [
  | inl same ↦ cc (h, check_same new s servers same)
  | inr other ↦
      (other, check_param_server-All new servers (sym (check_other new s servers other) ∙ h))
]

All-snoc :
    (P : Server → Type 0) (servers : List Server) (new : Server)
    → All P servers
    → P new
    → All P (servers ++ (new ∷ []))
All-snoc P [] new h p = (p, tt)
All-snoc P (s ∷ servers) new (q, h) p = (q, All-snoc P servers new h p)

Distinct-snoc :
    (servers : List Server) (new : Server)
    → Distinct servers
    → All (λ s. same_server new s ≡ false) servers
    → Distinct (servers ++ (new ∷ []))
Distinct-snoc [] new d h = (tt, tt)
Distinct-snoc (s ∷ servers) new (a, d) (e, h) =
    (All-snoc (λ t. same_server t s ≡ false) servers new a e, Distinct-snoc servers new d h)

-- Adding a server keeps the servers of the list pairwise different, by host and port.
pub add_server-Distinct :
    (atoi : Bytes → ℕ) (name : Bytes) (servers : List Server)
    → Distinct servers
    → Distinct (add_server atoi name servers)
unfolding add_server
add_server-Distinct atoi name servers d =
    let new = new_server_of atoi name in
    if_both Distinct (check_param_server new servers)
      (λ e. Distinct-snoc servers new d (check_param_server-All new servers e)) (λ _. d)

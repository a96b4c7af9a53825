-- ===== src/Config/Line.antt =====
-- `parse_args_line` of common/utils.c: one argument or one line of a configuration file.
use mod_gearman.Common.{
  ℕ, zero, suc, Bytes, codes, str_eq, Bool, true, false, ◌&&◌, ◌||◌, ◌==◌, leb, ltb, if◌then◌else◌,
  List, [], ◌∷◌, ◌++◌, Option, none, some, length, map, take, ◌+◌, ◌-◌,
}
use mod_gearman.Common.Int.{ℤ, pos, negsuc, ltb_ℤ}
use mod_gearman.Text.{trim, ltrim, lc, toupper}
use mod_gearman.Setup.{parse_yes_or_no, add_server}
use mod_gearman.Job.{strsep}
use mod_gearman.Config.{
  Switch, Number, Text, Group, Servers, Time, Load, Libc, Options, Export, Parsed, ok, failed,
  fault, ◌>>=◌, put, find, daemon_mode, perfdata, internal_check_dummy, return_code,
  latency_flatten_window, delimiter, queue_cust_var, servicegroups, hostgroups, restrict_path,
  perfdata_queues, auto,
}
use mod_gearman.Config.Keys.{
  switch_index, number_index, text_index, group_index, servers_index, time_index, load_index,
  switch_keys, switched_by_default, is_queue, number_keys, limited, load_keys, text_keys, time_keys,
  server_keys, group_keys, logmodes,
}

-- `GM_LISTSIZE` and `GM_NEBTYPESSIZE`
abbrev pub listsize : ℕ
listsize = 512

abbrev pub nebtypessize : ℕ
nebtypessize = 33

-- The pieces that `strsep(&value, ...)` gives until it gives NULL.
abbrev pub add_front : ℕ → List Bytes → List Bytes
add_front b [] = (b ∷ []) ∷ []
add_front b (s ∷ pieces) = (b ∷ s) ∷ pieces

abbrev pub pieces : ℕ → Bytes → List Bytes
pieces c [] = [] ∷ []
pieces c (b ∷ s) = let rest = pieces c s in if b == c then [] ∷ rest else add_front b rest

-- `while(key[0] == '-') key++;`
abbrev pub skip_hyphens : Bytes → Bytes
skip_hyphens [] = []
skip_hyphens (c ∷ key) = let rest = skip_hyphens key in if c == b'-' then rest else c ∷ key

infixr 5 ◌otherwise◌
abbrev pub ◌otherwise◌ : {A : Type 0} → Option A → A → A
none otherwise b = b
some a otherwise b = a

abbrev pub via : {K A : Type 0} → Option K → (K → A) → Option A
via none f = none
via (some k) f = some (f k)

abbrev pub when : {A : Type 0} → Bool → A → Option A
when true a = some a
when false a = none

-- The value is turned to lower case in place by `parse_yes_or_no`.
module _ (libc : Libc) where
  abbrev pub put_switch : Switch → Bool → Options libc → Options libc
  put_switch s b opt = record opt { switches = put switch_index s b opt.switches }

  abbrev pub count_queue : Options libc → Options libc
  count_queue opt = record opt { set_queues_by_hand = suc opt.set_queues_by_hand }

  abbrev pub set_text : Text → Bytes → Options libc → Options libc
  set_text t v opt = record opt { texts = put text_index t (some v) opt.texts }

  -- A list that is full is written behind its end.
  abbrev pub push : Group → Bytes → Options libc → Parsed (Options libc)
  push g s opt =
      if leb listsize (length (opt.groups g))
      then fault
      else ok (record opt { groups = put group_index g (opt.groups g ++ (s ∷ [])) opt.groups })

  abbrev pub push_all : Group → List Bytes → Options libc → Parsed (Options libc)
  push_all g [] opt = ok opt
  push_all g (s ∷ list) opt = push g s opt >>= push_all g list

  unfoldable pub set_daemon : Option Bytes → Options libc → Options libc
  set_daemon none opt = put_switch daemon_mode true opt
  set_daemon (some v) opt =
      set_text delimiter (lc v) (put_switch daemon_mode (parse_yes_or_no (some v) true) opt)

  -- Not a yes and not a no: both defaults are returned.
  unfoldable pub set_perfdata : Bytes → Options libc → Parsed (Options libc)
  set_perfdata v opt =
      let on = parse_yes_or_no (some v) true in
      let counted = count_queue (put_switch perfdata on opt) in
      if on
      then (if parse_yes_or_no (some v) false
          then push perfdata_queues (codes "perfdata") counted
          else push_all perfdata_queues (pieces b',' (lc v)) counted)
      else ok counted

  unfoldable pub set_switch : Switch → Option Bytes → Options libc → Options libc
  set_switch s value opt = record opt {
    set_queues_by_hand = if is_queue s then suc opt.set_queues_by_hand else opt.set_queues_by_hand;
    switches = put switch_index s (parse_yes_or_no value (switched_by_default s)) opt.switches;
  }

  unfoldable pub set_number : Number → Bytes → Options libc → Options libc
  set_number n v opt = record opt {
    numbers = put number_index n (limited n (libc.atoi v)) opt.numbers;
  }

  abbrev pub is_return_code : Number → Bool
  is_return_code n = number_index n == number_index return_code

  unfoldable pub parse_number : Number → Bytes → Options libc → Parsed (Options libc)
  unfolding set_number
  parse_number n v opt =
      if is_return_code n && (ltb_ℤ (libc.atoi v) (pos 0) || ltb_ℤ (pos 3) (libc.atoi v))
      then failed (set_number n v opt)
      else ok (set_number n v opt)

  unfoldable pub parse_logmode : Bytes → Options libc → Options libc
  parse_logmode v opt = record opt { logmode = find v logmodes otherwise auto }

  -- `queue_custom_variable` is stored in upper case.
  unfoldable pub parse_text : Text → Bytes → Options libc → Options libc
  parse_text queue_cust_var v opt = set_text queue_cust_var (map toupper v) opt
  parse_text t v opt = set_text t v opt

  unfoldable pub parse_load : Load → Bytes → Options libc → Options libc
  parse_load l v opt =
      let x = libc.atof v in
      record opt {
        loads = put load_index l (if libc.is_negative x then libc.zero_double else x) opt.loads;
      }

  abbrev pub parse_time : Time → Bytes → Options libc → Options libc
  parse_time t v opt = record opt {
    times = put time_index t (some (libc.string2timeval v)) opt.times;
  }

  unfoldable pub parse_servers : Servers → List Bytes → Options libc → Parsed (Options libc)
  parse_servers s [] opt = ok opt
  parse_servers s (name ∷ names) opt =
      let list = add_server libc.port_bits name (opt.servers s) in
      let rest =
        parse_servers s names (record opt { servers = put servers_index s list opt.servers }) in
      if ltb listsize (length list) then fault else rest

  -- The groups with queues of their own.
  abbrev pub has_queue : Group → Bool
  has_queue servicegroups = true
  has_queue hostgroups = true
  has_queue _ = false

  unfoldable pub add_group : Group → Bytes → Options libc → Parsed (Options libc)
  add_group g [] opt = ok opt
  add_group g (c ∷ name) opt =
      if has_queue g
      then (if ltb 50 (length (c ∷ name)) then ok opt else push g (c ∷ name) (count_queue opt))
      else push g (c ∷ name) opt

  unfoldable pub parse_groups : Group → List Bytes → Options libc → Parsed (Options libc)
  unfolding add_group
  parse_groups g [] opt = ok opt
  parse_groups g (name ∷ names) opt = elim (trim name) [
    | none ↦ fault
    | some s ↦ add_group g s opt >>= parse_groups g names
  ]

  -- What `nebcallback2str` gives for a number is the argument `callback2str`.
  module _ (callback2str : ℕ → Bytes) where
    -- `for(i=0;i<GM_NEBTYPESSIZE;i++)`, with the rounds left; the last equal one stays.
    abbrev pub callback_of : ℕ → Bytes → ℤ
    callback_of zero callback = negsuc 0
    callback_of (suc i) callback =
        let rest = callback_of i callback in
        if str_eq (callback2str i) callback then pos i else rest

    abbrev pub has_N : Bytes → Bool
    has_N [] = false
    has_N (c ∷ s) = c == b'N' || has_N s

    -- `trim(callback)` cuts the spaces at the end in place; `callback` itself is not moved.
    abbrev pub cut_end : Bytes → Bytes → Bytes
    cut_end callback trimmed = take (length callback - length (ltrim callback)) callback ++ trimmed

    -- How many entries `exports[n]` has; its arrays hold `GM_LISTSIZE`.
    abbrev pub elem_number : ℕ → List Export → ℕ
    elem_number n [] = 0
    elem_number n (e ∷ exports) = (if e.callback_num == n then 1 else 0) + elem_number n exports

    abbrev pub store_export : Bytes → ℤ → ℤ → Options libc → Parsed (Options libc)
    store_export queue rc (negsuc n) opt = fault
    store_export queue rc (pos n) opt =
        if ltb n nebtypessize && ltb (elem_number n opt.exports) listsize
        then ok (record opt {
          exports =
              opt.exports ++ (record { callback_num = n; name = queue; return_code_num = rc } ∷ []);
        })
        else fault

    abbrev pub add_named : Bytes → ℤ → ℤ → Options libc → Parsed (Options libc)
    add_named queue rc (pos n) opt = store_export queue rc (pos n) opt
    add_named queue rc (negsuc n) opt = ok opt

    abbrev pub add_export : Bytes → ℤ → Bytes → Bytes → Options libc → Parsed (Options libc)
    add_export queue rc callback trimmed opt =
        let name = cut_end callback trimmed in
        if has_N name
        then add_named queue rc (callback_of nebtypessize name) opt
        else store_export queue rc (libc.atoi trimmed) opt

    unfoldable pub add_exports : Bytes → ℤ → List Bytes → Options libc → Parsed (Options libc)
    add_exports queue rc [] opt = ok opt
    add_exports queue rc (callback ∷ callbacks) opt = elim (trim callback) [
      | none ↦ fault
      | some trimmed ↦ add_export queue rc callback trimmed opt >>= add_exports queue rc callbacks
    ]

    abbrev pub count_export : Options libc → Parsed (Options libc)
    count_export opt = ok (record opt { exports_count = suc opt.exports_count })

    abbrev pub callbacks_of : Option Bytes → List Bytes
    callbacks_of none = []
    callbacks_of (some s) = pieces b',' (strsep b':' s).0

    abbrev pub export_to : Bytes → Option Bytes → Options libc → Parsed (Options libc)
    export_to queue none opt = fault
    export_to queue (some rest) opt =
        if ltb 50 (length queue)
        then ok opt
        else add_exports queue (libc.atoi (strsep b':' rest).0) (callbacks_of (strsep b':' rest).1)
            opt
          >>= count_export

    unfoldable pub parse_export : Bytes → Options libc → Parsed (Options libc)
    unfolding add_exports
    parse_export v opt = elim (trim (strsep b':' v).0) [
      | none ↦ fault
      | some queue ↦ export_to queue (strsep b':' v).1 opt
    ]

    -- `include` reads a file; the keys of the tables are all different, so their order is free.
    module _ (include : Bytes → Options libc → Parsed (Options libc)) where
      abbrev pub is_include : Bytes → Bool
      is_include key =
          str_eq key (codes "config")
          || (str_eq key (codes "configfile") || str_eq key (codes "include"))

      -- The last line is an option that is ignored or unknown.
      unfoldable pub parse_value : Bytes → Bytes → Options libc → Parsed (Options libc)
      parse_value key v opt =
          via (find key number_keys) (λ n. parse_number n v opt)
          otherwise when (str_eq key (codes "logmode")) (ok (parse_logmode v opt))
          otherwise via (find key text_keys) (λ t. ok (parse_text t v opt))
          otherwise via (find key time_keys) (λ t. ok (parse_time t v opt))
          otherwise when (is_include key) (include v opt)
          otherwise via (find key load_keys) (λ l. ok (parse_load l v opt))
          otherwise via (find key server_keys) (λ s. parse_servers s (pieces b',' v) opt)
          otherwise via (find key group_keys) (λ g. parse_groups g (pieces b',' v) opt)
          otherwise when (str_eq key (codes "export")) (parse_export v opt)
          otherwise when (str_eq key (codes "restrict_path") || str_eq key (codes "restrictpath"))
              (push restrict_path v opt)
          otherwise when (str_eq key (codes "internal_check_dummy"))
              (ok (set_switch internal_check_dummy (some v) opt))
          otherwise ok opt

      -- `strlen` and `atoi` of a value that is missing are undefined.
      abbrev pub parse_perfdata : Option Bytes → Options libc → Option (Parsed (Options libc))
      parse_perfdata none opt = some fault
      parse_perfdata (some []) opt = none
      parse_perfdata (some (c ∷ v)) opt = some (set_perfdata (c ∷ v) opt)

      abbrev pub parse_window : Option Bytes → Options libc → Parsed (Options libc)
      parse_window none opt = fault
      parse_window (some v) opt = ok (set_number latency_flatten_window v opt)

      abbrev pub is_perl : Bytes → Bool
      is_perl key =
          str_eq key (codes "enable_embedded_perl")
          || (str_eq key (codes "use_embedded_perl_implicitly")
              || str_eq key (codes "use_perl_cache"))

      abbrev pub with_value : Bytes → Option Bytes → Options libc → Parsed (Options libc)
      with_value key none opt = ok opt
      with_value key (some v) opt = parse_value key v opt

      unfoldable pub parse_key : Bytes → Option Bytes → Options libc → Parsed (Options libc)
      unfolding parse_value
      parse_key key value opt =
          when (str_eq key (codes "daemon") || str_eq key (codes "d")) (ok (set_daemon value opt))
          otherwise (if str_eq key (codes "perfdata") then parse_perfdata value opt else none)
          otherwise via (find key switch_keys) (λ s. ok (set_switch s value opt))
          otherwise when (str_eq key (codes "latency_flatten_window")) (parse_window value opt)
          otherwise when (is_perl key) (ok opt)
          otherwise with_value key value opt

      abbrev pub trim_value : Option Bytes → Option (Option Bytes)
      trim_value none = some none
      trim_value (some v) = via (trim v) (λ s. some s)

      unfoldable pub with_parts :
          Bytes → Option (Option Bytes) → Options libc → Parsed (Options libc)
      unfolding parse_key
      with_parts key none opt = fault
      with_parts key (some value) opt = parse_key (skip_hyphens key) value opt

      unfoldable pub parse_args_line : Bytes → Options libc → Parsed (Options libc)
      unfolding with_parts
      parse_args_line arg opt = elim (trim (lc (strsep b'=' arg).0)) [
        | none ↦ fault
        | some key ↦ with_parts key (trim_value (strsep b'=' arg).1) opt
      ]

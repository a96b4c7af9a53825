-- ===== src/Config/Steps.antt =====
-- What one setting of `parse_args_line` in common/utils.c keeps of the numbers of the options. `R` is
-- any property of them.
use mod_gearman.Common.{
  ℕ, Bytes, codes, Bool, true, false, ltb, leb, ◌&&◌, if_both, List, [], ◌∷◌, Option, none, some,
  Option-cases, length, ◌≡◌, inl, inr, refl, sym,
}
use mod_gearman.Common.Int.{ℤ, pos, negsuc}
use mathlib.Core.Path.{subst}
use mod_gearman.Text.{trim, lc}
use mod_gearman.Setup.{parse_yes_or_no, add_server}
use mod_gearman.Job.{strsep}
use mod_gearman.Config.{
  Number, Text, Group, Servers, Load, Libc, Options, Parsed, ok, failed, fault, exhausted, ◌>>=◌,
  put, perfdata, perfdata_queues, Switch, queue_cust_var,
}
use mod_gearman.Config.Keys.{servers_index}
use mod_gearman.Config.Line.{
  listsize, nebtypessize, pieces, ◌otherwise◌, via, when, put_switch, count_queue, push, push_all,
  set_daemon, set_perfdata, set_switch, parse_logmode, parse_text, parse_load, parse_servers,
  has_queue, add_group, parse_groups, callback_of, has_N, cut_end, elem_number, store_export,
  add_named, add_export, add_exports, count_export, callbacks_of, export_to, parse_export,
}

module _ {ℓ} {A : Type 0} (P : A → Type ℓ) where
  pub via-otherwise :
      {K : Type 0} (o : Option K) (f : K → A) (a : A)
      → ((k : K) → P (f k))
      → P a
      → P (via o f otherwise a)
  via-otherwise none f a h p = p
  via-otherwise (some k) f a h p = h k

  pub when-otherwise : (b : Bool) (c a : A) → P c → P a → P (when b c otherwise a)
  when-otherwise true c a h p = h
  when-otherwise false c a h p = p

module _ (libc : Libc) (R : (Number → ℤ) → Type 0) where
  -- What was read leaves numbers with `R`, and the fuel was enough.
  abbrev pub Sound : Parsed (Options libc) → Type 0
  Sound (ok opt) = R opt.numbers
  Sound (failed opt) = R opt.numbers
  Sound fault = Unit
  Sound exhausted = ⊥

  pub bind-Sound :
      (m : Parsed (Options libc)) (f : Options libc → Parsed (Options libc))
      → Sound m
      → ((opt : Options libc) → R opt.numbers → Sound (f opt))
      → Sound (m >>= f)
  bind-Sound (ok opt) f h k = k opt h
  bind-Sound (failed opt) f h k = h
  bind-Sound fault f h k = tt
  bind-Sound exhausted f h k = h

  pub push-Sound :
      (g : Group) (s : Bytes) (opt : Options libc) → R opt.numbers → Sound (push libc g s opt)
  push-Sound g s opt h = if_both Sound (leb listsize (length (opt.groups g))) (λ _. tt) (λ _. h)

  pub push_all-Sound :
      (g : Group) (list : List Bytes) (opt : Options libc)
      → R opt.numbers
      → Sound (push_all libc g list opt)
  push_all-Sound g [] opt h = h
  push_all-Sound g (s ∷ list) opt h =
      bind-Sound (push libc g s opt) _ (push-Sound g s opt h) (push_all-Sound g list)

  pub set_daemon-numbers :
      (value : Option Bytes) (opt : Options libc)
      → (set_daemon libc value opt).numbers ≡ opt.numbers
  unfolding set_daemon
  set_daemon-numbers none opt = refl
  set_daemon-numbers (some v) opt = refl

  abbrev counted : Bytes → Options libc → Options libc
  counted v opt = count_queue libc (put_switch libc perfdata (parse_yes_or_no (some v) true) opt)

  pub set_perfdata-Sound :
      (v : Bytes) (opt : Options libc) → R opt.numbers → Sound (set_perfdata libc v opt)
  unfolding set_perfdata
  set_perfdata-Sound v opt h =
      if_both Sound (parse_yes_or_no (some v) true)
        (λ _.
          if_both Sound (parse_yes_or_no (some v) false)
            (λ _. push-Sound perfdata_queues (codes "perfdata") (counted v opt) h)
            (λ _. push_all-Sound perfdata_queues (pieces b',' (lc v)) (counted v opt) h))
        (λ _. h)

  pub set_switch-numbers :
      (s : Switch) (value : Option Bytes) (opt : Options libc)
      → (set_switch libc s value opt).numbers ≡ opt.numbers
  unfolding set_switch
  set_switch-numbers s value opt = refl

  pub parse_text-numbers :
      (t : Text) (v : Bytes) (opt : Options libc) → (parse_text libc t v opt).numbers ≡ opt.numbers
  unfolding parse_text
  parse_text-numbers queue_cust_var v opt = refl
  parse_text-numbers _ v opt = refl

  pub parse_logmode-numbers :
      (v : Bytes) (opt : Options libc) → (parse_logmode libc v opt).numbers ≡ opt.numbers
  unfolding parse_logmode
  parse_logmode-numbers v opt = refl

  pub parse_load-numbers :
      (l : Load) (v : Bytes) (opt : Options libc) → (parse_load libc l v opt).numbers ≡ opt.numbers
  unfolding parse_load
  parse_load-numbers l v opt = refl

  pub back : {f g : Number → ℤ} → f ≡ g → R g → R f
  back e h = subst R (sym e) h

  abbrev with_servers : Servers → Bytes → Options libc → Options libc
  with_servers s name opt = record opt {
    servers = put servers_index s (add_server libc.port_bits name (opt.servers s)) opt.servers;
  }

  pub parse_servers-Sound :
      (s : Servers) (names : List Bytes) (opt : Options libc)
      → R opt.numbers
      → Sound (parse_servers libc s names opt)
  unfolding parse_servers
  parse_servers-Sound s [] opt h = h
  parse_servers-Sound s (name ∷ names) opt h =
      if_both Sound (ltb listsize (length (add_server libc.port_bits name (opt.servers s))))
        (λ _. tt) (λ _. parse_servers-Sound s names (with_servers s name opt) h)

  pub add_group-Sound :
      (g : Group) (name : Bytes) (opt : Options libc)
      → R opt.numbers
      → Sound (add_group libc g name opt)
  unfolding add_group
  add_group-Sound g [] opt h = h
  add_group-Sound g (c ∷ name) opt h =
      if_both Sound (has_queue libc g)
        (λ _.
          if_both Sound (ltb 50 (length (c ∷ name))) (λ _. h)
            (λ _. push-Sound g (c ∷ name) (count_queue libc opt) h))
        (λ _. push-Sound g (c ∷ name) opt h)

  pub parse_groups-Sound :
      (g : Group) (names : List Bytes) (opt : Options libc)
      → R opt.numbers
      → Sound (parse_groups libc g names opt)
  unfolding parse_groups
  parse_groups-Sound g [] opt h = h
  parse_groups-Sound g (name ∷ names) opt h = elim (Option-cases (trim name)) [
    | inl e ↦ rw (e, parse_groups) tt
    | inr (s, e) ↦
        rw (e, parse_groups)
          (bind-Sound (add_group libc g s opt) _ (add_group-Sound g s opt h)
            (parse_groups-Sound g names))
  ]

  module _ (callback2str : ℕ → Bytes) where
    store_export-Sound :
        (queue : Bytes) (rc n : ℤ) (opt : Options libc)
        → R opt.numbers
        → Sound (store_export libc callback2str queue rc n opt)
    store_export-Sound queue rc (negsuc n) opt h = tt
    store_export-Sound queue rc (pos n) opt h =
        if_both Sound
          (ltb n nebtypessize && ltb (elem_number libc callback2str n opt.exports) listsize)
          (λ _. h) (λ _. tt)

    add_named-Sound :
        (queue : Bytes) (rc n : ℤ) (opt : Options libc)
        → R opt.numbers
        → Sound (add_named libc callback2str queue rc n opt)
    add_named-Sound queue rc (pos n) opt h = store_export-Sound queue rc (pos n) opt h
    add_named-Sound queue rc (negsuc n) opt h = h

    add_export-Sound :
        (queue : Bytes) (rc : ℤ) (callback trimmed : Bytes) (opt : Options libc)
        → R opt.numbers
        → Sound (add_export libc callback2str queue rc callback trimmed opt)
    add_export-Sound queue rc callback trimmed opt h =
        let name = cut_end libc callback2str callback trimmed in
        if_both Sound (has_N libc callback2str name)
          (λ _. add_named-Sound queue rc (callback_of libc callback2str nebtypessize name) opt h)
          (λ _. store_export-Sound queue rc (libc.atoi trimmed) opt h)

    add_exports-Sound :
        (queue : Bytes) (rc : ℤ) (callbacks : List Bytes) (opt : Options libc)
        → R opt.numbers
        → Sound (add_exports libc callback2str queue rc callbacks opt)
    unfolding add_exports
    add_exports-Sound queue rc [] opt h = h
    add_exports-Sound queue rc (callback ∷ callbacks) opt h = elim (Option-cases (trim callback)) [
      | inl e ↦ rw (e, add_exports) tt
      | inr (trimmed, e) ↦
          rw (e, add_exports)
            (bind-Sound (add_export libc callback2str queue rc callback trimmed opt) _
              (add_export-Sound queue rc callback trimmed opt h)
              (add_exports-Sound queue rc callbacks))
    ]

    export_to-Sound :
        (queue : Bytes) (rest : Option Bytes) (opt : Options libc)
        → R opt.numbers
        → Sound (export_to libc callback2str queue rest opt)
    export_to-Sound queue none opt h = tt
    export_to-Sound queue (some rest) opt h =
        if_both Sound (ltb 50 (length queue)) (λ _. h)
          (λ _.
            bind-Sound _ (count_export libc callback2str)
              (add_exports-Sound queue (libc.atoi (strsep b':' rest).0)
                (callbacks_of libc callback2str (strsep b':' rest).1) opt h)
              (λ opt h. h))

    pub parse_export-Sound :
        (v : Bytes) (opt : Options libc)
        → R opt.numbers
        → Sound (parse_export libc callback2str v opt)
    unfolding parse_export
    parse_export-Sound v opt h = elim (Option-cases (trim (strsep b':' v).0)) [
      | inl e ↦ rw (e, parse_export) tt
      | inr (queue, e) ↦ rw (e, parse_export) (export_to-Sound queue (strsep b':' v).1 opt h)
    ]

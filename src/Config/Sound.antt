-- ===== src/Config/Sound.antt =====
-- What a line and a file keep of the numbers of the options, and that the recursion ends:
-- `parse_args_line` and `read_config_file` of common/utils.c. `R` is any property of the numbers that
-- storing a limited number keeps.
use mod_gearman.Common.{
  ℕ, zero, suc, Bytes, codes, str_eq, Bool, true, false, ltb, ◌&&◌, ◌||◌, if_both, if◌then◌else◌,
  List, [], ◌∷◌, Option, none, some, Option-cases, length, ◌+◌, ◌<◌, inl, inr, arith,
}
use mod_gearman.Common.Int.{ℤ, pos, ltb_ℤ}
use mod_gearman.Text.{trim, lc}
use mod_gearman.Job.{strsep}
use mod_gearman.Config.{
  Number, Libc, Options, Parsed, ok, failed, fault, exhausted, put, find, latency_flatten_window,
  restrict_path, internal_check_dummy,
}
use mod_gearman.Config.Keys.{
  number_index, limited, switch_keys, number_keys, load_keys, text_keys, time_keys, server_keys,
  group_keys,
}
use mod_gearman.Config.Line.{
  pieces, skip_hyphens, ◌otherwise◌, set_number, is_return_code, parse_number, is_include,
  parse_value, parse_perfdata, parse_window, is_perl, with_value, parse_key, trim_value, with_parts,
  parse_args_line,
}
use mod_gearman.Config.Files.{
  Entry, Node, missing, closed_dir, dir, file, Files, is_wanted, path_of, cut_comment, is_comment,
  buffersize, next_entry, read_dir, moved, parse_line, read_file, read_node, read_config_file,
}
use mod_gearman.Config.Steps.{
  via-otherwise, when-otherwise, Sound, bind-Sound, push-Sound, set_daemon-numbers,
  set_perfdata-Sound, set_switch-numbers, parse_text-numbers, parse_logmode-numbers,
  parse_load-numbers, back, parse_servers-Sound, parse_groups-Sound, parse_export-Sound,
}

module _ (libc : Libc) (callback2str : ℕ → Bytes) (R : (Number → ℤ) → Type 0)
    (kept : (n : Number) (v : ℤ) (f : Number → ℤ)
      → R f
      → R (put number_index n (limited n v) f)) where
  parse_number-Sound :
      (n : Number) (v : Bytes) (opt : Options libc)
      → R opt.numbers
      → Sound libc R (parse_number libc n v opt)
  unfolding parse_number set_number
  parse_number-Sound n v opt h =
      if_both (Sound libc R)
        (is_return_code libc n && (ltb_ℤ (libc.atoi v) (pos 0) || ltb_ℤ (pos 3) (libc.atoi v)))
        (λ _. kept n (libc.atoi v) opt.numbers h) (λ _. kept n (libc.atoi v) opt.numbers h)

  module _ (include : Bytes → Options libc → Parsed (Options libc))
      (included : (v : Bytes) (opt : Options libc)
        → R opt.numbers
        → Sound libc R (include v opt)) where
    parse_value-Sound :
        (key v : Bytes) (opt : Options libc)
        → R opt.numbers
        → Sound libc R (parse_value libc callback2str include key v opt)
    unfolding parse_value
    parse_value-Sound key v opt h =
        via-otherwise (Sound libc R) (find key number_keys) _ _ (λ n. parse_number-Sound n v opt h)
          (when-otherwise (Sound libc R) (str_eq key (codes "logmode")) _ _
            (back libc R (parse_logmode-numbers libc R v opt) h)
            (via-otherwise (Sound libc R) (find key text_keys) _ _
              (λ t. back libc R (parse_text-numbers libc R t v opt) h)
              (via-otherwise (Sound libc R) (find key time_keys) _ _ (λ t. h)
                (when-otherwise (Sound libc R) (is_include libc callback2str include key) _ _
                  (included v opt h)
                  (via-otherwise (Sound libc R) (find key load_keys) _ _
                    (λ l. back libc R (parse_load-numbers libc R l v opt) h)
                    (via-otherwise (Sound libc R) (find key server_keys) _ _
                      (λ s. parse_servers-Sound libc R s (pieces b',' v) opt h)
                      (via-otherwise (Sound libc R) (find key group_keys) _ _
                        (λ g. parse_groups-Sound libc R g (pieces b',' v) opt h)
                        (when-otherwise (Sound libc R) (str_eq key (codes "export")) _ _
                          (parse_export-Sound libc R callback2str v opt h)
                          (when-otherwise (Sound libc R)
                            (str_eq key (codes "restrict_path")
                              || str_eq key (codes "restrictpath"))
                            _ _ (push-Sound libc R restrict_path v opt h)
                            (when-otherwise (Sound libc R)
                              (str_eq key (codes "internal_check_dummy")) _ _
                              (back libc R
                                (set_switch-numbers libc R internal_check_dummy (some v) opt) h)
                              h))))))))))

    parse_perfdata-Sound :
        (value : Option Bytes) (opt : Options libc) (a : Parsed (Options libc))
        → R opt.numbers
        → Sound libc R a
        → Sound libc R (parse_perfdata libc callback2str include value opt otherwise a)
    parse_perfdata-Sound none opt a h p = tt
    parse_perfdata-Sound (some []) opt a h p = p
    parse_perfdata-Sound (some (c ∷ v)) opt a h p = set_perfdata-Sound libc R (c ∷ v) opt h

    parse_window-Sound :
        (value : Option Bytes) (opt : Options libc)
        → R opt.numbers
        → Sound libc R (parse_window libc callback2str include value opt)
    unfolding set_number
    parse_window-Sound none opt h = tt
    parse_window-Sound (some v) opt h = kept latency_flatten_window (libc.atoi v) opt.numbers h

    with_value-Sound :
        (key : Bytes) (value : Option Bytes) (opt : Options libc)
        → R opt.numbers
        → Sound libc R (with_value libc callback2str include key value opt)
    with_value-Sound key none opt h = h
    with_value-Sound key (some v) opt h = parse_value-Sound key v opt h

    when_perfdata-Sound :
        (b : Bool) (value : Option Bytes) (opt : Options libc) (a : Parsed (Options libc))
        → R opt.numbers
        → Sound libc R a
        → Sound libc R
            ((if b then parse_perfdata libc callback2str include value opt else none) otherwise a)
    when_perfdata-Sound true value opt a h p = parse_perfdata-Sound value opt a h p
    when_perfdata-Sound false value opt a h p = p

    parse_key-Sound :
        (key : Bytes) (value : Option Bytes) (opt : Options libc)
        → R opt.numbers
        → Sound libc R (parse_key libc callback2str include key value opt)
    unfolding parse_key
    parse_key-Sound key value opt h =
        when-otherwise (Sound libc R) (str_eq key (codes "daemon") || str_eq key (codes "d")) _ _
          (back libc R (set_daemon-numbers libc R value opt) h)
          (when_perfdata-Sound (str_eq key (codes "perfdata")) value opt _ h (
            via-otherwise (Sound libc R) (find key switch_keys) _ _
              (λ s. back libc R (set_switch-numbers libc R s value opt) h)
              (when-otherwise (Sound libc R) (str_eq key (codes "latency_flatten_window")) _ _
                (parse_window-Sound value opt h)
                (when-otherwise (Sound libc R) (is_perl libc callback2str include key) _ _ h
                  (with_value-Sound key value opt h)))))

    parse_trimmed_key-Sound :
        (key : Bytes) (value : Option (Option Bytes)) (opt : Options libc)
        → R opt.numbers
        → Sound libc R (with_parts libc callback2str include key value opt)
    unfolding with_parts
    parse_trimmed_key-Sound key none opt h = tt
    parse_trimmed_key-Sound key (some value) opt h = parse_key-Sound (skip_hyphens key) value opt h

    pub parse_args_line-Sound :
        (arg : Bytes) (opt : Options libc)
        → R opt.numbers
        → Sound libc R (parse_args_line libc callback2str include arg opt)
    unfolding parse_args_line
    parse_args_line-Sound arg opt h = elim (Option-cases (trim (lc (strsep b'=' arg).0))) [
      | inl e ↦ rw (e, parse_args_line) tt
      | inr (key, e) ↦
          rw (e, parse_args_line)
            (parse_trimmed_key-Sound key (trim_value libc callback2str include (strsep b'=' arg).1)
              opt h)
    ]

    module _ (files : Files) where
      parse_line-Sound :
          (text : Bytes) (opt : Options libc)
          → R opt.numbers
          → Sound libc R (parse_line libc callback2str files include text opt)
      parse_line-Sound text opt h = elim (Option-cases (trim text)) [
        | inl e ↦ rw (Sound, parse_line, e) tt
        | inr ([], e) ↦ rw (Sound, parse_line, e) h
        | inr (c ∷ line, e) ↦ rw (Sound, parse_line, e) (parse_args_line-Sound (c ∷ line) opt h)
      ]

      read_file-Sound :
          (offset : ℕ) (lines : List Bytes) (opt : Options libc)
          → R opt.numbers
          → Sound libc R (read_file libc callback2str files include offset lines opt)
      unfolding read_file
      read_file-Sound offset [] opt h = h
      read_file-Sound offset (line ∷ lines) opt h =
          if_both (Sound libc R) (ltb buffersize (offset + suc (length line))) (λ _. tt)
            (λ _.
              if_both (Sound libc R) (is_comment line) (λ _. read_file-Sound offset lines opt h)
                (λ _. bind-Sound libc R _ _ (parse_line-Sound (cut_comment line) opt h) (
                  read_file-Sound
                    (offset + moved libc callback2str files include (cut_comment line)) lines)))

      next_entry-Sound :
          (m : Parsed (Options libc)) (errors : Bool)
          (next : Bool → Options libc → Parsed (Options libc))
          → Sound libc R m
          → ((errors : Bool) (opt : Options libc) → R opt.numbers → Sound libc R (next errors opt))
          → Sound libc R (next_entry libc callback2str files include m errors next)
      next_entry-Sound (ok opt) errors next h k = k errors opt h
      next_entry-Sound (failed opt) errors next h k = k true opt h
      next_entry-Sound fault errors next h k = tt
      next_entry-Sound exhausted errors next h k = h

      read_dir-Sound :
          (filename : Bytes) (entries : List Entry) (errors : Bool) (opt : Options libc)
          → R opt.numbers
          → Sound libc R (read_dir libc callback2str files include filename entries errors opt)
      unfolding read_dir
      read_dir-Sound filename [] true opt h = h
      read_dir-Sound filename [] false opt h = h
      read_dir-Sound filename (e ∷ entries) errors opt h =
          if_both (Sound libc R) (is_wanted e)
            (λ _.
              next_entry-Sound _ errors _ (included (path_of filename e) opt h)
                (read_dir-Sound filename entries))
            (λ _. read_dir-Sound filename entries errors opt h)

      read_node-Sound :
          (filename : Bytes) (node : Node) (opt : Options libc)
          → R opt.numbers
          → Sound libc R (read_node libc callback2str files include filename node opt)
      unfolding read_node
      read_node-Sound filename missing opt h = h
      read_node-Sound filename closed_dir opt h = h
      read_node-Sound filename (dir entries) opt h = read_dir-Sound filename entries false opt h
      read_node-Sound filename (file lines) opt h = read_file-Sound 0 lines opt h

  -- An include is read with one level more, and a level above 10 is refused.
  pub read_config_file-Sound :
      (files : Files) (n recursion_level : ℕ) (filename : Bytes) (opt : Options libc)
      → 11 < n + recursion_level
      → 0 < n
      → R opt.numbers
      → Sound libc R (read_config_file libc callback2str files n recursion_level filename opt)
  unfolding read_config_file
  read_config_file-Sound files zero level filename opt enough fuel h = absurd (omega (arith, fuel))
  read_config_file-Sound files (suc n) level filename opt enough fuel h =
      if_both (Sound libc R) (ltb 10 level) (λ _. h)
        (λ low.
          read_node-Sound (read_config_file libc callback2str files n (suc level))
            (λ v opt h.
              read_config_file-Sound files n (suc level) v opt (omega (arith, enough))
                (ground (arith, low, enough)) h)
            files filename (files.node filename) opt h)

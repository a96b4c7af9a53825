-- ===== src/Config/Files.antt =====
-- `read_config_file` and `read_keyfile` of common/utils.c. The file system is the argument `Files`.
use mod_gearman.Common.{
  ℕ, zero, suc, Bytes, codes, str_eq, Bool, true, false, not, ◌&&◌, ◌||◌, ◌==◌, ltb, if◌then◌else◌,
  List, [], ◌∷◌, ◌++◌, Option, none, some, length, take, ◌+◌, ◌-◌,
}
use mod_gearman.Text.{trim, ltrim, rtrim}
use mod_gearman.Config.{
  Libc, Options, Parsed, ok, failed, fault, exhausted, ◌>>=◌, crypt_key, keyfile,
}
use mod_gearman.Config.Line.{set_text, parse_args_line}

-- `GM_BUFFERSIZE`
abbrev pub buffersize : ℕ
buffersize = 65536

-- What `readdir` gives, with `d_type == DT_DIR`.
pub record Entry : Type 0 where
  pub d_name : Bytes
  pub is_dir : Bool

-- A file is the list of what `fgets` reads from it.
pub data Node : Type 0 where
  missing closed_dir : Node
  dir : List Entry → Node
  file : List Bytes → Node

pub record Files : Type 0 where
  pub node : Bytes → Node
  -- what `fgets` reads of at most 32 bytes, if the file opens
  pub key_line : Bytes → Option (Option Bytes)

-- `strrchr(s, '.')`
abbrev pub strrchr_dot : Bytes → Option Bytes
strrchr_dot [] = none
strrchr_dot (c ∷ s) = elim (strrchr_dot s) [
  | some t ↦ some t
  | none ↦ if c == b'.' then some (c ∷ s) else none
]

abbrev pub is_config : Option Bytes → Bool
is_config none = false
is_config (some dot) = str_eq dot (codes ".cfg") || str_eq dot (codes ".conf")

abbrev pub is_wanted : Entry → Bool
is_wanted e =
    not (str_eq e.d_name (codes ".") || str_eq e.d_name (codes ".."))
    && (e.is_dir || is_config (strrchr_dot e.d_name))

abbrev pub path_of : Bytes → Entry → Bytes
path_of filename e = take 4095 (filename ++ (codes "/" ++ e.d_name))

-- The text before a `#`.
abbrev pub cut_comment : Bytes → Bytes
cut_comment [] = []
cut_comment (c ∷ line) = let rest = cut_comment line in if c == b'#' then [] else c ∷ rest

abbrev pub is_comment : Bytes → Bool
is_comment [] = false
is_comment (c ∷ line) = c == b'#'

module _ (libc : Libc) (callback2str : ℕ → Bytes) (files : Files) where
  module _ (include : Bytes → Options libc → Parsed (Options libc)) where
    -- The result is `GM_ERROR` if one of the files gives it; the others are read all the same.
    abbrev pub end_dir : Bool → Options libc → Parsed (Options libc)
    end_dir true opt = failed opt
    end_dir false opt = ok opt

    abbrev pub next_entry :
        Parsed (Options libc)
        → Bool
        → (Bool → Options libc → Parsed (Options libc))
        → Parsed (Options libc)
    next_entry (ok opt) errors next = next errors opt
    next_entry (failed opt) errors next = next true opt
    next_entry fault errors next = fault
    next_entry exhausted errors next = exhausted

    unfoldable pub read_dir : Bytes → List Entry → Bool → Options libc → Parsed (Options libc)
    read_dir filename [] errors opt = end_dir errors opt
    read_dir filename (e ∷ entries) errors opt =
        if is_wanted e
        then next_entry (include (path_of filename e) opt) errors (read_dir filename entries)
        else read_dir filename entries errors opt

    abbrev pub parse_trimmed : Bytes → Options libc → Parsed (Options libc)
    parse_trimmed [] opt = ok opt
    parse_trimmed (c ∷ line) opt = parse_args_line libc callback2str include (c ∷ line) opt

    -- How far `line = trim(line)` moves the pointer, which is not put back.
    abbrev pub moved : Bytes → ℕ
    moved text = length text - length (ltrim text)

    abbrev pub parse_line : Bytes → Options libc → Parsed (Options libc)
    parse_line text opt = elim (trim text) [ none ↦ fault | some line ↦ parse_trimmed line opt ]

    -- `offset` is `line - line_c`; `fgets` writes the line and its NUL from there on.
    unfoldable pub read_file : ℕ → List Bytes → Options libc → Parsed (Options libc)
    read_file offset [] opt = ok opt
    read_file offset (line ∷ lines) opt =
        if ltb buffersize (offset + suc (length line))
        then fault
        else if is_comment line
        then read_file offset lines opt
        else parse_line (cut_comment line) opt
          >>= read_file (offset + moved (cut_comment line)) lines

    unfoldable pub read_node : Bytes → Node → Options libc → Parsed (Options libc)
    unfolding read_dir read_file
    read_node filename missing opt = failed opt
    read_node filename closed_dir opt = failed opt
    read_node filename (dir entries) opt = read_dir filename entries false opt
    read_node filename (file lines) opt = read_file 0 lines opt

  -- `recursion_level` is counted by the code; the first argument is fuel of the model.
  unfoldable pub read_config_file : ℕ → ℕ → Bytes → Options libc → Parsed (Options libc)
  read_config_file zero recursion_level filename opt = exhausted
  read_config_file (suc n) recursion_level filename opt =
      if ltb 10 recursion_level
      then failed opt
      else read_node (read_config_file n (suc recursion_level)) filename (files.node filename) opt

  -- `memory` is what `gm_malloc` leaves in the key if nothing is read.
  abbrev pub store_key : Bytes → Option Bytes → Options libc → Parsed (Options libc)
  store_key memory none opt = failed (set_text libc crypt_key memory opt)
  store_key memory (some line) opt = elim (rtrim line) [
    | none ↦ fault
    | some key ↦ ok (set_text libc crypt_key key opt)
  ]

  abbrev pub open_key : Bytes → Option (Option Bytes) → Options libc → Parsed (Options libc)
  open_key memory none opt = failed opt
  open_key memory (some line) opt = store_key memory line opt

  unfoldable pub read_keyfile : Bytes → Options libc → Parsed (Options libc)
  read_keyfile memory opt = elim (opt.texts keyfile) [
    | none ↦ failed opt
    | some name ↦ open_key memory (files.key_line name) opt
  ]

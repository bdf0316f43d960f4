-- ===== src/Workspace.antt =====
-- The workspace that the tools work in: squad_runtime/security/paths.py, the path patterns that
-- squad_runtime/tool_adapter.py matches with pathlib and fnmatch, and what the operating system does.
use Prim.Native.Char.{code}
use Prim.Native.String.{◌++◌ as cat, len, slice}
use mathlib.Core.Option
use squad_team.Prelude.{
  ℕ, ◌-◌, String, Bool, true, false, ◌&&◌, ◌||◌, not, Option, none, some, List, [], ◌∷◌, ◌==◌, any,
  contains, leb, nat_eq, starts_with, if◌then◌else◌,
}
use squad_team.Json.{Json}
use squad_team.World.{World, Error}

abbrev pub Files : Type 0
Files = List (String × String)

-- How a registered command ends, with the files that it leaves.
pub data Completed : Type 0 where
  finished : (returncode : ℕ) (stdout stderr : String) (files : Files) → Completed
  timed_out : (files : Files) → Completed
  not_started : Completed

-- What the operating system and Python's library do: the workspace root, a path resolved against it
-- (`none` outside the root) by following links, which of the files a glob reaches, whether a file can
-- be created at a path, a command that is run in the root, the wall clock in milliseconds, the case
-- maps of Unicode, and the texts of exceptions and of `json.dumps`.
pub record Host : Type 0 where
  pub root : String
  pub resolve : String → Option String
  pub glob : String → String → Bool
  pub can_write : Files → String → Bool
  pub subprocess : List String → Files → Completed
  pub time : ℕ → ℕ
  pub upper : String → String
  pub lower : String → String
  pub error_text : Error → String
  pub dumps : Json → String

push_first : String → List String → List String
push_first c [] = c ∷ []
push_first c (part ∷ parts) = cat c part ∷ parts

split_path : String → List String
unfolding push_first
split_path String.[] = "" ∷ []
split_path (String.◌∷◌ c s) =
    let rest = split_path s in
    if nat_eq (code c) 47 then "" ∷ rest else push_first (String.◌∷◌ c "") rest

-- `Path(path).parts` of a relative path in its normal form.
unfoldable pub parts : String → List String
unfolding split_path
parts path = if path == "." then [] else split_path path

unfoldable pub ends_with : String → String → Bool
ends_with s t = leb (len t) (len s) && slice s (len s - len t) (len s) == t

-- `*` takes any number of characters; `k` is what the rest of the pattern matches.
star : (String → Bool) → String → Bool
star k String.[] = k ""
star k (String.◌∷◌ c s) = k (String.◌∷◌ c s) || star k s

one : (String → Bool) → String → Bool
one k String.[] = false
one k (String.◌∷◌ c s) = k s

exactly : ℕ → (String → Bool) → String → Bool
exactly p k String.[] = false
exactly p k (String.◌∷◌ c s) = nat_eq p (code c) && k s

-- `fnmatch.fnmatch` on a case-sensitive system, for patterns without brackets.
unfoldable pub fnmatch : String → String → Bool
unfolding star one exactly
fnmatch String.[] s = s == ""
fnmatch (String.◌∷◌ p pattern') s =
    if nat_eq (code p) 42
    then star (fnmatch pattern') s
    else if nat_eq (code p) 63
    then one (fnmatch pattern') s
    else exactly (code p) (fnmatch pattern') s

reverse_onto : List String → List String → List String
reverse_onto done [] = done
reverse_onto done (x ∷ xs) = reverse_onto (x ∷ done) xs

match_parts : List String → List String → Bool
unfolding fnmatch
match_parts [] names = true
match_parts (p ∷ ps) [] = false
match_parts (p ∷ ps) (name ∷ names) = fnmatch p name && match_parts ps names

-- `Path(path).match(pattern)` for a relative pattern: component by component, from the right.
unfoldable pub path_match : String → String → Bool
unfolding parts reverse_onto match_parts
path_match pattern' path =
    match_parts (reverse_onto [] (parts pattern')) (reverse_onto [] (parts path))

unfoldable pub matches : String → String → Bool
unfolding path_match fnmatch
matches path pattern' = path_match pattern' path || fnmatch pattern' path

abbrev pub windows_reserved : List String
windows_reserved =
    "CON" ∷ "PRN" ∷ "AUX" ∷ "NUL" ∷ "COM1" ∷ "COM2" ∷ "COM3" ∷ "COM4" ∷ "COM5" ∷ "COM6" ∷ "COM7"
    ∷ "COM8" ∷ "COM9" ∷ "LPT1" ∷ "LPT2" ∷ "LPT3" ∷ "LPT4" ∷ "LPT5" ∷ "LPT6" ∷ "LPT7" ∷ "LPT8"
    ∷ "LPT9" ∷ []

-- `_UNC_PREFIX_RE`: two backslashes and a third character other than `?` and a backslash.
unfoldable pub is_unc : String → Bool
is_unc (String.◌∷◌ a (String.◌∷◌ b (String.◌∷◌ c rest))) =
    nat_eq (code a) 92 && nat_eq (code b) 92 && not (nat_eq (code c) 63) && not (nat_eq (code c) 92)
is_unc _ = false

-- The path relative to the root, `none` for UnsafePathError. A path that is fully resolved is not
-- itself a link any more, so the last check of the source never fails.
unfoldable pub validate_path_within_root : Host → String → Option String
unfolding is_unc parts
validate_path_within_root host path =
    if is_unc path
    then none
    else if any (λ part. contains windows_reserved (host.upper part)) (parts path)
    then none
    else host.resolve path

-- The universal newlines of a text-mode read: a carriage return, and the line feed that follows it if
-- there is one, are read as one line feed.
unfoldable pub universal_newlines : String → String
universal_newlines String.[] = ""
universal_newlines (String.◌∷◌ c s) =
    let rest = universal_newlines s in
    if nat_eq (code c) 13
    then if starts_with s "\n" then rest else cat "\n" rest
    else String.◌∷◌ c rest

-- What a file holds.
unfoldable pub content_of : String → Files → Option String
content_of path [] = none
content_of path ((name, content) ∷ files) =
    if name == path then some content else content_of path files

-- `read_text`, and a file written or replaced. A text-mode write translates no character where lines
-- end in a line feed, as on POSIX systems.
unfoldable pub read_text : String → Files → Option String
unfolding universal_newlines content_of
read_text path files = Option.map universal_newlines (content_of path files)

unfoldable pub write_text : String → String → Files → Files
write_text path content [] = (path, content) ∷ []
write_text path content ((name, old) ∷ files) =
    if name == path then (name, content) ∷ files else (name, old) ∷ write_text path content files

abbrev pub with_files : Files → World → World
with_files files w = record w { files = files }

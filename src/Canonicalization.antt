-- ===== src/Canonicalization.antt =====
-- squad_runtime/canonicalization.py: canonical payloads and the hashes of the event chain.
use Prim.Native.Char.{Char, code}
use Prim.Native.String.{◌++◌ as cat}
use squad_team.Prelude.{
  ℕ, String, Bool, true, false, ◌&&◌, ◌||◌, List, [], ◌∷◌, ◌==◌, leb, nat_eq, if◌then◌else◌,
}
use squad_team.Json.{
  Json, null, bool, num, str, arr, obj, Items, nil, cons, Fields, end, field, set_field, sort_keys,
  decimal,
}

-- The bytes that are hashed: a compact JSON text with sorted keys, or the UTF-8 of a text.
pub data Document : Type 0 where
  json : Json → Document
  utf8 : String → Document

-- What the program takes from outside: the n-th uuid, the n-th reading of the wall clock, SHA-256
-- as a hexadecimal digest, Unicode's normal form C, whether a path that an agent names, resolved by
-- the file system, lies in the artifacts directory, and the text that `str` gives for a list or a
-- dictionary.
pub record Env : Type 0 where
  pub uuid : ℕ → String
  pub uuid_hex : ℕ → String
  pub now : ℕ → String
  pub sha256 : Document → String
  pub nfc : String → String
  pub inside_artifacts : String → Bool
  pub repr : Json → String

abbrev pub genesis_hash : String
genesis_hash = "sha256-e3b0c44298fc1c149afbf4c8996fb92427ae41e4649b934ca495991b7852b855"

-- The characters that `str.rstrip` removes.
is_space : Char → Bool
is_space ch =
    let c = code ch in
    leb 9 c && leb c 13
    || leb 28 c && leb c 32
    || nat_eq c 133
    || nat_eq c 160
    || nat_eq c 5760
    || leb 8192 c && leb c 8202
    || nat_eq c 8232
    || nat_eq c 8233
    || nat_eq c 8239
    || nat_eq c 8287
    || nat_eq c 12288

rstrip : String → String
unfolding is_space
rstrip String.[] = String.[]
rstrip (String.◌∷◌ c s) =
    let rest = rstrip s in if is_space c && rest == "" then "" else String.◌∷◌ c rest

push_char : Char → List String → List String
push_char c [] = String.◌∷◌ c "" ∷ []
push_char c (line ∷ lines) = String.◌∷◌ c line ∷ lines

-- `value.split("\n")`.
split_lines : String → List String
unfolding push_char
split_lines String.[] = "" ∷ []
split_lines (String.◌∷◌ c s) =
    let rest = split_lines s in if nat_eq (code c) 10 then "" ∷ rest else push_char c rest

-- `"\n".join(…)` over the stripped lines.
join_stripped : List String → String
unfolding rstrip
join_stripped [] = ""
join_stripped (line ∷ []) = rstrip line
join_stripped (line ∷ lines) = cat (rstrip line) (cat "\n" (join_stripped lines))

module _ (env : Env) where
  unfoldable pub normalize_text : String → String
  unfolding split_lines join_stripped
  normalize_text value = join_stripped (split_lines (env.nfc value))

  unfoldable mutual
    unfolding normalize_text set_field

    pub normalize_value : Json → Json
    normalize_value null = null
    normalize_value (bool b) = bool b
    normalize_value (num n) = num n
    normalize_value (str s) = str (normalize_text s)
    normalize_value (arr xs) = arr (normalize_items xs)
    normalize_value (obj d) = obj (normalize_fields end d)

    pub normalize_items : Items → Items
    normalize_items nil = nil
    normalize_items (cons x xs) = cons (normalize_value x) (normalize_items xs)

    -- The loop of `_normalize_payload`, with `result` as it stands.
    pub normalize_fields : Fields → Fields → Fields
    normalize_fields result end = result
    normalize_fields result (field k v d) =
        normalize_fields (set_field (normalize_text k) (normalize_value v) result) d

  unfoldable pub canonical_json : Fields → Document
  unfolding normalize_value sort_keys
  canonical_json payload = json (sort_keys (normalize_value (obj payload)))

  unfoldable pub sha256_hex : Document → String
  sha256_hex data' = cat "sha256-" (env.sha256 data')

  -- The pair (eventPayloadHash, eventHash).
  unfoldable pub compute_event_hash : String → Fields → String × String
  unfolding sha256_hex canonical_json
  compute_event_hash previous payload =
      let payload_hash = sha256_hex (canonical_json payload) in
      (payload_hash, sha256_hex (utf8 (cat previous payload_hash)))

  unfoldable pub verify_event_hash : String → Fields → String → String → Bool
  unfolding compute_event_hash
  verify_event_hash previous payload expected_payload_hash expected_event_hash =
      let (payload_hash, event_hash) = compute_event_hash previous payload in
      payload_hash == expected_payload_hash && event_hash == expected_event_hash

  -- `str(value)`.
  unfoldable pub py_str : Json → String
  unfolding decimal
  py_str null = "None"
  py_str (bool true) = "True"
  py_str (bool false) = "False"
  py_str (num n) = decimal n
  py_str (str s) = s
  py_str (arr xs) = env.repr (arr xs)
  py_str (obj d) = env.repr (obj d)

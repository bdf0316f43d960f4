-- ===== src/Json.antt =====
-- JSON values as Python's json module and the event payloads have them. A text column that holds
-- `json.dumps(v, sort_keys=True)` is modelled by the value with its keys sorted.
pub mod Lookup
use Prim.Native.Nat.{Ordering, ◌/◌, ◌%◌}
use Prim.Native.String.{compare, ◌++◌ as cat}
use squad_team.Prelude.{
  ℕ, zero, suc, nat_eq, true, false, not, String, Bool, Option, none, some, List, [], ◌∷◌, ◌==◌,
  if◌then◌else◌,
}

mutual
  pub data Json : Type 0 where
    null : Json
    bool : Bool → Json
    num : ℕ → Json
    str : String → Json
    arr : Items → Json
    obj : Fields → Json

  pub data Items : Type 0 where
    nil : Items
    cons : Json → Items → Items

  -- A dictionary, in insertion order.
  pub data Fields : Type 0 where
    end : Fields
    field : String → Json → Fields → Fields

unfoldable pub opt_str : Option String → Json
opt_str none = null
opt_str (some s) = str s

abbrev pub strings : List String → Items
strings [] = nil
strings (s ∷ ss) = cons (str s) (strings ss)

-- `d.get(k)`.
abbrev pub get : Fields → String → Option Json
get end k = none
get (field j v d) k = if j == k then some v else get d k

-- `d[k] = v`: an old key keeps its place.
unfoldable pub set_field : String → Json → Fields → Fields
set_field k v end = field k v end
set_field k v (field j w d) = if j == k then field j v d else field j w (set_field k v d)

-- Inserts before the first key that is not smaller, so that sorting is stable.
unfoldable pub insert_sorted : String → Json → Fields → Fields
insert_sorted k v end = field k v end
insert_sorted k v (field j w d) = elim (compare j k) [
  | Ordering.lt ↦ field j w (insert_sorted k v d)
  | _ ↦ field k v (field j w d)
]

unfoldable mutual
  unfolding insert_sorted

  -- The value that `json.dumps(…, sort_keys=True)` writes.
  pub sort_keys : Json → Json
  sort_keys null = null
  sort_keys (bool b) = bool b
  sort_keys (num n) = num n
  sort_keys (str s) = str s
  sort_keys (arr xs) = arr (sort_items xs)
  sort_keys (obj d) = obj (sort_fields d)

  pub sort_items : Items → Items
  sort_items nil = nil
  sort_items (cons x xs) = cons (sort_keys x) (sort_items xs)

  pub sort_fields : Fields → Fields
  sort_fields end = end
  sort_fields (field k v d) = insert_sorted k (sort_keys v) (sort_fields d)

-- What a JSON text column gives back for a dictionary that was written to it.
unfoldable pub stored : Fields → Fields
unfolding sort_keys
stored d = sort_fields d

-- `d.get(key) == text`.
unfoldable pub is_str : Option Json → String → Bool
is_str (some (str s)) t = s == t
is_str _ t = false

unfoldable pub field_is : String → String → Fields → Bool
unfolding is_str
field_is key t d = is_str (get d key) t

-- `d.get(key) is False`.
is_false : Option Json → Bool
is_false (some (bool false)) = true
is_false _ = false

unfoldable pub field_false : String → Fields → Bool
unfolding is_false
field_false key d = is_false (get d key)

-- Whether Python has no hash of the value: a list or a dictionary, which can be looked up in no set.
abbrev pub is_unhashable : Option Json → Bool
is_unhashable (some (arr xs)) = true
is_unhashable (some (obj d)) = true
is_unhashable _ = false

-- The truth value of `d.get(key)`.
unfoldable pub truthy : Option Json → Bool
truthy none = false
truthy (some null) = false
truthy (some (bool b)) = b
truthy (some (num n)) = not (nat_eq n 0)
truthy (some (str s)) = not (s == "")
truthy (some (arr nil)) = false
truthy (some (arr xs)) = true
truthy (some (obj end)) = false
truthy (some (obj d)) = true

unfoldable pub field_truthy : String → Fields → Bool
unfolding truthy
field_truthy key d = truthy (get d key)

digit : ℕ → String
digit n =
    if nat_eq n 0
    then "0"
    else if nat_eq n 1
    then "1"
    else if nat_eq n 2
    then "2"
    else if nat_eq n 3
    then "3"
    else if nat_eq n 4
    then "4"
    else if nat_eq n 5
    then "5"
    else if nat_eq n 6
    then "6"
    else if nat_eq n 7
    then "7"
    else if nat_eq n 8
    then "8"
    else "9"

-- The decimal digits of a number, in at most as many rounds as the fuel says.
digits : ℕ → ℕ → String → String
unfolding digit
digits zero n rest = rest
digits (suc fuel) n rest =
    let now = cat (digit (n % 10)) rest in
    let more = digits fuel (n / 10) now in if nat_eq (n / 10) 0 then now else more

-- `str(n)`. A number has fewer digits than its successor counts.
unfoldable pub decimal : ℕ → String
unfolding digits
decimal n = digits (suc n) n ""

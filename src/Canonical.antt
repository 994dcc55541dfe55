-- ===== src/Canonical.antt =====
-- src/deductra/domain/serialization.py: canonical JSON and its digest.
-- `unicodedata.normalize("NFC", _)` and the SHA-256 digest of a text are parameters. JSON values
-- hold no floats, and fractions are given as the text that the code renders them to.
use Prim.Native.Nat.{◌/◌, ◌%◌}
use Prim.Native.Char.{code}
use deductra.Common.{
  ℕ, zero, suc, String, ◌<>◌, Bool, true, false, ◌||◌, Option, none, some, List, [], ◌∷◌, map, ltb,
  eqb, if◌then◌else◌, ◌==◌, string_eq, pair_eq, nat_eq, bool_eq, text_le,
}
use deductra.Common.Int.{ℤ, pos, negsuc}

mutual
  pub data Json : Type 0 where
    null : Json
    boolean : Bool → Json
    integer : ℤ → Json
    text : String → Json
    array : Items → Json
    object : Fields → Json

  pub data Items : Type 0 where
    nil : Items
    item : Json → Items → Items

  pub data Fields : Type 0 where
    end : Fields
    field : String → Json → Fields → Fields

pub record Platform : Type 0 where
  -- `unicodedata.normalize("NFC", s)`
  pub nfc : String → String
  -- `hashlib.sha256(s.encode("utf-8")).hexdigest()`
  pub sha256 : String → String
  -- `s.casefold()`
  pub casefold : String → String

abbrev pub items_of : List Json → Items
items_of [] = nil
items_of (x ∷ r) = item x (items_of r)

abbrev pub array_of : List Json → Json
array_of xs = array (items_of xs)

abbrev pub fields_of : List (String × Json) → Fields
fields_of [] = end
fields_of ((k, v) ∷ r) = field k v (fields_of r)

abbrev pub object_of : List (String × Json) → Json
object_of fs = object (fields_of fs)

abbrev pub texts : List String → Json
texts ss = array_of (map text ss)

abbrev pub number : ℕ → Json
number n = integer (pos n)

abbrev pub optional : Option String → Json
optional none = null
optional (some s) = text s

has_field : String → Fields → Bool
has_field k end = false
has_field k (field j v fs) = j == k || has_field k fs

-- A dict comprehension: of two equal keys the later value stays.
keep_last : String → Json → Fields → Fields
unfolding has_field
keep_last k v fs = if has_field k fs then fs else field k v fs

module _ (P : Platform) where
  unfoldable mutual
    unfolding keep_last

    -- `_canonical_value`
    pub canonical_value : Json → Json
    canonical_value null = null
    canonical_value (boolean b) = boolean b
    canonical_value (integer n) = integer n
    canonical_value (text s) = text (P.nfc s)
    canonical_value (array xs) = array (canonical_items xs)
    canonical_value (object fs) = object (canonical_fields fs)

    pub canonical_items : Items → Items
    canonical_items nil = nil
    canonical_items (item x xs) = item (canonical_value x) (canonical_items xs)

    pub canonical_fields : Fields → Fields
    canonical_fields end = end
    canonical_fields (field k v fs) = keep_last (P.nfc k) (canonical_value v) (canonical_fields fs)

place_field : String → Json → Fields → Fields
place_field k v end = field k v end
place_field k v (field j w fs) =
    if text_le k j then field k v (field j w fs) else field j w (place_field k v fs)

-- `sort_keys=True`
unfoldable mutual
  unfolding place_field

  pub sort_keys : Json → Json
  sort_keys null = null
  sort_keys (boolean b) = boolean b
  sort_keys (integer n) = integer n
  sort_keys (text s) = text s
  sort_keys (array xs) = array (sort_keys_items xs)
  sort_keys (object fs) = object (sort_keys_fields fs)

  pub sort_keys_items : Items → Items
  sort_keys_items nil = nil
  sort_keys_items (item x xs) = item (sort_keys x) (sort_keys_items xs)

  pub sort_keys_fields : Fields → Fields
  sort_keys_fields end = end
  sort_keys_fields (field k v fs) = place_field k (sort_keys v) (sort_keys_fields fs)

digit : ℕ → String
digit zero = "0"
digit (suc zero) = "1"
digit (suc (suc zero)) = "2"
digit (suc (suc (suc zero))) = "3"
digit (suc (suc (suc (suc zero)))) = "4"
digit (suc (suc (suc (suc (suc zero))))) = "5"
digit (suc (suc (suc (suc (suc (suc zero)))))) = "6"
digit (suc (suc (suc (suc (suc (suc (suc zero))))))) = "7"
digit (suc (suc (suc (suc (suc (suc (suc (suc zero)))))))) = "8"
digit (suc (suc (suc (suc (suc (suc (suc (suc (suc zero))))))))) = "9"
digit n =
    if eqb n 10
    then "a"
    else if eqb n 11
    then "b"
    else if eqb n 12
    then "c"
    else if eqb n 13
    then "d"
    else if eqb n 14
    then "e"
    else "f"

-- The fuel `n` is enough, since a number has at most as many decimal digits as its value, or one.
decimal : ℕ → ℕ → String
decimal zero n = digit n
decimal (suc fuel) n =
    let rest = decimal fuel (n / 10) in if ltb n 10 then digit n else rest <> digit (n % 10)

-- The characters that `json.dumps(_, ensure_ascii=False)` escapes.
escape_char : ℕ → String → String
escape_char c s =
    if eqb c 34
    then "\\\""
    else if eqb c 92
    then "\\\\"
    else if eqb c 10
    then "\\n"
    else if eqb c 13
    then "\\r"
    else if eqb c 9
    then "\\t"
    else if eqb c 8
    then "\\b"
    else if eqb c 12
    then "\\f"
    else if ltb c 32
    then "\\u00" <> digit (c / 16) <> digit (c % 16)
    else s

escape : String → String
escape String.[] = String.[]
escape (String.◌∷◌ c s) = escape_char (code c) (String.◌∷◌ c String.[]) <> escape s

quote : String → String
quote s = "\"" <> (escape s <> "\"")

-- `str(n)`
unfoldable pub show_number : ℕ → String
unfolding decimal digit
show_number n = decimal n n

write_integer : ℤ → String
write_integer (pos n) = decimal n n
write_integer (negsuc n) = "-" <> decimal (suc n) (suc n)

-- `json.dumps(_, separators=(",", ":"))` of a value whose keys are sorted
unfoldable mutual
  unfolding digit decimal escape_char escape quote write_integer

  pub write : Json → String
  write null = "null"
  write (boolean true) = "true"
  write (boolean false) = "false"
  write (integer n) = write_integer n
  write (text s) = quote s
  write (array nil) = "[]"
  write (array (item x xs)) = "[" <> (write x <> write_items xs)
  write (object end) = "{}"
  write (object (field k v fs)) = "{" <> (quote k <> (":" <> (write v <> write_fields fs)))

  pub write_items : Items → String
  write_items nil = "]"
  write_items (item x xs) = "," <> (write x <> write_items xs)

  pub write_fields : Fields → String
  write_fields end = "}"
  write_fields (field k v fs) = "," <> (quote k <> (":" <> (write v <> write_fields fs)))

module _ (P : Platform) where
  unfoldable pub canonical_json : Json → String
  unfolding canonical_value canonical_items canonical_fields sort_keys sort_keys_items
      sort_keys_fields write write_items write_fields
  canonical_json j = write (sort_keys (canonical_value P j))

  unfoldable pub canonical_sha256 : Json → String
  canonical_sha256 j = P.sha256 (canonical_json j)

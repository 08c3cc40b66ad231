-- ===== src/Marker.antt =====
-- marker/marker.go: the extended attributes that mark a file as a stub.
pub mod Hex
pub mod RoundTrip
use mediastub.Prelude.{
  ℕ, ◌+◌, ◌-◌, ◌*◌, ◌%◌, ◌^◌, ◌==◌, ltb, leb, Bool, true, false, not, ◌&&◌, ◌||◌, Option, none,
  some, List, [], ◌∷◌, ◌++◌, length, if◌then◌else◌,
}
use mediastub.Prelude.Int.{ℤ, pos, negsuc}
use mediastub.Prelude.Decimal.{decimal_ℤ}
use mediastub.Prelude.Maps.{Map, lookup, insert, same}
use mediastub.Core.Base.{Bytes}
use mediastub.Syncer.Base.{Marker, MarkerStatus, no_marker, valid_marker, invalid_marker, hex}

-- Errors: the three checks of `Set`, that of `Inspect`, and those of the system, by number.
pub data Failure : Type 0 where
  negative_remote_size unsupported_format empty_url negative_file_size : Failure
  refused : ℕ → Failure

pub data Result (A : Type 0) : Type 0 where
  ok : A → Result A
  err : Failure → Result A

-- The names of the attributes; the prefix is "user.mediastub.".
abbrev prefix : Bytes
prefix =
    b'u' ∷ b's' ∷ b'e' ∷ b'r' ∷ b'.' ∷ b'm' ∷ b'e' ∷ b'd' ∷ b'i' ∷ b'a' ∷ b's' ∷ b't' ∷ b'u' ∷ b'b'
    ∷ b'.' ∷ []

abbrev pub format_xattr : Bytes
format_xattr = prefix ++ (b'f' ∷ b'o' ∷ b'r' ∷ b'm' ∷ b'a' ∷ b't' ∷ [])

abbrev pub remote_size_xattr : Bytes
remote_size_xattr =
    prefix ++ (b'r' ∷ b'e' ∷ b'm' ∷ b'o' ∷ b't' ∷ b'e' ∷ b'_' ∷ b's' ∷ b'i' ∷ b'z' ∷ b'e' ∷ [])

abbrev pub etag_hash_xattr : Bytes
etag_hash_xattr = prefix ++ (b'e' ∷ b't' ∷ b'a' ∷ b'g' ∷ b'_' ∷ b'h' ∷ b'a' ∷ b's' ∷ b'h' ∷ [])

abbrev pub plan_hash_xattr : Bytes
plan_hash_xattr = prefix ++ (b'p' ∷ b'l' ∷ b'a' ∷ b'n' ∷ b'_' ∷ b'h' ∷ b'a' ∷ b's' ∷ b'h' ∷ [])

abbrev pub webdav_url_xattr : Bytes
webdav_url_xattr =
    prefix ++ (b'w' ∷ b'e' ∷ b'b' ∷ b'd' ∷ b'a' ∷ b'v' ∷ b'_' ∷ b'u' ∷ b'r' ∷ b'l' ∷ [])

-- `core.FormatMatroska` and `core.FormatMP4`
abbrev pub matroska_word : Bytes
matroska_word = b'm' ∷ b'a' ∷ b't' ∷ b'r' ∷ b'o' ∷ b's' ∷ b'k' ∷ b'a' ∷ []

abbrev pub mp4_word : Bytes
mp4_word = b'm' ∷ b'p' ∷ b'4' ∷ []

-- `validFormat`
unfoldable pub valid_format : Bytes → Bool
valid_format format = same format matroska_word || same format mp4_word

-- `Setxattr` for each field in turn, up to the first that the system refuses.
unfoldable pub set_fields :
    (Bytes → Option Failure) → List (Bytes × Bytes) → Map Bytes → Option Failure × Map Bytes
set_fields refuses [] attrs = (none, attrs)
set_fields refuses ((name, value) ∷ fields) attrs = elim (refuses name) [
  | some e ↦ (some e, attrs)
  | none ↦ set_fields refuses fields (insert name value attrs)
]

abbrev pub is_negative : ℤ → Bool
is_negative (pos n) = false
is_negative (negsuc n) = true

module _ (digest : Bytes → Bytes) where
  -- The fields, in the order in which they are written.
  abbrev pub fields_of : Bytes → ℤ → Bytes → Bytes → Bytes → List (Bytes × Bytes)
  fields_of format remote_size etag plan_hash url =
      (format_xattr, format)
      ∷ (remote_size_xattr, decimal_ℤ remote_size)
      ∷ (etag_hash_xattr, hex (digest etag))
      ∷ (plan_hash_xattr, hex plan_hash)
      ∷ (webdav_url_xattr, url)
      ∷ []

  -- `Set`: an error, and the attributes of the file after it.
  unfoldable pub set_marker :
      (Bytes → Option Failure)
      → Bytes
      → ℤ
      → Bytes
      → Bytes
      → Bytes
      → Map Bytes
      → Option Failure × Map Bytes
  unfolding set_fields
  set_marker refuses format remote_size etag plan_hash url attrs =
      if is_negative remote_size
      then (some negative_remote_size, attrs)
      else if not (valid_format format)
      then (some unsupported_format, attrs)
      else if same url []
      then (some empty_url, attrs)
      else set_fields refuses (fields_of format remote_size etag plan_hash url) attrs

-- What `readXattr` answers for a name: the value, if the attribute is there.
abbrev pub Reader : Type 0
Reader = Bytes → Result (Option Bytes)

-- `values[name] = value`, if it was found
abbrev found_value : Bytes → Option Bytes → Map Bytes → Map Bytes
found_value name none values = values
found_value name (some value) values = (name, value) ∷ values

abbrev and_value : Bytes → Option Bytes → Result (Map Bytes) → Result (Map Bytes)
and_value name value (ok values) = ok (found_value name value values)
and_value name value (err e) = err e

abbrev read_name : Bytes → Result (Option Bytes) → Result (Map Bytes) → Result (Map Bytes)
read_name name (err e) rest = err e
read_name name (ok value) rest = and_value name value rest

-- The loop of `Inspect` over the names, up to the first error.
unfoldable pub read_values : Reader → List Bytes → Result (Map Bytes)
read_values reads [] = ok []
read_values reads (name ∷ names) = read_name name (reads name) (read_values reads names)

abbrev pub all_names : List Bytes
all_names =
    format_xattr ∷ remote_size_xattr ∷ etag_hash_xattr ∷ plan_hash_xattr ∷ webdav_url_xattr ∷ []

-- `values[name]`, which is empty if nothing was found.
abbrev value_of : Map Bytes → Bytes → Bytes
value_of values name = elim (lookup name values) [ some value ↦ value | none ↦ [] ]

-- A digit in front of a number that is already read; the number fits into 64 bits.
abbrev pub with_digit : ℕ → ℕ → Option ℕ
with_digit n b =
    if leb b'0' b && leb b b'9' && ltb (n * 10 + (b - b'0')) (2 ^ 64)
    then some (n * 10 + (b - b'0'))
    else none

unfoldable pub digits_value : ℕ → Bytes → Option ℕ
digits_value n [] = some n
digits_value n (b ∷ bs) = elim (with_digit n b) [ none ↦ none | some m ↦ digits_value m bs ]

-- `strconv.ParseUint` in base 10, for 64 bits
unfoldable pub parse_uint : Bytes → Option ℕ
unfolding digits_value
parse_uint [] = none
parse_uint (b ∷ bs) = digits_value 0 (b ∷ bs)

-- `hex.DecodeString`
abbrev pub hex_value : ℕ → Option ℕ
hex_value c =
    if leb b'0' c && leb c b'9'
    then some (c - b'0')
    else if leb b'a' c && leb c b'f'
    then some (c - b'a' + 10)
    else if leb b'A' c && leb c b'F'
    then some (c - b'A' + 10)
    else none

abbrev pub with_byte : Option ℕ → Option ℕ → Option Bytes → Option Bytes
with_byte (some h) (some l) (some bs) = some ((h * 16 + l) ∷ bs)
with_byte _ _ _ = none

unfoldable pub decode_hex : Bytes → Option Bytes
decode_hex [] = some []
decode_hex (c ∷ []) = none
decode_hex (c ∷ d ∷ rest) = with_byte (hex_value c) (hex_value d) (decode_hex rest)

-- `Result` of `Inspect`; a format is a string.
pub record Inspection : Type 0 where
  pub status : MarkerStatus
  pub format : Bytes
  pub marker : Marker

abbrev pub zero_marker : Marker
zero_marker = record { remote_size = 0; remote_etag_hash = []; plan_hash = []; webdav_url = [] }

abbrev pub unmarked : MarkerStatus → Inspection
unmarked status = record { status = status; format = []; marker = zero_marker }

-- A digest of SHA-256 has 32 bytes.
abbrev digest_of : Option Bytes → Option Bytes
digest_of none = none
digest_of (some bs) = if length bs == 32 then some bs else none

abbrev size_of : ℕ → Option ℕ → Option ℕ
size_of file_size none = none
size_of file_size (some n) = if n == file_size then some n else none

-- `Inspect` behind its checks of the single values
abbrev marked : Bytes → Bytes → Option ℕ → Option Bytes → Option Bytes → Inspection
marked format url (some size) (some etag_hash) (some plan_hash) = record {
  status = if same url [] then invalid_marker else valid_marker;
  format = format;
  marker = record {
    remote_size = size;
    remote_etag_hash = etag_hash;
    plan_hash = plan_hash;
    webdav_url = url;
  };
}
marked format url _ _ _ = unmarked invalid_marker

abbrev pub of_values : ℕ → Map Bytes → Inspection
of_values file_size values =
    if not (length values == 5)
    then unmarked invalid_marker
    else if not (valid_format (value_of values format_xattr))
    then unmarked invalid_marker
    else marked (value_of values format_xattr) (value_of values webdav_url_xattr)
        (size_of file_size (parse_uint (value_of values remote_size_xattr)))
        (digest_of (decode_hex (value_of values etag_hash_xattr)))
        (digest_of (decode_hex (value_of values plan_hash_xattr)))

abbrev pub inspected : ℕ → Result (Map Bytes) → Result Inspection
inspected file_size (err e) = err e
inspected file_size (ok values) =
    if length values == 0 then ok (unmarked no_marker) else ok (of_values file_size values)

-- `Inspect`
unfoldable pub inspect_marker : Reader → ℤ → Result Inspection
unfolding read_values parse_uint decode_hex
inspect_marker reads (negsuc n) = err negative_file_size
inspect_marker reads (pos file_size) = inspected file_size (read_values reads all_names)

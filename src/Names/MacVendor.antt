-- ===== src/Names/MacVendor.antt =====
-- sniff4hound/mac_vendor.py: the catalog of MAC address blocks and the lookup of an address. The file's
-- JSON is an argument, as `json.loads` gives it.
use sniff4hound.Prelude.Dict.{Dict, lookup}
use sniff4hound.Prelude.Text.{Text, text, list_eq, is_empty, or_blank, strip}
use sniff4hound.Names.IpRegistry.{upper_char}
use sniff4hound.Prelude.{
  ℕ, ◌+◌, ◌-◌, ◌*◌, ◌/◌, ◌%◌, Bool, true, not, ◌&&◌, ◌||◌, Option, none, some, List, [], ◌∷◌, ◌++◌,
  leb, nat_beq, if◌then◌else◌, length, get_elem?, take, keep, any, get_or, ◌==◌, number_eq, pair_eq,
  elem,
}

-- What a prefix has in the file: a list of texts, or something else.
pub data Assignment : Type 0 where
  listed : List Text → Assignment
  malformed : Assignment

abbrev pub Prefixes : Type 0
Prefixes = Dict Text Assignment

-- The module's globals; `bits_24` is `_prefixes[24]`.
pub record Catalog : Type 0 where
  pub loaded : Bool
  pub bits_24 : Prefixes
  pub bits_28 : Prefixes
  pub bits_36 : Prefixes

-- The file's tables, none for one that is missing or no dict.
pub record Payload : Type 0 where
  pub raw_24 : Option Prefixes
  pub raw_28 : Option Prefixes
  pub raw_36 : Option Prefixes

-- _load
unfoldable pub load : Payload → Catalog → Catalog
load payload c = if c.loaded then c else record {
  loaded = true;
  bits_24 = get_or payload.raw_24 [];
  bits_28 = get_or payload.raw_28 [];
  bits_36 = get_or payload.raw_36 [];
}

unfoldable pub is_available : Payload → Catalog → Bool
is_available payload catalog =
    let c = load payload catalog in
    not (is_empty c.bits_24) || not (is_empty c.bits_28) || not (is_empty c.bits_36)

unfoldable pub assignment_counts : Payload → Catalog → ℕ × (ℕ × ℕ)
assignment_counts payload catalog =
    let c = load payload catalog in (length c.bits_24, (length c.bits_28, length c.bits_36))

-- `char not in ":-. "`, and `char in "0123456789ABCDEF"`.
abbrev pub is_separator : ℕ → Bool
is_separator c = elem c (58 ∷ 45 ∷ 46 ∷ 32 ∷ [])

abbrev pub is_hex : ℕ → Bool
is_hex c = leb 48 c && leb c 57 || leb 65 c && leb c 70

-- str.upper of one character, as far as hex digits are concerned: besides the ASCII letters only the
-- ligature `ff` has capitals that are hex digits.
abbrev pub capitals : ℕ → Text
capitals c = if nat_beq c 64256 then text "FF" else upper_char c ∷ []

abbrev pub hex_upper : Text → Text
hex_upper [] = []
hex_upper (c ∷ s) = capitals c ++ hex_upper s

-- _mac_hex
unfoldable pub mac_hex : Option Text → Text
mac_hex value =
    let compact = keep (λ c. not (is_separator c)) (hex_upper (strip (or_blank value))) in
    if not (nat_beq (length compact) 12) || any (λ c. not (is_hex c)) compact then [] else compact

-- int(digits, 16)
abbrev pub hex_digit : ℕ → ℕ
hex_digit c = if leb c 57 then c - 48 else c - 55

abbrev pub hex_onto : ℕ → Text → ℕ
hex_onto n [] = n
hex_onto n (c ∷ s) = hex_onto (n * 16 + hex_digit c) s

abbrev pub hex_value : Text → ℕ
hex_value = hex_onto 0

pub data AddressKind : Type 0 where
  invalid : AddressKind
  broadcast : AddressKind
  multicast : AddressKind
  local : AddressKind
  global : AddressKind
  unknown : AddressKind

pub record Vendor : Type 0 where
  pub kind : AddressKind
  pub vendor : Text
  pub registry : Text
  pub prefix : Text
  pub prefix_bits : ℕ

abbrev pub without_vendor : AddressKind → Vendor
without_vendor kind = record {
  kind = kind;
  vendor = [];
  registry = [];
  prefix = [];
  prefix_bits = 0;
}

-- One round of the loop over the sizes: the assignment of the address's first digits, if there is one
-- that is a list which is not empty.
abbrev pub assigned : ℕ → Text → Option Assignment → Option Vendor
assigned bits prefix (some (listed (vendor ∷ more))) = some (record {
  kind = global;
  vendor = vendor;
  registry = get_or (get_elem? more 0) [];
  prefix = prefix;
  prefix_bits = bits;
})
assigned bits prefix other = none

unfoldable pub assignment_of : ℕ → Prefixes → Text → Option Vendor
assignment_of bits table compact =
    let prefix = take (bits / 4) compact in assigned bits prefix (lookup prefix table)

abbrev pub first_found : List (Option Vendor) → Vendor
first_found [] = without_vendor unknown
first_found (none ∷ rest) = first_found rest
first_found (some vendor ∷ rest) = vendor

abbrev pub assigned_vendor : Catalog → Text → Vendor
assigned_vendor c compact = first_found (
    assignment_of 36 c.bits_36 compact
    ∷ assignment_of 28 c.bits_28 compact
    ∷ assignment_of 24 c.bits_24 compact
    ∷ [])

-- lookup: the bits 1 and 2 of the first octet are `& 0x01` and `& 0x02`.
unfoldable pub lookup_mac : Payload → Catalog → Option Text → Vendor
lookup_mac payload catalog mac =
    let compact = mac_hex mac in
    let first_octet = hex_value (take 2 compact) in
    if is_empty compact
    then without_vendor invalid
    else if compact == text "FFFFFFFFFFFF"
    then without_vendor broadcast
    else if nat_beq (first_octet % 2) 1
    then without_vendor multicast
    else if nat_beq (first_octet / 2 % 2) 1
    then without_vendor local
    else assigned_vendor (load payload catalog) compact

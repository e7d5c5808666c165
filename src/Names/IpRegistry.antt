-- ===== src/Names/IpRegistry.antt =====
-- sniff4hound/ip_registry.py: the catalog of address ranges and the search in it. The file's JSON is
-- an argument, as `json.loads` gives it; `ipaddress.ip_address` is a function from a text to the
-- address's version and value.
pub mod Search
use sniff4hound.Prelude.Dict.{Dict, lookup}
use sniff4hound.Prelude.Text.{Text, text, list_eq, is_empty, or_blank, strip}
use sniff4hound.Prelude.{
  ℕ, zero, suc, ◌+◌, ◌-◌, ◌*◌, ◌/◌, ◌%◌, ◌^◌, ◌≤◌, ◌<◌, min, max, ◌≡◌, refl, sym, ap, ◌∙◌, subst,
  ◌≢◌, ◌↔◌, ◌⊎◌, inl, inr, Bool, true, false, not, ◌&&◌, ◌||◌, Option, none, some, List, [], ◌∷◌,
  ◌++◌, map, arith, ltb, leb, nat_beq, if◌then◌else◌, length, get_elem?, take, drop, keep, any, All,
  Bool-cases, Option-cases, if_elim, get_or, is_none, PyEq, ◌==◌, same_refl, number_eq, pair_eq,
  List-cases, length-append, length-drop, length-take, take-append-drop, drop-nil, take-nil, elem,
  set_add, All-append, All-drop, drop-drop, drop-append_le,
}

-- A row of the catalog: first and last address, and what may be null or blank.
pub record Range : Type 0 where
  pub first : ℕ
  pub last : ℕ
  pub country : Option Text
  pub registry : Option Text

-- The module's globals.
pub record Catalog : Type 0 where
  pub loaded : Bool
  pub starts_v4 : List ℕ
  pub rows_v4 : List Range
  pub starts_v6 : List ℕ
  pub rows_v6 : List Range
  pub regions : Dict Text Text

unfoldable pub unloaded : Catalog
unloaded = record {
  loaded = false;
  starts_v4 = [];
  rows_v4 = [];
  starts_v6 = [];
  rows_v6 = [];
  regions = [];
}

-- The parts of the file's payload that are there; a file that is missing or cannot be read has none.
pub record Payload : Type 0 where
  pub ipv4 : Option (List Range)
  pub ipv6 : Option (List Range)
  pub registries : Option (Dict Text Text)

abbrev pub starts : List Range → List ℕ
starts = map (λ row. row.first)

-- _load
unfoldable pub load : Payload → Catalog → Catalog
load payload catalog =
    let rows_v4 = get_or payload.ipv4 [] in
    let rows_v6 = get_or payload.ipv6 [] in
    if catalog.loaded then catalog else record {
      loaded = true;
      starts_v4 = starts rows_v4;
      rows_v4 = rows_v4;
      starts_v6 = starts rows_v6;
      rows_v6 = rows_v6;
      regions = get_or payload.registries [];
    }

unfoldable pub is_available : Payload → Catalog → Bool
is_available payload catalog =
    let c = load payload catalog in not (is_empty c.rows_v4) || not (is_empty c.rows_v6)

unfoldable pub range_counts : Payload → Catalog → ℕ × ℕ
range_counts payload catalog = let c = load payload catalog in (length c.rows_v4, length c.rows_v6)

-- bisect.bisect_right: the loop looks at `a[mid]` between `lo` and `hi` only, so inside the list; it
-- halves what lies between them, for which their distance is fuel enough.
abbrev pub nth : List ℕ → ℕ → ℕ
nth xs i = get_or (get_elem? xs i) 0

unfoldable pub bisect_loop : ℕ → List ℕ → ℕ → ℕ → ℕ → ℕ
bisect_loop zero a x lo hi = lo
bisect_loop (suc fuel) a x lo hi =
    let mid = (lo + hi) / 2 in
    let below = bisect_loop fuel a x lo mid in
    let above = bisect_loop fuel a x (mid + 1) hi in
    if ltb lo hi then if ltb x (nth a mid) then below else above else lo

unfoldable pub bisect_right : List ℕ → ℕ → ℕ
bisect_right a x = bisect_loop (length a) a x 0 (length a)

-- _search; an index outside the rows is Python's IndexError, and never met.
abbrev pub within_end : ℕ → Option Range → Option Range
within_end value none = none
within_end value (some row) = if leb value row.last then some row else none

abbrev pub row_before : ℕ → List Range → ℕ → Option Range
row_before zero rows value = none
row_before (suc index) rows value = within_end value (get_elem? rows index)

unfoldable pub search : List ℕ → List Range → ℕ → Option Range
search starts rows value =
    if is_empty starts then none else row_before (bisect_right starts value) rows value

-- lookup: none is the empty dict.
pub record Location : Type 0 where
  pub country_code : Text
  pub registry : Text
  pub region : Text

-- str.upper on the ASCII letters, as country codes are.
abbrev pub upper_char : ℕ → ℕ
upper_char c = if leb 97 c && leb c 122 then c - 32 else c

unfoldable pub upper : Text → Text
upper = map upper_char

abbrev pub location : Dict Text Text → Option Range → Option Location
location regions none = none
location regions (some row) =
    let registry = or_blank row.registry in
    some (record {
      country_code = upper (or_blank row.country);
      registry = registry;
      region = get_or (lookup registry regions) [];
    })

abbrev pub locate : Catalog → Option (ℕ × ℕ) → Option Location
locate c none = none
locate c (some (version, value)) = location c.regions (
    if nat_beq version 6
    then search c.starts_v6 c.rows_v6 value
    else search c.starts_v4 c.rows_v4 value)

unfoldable pub lookup_ip :
    (Text → Option (ℕ × ℕ)) → Payload → Catalog → Option Text → Option Location
lookup_ip ip_address payload catalog ip =
    let name = strip (or_blank ip) in
    if is_empty name then none else locate (load payload catalog) (ip_address name)

-- ===== src/Geo/Site.antt =====
-- crates/core/src/geo/geosite.rs: categories of domains.
pub mod Matching
pub mod Ends
use jamm_vpn.Base.{
  ℕ, ◌≡◌, Bool, true, false, not, ◌&&◌, ◌||◌, Option, none, some, List, [], ◌∷◌, ◌++◌, ◌==◌,
  if◌then◌else◌, is_empty, any, length, ◌+◌,
}
use jamm_vpn.Base.Text.{Str, str_eq, to_ascii_lowercase, trim_end_matches, contains}
use jamm_vpn.Base.Maps.{Map, insert}
use jamm_vpn.Error.{Result, ok, err, ◌>>=◌}
use jamm_vpn.Geo.Protobuf.{
  GeoError, Reader, read_varint, read_bytes, read_string, skip, each_field, each,
}

-- A `HashSet` of texts, as the list of its elements.
pub record DomainSet : Type 0 where
  pub full : List Str
  pub suffix : List Str
  pub keyword : List Str
  pub skipped_regex : ℕ

abbrev pub empty_set : DomainSet
empty_set = record { full = []; suffix = []; keyword = []; skipped_regex = 0 }

unfoldable pub has : List Str → Str → Bool
has set s = any (str_eq s) set

unfoldable pub set_insert : Str → List Str → List Str
set_insert s set = if has set s then set else s ∷ set

-- The loop over the parents of a name: what follows each dot.
unfoldable pub parent_in : List Str → Str → Bool
parent_in set [] = false
parent_in set (c ∷ rest) =
    let further = parent_in set rest in if c == b'.' then has set rest || further else further

unfoldable pub set_matches : DomainSet → Str → Bool
set_matches s host =
    let h = to_ascii_lowercase (trim_end_matches b'.' host) in
    if has s.full h
    then true
    else if not (is_empty s.suffix) && (has s.suffix h || parent_in s.suffix h)
    then true
    else any (λ k. contains h k) s.keyword

-- `DomainSet::add`: type 3 is a full name, 2 a domain, 0 a keyword, 1 a regular expression.
unfoldable pub add : DomainSet → ℕ → Str → DomainSet
add s dtype value =
    let v = to_ascii_lowercase (trim_end_matches b'.' value) in
    if is_empty v
    then s
    else if dtype == 3
    then record s { full = set_insert v s.full }
    else if dtype == 2
    then record s { suffix = set_insert v s.suffix }
    else if dtype == 0
    then record s { keyword = s.keyword ++ (v ∷ []) }
    else if dtype == 1
    then record s { skipped_regex = s.skipped_regex + 1 }
    else s

unfoldable pub domain_field : ℕ × Str → ℕ → ℕ → Reader → Result GeoError ((ℕ × Str) × Reader)
domain_field (dtype, value) field wire r =
    if field == 1 && wire == 0
    then (do (v, r) ← read_varint r; ok ((v, value), r))
    else if field == 2 && wire == 2
    then (do (s, r) ← read_string r; ok ((dtype, s), r))
    else (do r ← skip wire r; ok ((dtype, value), r))

unfoldable pub parse_domain : List ℕ → Result GeoError (ℕ × Str)
parse_domain bytes = each domain_field (0, []) bytes

unfoldable pub geosite_field :
    Str × DomainSet → ℕ → ℕ → Reader → Result GeoError ((Str × DomainSet) × Reader)
geosite_field (code, set) field wire r =
    if field == 1 && wire == 2
    then (do (s, r) ← read_string r; ok ((to_ascii_lowercase s, set), r))
    else if field == 2 && wire == 2
    then (do
      (b, r) ← read_bytes r
      (dtype, value) ← parse_domain b
      ok ((code, add set dtype value), r))
    else (do r ← skip wire r; ok ((code, set), r))

unfoldable pub parse_geosite : List ℕ → Result GeoError (Str × DomainSet)
parse_geosite bytes = each geosite_field ([], empty_set) bytes

abbrev pub GeoSiteDb : Type 0
GeoSiteDb = Map Str DomainSet

unfoldable pub db_field : GeoSiteDb → ℕ → ℕ → Reader → Result GeoError (GeoSiteDb × Reader)
db_field db field wire r =
    if field == 1 && wire == 2
    then (do
      (b, r) ← read_bytes r
      (code, set) ← parse_geosite b
      ok (if is_empty code then db else insert str_eq code set db, r))
    else (do r ← skip wire r; ok (db, r))

unfoldable pub parse : List ℕ → Result GeoError GeoSiteDb
parse bytes = each db_field (λ _. none) bytes

unfoldable pub matches : GeoSiteDb → Str → Str → Bool
matches db category host = elim (db (to_ascii_lowercase category)) [
  | none ↦ false
  | some s ↦ set_matches s host
]

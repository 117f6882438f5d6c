-- ===== src/Base/Maps.antt =====
-- `HashMap` as a function: the program looks keys up, inserts and removes, and never depends on
-- the order of iteration.
use jamm_vpn.Base.{Bool, Option, none, some, if◌then◌else◌}

abbrev pub Map : Type 0 → Type 0 → Type 0
Map K V = K → Option V

module _ {K V : Type 0} (same : K → K → Bool) where
  abbrev pub insert : K → V → Map K V → Map K V
  insert k v m j = if same k j then some v else m j

  abbrev pub remove : K → Map K V → Map K V
  remove k m j = if same k j then none else m j

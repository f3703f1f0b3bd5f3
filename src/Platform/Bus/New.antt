-- ===== src/Platform/Bus/New.antt =====
-- components/platform/src/bus.rs: the construction of the bus, which checks its regions.
pub mod Built
pub mod Routes
use Prim.Native.String.{String}
use text.Mathlib.Text
use systemscope.Base.{
  ℕ, ◌+◌, ◌-◌, ◌^◌, ◌≤◌, ◌<◌, ◌≡◌, ◌↔◌, refl, sym, ap, ap₂, All-map, All-both, Bool, true, false,
  not, ◌&&◌, Option, none, some, Result, ok, err, List, [], ◌∷◌, ◌++◌, leb, ◌==◌, if◌then◌else◌,
  length, All, arith, Bool-cases, inl, inr,
}
use systemscope.Platform.Bus.{Region, last, AddressBus}

pub data BusConfigError : Type 0 where
  zero_size wraps duplicate_name reserved_name : (name : String) → BusConfigError
  overlap : (earlier name : String) → BusConfigError
  too_many_regions : BusConfigError

unfoldable pub has_name : Region → String → Bool
has_name r name = Text.◌==◌ r.name name

-- The loop over the regions before `r`.
abbrev pub check_earlier : List Region → Region → Option BusConfigError
check_earlier [] r = none
check_earlier (e ∷ es) r =
    if has_name e r.name
    then some (BusConfigError.duplicate_name r.name)
    else if leb e.base (last r) && leb r.base (last e)
    then some (BusConfigError.overlap e.name r.name)
    else check_earlier es r

abbrev pub check_region : List Region → Region → Option BusConfigError
check_region es r =
    if r.size == 0
    then some (BusConfigError.zero_size r.name)
    else if leb (2 ^ 64) (last r)
    then some (BusConfigError.wraps r.name)
    else if has_name r "cpu"
    then some (BusConfigError.reserved_name r.name)
    else check_earlier es r

abbrev pub or_check : Option BusConfigError → Option BusConfigError → Option BusConfigError
or_check (some e) o = some e
or_check none o = o

-- The loop over the regions, after `es`.
abbrev pub check_regions : List Region → List Region → Option BusConfigError
check_regions es [] = none
check_regions es (r ∷ rs) = or_check (check_region es r) (check_regions (es ++ r ∷ []) rs)

abbrev pub built : List Region → Option BusConfigError → Result AddressBus BusConfigError
built rs (some e) = err e
built rs none = ok (record { regions = rs; outstanding = [] })

-- `AddressBus::new`.
unfoldable pub bus_new : List Region → Result AddressBus BusConfigError
bus_new rs =
    if leb 65535 (length rs)
    then err BusConfigError.too_many_regions
    else built rs (check_regions [] rs)

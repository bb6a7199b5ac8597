-- ===== src/Serviceability/Airspace.antt =====
-- src/serviceability/airspace.service.ts and airspace.constants.ts: the zones in force, and the
-- cache of the rows that they are read from. A read of the table may fail.
use drovery_backend.Base.{
  ℕ, ◌+◌, Bool, true, ◌&&◌, Option, none, some, List, map, filter, leb, ltb, if◌then◌else◌,
}
use drovery_backend.Base.Int.{ℤ}
use drovery_backend.Base.Text.{Text}

pub record GeoCircle : Type 0 where
  pub name : Text
  pub lat : ℤ
  pub lng : ℤ
  pub radius : ℕ

pub record ZoneRow : Type 0 where
  pub circle : GeoCircle
  pub active : Bool
  pub active_from : Option ℕ
  pub active_until : Option ℕ

-- A bound that is null does not bound.
abbrev pub has_opened : Option ℕ → ℕ → Bool
has_opened none now = true
has_opened (some t) now = leb t now

abbrev pub is_still_open : Option ℕ → ℕ → Bool
is_still_open none now = true
is_still_open (some t) now = leb now t

-- Switched on, and inside its window; both ends are inclusive.
abbrev pub is_zone_in_force : ZoneRow → ℕ → Bool
is_zone_in_force z now =
    z.active && (has_opened z.active_from now && is_still_open z.active_until now)

abbrev pub airspace_cache_ttl_max : ℕ
airspace_cache_ttl_max = 300000

-- The override in the environment, where it is a finite number that is not negative.
abbrev pub resolve_airspace_cache_ttl : Option ℕ → ℕ → ℕ
resolve_airspace_cache_ttl none fallback = fallback
resolve_airspace_cache_ttl (some raw) fallback =
    if leb raw airspace_cache_ttl_max then raw else fallback

pub record ZoneCache : Type 0 where
  pub at : ℕ
  pub rows : List ZoneRow

abbrev pub is_fresh : ℕ → ℕ → ZoneCache → Bool
is_fresh ttl now c = leb c.at now && ltb now (c.at + ttl)

abbrev pub fresh_cache : ℕ → ℕ → Option ZoneCache → Option ZoneCache
fresh_cache ttl now none = none
fresh_cache ttl now (some c) = if is_fresh ttl now c then some c else none

-- `findMany({ where: { active: true } })` of a table that can be read, or a failure.
abbrev pub active_rows : Option (List ZoneRow) → Option (List ZoneRow)
active_rows none = none
active_rows (some rows) = some (filter (λ (z : ZoneRow). z.active) rows)

abbrev pub in_force : ℕ → List ZoneRow → List GeoCircle
in_force now rows = map (λ (z : ZoneRow). z.circle) (filter (λ z. is_zone_in_force z now) rows)

-- What follows the read: a failure leaves the cache as it was.
abbrev pub after_fetch :
    ℕ → Option ZoneCache → Option (List ZoneRow) → Option (List GeoCircle) × Option ZoneCache
after_fetch now cache none = (none, cache)
after_fetch now cache (some rows) =
    (some (in_force now rows), some (record { at = now; rows = rows }))

abbrev pub from_cache_or :
    ℕ
    → Option ZoneCache
    → Option (List ZoneRow)
    → Option ZoneCache
    → Option (List GeoCircle) × Option ZoneCache
from_cache_or now cache table (some c) = (some (in_force now c.rows), cache)
from_cache_or now cache table none = after_fetch now cache (active_rows table)

-- The zones in force at `now`, or a failure, and the cache that is left. The window is tested on
-- every call, on the rows of the cache or of the table.
unfoldable pub in_force_zones :
    ℕ → ℕ → Option ZoneCache → Option (List ZoneRow) → Option (List GeoCircle) × Option ZoneCache
in_force_zones ttl now cache table = from_cache_or now cache table (fresh_cache ttl now cache)

-- `invalidate`, on every write of a zone.
abbrev pub invalidate : Option ZoneCache → Option ZoneCache
invalidate cache = none

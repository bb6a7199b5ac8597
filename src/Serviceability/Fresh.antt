-- ===== src/Serviceability/Fresh.antt =====
-- The zones of src/serviceability/airspace.service.ts are those in force now, of rows that were read
-- lately, whatever calls came before.
use drovery_backend.Base.{
  Bool, ◌&&◌, leb, get_or, map, Option-cases, ℕ, ◌+◌, ◌≤◌, ◌<◌, Option, none, some, List, [], ◌∷◌,
  ◌≡◌, ◌⊎◌, inl, inr, refl, filter, Bool-cases, arith,
}
use drovery_backend.Serviceability.Airspace.{
  ZoneRow, ZoneCache, GeoCircle, in_force, in_force_zones, is_fresh, active_rows, after_fetch,
  invalidate,
}

-- The table at each instant, or a failure to read it.
abbrev pub Tables : Type 0
Tables = ℕ → Option (List ZoneRow)

-- A call for the zones at an instant, or the drop of the cache after a write.
pub data CacheUse : Type 0 where
  read_at : ℕ → CacheUse
  drop_cache : CacheUse

-- The cache that a list of uses leaves, the last first, from an empty one.
unfoldable pub cache_after : ℕ → Tables → List CacheUse → Option ZoneCache
cache_after ttl table [] = none
cache_after ttl table (read_at t ∷ us) =
    (in_force_zones ttl t (cache_after ttl table us) (table t)).1
cache_after ttl table (drop_cache ∷ us) = invalidate (cache_after ttl table us)

-- The table could be read at `t`, and these are its rows that were switched on.
abbrev pub WereActive : Tables → ℕ → List ZoneRow → Type 0
WereActive table t rows =
    (all : List ZoneRow) × (table t ≡ some all) × (rows ≡ filter (λ (z : ZoneRow). z.active) all)

-- Switched on, not before its start and not after its end, where it has them.
abbrev pub binds_at : ℕ → ZoneRow → Bool
binds_at now z =
    z.active && (leb (get_or z.active_from 0) now && leb now (get_or z.active_until now))

abbrev pub binding : ℕ → List ZoneRow → List GeoCircle
binding now rows = map (λ (z : ZoneRow). z.circle) (filter (binds_at now) rows)

in_force-binding : (now : ℕ) (rows : List ZoneRow) → in_force now rows ≡ binding now rows
in_force-binding now [] = refl
in_force-binding now (z ∷ zs) = elim (Option-cases z.active_from) [
  | inl a ↦ elim (Option-cases z.active_until) [
    | inl b ↦ rw (a, b) (ground (arith, in_force-binding now zs))
    | inr (u, b) ↦ rw (a, b) (ground (arith, in_force-binding now zs))
  ]
  | inr (f, a) ↦ elim (Option-cases z.active_until) [
    | inl b ↦ rw (a, b) (ground (arith, in_force-binding now zs))
    | inr (u, b) ↦ rw (a, b) (ground (arith, in_force-binding now zs))
  ]
]

-- An empty cache, or one that holds every row that was switched on at the time it is stamped with.
abbrev pub IsSnapshot : Tables → Option ZoneCache → Type 0
IsSnapshot table none = Unit
IsSnapshot table (some c) = WereActive table c.at c.rows

-- The rows that an answer at `now` may be made from: those switched on now, or at a time that is not
-- older than the limit.
abbrev pub AreRecent : ℕ → ℕ → Tables → List ZoneRow → Type 0
AreRecent ttl now table rows =
    WereActive table now rows ⊎ ((t : ℕ) × (t ≤ now) × (now < t + ttl) × WereActive table t rows)

-- An answer lists the zones in force now of such rows; there is no answer only where the table cannot
-- be read; and what is cached is what was read.
abbrev pub Answers : ℕ → ℕ → Tables → Option (List GeoCircle) × Option ZoneCache → Type 0
Answers ttl now table (none, cache) = (table now ≡ none) × IsSnapshot table cache
Answers ttl now table (some zones, cache) =
    ((rows : List ZoneRow) × AreRecent ttl now table rows × (zones ≡ binding now rows))
    × IsSnapshot table cache

module _ (ttl now : ℕ) (table : Tables) where
  fetch-Answers :
      (cache : Option ZoneCache) (o : Option (List ZoneRow))
      → IsSnapshot table cache
      → table now ≡ o
      → Answers ttl now table (after_fetch now cache (active_rows o))
  fetch-Answers cache none h e = (e, h)
  fetch-Answers cache (some rows) h e =
      let active = filter (λ (z : ZoneRow). z.active) rows in
      ((active, inl (rows, e, refl), in_force-binding now active), (rows, e, refl))

  call-Answers :
      (cache : Option ZoneCache)
      → IsSnapshot table cache
      → Answers ttl now table (in_force_zones ttl now cache (table now))
  unfolding in_force_zones
  call-Answers none h = fetch-Answers none (table now) h refl
  call-Answers (some c) h = elim (Bool-cases (is_fresh ttl now c)) [
    | inl e ↦
        rw e ((c.rows, inr (c.at, ground arith, ground arith, h), in_force-binding now c.rows), h)
    | inr e ↦ rw e (fetch-Answers (some c) (table now) h refl)
  ]

Answers-IsSnapshot :
    (ttl now : ℕ) (table : Tables) (o : Option (List GeoCircle) × Option ZoneCache)
    → Answers ttl now table o
    → IsSnapshot table o.1
Answers-IsSnapshot ttl now table (none, cache) h = h.1
Answers-IsSnapshot ttl now table (some zones, cache) h = h.1

cache_after-IsSnapshot :
    (ttl : ℕ) (table : Tables) (us : List CacheUse) → IsSnapshot table (cache_after ttl table us)
unfolding cache_after
cache_after-IsSnapshot ttl table [] = tt
cache_after-IsSnapshot ttl table (drop_cache ∷ us) = tt
cache_after-IsSnapshot ttl table (read_at t ∷ us) =
    Answers-IsSnapshot ttl t table _
      (call-Answers ttl t table (cache_after ttl table us) (cache_after-IsSnapshot ttl table us))

-- After any calls and drops of the cache, however the table changed between them, an answer lists exactly the rows of the
-- table that were switched on at one time, now or less than the cache's limit ago, and whose window
-- holds the time of the call. A call fails only where the table cannot be read. The cache that it
-- leaves is empty or holds all rows that were switched on at the time of its stamp, those outside
-- their window included.
pub zones_fresh :
    (ttl : ℕ) (table : Tables) (earlier : List CacheUse) (now : ℕ)
    → Answers ttl now table (in_force_zones ttl now (cache_after ttl table earlier) (table now))
zones_fresh ttl table earlier now =
    call-Answers ttl now table (cache_after ttl table earlier)
      (cache_after-IsSnapshot ttl table earlier)

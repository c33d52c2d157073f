-- ===== src/Scaler/Cache.antt =====
-- internal/scaler/cache.go. The map of entries is the list of its writes, newest first. A refresh
-- swaps the whole map under the lock, so a reader sees the old map or the new one.
use keda_replica_sense.Prelude.{
  String, str_eq, ◌≡◌, refl, Bool, not, ◌&&◌, ◌||◌, if◌then◌else◌, Option, none, some, List, [],
  ◌∷◌, arith,
}
use keda_replica_sense.Scaler.{ForecastSnapshot, Lookup}

pub record SnapshotWithLookup (W : Type 0) : Type 0 where
  pub key : Lookup
  pub snapshot : ForecastSnapshot W

pub record SnapshotCache (W : Type 0) : Type 0 where
  pub cluster_id : String
  pub has_lister : Bool
  pub entries : List (SnapshotWithLookup W)

pub data CacheError : Type 0 where
  requires_lister list_failed : CacheError

-- `==` on the keys.
unfoldable pub same_key : Lookup → Lookup → Bool
same_key a b =
    str_eq a.cluster_id b.cluster_id
    && str_eq a.namespace b.namespace
    && str_eq a.scaled_object b.scaled_object
    && str_eq a.source_trigger b.source_trigger

module _ {W : Type 0} where
  unfoldable pub new_snapshot_cache : String → Bool → SnapshotCache W
  new_snapshot_cache cluster has_lister = record {
    cluster_id = cluster;
    has_lister = has_lister;
    entries = [];
  }

  -- `for _, snapshot := range snapshots { next[snapshot.Lookup] = snapshot.Snapshot }`.
  unfoldable pub store_all :
      List (SnapshotWithLookup W) → List (SnapshotWithLookup W) → List (SnapshotWithLookup W)
  store_all next [] = next
  store_all next (x ∷ xs) = store_all (x ∷ next) xs

  -- `listed` is what the lister answers; `none` is an error of its.
  unfoldable pub refresh :
      SnapshotCache W → Option (List (SnapshotWithLookup W)) → SnapshotCache W × Option CacheError
  unfolding store_all
  refresh c listed =
      if not c.has_lister || str_eq c.cluster_id ""
      then (c, some requires_lister)
      else refresh_with listed
    where
      refresh_with : Option (List (SnapshotWithLookup W)) → SnapshotCache W × Option CacheError
      refresh_with none = (c, some list_failed)
      refresh_with (some snapshots) = (record c { entries = store_all [] snapshots }, none)

  unfoldable pub first_with : Lookup → List (SnapshotWithLookup W) → Option (ForecastSnapshot W)
  first_with key [] = none
  first_with key (x ∷ xs) = if same_key x.key key then some x.snapshot else first_with key xs

  unfoldable pub latest_snapshot : SnapshotCache W → Lookup → Option (ForecastSnapshot W)
  latest_snapshot c key = first_with key c.entries

  -- The abstract view: the last snapshot listed under a key.
  unfoldable pub last_with : Lookup → List (SnapshotWithLookup W) → Option (ForecastSnapshot W)
  last_with key [] = none
  last_with key (x ∷ xs) = elim (last_with key xs) [
    | some later ↦ some later
    | none ↦ if same_key x.key key then some x.snapshot else none
  ]

  abbrev or_else :
      Option (ForecastSnapshot W) → Option (ForecastSnapshot W) → Option (ForecastSnapshot W)
  or_else (some a) b = some a
  or_else none b = b

  first_with-store_all :
      (key : Lookup) (next xs : List (SnapshotWithLookup W))
      → first_with key (store_all next xs) ≡ or_else (last_with key xs) (first_with key next)
  unfolding first_with store_all last_with
  first_with-store_all key next [] = refl
  first_with-store_all key next (x ∷ xs) = ground (arith, first_with-store_all key (x ∷ next) xs)

  refresh_entries :
      (c : SnapshotCache W) (xs : List (SnapshotWithLookup W))
      → (refresh c (some xs)).1 ≡ none
      → (refresh c (some xs)).0.entries ≡ store_all [] xs
  unfolding refresh
  refresh_entries c xs h = ground arith

  -- After a refresh that succeeds, the cache answers each key with the last snapshot listed under
  -- it, and with none where the listing has no such key: nothing older survives.
  pub latest_snapshot-refresh :
      (c : SnapshotCache W) (xs : List (SnapshotWithLookup W)) (key : Lookup)
      → (refresh c (some xs)).1 ≡ none
      → latest_snapshot (refresh c (some xs)).0 key ≡ last_with key xs
  unfolding latest_snapshot first_with
  latest_snapshot-refresh c xs key h =
      ground (arith, refresh_entries c xs h, first_with-store_all key [] xs)

  -- A refresh that fails, for whatever reason, leaves every answer as it was.
  pub refresh_failed_unchanged :
      (c : SnapshotCache W) (listed : Option (List (SnapshotWithLookup W))) (e : CacheError)
      → (refresh c listed).1 ≡ some e
      → (refresh c listed).0 ≡ c
  unfolding refresh
  refresh_failed_unchanged c listed e h = ground arith

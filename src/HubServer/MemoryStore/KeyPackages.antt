-- ===== src/HubServer/MemoryStore/KeyPackages.antt =====
-- packages/hub-server/src/memoryStore.ts: the pool of one-use key packages of each DID, and the
-- reusable last-resort package.
use kumiai.Shared.{
  ℕ, zero, suc, ◌/◌, Bool, true, false, Option, none, some, List, [], ◌∷◌, ◌++◌, ltb, leb,
  if◌then◌else◌, or_default, length, select,
}
use kumiai.Shared.Map
use kumiai.Shared.Map.{Map}
use kumiai.HubServer.MemoryStore.{
  Store, StoredKeyPackage, key_package_quota_exceeded, Result, ok, err,
}

unfoldable pub is_live : ℕ → StoredKeyPackage → Bool
is_live now_seconds p = elim p.not_after [ none ↦ true | some t ↦ ltb now_seconds t ]

unfoldable pub pool_of : ℕ → Store → List StoredKeyPackage
pool_of owner s = or_default (Map.get owner s.key_packages) []

abbrev put_pool : ℕ → List StoredKeyPackage → Store → Store
put_pool owner pool s = record s { key_packages = Map.set owner pool s.key_packages }

-- Dead packages are dropped before the quota is charged, also where it then refuses.
unfoldable pub store_key_package : ℕ → StoredKeyPackage → ℕ → Store → Result (Unit {0}) × Store
unfolding is_live pool_of
store_key_package owner p now s =
    let live = select (is_live (now / 1000)) (pool_of owner s) in
    if leb s.max_key_packages_per_did (length live)
    then (err key_package_quota_exceeded, put_pool owner live s)
    else (ok tt, put_pool owner (live ++ p ∷ []) s)

-- `while (packages.length > 0 && served.length < n)`, on what `n` leaves to serve.
unfoldable pub shift_live : ℕ → ℕ → List StoredKeyPackage → List ℕ × List StoredKeyPackage
unfolding is_live
shift_live now_seconds n [] = ([], [])
shift_live now_seconds zero (p ∷ pool) = ([], p ∷ pool)
shift_live now_seconds (suc n) (p ∷ pool) = elim (is_live now_seconds p) [
  | true ↦ let rest = shift_live now_seconds n pool in (p.key_package ∷ rest.0, rest.1)
  | false ↦ shift_live now_seconds (suc n) pool
]

unfoldable pub serve_packages :
    ℕ → Option ℕ → ℕ → Option (List StoredKeyPackage) → Store → List ℕ × Store
unfolding shift_live
serve_packages owner count now none s = ([], s)
serve_packages owner count now (some []) s = ([], s)
serve_packages owner count now (some (p ∷ pool)) s =
    let r = shift_live (now / 1000) (or_default count 1) (p ∷ pool) in (r.0, put_pool owner r.1 s)

unfoldable pub fetch_key_packages : ℕ → Option ℕ → ℕ → Store → List ℕ × Store
unfolding serve_packages
fetch_key_packages owner count now s =
    serve_packages owner count now (Map.get owner s.key_packages) s

unfoldable pub count_key_packages : ℕ → ℕ → Store → ℕ
unfolding is_live pool_of
count_key_packages owner now s = length (select (is_live (now / 1000)) (pool_of owner s))

unfoldable pub store_last_resort_key_package : ℕ → ℕ → Store → Store
store_last_resort_key_package owner p s = record s {
  last_resort_key_packages = Map.set owner p s.last_resort_key_packages;
}

unfoldable pub fetch_last_resort_key_package : ℕ → Store → Option ℕ
fetch_last_resort_key_package owner s = Map.get owner s.last_resort_key_packages

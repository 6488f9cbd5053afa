-- ===== src/HubServer/MemoryStore/PackagePool.antt =====
-- packages/hub-server/src/memoryStore.ts: what the key package pool serves.
use kumiai.Shared.{
  ==_refl, ℕ, zero, suc, ◌+◌, ◌/◌, ◌≡◌, refl, Option, none, some, List, [], ◌∷◌, ◌++◌, or_default,
  length, select, map, min, arith, Bool-cases, inl, inr, length-append, ap,
}
use kumiai.Shared.Map
use kumiai.Shared.Map.{get-set}
use kumiai.HubServer.MemoryStore.{Store, StoredKeyPackage}
use kumiai.HubServer.MemoryStore.KeyPackages.{
  serve_packages, is_live, pool_of, fetch_key_packages, count_key_packages, shift_live,
}

-- The packages of an owner that have not expired, oldest first.
abbrev pub live_keys : ℕ → List StoredKeyPackage → List ℕ
live_keys now_seconds pool = map (λ p. p.key_package) (select (is_live now_seconds) pool)

shift_live-splits :
    (now n : ℕ) (pool : List StoredKeyPackage)
    → (live_keys now pool ≡ (shift_live now n pool).0 ++ live_keys now (shift_live now n pool).1)
      × (length (shift_live now n pool).0 ≡ min n (length (live_keys now pool)))
unfolding shift_live
shift_live-splits now n [] = (refl, omega arith)
shift_live-splits now zero (p ∷ pool) = (refl, omega arith)
shift_live-splits now (suc n) (p ∷ pool) = elim (Bool-cases (is_live now p)) [
  | inl e ↦ ground (arith, e, shift_live-splits now n pool)
  | inr e ↦ ground (arith, e, shift_live-splits now (suc n) pool)
]

length-map-keys :
    (pool : List StoredKeyPackage) → length (map (λ p. p.key_package) pool) ≡ length pool
length-map-keys [] = refl
length-map-keys (p ∷ pool) = ap suc (length-map-keys pool)

-- What an owner's calls leave of its pool.
serve_packages-splits :
    (owner now : ℕ) (count : Option ℕ) (o : Option (List StoredKeyPackage)) (s : Store)
    → Map.get owner s.key_packages ≡ o
    → let (served, s') = serve_packages owner count now o s in
      (live_keys (now / 1000) (or_default o [])
        ≡ served ++ live_keys (now / 1000) (pool_of owner s'))
      × (length served
          ≡ min (or_default count 1) (length (live_keys (now / 1000) (or_default o []))))
unfolding serve_packages pool_of
serve_packages-splits owner now count none s e = (ground (arith, e), omega arith)
serve_packages-splits owner now count (some []) s e = (ground (arith, e), omega arith)
serve_packages-splits owner now count (some (p ∷ pool)) s e =
    let split = shift_live-splits (now / 1000) (or_default count 1) (p ∷ pool) in
    (
      rw
          (
            get-set owner owner (shift_live (now / 1000) (or_default count 1) (p ∷ pool)).1
                s.key_packages,
            ==_refl owner,
          )
          (split.0),
      split.1,
    )

-- A package is served once, in upload order, and never after it expired: what was live splits into
-- what is served, as many as asked for (one by default) if there are so many, and what stays live
-- in the pool, so that the depth that `countKeyPackages` reports falls by what was served.
pub fetch_key_packages_splits :
    (owner now : ℕ) (count : Option ℕ) (s : Store)
    → let (served, s') = fetch_key_packages owner count now s in
      (live_keys (now / 1000) (pool_of owner s)
        ≡ served ++ live_keys (now / 1000) (pool_of owner s'))
      × (length served ≡ min (or_default count 1) (count_key_packages owner now s))
      × (count_key_packages owner now s ≡ length served + count_key_packages owner now s')
unfolding fetch_key_packages count_key_packages
fetch_key_packages_splits owner now count s =
    let (split, len) =
      serve_packages-splits owner now count (Map.get owner s.key_packages) s refl in
    let before = length-map-keys (select (is_live (now / 1000)) (pool_of owner s)) in
    (
      unfold pool_of in split,
      omega (arith, len, before),
      omega (
        arith,
        ap length split,
        before,
        length-append (fetch_key_packages owner count now s).0
            (live_keys (now / 1000) (pool_of owner (fetch_key_packages owner count now s).1)),
        length-map-keys (
            select (is_live (now / 1000)) (pool_of owner (fetch_key_packages owner count now s).1)),
      ),
    )

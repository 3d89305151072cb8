-- ===== src/System/Caches/Domains.antt =====
-- What InvalidateCache does to each of the caches.
use yacul.Common.{refl, false, true, ◌≡◌, ℕ}
use yacul.System.Caches.{
  os, domain_name, same, is_stale, Caches, invalidate, invalidate_at, invalidate_all,
  invalidate_cache, Domain,
}

module _ (T : Domain → Type 0) where
  -- InvalidateCache() makes the next query of every domain fetch anew, whatever the time to live and the
  -- clock are, and leaves the values; InvalidateCache(domain) leaves the caches of the other domains.
  pub invalidate_all-is_stale :
      (cs : Caches T) (d : Domain) (ttl now : ℕ)
      → (is_stale ttl now (invalidate_all T cs d) ≡ true)
        × ((invalidate_all T cs d).value ≡ (cs d).value)
  unfolding invalidate_all invalidate_cache invalidate_at invalidate is_stale
  invalidate_all-is_stale cs os ttl now = (refl, refl)
  invalidate_all-is_stale cs d ttl now = (refl, refl)

  invalidate_cache-other :
      (cs : Caches T) (d e : Domain)
      → same d e ≡ false
      → invalidate_cache T (domain_name d) cs e ≡ cs e
  unfolding invalidate_cache invalidate_at
  invalidate_cache-other cs os e h = rw h refl
  invalidate_cache-other cs d e h = rw h refl

-- ===== src/Dcs/StoreLaws.antt =====
-- Which view of the cluster is handed out again (patroni/dcs/__init__.py: `cluster`, `get_cluster`).
use pennsignals_postgres.Base.{
  ltb→lt, ap, ltb, ◌+◌, ◌<◌, ℕ, Bool, true, false, Option, some, ◌≡◌, refl, if◌then◌else◌, none,
}
use pennsignals_postgres.Dcs.{Cluster}
use pennsignals_postgres.Dcs.Store.{cluster, get_cluster, Store, reset_cluster}

gone : (b : Bool) {c : Cluster} → (if b then none else none) ≡ some c → true ≡ false
gone true h = cc
gone false h = cc

kept_view :
    (b : Bool) (d c : Cluster) → (if b then some d else none) ≡ some c → (b ≡ true) × (d ≡ c)
kept_view true d c h = (refl, cc)
kept_view false d c h = cc

-- A view of the cluster is handed out again only if it is the one that was loaded last, and before the
-- ttl has passed since; after a load that failed, none is.
pub cluster-get_cluster :
    (loaded : Option Cluster) (t ttl now : ℕ) (s : Store) (c : Cluster)
    → cluster now (get_cluster loaded t ttl s).1 ≡ some c
    → (loaded ≡ some c) × (now < t + ttl)
unfolding cluster get_cluster reset_cluster
cluster-get_cluster none t ttl now s c h = let q = gone (ltb now 0) h in cc
cluster-get_cluster (some d) t ttl now s c h =
    let (e, q) = kept_view (ltb now (t + ttl)) d c h in (ap some q, ltb→lt now (t + ttl) e)

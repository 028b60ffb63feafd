-- ===== src/Cluster/Writes.antt =====
-- crates/qcli-cluster/src/lib.rs: writers of one shared resource.
use conflux_query.Base.{
  ltb, if◌then◌else◌, Bool-cases, string_eq, ◌==◌, nat_eq, eq_iff_eq, eq_self, ok, err, ℕ, ◌<◌,
  String, ◌≡◌, ap, ap₂, ◌∙◌, inl, inr, true, false, Option, none, some, arith,
}
use conflux_query.Base.{pair_eq}
use conflux_query.Dict.{lookup}
use conflux_query.Dict.Laws.{lookup-insert}
use conflux_query.Cluster.{
  SharedResource, MemoryState, cluster_error, put_resource, get_resource, foreign, mismatch,
  version_of, i64_mod, i64_next,
}

module _ {P : Type 0} where
  pub put_resource-ok :
      (r w : SharedResource P) (expected : Option ℕ) (s s' : MemoryState P)
      → put_resource r expected s ≡ (ok w, s')
      → (w ≡ record r {
        version = i64_next (version_of (lookup (r.kind, r.resource_id) s.resources));
      })
        × (mismatch expected (version_of (lookup (r.kind, r.resource_id) s.resources)) ≡ false)
        × (lookup (r.kind, r.resource_id) s'.resources ≡ some w)
  unfolding put_resource
  put_resource-ok r w expected s s' h =
      let key : String × String = (r.kind, r.resource_id) in
      let current = lookup key s.resources in
      let written = record r { version = i64_next (version_of current) } in
      elim (Bool-cases (foreign r.principal_id current)) [
        | inl theirs ↦ absurd (ground (arith, h, theirs))
        | inr own ↦ elim (Bool-cases (mismatch expected (version_of current))) [
          | inl stale ↦ absurd (ground (arith, h, own, stale))
          | inr fresh ↦
              ground (arith, h, own, fresh, lookup-insert key key written s.resources, eq_self key)
        ]
      ]

  -- One writer wins: once a write that expected some version, below the end of the 64 bits, has
  -- succeeded, a second write of that resource by the same principal that expected the same
  -- version fails with a conflict and changes nothing.
  pub put_resource_once :
      (r r₂ w : SharedResource P) (version : ℕ) (s s' : MemoryState P)
      → version < i64_mod
      → r₂.kind ≡ r.kind
      → r₂.resource_id ≡ r.resource_id
      → r₂.principal_id ≡ r.principal_id
      → put_resource r (some version) s ≡ (ok w, s')
      → put_resource r₂ (some version) s' ≡ (err (cluster_error "version_conflict"), s')
  unfolding put_resource
  put_resource_once r r₂ w version s s' small same_kind same_id same_principal h =
      let (written, fresh, found) = put_resource-ok r w (some version) s s' h in
      let found₂ : lookup (r₂.kind, r₂.resource_id) s'.resources ≡ some w =
        ap₂ (λ k i. lookup (k, i) s'.resources) same_kind same_id ∙ found in
      let own : (w.principal_id == r₂.principal_id) ≡ true =
        ground (arith, written, same_principal, eq_iff_eq w.principal_id r₂.principal_id) in
      let moved : (version == w.version) ≡ false = ground (arith, written, fresh, small) in
      ground (arith, found₂, own, moved)

  -- After a successful write, its principal reads back what was written, or nothing once that has
  -- expired, and any other principal is refused.
  pub get-put_resource :
      (r w : SharedResource P) (expected : Option ℕ) (now : ℕ) (principal : String)
      (s s' : MemoryState P)
      → put_resource r expected s ≡ (ok w, s')
      → (get_resource now r.kind r.resource_id principal s').0 ≡ (
          if r.principal_id == principal
          then ok (if ltb now r.expires_at then some w else none)
          else err (cluster_error "forbidden"))
  unfolding get_resource
  get-put_resource r w expected now principal s s' h =
      let (written, fresh, found) = put_resource-ok r w expected s s' h in
      let whose : w.principal_id ≡ r.principal_id =
        ap (λ (x : SharedResource P). x.principal_id) written in
      let until : w.expires_at ≡ r.expires_at =
        ap (λ (x : SharedResource P). x.expires_at) written in
      ground (arith, found, whose, until)

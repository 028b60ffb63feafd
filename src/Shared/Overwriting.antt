-- ===== src/Shared/Overwriting.antt =====
-- crates/qcli-service/src/lib.rs: what a change on one node does to the changes of the others.
use conflux_query.Base.{
  Result-cases, ◌≤◌, string_eq, nat_eq, ok, inl, inr, ap, ap₂, sym, ◌∙◌, ℕ, ◌+◌, ◌<◌, String, ◌≡◌,
  refl, Option, some, arith,
}
use conflux_query.Base.{pair_eq}
use conflux_query.Dict.{Dict, lookup}
use conflux_query.Session.{SessionSnapshot}
use conflux_query.Gateway.{Gateway, Setup, Principal}
use conflux_query.Gateway.Sessions.{session, mutate_session}
use conflux_query.Cluster.{SharedResource, put_resource, get_resource}
use conflux_query.Cluster.Access.{
  written, with_resource, with_resource-lookup, get_resource-own, put_resource-own,
}
use conflux_query.Shared.{
  ClusterContext, SharedSession, Payload, session_payload, Node, on_store-ok,
}
use conflux_query.Shared.Sessions.{
  share_change, session_clustered, shared_session, mutate_session_clustered,
}

module _ {B X : Type 0} (setup : Setup B X) (now : ℕ) where
  -- The shared session with another snapshot.
  abbrev pub resnapped :
      SharedResource Payload → SharedSession → SessionSnapshot → SharedResource Payload
  resnapped r shared s = record r {
    payload = session_payload (record shared { snapshot = s });
    expires_at = now + setup.limits.session_ttl;
  }

  share_change-own :
      (cluster : ClusterContext) (p : Principal) (session_id : String) (s : SessionSnapshot)
      (r : SharedResource Payload) (shared : SharedSession) (n : Node B X)
      → lookup ("session", session_id) n.store.resources ≡ some r
      → lookup (r.kind, r.resource_id) n.store.resources ≡ some r
      → r.principal_id ≡ p.id
      → now < r.expires_at
      → r.payload ≡ session_payload shared
      → share_change setup now (some cluster) p session_id s n ≡ (
        ok s,
        record n { store = with_resource (written (resnapped r shared s) r.version) n.store },
      )
  unfolding share_change
  share_change-own cluster p session_id s r shared n found keyed own fresh holds =
      let new = resnapped r shared s in
      let got =
        on_store-ok (get_resource now "session" session_id p.id) (some r) n n.store
          (get_resource-own now "session" session_id p.id r n.store found own fresh) in
      let put =
        on_store-ok (put_resource new (some r.version)) (written new r.version) n
          (with_resource (written new r.version) n.store)
          (put_resource-own new r n.store keyed refl) in
      ground (arith, got, holds, put)

  -- A change of a session that the node knows is made to the node's own copy and then takes the
  -- place of the session in the store, whatever snapshot the store holds by then: of the shared
  -- session, only that it is there and whose it is are looked at.
  mutate_overwrites :
      (cluster : ClusterContext) (p : Principal) (session_id : String) (expected : ℕ)
      (target_name : Option String) (overrides : Dict String (Option String))
      (r : SharedResource Payload) (shared : SharedSession) (old s : SessionSnapshot) (n : Node B X)
      (g₁ g₂ : Gateway B X)
      → session now p session_id n.gateway ≡ (ok old, g₁)
      → mutate_session setup now p session_id expected target_name overrides g₁ ≡ (ok s, g₂)
      → lookup ("session", session_id) n.store.resources ≡ some r
      → lookup (r.kind, r.resource_id) n.store.resources ≡ some r
      → r.principal_id ≡ p.id
      → now < r.expires_at
      → r.payload ≡ session_payload shared
      → mutate_session_clustered setup now
          (some cluster)
          p
          session_id
          expected
          target_name
          overrides
          n
        ≡ (
          ok s,
          record {
            gateway = g₂;
            store = with_resource (written (resnapped r shared s) r.version) n.store;
          },
        )
  unfolding mutate_session_clustered session_clustered
  mutate_overwrites cluster p session_id expected target_name overrides r shared old s n g₁ g₂ known
        changed found keyed own fresh holds =
      ground (
        arith,
        known,
        changed,
        share_change-own cluster p session_id s r shared (record { gateway = g₂; store = n.store })
            found keyed own fresh holds,
      )

  -- A change that succeeded in the cluster had succeeded on the node's own copy.
  mutated-ok :
      (cluster : ClusterContext) (p : Principal) (session_id : String) (expected : ℕ)
      (target_name : Option String) (overrides : Dict String (Option String))
      (r : SharedResource Payload) (shared : SharedSession) (old s : SessionSnapshot)
      (n n' : Node B X) (g₁ : Gateway B X)
      → session now p session_id n.gateway ≡ (ok old, g₁)
      → lookup ("session", session_id) n.store.resources ≡ some r
      → lookup (r.kind, r.resource_id) n.store.resources ≡ some r
      → r.principal_id ≡ p.id
      → now < r.expires_at
      → r.payload ≡ session_payload shared
      → mutate_session_clustered setup now
          (some cluster)
          p
          session_id
          expected
          target_name
          overrides
          n
        ≡ (ok s, n')
      → (g₂ : Gateway B X) × (mutate_session setup now p session_id expected target_name overrides
            g₁
          ≡ (ok s, g₂))
        × (n' ≡ record {
          gateway = g₂;
          store = with_resource (written (resnapped r shared s) r.version) n.store;
        })
  unfolding mutate_session_clustered session_clustered
  mutated-ok cluster p session_id expected target_name overrides r shared old s n n' g₁ known found
        keyed own fresh holds done =
      let run = mutate_session setup now p session_id expected target_name overrides g₁ in
      elim (Result-cases run.0) [
        | inl (s', changed) ↦
            let full =
              mutate_overwrites cluster p session_id expected target_name overrides r shared old s'
                n g₁ run.1 known (ap (λ x. (x, run.1)) changed) found keyed own fresh holds in
            let same : s' ≡ s = cc in
            (run.1, ap (λ x. (x, run.1)) (changed ∙ ap (λ x. ok x) same), cc)
        | inr (e, refused) ↦ absurd (ground (arith, known, refused, done))
      ]

  shared_session-own :
      (p : Principal) (session_id : String) (r : SharedResource Payload) (shared : SharedSession)
      (n : Node B X)
      → lookup ("session", session_id) n.store.resources ≡ some r
      → r.principal_id ≡ p.id
      → now < r.expires_at
      → r.payload ≡ session_payload shared
      → (shared_session setup now p session_id n).0 ≡ ok shared
  unfolding shared_session
  shared_session-own p session_id r shared n found own fresh holds =
      let get =
        on_store-ok (get_resource now "session" session_id p.id) (some r) n n.store
          (get_resource-own now "session" session_id p.id r n.store found own fresh) in
      ground (arith, get, holds)

-- Two nodes know a session that the store holds, fresh, under its own name and as this principal's. The
-- first node changes it, and the store has the session as that change left it. Later, but while the
-- session is still fresh in the store, a change on the second node that would have succeeded without
-- the first change succeeds after it just the same: it meets no conflict, its answer and the gateway
-- that it leaves are those of the run without the first change, and the snapshot that the store then
-- holds is that answer, whatever the first change had written.
pub edit_is_lost :
    {B X : Type 0} (setup₁ setup₂ : Setup B X) (now later : ℕ) (first second : ClusterContext)
    (p : Principal) (id : String) (expected₁ expected₂ : ℕ) (target₁ target₂ : Option String)
    (overrides₁ overrides₂ : Dict String (Option String)) (r : SharedResource Payload)
    (shared : SharedSession) (old₁ old₂ s₁ s₂ : SessionSnapshot) (a a' b b' : Node B X)
    → lookup ("session", id) a.store.resources ≡ some r
    → r.kind ≡ "session"
    → r.resource_id ≡ id
    → r.principal_id ≡ p.id
    → r.payload ≡ session_payload shared
    → now ≤ later
    → later < r.expires_at
    → later < now + setup₁.limits.session_ttl
    → 0 < setup₂.limits.session_ttl
    → (session now p id a.gateway).0 ≡ ok old₁
    → (session later p id b.gateway).0 ≡ ok old₂
    → mutate_session_clustered setup₁ now (some first) p id expected₁ target₁ overrides₁ a
      ≡ (ok s₁, a')
    → mutate_session_clustered setup₂ later
        (some second)
        p
        id
        expected₂
        target₂
        overrides₂
        (record { gateway = b.gateway; store = a.store })
      ≡ (ok s₂, b')
    → let (answer, end) =
        mutate_session_clustered setup₂ later
          (some second)
          p
          id
          expected₂
          target₂
          overrides₂
          (record { gateway = b.gateway; store = a'.store }) in
      ((shared_session setup₁ now p id a').0 ≡ ok (record shared { snapshot = s₁ }))
      × (answer ≡ ok s₂)
      × (end.gateway ≡ b'.gateway)
      × ((shared_session setup₂ later p id end).0 ≡ ok (record shared { snapshot = s₂ }))
edit_is_lost {B} {X} setup₁ setup₂ now later first second p id expected₁ expected₂ target₁ target₂
      overrides₁ overrides₂ r shared old₁ old₂ s₁ s₂ a a' b b' found kind name own holds order fresh
      soon lasts known₁ known₂ edited alone =
    let keyed : lookup (r.kind, r.resource_id) a.store.resources ≡ some r =
      ap₂ (λ k i. lookup (k, i) a.store.resources) kind name ∙ found in
    let (g₁, _, e₁) =
      mutated-ok setup₁ now first p id expected₁ target₁ overrides₁ r shared old₁ s₁ a a'
        (session now p id a.gateway).1 (ap (λ x. (x, (session now p id a.gateway).1)) known₁) found
        keyed own (omega arith) holds edited in
    let gb = (session later p id b.gateway).1 in
    let known : session later p id b.gateway ≡ (ok old₂, gb) = ap (λ x. (x, gb)) known₂ in
    let before : Node B X = record { gateway = b.gateway; store = a.store } in
    let (g₂, changed, e₂) =
      mutated-ok setup₂ later second p id expected₂ target₂ overrides₂ r shared old₂ s₂ before b' gb
        known found keyed own fresh holds alone in
    let shared₁ : SharedSession = record shared { snapshot = s₁ } in
    let w = written (resnapped setup₁ now r shared s₁) r.version in
    let found₁ : lookup ("session", id) a'.store.resources ≡ some w =
      ap (λ (n : Node B X). lookup ("session", id) n.store.resources) e₁
      ∙ with_resource-lookup w "session" id a.store kind name in
    let keyed₁ : lookup (w.kind, w.resource_id) a'.store.resources ≡ some w =
      ap₂ (λ k i. lookup (k, i) a'.store.resources) kind name ∙ found₁ in
    let between : Node B X = record { gateway = b.gateway; store = a'.store } in
    let full =
      mutate_overwrites setup₂ later second p id expected₂ target₂ overrides₂ w shared₁ old₂ s₂
        between gb g₂ known changed found₁ keyed₁ own soon refl in
    let v = written (resnapped setup₂ later w shared₁ s₂) w.version in
    let end : Node B X = record { gateway = g₂; store = with_resource v a'.store } in
    (
      shared_session-own setup₁ now p id w shared₁ a' found₁ own (omega arith) refl,
      ap (λ q. q.0) full,
      ap (λ q. q.1.gateway) full ∙ sym (ap (λ (n : Node B X). n.gateway) e₂),
      ap (λ q. (shared_session setup₂ later p id q.1).0) full
          ∙ shared_session-own setup₂ later p id v (record shared { snapshot = s₂ }) end
              (with_resource-lookup v "session" id a'.store kind name) own (omega arith) refl,
    )

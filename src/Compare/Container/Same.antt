-- ===== src/Compare/Container/Same.antt =====
-- A pod that agrees with itself, and what two lists of containers that are called equal share.
use ocp_spire_operator.Prelude.{
  Bool, true, false, ◌||◌, not, String, List, [], ◌∷◌, Option, none, some, ◌==◌, all_of, is_some,
  arith, ◌≡◌, ◌≢◌, refl, ◌∙◌, eq_iff, eq_refl, All, if_cases,
}
use ocp_spire_operator.Prelude.Int.{ℤ, eq_ℤ_iff}
use ocp_spire_operator.Prelude.Dict.{
  Dict, lookup, insert, lookup-insert, HasDistinctKeys, HasDistinctKeys-insert,
}
use ocp_spire_operator.Compare.Container.{
  ContainerPort, Container, Projection, Volume, keyed_from, keyed, set_and_same, mode_eq, port_key,
  port_matches, ports_match, container_spec_modified, projection_matches, name_matches,
  value_matches, volume_matches, volume_name, volumes_equal, container_name, any_modified,
  containers_modified,
}

module _ {A : Type 0} (key : A → String) where
  -- The items' keys differ from one another.
  abbrev IsNew : String → List A → Type 0
  IsNew k [] = Unit
  IsNew k (x ∷ xs) = (key x ≢ k) × IsNew k xs

  abbrev pub HasDistinct : List A → Type 0
  HasDistinct [] = Unit
  HasDistinct (x ∷ xs) = IsNew (key x) xs × HasDistinct xs

  lookup-keyed_from-new :
      (k : String) (xs : List A) (m : Dict A)
      → IsNew k xs
      → lookup k (keyed_from key xs m) ≡ lookup k m
  unfolding keyed_from
  lookup-keyed_from-new k [] m h = refl
  lookup-keyed_from-new k (x ∷ xs) m (n, h) =
      lookup-keyed_from-new k xs (insert (key x) x m) h
      ∙ ground (arith, lookup-insert (key x) k x m, eq_iff (key x) k, n)

  lookup-keyed_from_self :
      (x : A) (xs : List A) (m : Dict A)
      → IsNew (key x) xs
      → lookup (key x) (keyed_from key xs (insert (key x) x m)) ≡ some x
  lookup-keyed_from_self x xs m n =
      lookup-keyed_from-new (key x) xs (insert (key x) x m) n
      ∙ ground (arith, lookup-insert (key x) (key x) x m, eq_refl (key x))

  -- Each item is the one that its own key finds.
  all_of-keyed_from :
      (P : A → Type 0) (p : A → Option A → Bool)
      → ((x : A) → P x → p x (some x) ≡ true)
      → (xs : List A) (m : Dict A) → HasDistinct xs
      → All P xs
      → all_of (λ x. p x (lookup (key x) (keyed_from key xs m))) xs ≡ true
  unfolding keyed_from
  all_of-keyed_from P p q [] m h w = refl
  all_of-keyed_from P p q (x ∷ xs) m (n, h) (w, ws) =
      rw (lookup-keyed_from_self x xs m n, q x w)
        (all_of-keyed_from P p q xs (insert (key x) x m) h ws)

  -- What holds of every value of a map.
  abbrev AllValues : (A → Type 0) → Dict A → Type 0
  AllValues P [] = Unit
  AllValues P ((k, v) ∷ m) = P v × AllValues P m

  AllValues-insert :
      (P : A → Type 0) (k : String) (v : A) (m : Dict A)
      → P v
      → AllValues P m
      → AllValues P (insert k v m)
  unfolding insert
  AllValues-insert P k v [] p h = (p, h)
  AllValues-insert P k v ((j, w) ∷ m) p (q, h) =
      if_cases (AllValues P) (j == k) ((k, v) ∷ m) ((j, w) ∷ insert k v m) (p, h)
        (q, AllValues-insert P k v m p h)

  AllValues-keyed_from :
      (P : A → Type 0) (xs : List A) (m : Dict A)
      → All P xs
      → AllValues P m
      → AllValues P (keyed_from key xs m)
  unfolding keyed_from
  AllValues-keyed_from P [] m h q = q
  AllValues-keyed_from P (x ∷ xs) m (p, h) q =
      AllValues-keyed_from P xs (insert (key x) x m) h (AllValues-insert P (key x) x m p q)

  HasDistinctKeys-keyed_from :
      (xs : List A) (m : Dict A) → HasDistinctKeys m → HasDistinctKeys (keyed_from key xs m)
  unfolding keyed_from
  HasDistinctKeys-keyed_from [] m h = h
  HasDistinctKeys-keyed_from (x ∷ xs) m h =
      HasDistinctKeys-keyed_from xs (insert (key x) x m) (HasDistinctKeys-insert (key x) x m h)

All-trivial : {A : Type 0} (xs : List A) → All (λ (x : A). Unit {0}) xs
All-trivial [] = tt
All-trivial (x ∷ xs) = (tt, All-trivial xs)

-- No two ports of the container have the same number and protocol.
abbrev pub HasDistinctPorts : {V : Type 0} → Container V → Type 0
HasDistinctPorts c = HasDistinct port_key c.ports

module _ {V : Type 0} (deep_equal : V → V → Bool)
    (deep_equal_refl : (v : V) → deep_equal v v ≡ true) where
  set_and_same_refl : (o : Option V) → set_and_same deep_equal o o ≡ true
  set_and_same_refl none = refl
  set_and_same_refl (some v) = deep_equal_refl v

  ports_match_refl :
      (ps : List (ContainerPort V)) → HasDistinct port_key ps → ports_match deep_equal ps ps ≡ true
  unfolding ports_match
  ports_match_refl ps h = ground (
    arith,
    all_of-keyed_from port_key (λ _. Unit {0}) (port_matches deep_equal)
        (λ p _. deep_equal_refl p.whole) ps [] h (All-trivial ps),
  )

  -- A container is not modified with respect to itself.
  container_spec_modified_refl :
      (c : Container V) → HasDistinctPorts c → container_spec_modified deep_equal c c ≡ false
  unfolding container_spec_modified
  container_spec_modified_refl c h =
      rw
        (
          eq_refl c.name,
          eq_refl c.image,
          eq_refl c.image_pull_policy,
          deep_equal_refl c.command,
          deep_equal_refl c.args,
          deep_equal_refl c.env,
          ports_match_refl c.ports h,
          set_and_same_refl c.readiness_probe,
          set_and_same_refl c.liveness_probe,
          set_and_same_refl c.security_context,
          deep_equal_refl c.volume_mounts,
          deep_equal_refl c.resources,
        )
        refl

  mode_eq_refl : (o : Option ℤ) → mode_eq o o ≡ true
  mode_eq_refl none = refl
  mode_eq_refl (some z) = ground (arith, eq_ℤ_iff z z)

  projection_matches_refl : (o : Option (Projection V)) → projection_matches deep_equal o o ≡ true
  projection_matches_refl none = refl
  projection_matches_refl (some q) =
      rw (eq_refl q.source_name, mode_eq_refl q.default_mode, deep_equal_refl q.items) ground arith

  name_matches_refl : (o : Option String) → name_matches o o ≡ true
  name_matches_refl none = refl
  name_matches_refl (some s) = eq_refl s

  value_matches_refl : (o : Option V) → value_matches deep_equal o o ≡ true
  value_matches_refl none = refl
  value_matches_refl (some v) = deep_equal_refl v

  or_not : (b : Bool) → (not b || b) ≡ true
  or_not b = ground arith

  volume_matches_refl : (v : Volume V) → volume_matches deep_equal v (some v) ≡ true
  unfolding volume_matches
  volume_matches_refl v =
      rw
        (
          projection_matches_refl v.config_map,
          projection_matches_refl v.secret,
          or_not (is_some v.empty_dir),
          name_matches_refl v.host_path,
          name_matches_refl v.persistent_volume_claim,
          value_matches_refl v.projected,
          value_matches_refl v.csi,
        )
        refl

  any_modified_refl :
      (m d : Dict (Container V))
      → ((k : String) (c : Container V) → lookup k d ≡ some c → lookup k m ≡ some c)
      → HasDistinctKeys d
      → AllValues container_name HasDistinctPorts d
      → any_modified deep_equal m d ≡ false
  unfolding lookup
  any_modified_refl m [] h k w = refl
  any_modified_refl m ((k, c) ∷ d) h (f, ks) (p, ws) =
      let rest =
        any_modified_refl m d (λ j e found. h j e (ground (arith, eq_iff k j, f, found))) ks ws in
      rw (h k c (ground (arith, eq_refl k)), container_spec_modified_refl c p) rest

  -- A list of volumes with distinct names is equal to itself.
  pub volumes_equal_refl :
      (vs : List (Volume V)) → HasDistinct volume_name vs → volumes_equal deep_equal vs vs ≡ true
  unfolding volumes_equal
  volumes_equal_refl vs h = ground (
    arith,
    all_of-keyed_from volume_name (λ _. Unit {0}) (volume_matches deep_equal)
        (λ v _. volume_matches_refl v) vs [] h (All-trivial vs),
  )

  -- A list of containers is not modified with respect to itself; a name may occur twice in it.
  pub containers_modified_refl :
      (cs : List (Container V))
      → All HasDistinctPorts cs
      → containers_modified deep_equal cs cs ≡ false
  unfolding containers_modified
  containers_modified_refl cs h = ground (
    arith,
    any_modified_refl (keyed container_name cs) (keyed container_name cs) (λ k c found. found)
        (HasDistinctKeys-keyed_from container_name cs [] tt)
        (AllValues-keyed_from container_name HasDistinctPorts cs [] h tt),
  )

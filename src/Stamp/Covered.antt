-- ===== src/Stamp/Covered.antt =====
-- What a stamp reads back as.
use Prim.Native.Char.{Char}
use houba.Common.{
  ℕ, String, ◌≡◌, refl, ap, ◌∙◌, ◌⊎◌, inl, inr, Bool-cases, true, false, Option, none, some, List,
  [], ◌∷◌, is_some,
}
use houba.Common.Chars.{is_empty}
use houba.Common.Dict.{Dict, get, put, get-put, has-is_some, update}
use houba.Common.Eq.{string_eq}
use houba.Common.Keys.{◌⊕◌, prefix_eq}
use houba.Errors.{Result, ok, raise, config_error, policy_validation_error}
use houba.Stamp.{
  base_digest_key, Lineage, ImageOrigin, GitOrigin, TransformStamp, lineage_annotations,
  put_transform, put_revision, oci_created_and_vendor, build_stamp_annotations,
  build_git_stamp_annotations, is_stamped,
}
use houba.Stamp.Keys.{
  type_ne_base_digest, policy_ne_base_digest, owners_ne_base_digest, steps_ne_base_digest,
  version_ne_base_digest, import_ne_base_digest, variant_ne_base_digest,
}

lineage-base_digest :
    (p : String) (owners : Option (List String)) (artifact_type policy import_name variant : String)
    (d : Dict String String)
    → get base_digest_key (
        update
          (lineage_annotations p (record {
            owners = owners;
            artifact_type = artifact_type;
            policy = policy;
            import_name = import_name;
            variant = variant;
          }))
          d)
      ≡ get base_digest_key d
unfolding lineage_annotations update put
lineage-base_digest String.[] owners t a i v d = refl
lineage-base_digest (String.◌∷◌ c p) none t a i v d =
    let q : String = String.◌∷◌ c p in
    simp (
      get-put,
      type_ne_base_digest q,
      policy_ne_base_digest q,
      import_ne_base_digest q,
      variant_ne_base_digest q,
    )
lineage-base_digest (String.◌∷◌ c p) (some []) t a i v d =
    let q : String = String.◌∷◌ c p in
    simp (
      get-put,
      type_ne_base_digest q,
      policy_ne_base_digest q,
      import_ne_base_digest q,
      variant_ne_base_digest q,
    )
lineage-base_digest (String.◌∷◌ c p) (some (o ∷ os)) t a i v d =
    let q : String = String.◌∷◌ c p in
    simp (
      prefix_eq,
      get-put,
      type_ne_base_digest q,
      policy_ne_base_digest q,
      import_ne_base_digest q,
      variant_ne_base_digest q,
      owners_ne_base_digest q,
    )

put_transform-base_digest :
    (p : String) (steps : Option (List String)) (version : Option String) (d : Dict String String)
    → get base_digest_key (put_transform p steps version d) ≡ get base_digest_key d
put_transform-base_digest p none version d = refl
put_transform-base_digest p (some []) version d = refl
put_transform-base_digest p (some (s ∷ ss)) none d = refl
put_transform-base_digest String.[] (some (s ∷ ss)) (some v) d = refl
put_transform-base_digest (String.◌∷◌ c p) (some (s ∷ ss)) (some v) d =
    let q : String = String.◌∷◌ c p in
    simp (get-put, steps_ne_base_digest q, version_ne_base_digest q)

put_revision-base_digest :
    (revision : Option String) (d : Dict String String)
    → get base_digest_key (put_revision revision d) ≡ get base_digest_key d
put_revision-base_digest none d = refl
put_revision-base_digest (some revision) d = simp get-put

-- The identity under a prefix that is not empty: policy, import and variant.
abbrev pub identity_in : String → Dict String String → Option String × Option String × Option String
identity_in p d = (get (p ⊕ ".policy") d, get (p ⊕ ".import") d, get (p ⊕ ".variant") d)

abbrev pub identity_of : Lineage → Option String × Option String × Option String
identity_of l = (some l.policy, some l.import_name, some l.variant)

lineage-identity :
    (c : Char) (p : String) (owners : Option (List String))
    (artifact_type policy import_name variant : String) (d : Dict String String)
    → identity_in (String.◌∷◌ c p) (
        update
          (lineage_annotations (String.◌∷◌ c p) (record {
            owners = owners;
            artifact_type = artifact_type;
            policy = policy;
            import_name = import_name;
            variant = variant;
          }))
          d)
      ≡ (some policy, some import_name, some variant)
unfolding lineage_annotations update put
lineage-identity c p none t a i v d = simp (prefix_eq, get-put)
lineage-identity c p (some []) t a i v d = simp (prefix_eq, get-put)
lineage-identity c p (some (o ∷ os)) t a i v d = simp (prefix_eq, get-put)

put_transform-identity :
    (c : Char) (p : String) (steps : Option (List String)) (version : Option String)
    (d : Dict String String)
    → identity_in (String.◌∷◌ c p) (put_transform (String.◌∷◌ c p) steps version d)
      ≡ identity_in (String.◌∷◌ c p) d
put_transform-identity c p none version d = refl
put_transform-identity c p (some []) version d = refl
put_transform-identity c p (some (s ∷ ss)) none d = refl
put_transform-identity c p (some (s ∷ ss)) (some v) d = simp (prefix_eq, get-put)

-- A stamp that carries the identity or, without a prefix, the base digest.
is_stamped-of :
    (p : String) (l : Lineage) (digest : String) (d : Dict String String)
    → get base_digest_key d ≡ some digest
    → (is_empty p ≡ false → identity_in p d ≡ identity_of l)
    → is_stamped d p ≡ true
unfolding is_stamped
is_stamped-of String.[] l digest d h k = has-is_some base_digest_key d ∙ ap is_some h
is_stamped-of (String.◌∷◌ c p) l digest d h k =
    has-is_some (String.◌∷◌ c p ⊕ ".policy") d ∙ ap (λ x. is_some x.0) (k refl)

-- What a stamp from a git source is: covered, and with no base digest made up.
pub record IsGitStamp (prefix : String) (l : Lineage) (d : Dict String String) : Type 0 where
  pub covered : is_stamped d prefix ≡ true
  pub identity : identity_in prefix d ≡ identity_of l
  pub no_base : get base_digest_key d ≡ none

-- What a stamp from a git source promises for each outcome of the call.
abbrev pub IsGitOutcome : String → GitOrigin → Lineage → Result (Dict String String) → Type 0
IsGitOutcome prefix origin l (ok d) =
    (is_empty prefix ≡ false) × (is_empty origin.revision ≡ false) × IsGitStamp prefix l d
IsGitOutcome prefix origin l (raise exc) =
    ((exc ≡ config_error) × (is_empty prefix ≡ true))
    ⊎ ((exc ≡ policy_validation_error) × (is_empty origin.revision ≡ true))

module _ (isoformat : ℕ → String) where
  created-base_digest :
      (created : ℕ) (vendor : Option String) (d : Dict String String)
      → get base_digest_key (update (oci_created_and_vendor isoformat created vendor) d)
        ≡ get base_digest_key d
  unfolding oci_created_and_vendor update put
  created-base_digest created none d = simp get-put
  created-base_digest created (some String.[]) d = simp get-put
  created-base_digest created (some (String.◌∷◌ c v)) d = simp get-put

  -- Whatever the prefix, the transform and the owners, a stamp carries the source's digest under
  -- the key that the next reconciliation compares.
  pub build_stamp-base_digest :
      (prefix : String) (origin : ImageOrigin) (created : ℕ) (vendor : Option String) (l : Lineage)
      (t : TransformStamp)
      → get base_digest_key (build_stamp_annotations isoformat prefix origin created vendor l t)
        ≡ some origin.source_digest
  unfolding build_stamp_annotations get
  build_stamp-base_digest prefix origin created vendor l t =
      put_transform-base_digest prefix t.transform_steps t.transform_version_value _
      ∙ lineage-base_digest prefix l.owners l.artifact_type l.policy l.import_name l.variant _
      ∙ put_revision-base_digest origin.source_revision _
      ∙ created-base_digest created vendor _

  -- Under a prefix, a stamp carries the policy, the import and the variant that it was built for.
  pub build_stamp-identity :
      (prefix : String) (origin : ImageOrigin) (created : ℕ) (vendor : Option String) (l : Lineage)
      (t : TransformStamp)
      → is_empty prefix ≡ false
      → identity_in prefix (build_stamp_annotations isoformat prefix origin created vendor l t)
        ≡ identity_of l
  unfolding build_stamp_annotations
  build_stamp-identity String.[] origin created vendor l t h = cc
  build_stamp-identity (String.◌∷◌ c p) origin created vendor l t h =
      put_transform-identity c p t.transform_steps t.transform_version_value _
      ∙ lineage-identity c p l.owners l.artifact_type l.policy l.import_name l.variant _

  -- Every stamp of an image reads back as covered, with a prefix or without.
  pub build_stamp-is_stamped :
      (prefix : String) (origin : ImageOrigin) (created : ℕ) (vendor : Option String) (l : Lineage)
      (t : TransformStamp)
      → is_stamped (build_stamp_annotations isoformat prefix origin created vendor l t) prefix
        ≡ true
  build_stamp-is_stamped prefix origin created vendor l t =
      is_stamped-of prefix l origin.source_digest _
        (build_stamp-base_digest prefix origin created vendor l t)
        (build_stamp-identity prefix origin created vendor l t)

  -- Stamping an artifact from a git source refuses an empty prefix and an empty revision, and
  -- nothing else; the stamp that it builds reads back as covered, with its policy, import and
  -- variant, and carries no base digest.
  pub build_git_stamp-outcome :
      (prefix : String) (origin : GitOrigin) (created : ℕ) (vendor : Option String) (l : Lineage)
      → IsGitOutcome prefix origin l
          (build_git_stamp_annotations isoformat prefix origin created vendor l)
  unfolding build_git_stamp_annotations is_stamped get
  build_git_stamp-outcome String.[] origin created vendor l = inl (refl, refl)
  build_git_stamp-outcome (String.◌∷◌ c p) origin created vendor l =
      elim (Bool-cases (is_empty origin.revision)) [
        | inl e ↦ rw e (inr (refl, e))
        | inr e ↦
            let named =
              lineage-identity c p l.owners l.artifact_type l.policy l.import_name l.variant _ in
            rw e (
              refl,
              e,
              record {
                covered = has-is_some (String.◌∷◌ c p ⊕ ".policy") _ ∙ ap (λ x. is_some x.0) named;
                identity = named;
                no_base =
                    lineage-base_digest (String.◌∷◌ c p) l.owners l.artifact_type l.policy
                      l.import_name l.variant _
                    ∙ created-base_digest created vendor _;
              },
            )
      ]

-- ===== src/Container/Manifest/Dispatch.antt =====
-- Which configs create_or_download_config of plugins/beiran_package_container/container.py returns, by
-- the schema and the media type of the manifest.
use beiran.Base.{Option, Text, ap, arith, codes, false}
use beiran.Base.{inl, inr, none, refl, same, some, true}
use beiran.Base.{◌∙◌, ◌↔◌, ◌≡◌, ◌⊎◌}
use beiran.Base.Dict.{lookup}
use beiran.Container.Manifest.{Config, Manifest, Puller, SchemaHeader}
use beiran.Container.Manifest.{create_or_download_config, fetch, fetch_manifest_list}
use beiran.Container.Manifest.{find_platform, image_media, join_schema, list_media}
use beiran.Container.Manifest.{no_login, of_list, platform_media, pull_image, pull_platform}
use beiran.Container.Manifest.Cases.{IsPicked, find_platform_iff, media_iff, then_pull_iff}
use beiran.Container.Manifest.Cases.{versions_iff}
use beiran.Container.Registry.{failed, fetch_image_manifest, manifest_failed}
use beiran.Container.Registry.{fetch_manifest_failed, manifest_url, no_type_match, pulled}
use beiran.Container.Registry.Granted.{IsAnswered, request-IsAnswered}
use beiran.ImageRef.{Ref, add_idpref, normalize_ref}

module _ (P : Puller) (header : SchemaHeader) where
  -- Whether the registry has a manifest for a reference.
  abbrev pub Serves : Ref → Text → Manifest → Type 0
  Serves ref tag_or_digest m =
      IsAnswered P.registry no_login (manifest_url ref.domain ref.repo tag_or_digest)
        (join_schema header) m

  fetch_iff :
      (ref : Ref) (t : Text) (m : Manifest) → (fetch P header ref t ≡ pulled m) ↔ Serves ref t m
  unfolding fetch fetch_image_manifest
  fetch_iff ref t m =
      request-IsAnswered P.registry fetch_manifest_failed no_login
        (manifest_url ref.domain ref.repo t) (join_schema header) m

  -- The config of a manifest that is not a list.
  abbrev pub IsConfigOf : Ref → Manifest → Config → Type 0
  IsConfigOf ref m c =
      ((m.schema_version ≡ 1) × (P.fetch_config_schema_v1 ref m ≡ pulled c))
      ⊎ ((m.schema_version ≡ 2)
          × ((t : Text) × (m.media_type ≡ some t)
              × (lookup (codes "manifest") header ≡ some t)
              × (P.fetch_config_schema_v2 ref m ≡ pulled c)))

  -- The config of the manifest of the machine's entry in a list, with the digest of the list.
  abbrev pub IsListed : Ref → Manifest → Config → Type 0
  IsListed ref list c =
      (d : Text) × IsPicked P.go_arch P.go_os list.manifests d
      × ((m : Manifest) × Serves ref d m
          × ((own : Config) × IsConfigOf ref m own
              × (c ≡ (own.0, own.1, add_idpref (P.hexdigest (P.dumps list))))))

  abbrev pub IsConfigOfImage : Ref → Manifest → Config → Type 0
  IsConfigOfImage ref m c =
      IsConfigOf ref m c
      ⊎ ((m.schema_version ≡ 2)
          × ((t : Text) × (v : Text) × (m.media_type ≡ some t)
              × (lookup (codes "manifest") header ≡ some v)
              × (same t v ≡ false)
              × (lookup (codes "manifest-list") header ≡ some t)
              × IsListed ref m c))

  platform_media_iff :
      (ref : Ref) (m : Manifest) (o : Option Text) (c : Config)
      → (platform_media P header ref m o ≡ pulled c) ↔ (
          (t : Text) × (o ≡ some t)
          × (lookup (codes "manifest") header ≡ some t)
          × (P.fetch_config_schema_v2 ref m ≡ pulled c))
  unfolding platform_media
  platform_media_iff ref m none c = (λ h. absurd cc, λ (t, e, k, g). absurd cc)
  platform_media_iff ref m (some t) c =
      let iff =
        media_iff (lookup (codes "manifest") header) t (P.fetch_config_schema_v2 ref m)
          (failed no_type_match) c in
      (
        λ h. elim (iff.0 h) [ inl (e, g) ↦ (t, refl, e, g) | inr (v, e, f, g) ↦ absurd cc ],
        λ (u, e, k, g). let same_type : t ≡ u = ground arith in iff.1 (inl (rw same_type k, g)),
      )

  pull_platform_iff :
      (ref : Ref) (m : Manifest) (c : Config)
      → (pull_platform P header ref m ≡ pulled c) ↔ IsConfigOf ref m c
  unfolding pull_platform
  pull_platform_iff ref m c =
      let iff =
        versions_iff m.schema_version (P.fetch_config_schema_v1 ref m)
          (platform_media P header ref m m.media_type) manifest_failed c in
      let media = platform_media_iff ref m m.media_type c in
      (
        λ h. elim (iff.0 h) [ inl one ↦ inl one | inr (two, g) ↦ inr (two, media.0 g) ],
        λ h. elim h [ inl one ↦ iff.1 (inl one) | inr (two, g) ↦ iff.1 (inr (two, media.1 g)) ],
      )

  of_list_iff :
      (list : Manifest) (own c : Config)
      → (of_list P header list own ≡ pulled c)
        ↔ (c ≡ (own.0, own.1, add_idpref (P.hexdigest (P.dumps list))))
  unfolding of_list
  of_list_iff list own c = (λ h. cc, λ h. cc)

  fetch_manifest_list_iff :
      (ref : Ref) (list : Manifest) (c : Config)
      → (fetch_manifest_list P header ref list ≡ pulled c) ↔ IsListed ref list c
  unfolding fetch_manifest_list
  fetch_manifest_list_iff ref list c = (to, from)
    where
      to : fetch_manifest_list P header ref list ≡ pulled c → IsListed ref list c
      to h =
          let (own, made, e) = (then_pull_iff _ (of_list P header list) c).0 h in
          let (d, picked, f) =
            (then_pull_iff (find_platform P.go_arch P.go_os list.manifests) _ own).0 made in
          let (m, served, g) =
            (then_pull_iff (fetch P header ref d) (pull_platform P header ref) own).0 f in
          (
            d,
            (find_platform_iff P.go_arch P.go_os list.manifests d).0 picked,
            (
              m,
              (fetch_iff ref d m).0 served,
              (own, (pull_platform_iff ref m own).0 g, (of_list_iff list own c).0 e),
            ),
          )

      from : IsListed ref list c → fetch_manifest_list P header ref list ≡ pulled c
      from (d, picked, (m, served, (own, config, e))) =
          (then_pull_iff _ (of_list P header list) c).1 (
            own,
            (then_pull_iff (find_platform P.go_arch P.go_os list.manifests) _ own).1 (
              d,
              (find_platform_iff P.go_arch P.go_os list.manifests d).1 picked,
              (then_pull_iff (fetch P header ref d) (pull_platform P header ref) own).1
                  (m, (fetch_iff ref d m).1 served, (pull_platform_iff ref m own).1 config),
            ),
            (of_list_iff list own c).1 e,
          )

  list_media_iff :
      (ref : Ref) (m : Manifest) (t : Text) (c : Config)
      → (list_media P header ref m t ≡ pulled c)
        ↔ ((lookup (codes "manifest-list") header ≡ some t) × IsListed ref m c)
  unfolding list_media
  list_media_iff ref m t c =
      let iff =
        media_iff (lookup (codes "manifest-list") header) t (fetch_manifest_list P header ref m)
          (failed no_type_match) c in
      let listed = fetch_manifest_list_iff ref m c in
      (
        λ h. elim (iff.0 h) [ inl (e, g) ↦ (e, listed.0 g) | inr (v, e, f, g) ↦ absurd cc ],
        λ (e, g). iff.1 (inl (e, listed.1 g)),
      )

  image_media-to :
      (ref : Ref) (m : Manifest) (o : Option Text) (c : Config)
      → m.schema_version ≡ 2
      → m.media_type ≡ o
      → image_media P header ref m o ≡ pulled c
      → IsConfigOfImage ref m c
  unfolding image_media
  image_media-to ref m none c two media h = absurd cc
  image_media-to ref m (some t) c two media h =
      elim ((media_iff (lookup (codes "manifest") header) t (P.fetch_config_schema_v2 ref m)
          (list_media P header ref m t) c).0
        h) [
          | inl (e, g) ↦ inl (inr (two, (t, media, e, g)))
          | inr (v, e, f, g) ↦
              let (k, listed) = (list_media_iff ref m t c).0 g in
              inr (two, (t, v, media, e, f, k, listed))
        ]

  pull_image_iff :
      (ref : Ref) (m : Manifest) (c : Config)
      → (pull_image P header ref m ≡ pulled c) ↔ IsConfigOfImage ref m c
  unfolding pull_image image_media
  pull_image_iff ref m c = (
    λ h. elim (iff.0 h) [
      | inl one ↦ inl (inl one)
      | inr (two, g) ↦ image_media-to ref m m.media_type c two refl g
    ],
    λ h. elim h [
      | inl (inl one) ↦ iff.1 (inl one)
      | inl (inr (two, (t, media, e, g))) ↦
          iff.1 (inr (two, on_type media ∙ (at_type t).1 (inl (e, g))))
      | inr (two, (t, v, media, e, f, k, listed)) ↦ iff.1 (
          inr (
            two,
            on_type media ∙ (at_type t).1 (inr (v, e, f, (list_media_iff ref m t c).1 (k, listed))),
          ))
    ],
  )
    where
      iff : (pull_image P header ref m ≡ pulled c) ↔ (
          ((m.schema_version ≡ 1) × (P.fetch_config_schema_v1 ref m ≡ pulled c))
          ⊎ ((m.schema_version ≡ 2) × (image_media P header ref m m.media_type ≡ pulled c)))
      iff =
          versions_iff m.schema_version (P.fetch_config_schema_v1 ref m)
            (image_media P header ref m m.media_type) manifest_failed c

      on_type :
          {o : Option Text}
          → m.media_type ≡ o
          → image_media P header ref m m.media_type ≡ image_media P header ref m o
      on_type e = ap (λ o. image_media P header ref m o) e

      at_type :
          (t : Text)
          → (image_media P header ref m (some t) ≡ pulled c) ↔ (
              ((lookup (codes "manifest") header ≡ some t)
                × (P.fetch_config_schema_v2 ref m ≡ pulled c))
              ⊎ ((v : Text) × (lookup (codes "manifest") header ≡ some v)
                  × (same t v ≡ false)
                  × (list_media P header ref m t ≡ pulled c)))
      at_type t =
          media_iff (lookup (codes "manifest") header) t (P.fetch_config_schema_v2 ref m)
            (list_media P header ref m t) c

  -- create_or_download_config returns a config for a tag exactly if the registry has a manifest for the
  -- tag, asked for with all media types of the header, and: the manifest has schema 1, or schema 2 and
  -- the header's media type of a manifest, and the handler of its schema makes the config of it; or it
  -- has schema 2 and the header's other media type, that of a list, the registry has a manifest for the
  -- first entry of the list for this machine, which is not a list, the handler of its schema makes a
  -- config of it, and the config returned is this one with the digest of the list in place of its own.
  pub create_or_download_config_iff :
      (tag : Text) (c : Config)
      → (create_or_download_config P header tag ≡ pulled c) ↔ (
          (m : Manifest) × Serves (normalize_ref true tag) (normalize_ref true tag).suffix m
          × IsConfigOfImage (normalize_ref true tag) m c)
  unfolding create_or_download_config
  create_or_download_config_iff tag c =
      let ref = normalize_ref true tag in
      let iff = then_pull_iff (fetch P header ref ref.suffix) (pull_image P header ref) c in
      (
        λ h.
            let (m, served, g) = iff.0 h in
            (m, (fetch_iff ref ref.suffix m).0 served, (pull_image_iff ref m c).0 g),
        λ (m, served, g).
            iff.1 (m, (fetch_iff ref ref.suffix m).1 served, (pull_image_iff ref m c).1 g),
      )

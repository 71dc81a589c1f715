-- ===== src/Venv/Cache.antt =====
-- `evaluate_cache` of crates/cpex-hosts-python/src/venv.rs: when a cached environment is used again.
use cpex.Prelude.{
  ◌≡◌, refl, true, false, String, Option, none, some, ◌↔◌, arith, eq_iff, Bool-cases, Option-cases,
  inl, inr,
}
use cpex.Result.{Serde, parsed, Serde-cases}
use cpex.Venv.{CacheMetadata, valid, judge, differs, evaluate_cache}
use cpex.Venv.FileSystem.{Disk, path_exists, read_file}

-- What the metadata has is what is expected now; a signal that it has not says nothing.
abbrev pub Agrees : Option String → Option String → Type 0
Agrees cached expected = (s : String) → cached ≡ some s → expected ≡ some s

differs-Agrees :
    (cached expected : Option String) → differs cached expected ≡ false → Agrees cached expected
differs-Agrees none expected h s e = cc
differs-Agrees (some c) none h s e = cc
differs-Agrees (some c) (some x) h s e = ground (arith, eq_iff c x)

Agrees-differs :
    (cached expected : Option String) → Agrees cached expected → differs cached expected ≡ false
Agrees-differs none expected h = refl
Agrees-differs (some c) none h = let e = h c refl in cc
Agrees-differs (some c) (some x) h = let e = h c refl in ground (arith, eq_iff c x)

-- An environment whose metadata was written for the inputs of now.
pub record IsUsable (parse : String → Serde CacheMetadata)
    (venv_path metadata_path requirements : String) (version manifest : Option String) (d : Disk)
    : Type 0 where
  pub venv : path_exists venv_path d ≡ true
  pub raw : String
  pub metadata : CacheMetadata
  pub stored : read_file metadata_path d ≡ some raw
  pub is_metadata : parse raw ≡ parsed metadata
  pub same_requirements : metadata.requirements_hash ≡ requirements
  pub same_version : Agrees metadata.manifest_version version
  pub same_manifest : Agrees metadata.manifest_hash manifest

judge-valid :
    (m : CacheMetadata) (requirements : String) (version manifest : Option String)
    → judge m requirements version manifest ≡ valid
    → (m.requirements_hash ≡ requirements)
      × (differs m.manifest_version version ≡ false)
      × (differs m.manifest_hash manifest ≡ false)
unfolding judge
judge-valid m requirements version manifest h =
    ground (arith, eq_iff m.requirements_hash requirements)

valid-judge :
    (m : CacheMetadata) (requirements : String) (version manifest : Option String)
    → m.requirements_hash ≡ requirements
    → differs m.manifest_version version ≡ false
    → differs m.manifest_hash manifest ≡ false
    → judge m requirements version manifest ≡ valid
unfolding judge
valid-judge m requirements version manifest r v h =
    rw (v, h) (ground (arith, eq_iff m.requirements_hash requirements))

pub path_exists-read :
    (p text : String) (d : Disk) → read_file p d ≡ some text → path_exists p d ≡ true
unfolding path_exists
path_exists-read p text d h = rw h (ground arith)

module _ (parse : String → Serde CacheMetadata) (venv_path metadata_path requirements : String)
    (version manifest : Option String) (d : Disk) where
  Usable : Type 0
  Usable = IsUsable parse venv_path metadata_path requirements version manifest d

  evaluate_cache-Usable :
      evaluate_cache parse venv_path metadata_path requirements version manifest d ≡ valid → Usable
  unfolding evaluate_cache Usable
  evaluate_cache-Usable h = elim (Bool-cases (path_exists venv_path d)) [
    | inr absent ↦ let off = rw absent at h in cc
    | inl there ↦ elim (Bool-cases (path_exists metadata_path d)) [
      | inr absent ↦ let off = rw (there, absent) at h in cc
      | inl written ↦ elim (Option-cases (read_file metadata_path d)) [
        | inl missing ↦ let off = rw (there, written, missing) at h in cc
        | inr (raw, stored) ↦ elim (Serde-cases (parse raw)) [
          | inl (e, bad) ↦ let off = rw (there, written, stored, bad) at h in cc
          | inr (m, good) ↦
              let (same, v, k) =
                judge-valid m requirements version manifest
                  (rw (there, written, stored, good) at h) in
              record {
                venv = there;
                raw = raw;
                metadata = m;
                stored = stored;
                is_metadata = good;
                same_requirements = same;
                same_version = differs-Agrees m.manifest_version version v;
                same_manifest = differs-Agrees m.manifest_hash manifest k;
              }
        ]
      ]
    ]
  ]

  Usable-evaluate_cache :
      Usable → evaluate_cache parse venv_path metadata_path requirements version manifest d ≡ valid
  unfolding evaluate_cache Usable
  Usable-evaluate_cache u =
      rw (u.venv, path_exists-read metadata_path u.raw d u.stored, u.stored, u.is_metadata)
        (valid-judge u.metadata requirements version manifest u.same_requirements
          (Agrees-differs u.metadata.manifest_version version u.same_version)
          (Agrees-differs u.metadata.manifest_hash manifest u.same_manifest))

-- The cache is valid exactly if the environment stands, and the metadata is read, parses, and was written for
-- the requirements of now, and for the version and the manifest of now where it names them.
pub evaluate_cache_lem :
    (parse : String → Serde CacheMetadata) (venv_path metadata_path requirements : String)
    (version manifest : Option String) (d : Disk)
    → (evaluate_cache parse venv_path metadata_path requirements version manifest d ≡ valid)
      ↔ IsUsable parse venv_path metadata_path requirements version manifest d
unfolding Usable
evaluate_cache_lem parse venv_path metadata_path requirements version manifest d = (
  evaluate_cache-Usable parse venv_path metadata_path requirements version manifest d,
  Usable-evaluate_cache parse venv_path metadata_path requirements version manifest d,
)

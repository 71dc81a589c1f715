-- ===== src/Venv/Manager/Stays.antt =====
-- `cache_verdict` in crates/cpex-hosts-python/src/venv.rs across a change of the disk.
use cpex.Prelude.{◌≡◌, refl, ◌∙◌, sym, ap, Bool, true, false, String, Option, none, some, ◌==◌}
use cpex.Result.{ok, parsed}
use cpex.Venv.{CacheMetadata, valid, hash_file_or_empty}
use cpex.Venv.Cache.{IsUsable, evaluate_cache_lem}
use cpex.Venv.FileSystem.{Disk, path_exists}
use cpex.Venv.FileSystem.Frame.{Frame, put_file-Frame, read_file-put_file, path_exists-put_file}
use cpex.Venv.Tools.{VenvManager, Tools}
use cpex.Venv.Manager.{cache_verdict, current_metadata, save_metadata}
use cpex.Venv.Manager.Steps.{save_metadata-eq-ok}

-- The file, if there is one to look at, is not touched.
abbrev pub Spares : (String → Bool) → Option String → Type 0
Spares touched path = (p : String) → path ≡ some p → touched p ≡ false

pub Spares-some :
    (touched : String → Bool) (path : String) → touched path ≡ false → Spares touched (some path)
Spares-some touched path apart p e = cc

pub hash_file_or_empty-Frame :
    (sha256 : String → String) {touched : String → Bool} (path : Option String) {d d' : Disk}
    → Spares touched path
    → Frame touched d d'
    → hash_file_or_empty sha256 path d' ≡ hash_file_or_empty sha256 path d
unfolding hash_file_or_empty
hash_file_or_empty-Frame sha256 none apart f = refl
hash_file_or_empty-Frame sha256 (some p) apart f = rw (f.files p (apart p refl)) refl

-- The files that the verdict on a cache reads.
pub record SparesInputs (touched : String → Bool) (m : VenvManager) : Type 0 where
  pub metadata : touched m.layout.metadata_path ≡ false
  pub manifest : touched m.layout.manifest_path ≡ false
  pub requirements : Spares touched m.requirements_file

module _ (t : Tools) (m : VenvManager) where
  UsableNow : Disk → Type 0
  UsableNow d =
      IsUsable t.metadata_of m.layout.venv_path m.layout.metadata_path
        (hash_file_or_empty t.sha256 m.requirements_file d) m.manifest_version
        (some (hash_file_or_empty t.sha256 (some m.layout.manifest_path) d)) d

  cache_verdict-usable : (d : Disk) → cache_verdict t m d ≡ valid → UsableNow d
  unfolding cache_verdict UsableNow
  cache_verdict-usable d h = (evaluate_cache_lem _ _ _ _ _ _ d).0 h

  usable-cache_verdict : (d : Disk) → UsableNow d → cache_verdict t m d ≡ valid
  unfolding cache_verdict UsableNow
  usable-cache_verdict d u = (evaluate_cache_lem _ _ _ _ _ _ d).1 u

  pub cache_verdict-exists :
      (d : Disk) → cache_verdict t m d ≡ valid → path_exists m.layout.venv_path d ≡ true
  unfolding UsableNow
  cache_verdict-exists d h = (cache_verdict-usable d h).venv

  -- A valid cache stays valid while its files are not touched and the environment stands.
  pub cache_verdict-Frame :
      {touched : String → Bool} {d d' : Disk}
      → SparesInputs touched m
      → Frame touched d d'
      → path_exists m.layout.venv_path d' ≡ true
      → cache_verdict t m d ≡ valid
      → cache_verdict t m d' ≡ valid
  unfolding UsableNow
  cache_verdict-Frame {d = d} {d' = d'} apart f stands h =
      let u = cache_verdict-usable d h in
      usable-cache_verdict d' record {
        venv = stands;
        raw = u.raw;
        metadata = u.metadata;
        stored = f.files _ apart.metadata ∙ u.stored;
        is_metadata = u.is_metadata;
        same_requirements =
            u.same_requirements
            ∙ sym (hash_file_or_empty-Frame t.sha256 m.requirements_file apart.requirements f);
        same_version = u.same_version;
        same_manifest = λ s e.
            ap some (
              hash_file_or_empty-Frame t.sha256 (some m.layout.manifest_path)
                (Spares-some _ m.layout.manifest_path apart.manifest) f)
            ∙ u.same_manifest s e;
      }

  -- Saving the metadata makes the cache of an environment that stands valid.
  pub save_metadata-valid :
      (d d' : Disk)
      → ((x : CacheMetadata) (text : String)
          → t.metadata_text x ≡ parsed text
          → t.metadata_of text ≡ parsed x)
      → (m.layout.manifest_path == m.layout.metadata_path) ≡ false
      → Spares (λ p. p == m.layout.metadata_path) m.requirements_file
      → path_exists m.layout.venv_path d ≡ true
      → save_metadata t m d ≡ (ok tt, d')
      → cache_verdict t m d' ≡ valid
  unfolding UsableNow current_metadata hash_file_or_empty
  save_metadata-valid d d' round_trip manifest requirements stands h =
      let (text, printed, put) = save_metadata-eq-ok t m d d' h in
      let f = put_file-Frame m.layout.metadata_path text d in
      rw put (
        usable-cache_verdict _ record {
          venv = path_exists-put_file m.layout.venv_path _ text d stands;
          raw = text;
          metadata = current_metadata t m d;
          stored = read_file-put_file m.layout.metadata_path text d;
          is_metadata = round_trip _ text printed;
          same_requirements =
              sym (hash_file_or_empty-Frame t.sha256 m.requirements_file requirements f);
          same_version = λ s e. e;
          same_manifest = λ s e.
              ap some (
                hash_file_or_empty-Frame t.sha256 (some m.layout.manifest_path)
                  (Spares-some _ m.layout.manifest_path manifest) f)
              ∙ e;
        })

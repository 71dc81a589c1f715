-- ===== src/Venv/Manager/Samples.antt =====
-- Tools, plugins and a disk to run the manager of crates/cpex-hosts-python/src/venv.rs on. The tools
-- know the texts of a table, `python3 -m venv` makes a directory, and pip writes a file below it.
use Prim.Native.String.{◌++◌}
use cpex.Prelude.{
  ◌≡◌, refl, sym, ap, Bool, true, false, ◌&&◌, String, Option, none, some, List, [], ◌∷◌, ◌==◌,
  lookup, arith, eq_iff, Bool-cases, inl, inr, if◌then◌else◌,
}
use cpex.Text.{starts_with}
use cpex.Json.{pos}
use cpex.Result.{Serde, parsed, refused}
use cpex.Venv.{CacheMetadata}
use cpex.Venv.FileSystem.{Disk, Faults, put_file, make_dir, path_exists, is_dir, is_within}
use cpex.Venv.FileSystem.Frame.{Frame-weaken, put_file-Frame, make_dir-Frame, path_exists-put_file}
use cpex.Venv.Tools.{VenvManager, Tools, exited}
use cpex.Venv.Manager.Stays.{Spares-some, SparesInputs}
use cpex.Venv.Manager.Ensure.{Reliable, Separate}
use cpex.Venv.Manager.Shared.{Contained, footprint}

-- A serializer that knows a table of texts.
module _ {X : Type 0} where
  abbrev pub print_in : (X → X → Bool) → List (String × X) → X → Serde String
  print_in same [] x = refused "not in the table"
  print_in same ((text, y) ∷ table) x = if same x y then parsed text else print_in same table x

  abbrev pub Reads : (String → Serde X) → List (String × X) → Type 0
  Reads parse [] = Unit
  Reads parse ((text, y) ∷ table) = (parse text ≡ parsed y) × Reads parse table

  pub print_in-Reads :
      (same : X → X → Bool)
      → ((x y : X) → same x y ≡ true → x ≡ y)
      → (parse : String → Serde X) (table : List (String × X)) → Reads parse table
      → (x : X) (text : String) → print_in same table x ≡ parsed text
      → parse text ≡ parsed x
  print_in-Reads same equal parse [] reads x text h = cc
  print_in-Reads same equal parse ((key, y) ∷ table) (here, reads) x text h =
      elim (Bool-cases (same x y)) [
        | inl e ↦ let eq = equal x y e in let at_key = rw e at h in cc
        | inr e ↦ print_in-Reads same equal parse table reads x text (rw e at h)
      ]

abbrev pub parse_in {ℓ} : {X : Type ℓ} → List (String × X) → String → Serde X
parse_in table text = elim (lookup text table) [
  | none ↦ refused "not in the table"
  | some x ↦ parsed x
]

abbrev pub same_option : Option String → Option String → Bool
same_option none none = true
same_option (some a) (some b) = a == b
same_option none (some b) = false
same_option (some a) none = false

same_option-eq : (a b : Option String) → same_option a b ≡ true → a ≡ b
same_option-eq none none h = refl
same_option-eq (some a) (some b) h = ap some ((eq_iff a b).0 h)
same_option-eq none (some b) h = cc
same_option-eq (some a) none h = cc

abbrev pub same_list : List String → List String → Bool
same_list [] [] = true
same_list (a ∷ xs) (b ∷ ys) = a == b && same_list xs ys
same_list [] (b ∷ ys) = false
same_list (a ∷ xs) [] = false

and_true : (a b : Bool) → (a && b) ≡ true → (a ≡ true) × (b ≡ true)
and_true a b h = ground arith

same_list-eq : (xs ys : List String) → same_list xs ys ≡ true → xs ≡ ys
same_list-eq [] [] h = refl
same_list-eq (a ∷ xs) (b ∷ ys) h =
    let (e, es) = and_true (a == b) (same_list xs ys) h in
    let eq = (eq_iff a b).0 e in let eqs = same_list-eq xs ys es in cc
same_list-eq [] (b ∷ ys) h = cc
same_list-eq (a ∷ xs) [] h = cc

abbrev pub same_metadata : CacheMetadata → CacheMetadata → Bool
same_metadata x y =
    x.venv_path == y.venv_path
    && (same_option x.requirements_file y.requirements_file
        && (x.requirements_hash == y.requirements_hash
            && (same_option x.manifest_version y.manifest_version
                && (same_option x.manifest_hash y.manifest_hash
                    && same_option x.python_version y.python_version))))

same_metadata-eq : (x y : CacheMetadata) → same_metadata x y ≡ true → x ≡ y
same_metadata-eq x y h =
    let (a, h₁) = and_true (x.venv_path == y.venv_path) _ h in
    let (b, h₂) = and_true (same_option x.requirements_file y.requirements_file) _ h₁ in
    let (c, h₃) = and_true (x.requirements_hash == y.requirements_hash) _ h₂ in
    let (e, h₄) = and_true (same_option x.manifest_version y.manifest_version) _ h₃ in
    let (f, g) = and_true (same_option x.manifest_hash y.manifest_hash) _ h₄ in
    λ i. record {
      venv_path = (eq_iff x.venv_path y.venv_path).0 a i;
      requirements_file = same_option-eq x.requirements_file y.requirements_file b i;
      requirements_hash = (eq_iff x.requirements_hash y.requirements_hash).0 c i;
      manifest_version = same_option-eq x.manifest_version y.manifest_version e i;
      manifest_hash = same_option-eq x.manifest_hash y.manifest_hash f i;
      python_version = same_option-eq x.python_version y.python_version g i;
    }

abbrev pub site : String → Option String → VenvManager
site name requirements = record {
  layout = record {
    plugin_path = "/p/demo";
    venv_path = "/p/demo/.venv";
    cache_dir = "/p/demo/.cpex/venv_cache";
    metadata_path = "/p/demo/.cpex/venv_cache/" ++ (name ++ "_metadata.json");
    manifest_path = "/p/demo/" ++ (name ++ ".plugin-manifest.yaml");
    owners_path = "/p/demo/.cpex/venv_cache/owners.json";
  };
  requirements_file = requirements;
  manifest_version = some "1";
  class_name = name;
  pip_timeout_secs = 600;
}

abbrev pub first : VenvManager
first = site "demo.A" (some "/p/demo/a.txt")

abbrev pub second : VenvManager
second = site "demo.B" (some "/p/demo/b.txt")

abbrev pub saved : VenvManager → String → String → CacheMetadata
saved m requirements manifest = record {
  venv_path = m.layout.venv_path;
  requirements_file = m.requirements_file;
  requirements_hash = requirements;
  manifest_version = m.manifest_version;
  manifest_hash = some manifest;
  python_version = none;
}

abbrev pub metadata_table : List (String × CacheMetadata)
metadata_table = ("first", saved first "numpy" "a") ∷ ("second", saved second "httpx" "b") ∷ []

abbrev pub owners_table : List (String × List String)
owners_table =
    ("A", "demo.A" ∷ [])
    ∷ ("B", "demo.B" ∷ [])
    ∷ ("AB", "demo.A" ∷ "demo.B" ∷ [])
    ∷ ("BA", "demo.B" ∷ "demo.A" ∷ [])
    ∷ []

abbrev pub no_faults : Faults
no_faults = record {
  create_error = λ p d. none;
  write_error = λ p d. none;
  remove_file_error = λ p d. none;
  remove_dir_error = λ p d. none;
}

abbrev pub tools : Tools
tools = record {
  faults = no_faults;
  sha256 = λ s. s;
  decode = λ bytes. "";
  metadata_of = parse_in metadata_table;
  metadata_text = print_in same_metadata metadata_table;
  owners_of = parse_in owners_table;
  owners_text = print_in same_list owners_table;
  make_venv = λ path d. (exited (some (pos 0)) [], make_dir path d);
  pip_install = λ python requirements secs d.
      (exited (some (pos 0)) [], put_file "/p/demo/.venv/lib" requirements d);
}

pub tools-Reliable : Reliable tools
unfolding lookup path_exists is_dir make_dir
tools-Reliable = record {
  metadata =
      print_in-Reads same_metadata same_metadata-eq (parse_in metadata_table) metadata_table
        (refl, (refl, tt));
  owners = λ names text h name.
      rw
        (print_in-Reads same_list same_list-eq (parse_in owners_table) owners_table
          (refl, (refl, (refl, (refl, tt)))) names text h)
        refl;
  makes = λ path d d' stderr h. rw (sym (ap (λ x. x.1) h)) (ground (arith, eq_iff path path));
  installs = λ path python requirements secs d d' c h there.
      rw (sym (ap (λ x. x.1) h)) (path_exists-put_file path _ requirements d there);
}

pub first-Separate : Separate first
first-Separate = record {
  metadata_manifest = refl;
  metadata_requirements = Spares-some _ "/p/demo/a.txt" refl;
  metadata_owners = refl;
  owners = record {
    metadata = refl;
    manifest = refl;
    requirements = Spares-some _ "/p/demo/a.txt" refl;
  };
}

outside : (p : String) → is_within "/p/demo/.venv" p ≡ false → (p == "/p/demo/.venv/lib") ≡ false
unfolding is_within starts_with
outside p h = elim (Bool-cases (p == "/p/demo/.venv/lib")) [
  | inl e ↦ let off = rw ((eq_iff p "/p/demo/.venv/lib").0 e) at h in cc
  | inr e ↦ e
]

pub tools-Contained : Contained tools first.layout.venv_path
tools-Contained = record {
  makes = λ d d' c h. rw (sym (ap (λ x. x.1) h)) (Frame-weaken (λ p u. refl) (make_dir-Frame _ d));
  installs = λ python requirements secs d d' c h.
      rw (sym (ap (λ x. x.1) h)) (Frame-weaken outside (put_file-Frame _ requirements d));
}

pub second-spared : SparesInputs (footprint first) second
unfolding is_within starts_with
second-spared = record {
  metadata = refl;
  manifest = refl;
  requirements = Spares-some _ "/p/demo/b.txt" refl;
}

-- A disk before any environment was built.
abbrev pub sources : Disk
sources = record {
  files =
      ("/p/demo/a.txt", "numpy")
      ∷ ("/p/demo/b.txt", "httpx")
      ∷ ("/p/demo/demo.A.plugin-manifest.yaml", "a")
      ∷ ("/p/demo/demo.B.plugin-manifest.yaml", "b")
      ∷ [];
  dirs = [];
}

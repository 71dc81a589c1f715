-- ===== src/Plugin/Launch/Ready.antt =====
-- What a worker of crates/cpex-hosts-python/src/plugin.rs is launched from.
use cpex.Prelude.{
  ℕ, ◌≡◌, refl, subst, ap, sym, ◌∙◌, Bool, true, String, none, some, List, [], ◌∷◌, find, ◌⊎◌, inl,
  inr, Bool-cases,
}
use cpex.HostError.{HostError}
use cpex.Result.{Result, Serde, ok, ok_or, ok-injective}
use cpex.Text.{starts_with}
use cpex.Venv.{valid, python_executable}
use cpex.Venv.FileSystem.{Disk, path_exists, join}
use cpex.Venv.FileSystem.Frame.{go_on-eq-ok}
use cpex.Venv.Tools.{VenvManager, Tools}
use cpex.Venv.Manager.{EnsureOutcome, reused, cache_verdict, ensure}
use cpex.Venv.Manager.Ensure.{Reliable, Separate, ensure-reused}
use cpex.Worker.Sending.{resolve_worker_script}
use cpex.Plugin.{Plugin}
use cpex.Plugin.Launch.{worker_command, find_script}

-- The script is there, or is the absolute path that the configuration has.
abbrev pub IsScript : (script_path script : String) → Disk → Type 0
IsScript script_path script d =
    ((starts_with script_path "/" ≡ true) × (script ≡ script_path)) ⊎ (path_exists script d ≡ true)

found-exists :
    (test : String → Bool) (paths : List String) (e : HostError) (p : String)
    → ok_or (find test paths) e ≡ ok p
    → test p ≡ true
found-exists test [] e p h = cc
found-exists test (q ∷ paths) e p h = elim (Bool-cases (test q)) [
  | inl hit ↦ subst (λ r. test r ≡ true) (ok-injective q p (rw hit at h)) hit
  | inr miss ↦ found-exists test paths e p (rw miss at h)
]

resolve_worker_script-IsScript :
    (entries : List String) (venv_path script_path script : String) (d : Disk)
    → resolve_worker_script entries venv_path script_path d ≡ ok script
    → IsScript script_path script d
unfolding resolve_worker_script
resolve_worker_script-IsScript entries venv_path script_path script d h =
    elim (Bool-cases (starts_with script_path "/")) [
      | inl absolute ↦ inl (absolute, sym (ok-injective script_path script (rw absolute at h)))
      | inr relative ↦ inr (found-exists (λ p. path_exists p d) _ _ script (rw relative at h))
    ]

find_script-eq-ok :
    (list_dir : String → Disk → List String) (venv_path script_path script : String) (d d' : Disk)
    → find_script list_dir venv_path script_path d ≡ (ok script, d')
    → IsScript script_path script d × (d ≡ d')
unfolding find_script
find_script-eq-ok list_dir venv_path script_path script d d' h = (
  resolve_worker_script-IsScript (list_dir (join venv_path "lib") d) venv_path script_path script d
      (ap (λ (x : Result String × Disk). x.0) h),
  ap (λ (x : Result String × Disk). x.1) h,
)

worker_command-again :
    (t : Tools) (list_dir : String → Disk → List String) (command_v : Disk → Serde (List ℕ))
    (script_path script : String) (p : Plugin) (m : VenvManager) (o : EnsureOutcome) (d : Disk)
    → ensure t m d ≡ (ok o, d)
    → find_script list_dir m.layout.venv_path script_path d ≡ (ok script, d)
    → worker_command t list_dir command_v script_path none p (some m) d
      ≡ (ok (python_executable m.layout, script), d)
unfolding worker_command
worker_command-again t list_dir command_v script_path script p m o d ensured found =
    rw (ensured, found) refl

-- A worker is launched with the interpreter of its environment, whose cache is valid by then, and with a script that is
-- there or that the configuration has as an absolute path. The next launch of the plugin has the same command, and
-- leaves the disk as it is.
pub worker_command-Ready :
    (t : Tools)
    → Reliable t
    → (list_dir : String → Disk → List String) (command_v : Disk → Serde (List ℕ))
      (script_path : String) (p : Plugin) (m : VenvManager)
    → Separate m
    → (d d' : Disk) (python script : String)
    → worker_command t list_dir command_v script_path none p (some m) d ≡ (ok (python, script), d')
    → (python ≡ python_executable m.layout)
      × (cache_verdict t m d' ≡ valid)
      × IsScript script_path script d'
      × (worker_command t list_dir command_v script_path none p (some m) d'
          ≡ (ok (python, script), d'))
unfolding worker_command
worker_command-Ready t r list_dir command_v script_path p m apart d d' python script h =
    let (o, d₁, ensured, h₁) = go_on-eq-ok (ensure t m d) _ h in
    let (s, d₂, found, h₂) =
      go_on-eq-ok (find_script list_dir m.layout.venv_path script_path d₁) _ h₁ in
    let (is_script, same) =
      find_script-eq-ok list_dir m.layout.venv_path script_path s d₁ d₂ found in
    let command =
      ok-injective (python_executable m.layout, s) (python, script)
        (ap (λ (x : Result (String × String) × Disk). x.0) h₂) in
    let after = same ∙ ap (λ (x : Result (String × String) × Disk). x.1) h₂ in
    let (good, again) = ensure-reused t r m apart d d₁ o ensured in
    let found_again = found ∙ ap (λ (x : Disk). (ok s, x)) (sym same) in
    (
      sym (ap (λ c. c.0) command),
      subst (λ x. cache_verdict t m x ≡ valid) after good,
      subst (λ c. IsScript script_path c d') (ap (λ c. c.1) command)
          (subst (λ x. IsScript script_path s x) after is_script),
      subst
          (λ x.
            worker_command t list_dir command_v script_path none p (some m) x
            ≡ (ok (python, script), x))
          after
          (worker_command-again t list_dir command_v script_path s p m reused d₁ again found_again
            ∙ ap (λ c. (ok c, d₁)) command),
    )

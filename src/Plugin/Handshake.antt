-- ===== src/Plugin/Handshake.antt =====
-- `verify_worker_understands` of crates/cpex-hosts-python/src/plugin.rs: which workers a plugin is started with.
use cpex.Prelude.{
  ◌≡◌, refl, ap, sym, true, not, String, List, [], ◌∷◌, filter, any, All, ◌⊎◌, inl, inr, ◌↔◌, ◌==◌,
  subst, arith, Bool-cases,
}
use cpex.HostError.{HostError}
use cpex.Result.{Result, ok, err}
use cpex.Worker.{WorkerCapabilities, has}
use cpex.Plugin.{
  Plugin, required_worker_features, verify_worker_understands, judge, judge_probe, judge_required,
  feature_cmf_hooks,
}

-- The worker answered that it has them all, or none is asked for.
abbrev pub Understands : List String → Result WorkerCapabilities → Type 0
Understands required probe =
    (required ≡ [])
    ⊎ ((c : WorkerCapabilities) × (probe ≡ ok c) × All (λ f. has f c ≡ true) required)

All-missing :
    (required : List String) (c : WorkerCapabilities)
    → filter (λ f. not (has f c)) required ≡ []
    → All (λ f. has f c ≡ true) required
All-missing [] c h = tt
All-missing (f ∷ required) c h = elim (Bool-cases (has f c)) [
  | inl present ↦ (present, All-missing required c (rw present at h))
  | inr absent ↦ let off = rw absent at h in cc
]

missing-All :
    (required : List String) (c : WorkerCapabilities)
    → All (λ f. has f c ≡ true) required
    → filter (λ f. not (has f c)) required ≡ []
missing-All [] c h = refl
missing-All (f ∷ required) c (present, all) = rw present (missing-All required c all)

judge-eq-ok :
    (p : Plugin) (required missing : List String) (c : WorkerCapabilities)
    → judge p required missing c ≡ ok tt
    → missing ≡ []
unfolding judge
judge-eq-ok p required [] c h = refl
judge-eq-ok p required (f ∷ missing) c h = cc

refused_probe :
    (p : Plugin) (required : List String) (e : HostError)
    → judge_probe p required (err e) ≡ ok tt
    → Understands required (err e)
unfolding judge_probe
refused_probe p required e h = elim (Bool-cases (any (λ f. f == feature_cmf_hooks) required)) [
  | inl present ↦ let off = rw present at h in cc
  | inr absent ↦ let off = rw absent at h in cc
]

ok_same : (c c' : WorkerCapabilities) → ok c ≡ ok c' → c ≡ c'
ok_same c c' e = ground arith

judged :
    (p : Plugin) (required : List String) (probe : Result WorkerCapabilities)
    → (judge_required p required probe ≡ ok tt) ↔ Understands required probe
unfolding judge_required judge_probe judge
judged p [] probe = (λ h. inl refl, λ u. refl)
judged p (f ∷ required) (ok c) = (
  λ h. inr (c, refl, All-missing (f ∷ required) c (judge-eq-ok p (f ∷ required) _ c h)),
  λ u. elim u [
    | inl none_asked ↦ cc
    | inr (c', e, all) ↦
        ap (λ missing. judge p (f ∷ required) missing c)
          (missing-All (f ∷ required) c
            (subst (λ x. All (λ g. has g x ≡ true) (f ∷ required)) (sym (ok_same c c' e)) all))
  ],
)
judged p (f ∷ required) (err e) = (
  λ h. refused_probe p (f ∷ required) e h,
  λ u. elim u [ inl none_asked ↦ cc | inr (c', answered, all) ↦ cc ],
)

-- A plugin is started with a worker exactly if its declaration asks for no feature, or the worker answered the
-- handshake and reports every feature that is asked for.
pub verify_worker_understands_iff :
    (p : Plugin) (probe : Result WorkerCapabilities)
    → (verify_worker_understands p probe ≡ ok tt) ↔ Understands (required_worker_features p) probe
unfolding verify_worker_understands
verify_worker_understands_iff p probe = judged p (required_worker_features p) probe

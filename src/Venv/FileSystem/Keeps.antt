-- ===== src/Venv/FileSystem/Keeps.antt =====
-- Actions that leave a path in place where they succeed.
use cpex.Prelude.{◌≡◌, true, String, Option}
use cpex.HostError.{HostError}
use cpex.Result.{ok}
use cpex.Venv.FileSystem.{Disk, Io, ◌>>=◌, pure, fail, perform, path_exists}
use cpex.Venv.FileSystem.Frame.{go_on-eq-ok, perform-eq-ok}

abbrev pub Keeps {ℓ} : {A : Type ℓ} → String → Io A → Type ℓ
Keeps {A = A} p action =
    (d d' : Disk) (a : A) → action d ≡ (ok a, d') → path_exists p d ≡ true → path_exists p d' ≡ true

pub Keeps-pure {ℓ} : {A : Type ℓ} (p : String) (a : A) → Keeps p (pure a)
Keeps-pure p a d d' b h there = cc

pub Keeps-fail {ℓ} : {A : Type ℓ} (p : String) (e : HostError) → Keeps p (fail {A = A} e)
Keeps-fail p e d d' b h there = cc

pub Keeps-bind {ℓ κ} :
    {A : Type ℓ} {B : Type κ} (p : String) (first : Io A) (next : A → Io B)
    → Keeps p first
    → ((a : A) → Keeps p (next a))
    → Keeps p (first >>= next)
Keeps-bind p first next kf kn d d'' b h there =
    let (a, d', hf, hn) = go_on-eq-ok (first d) next h in kn a d' d'' b hn (kf d d' a hf there)

pub Keeps-perform :
    (p : String) (e : Disk → Option String) (message : String → HostError) (work : Disk → Disk)
    → ((d : Disk) → path_exists p d ≡ true → path_exists p (work d) ≡ true)
    → Keeps p (λ d. perform (e d) message work d)
Keeps-perform p e message work kw d d' done h there =
    rw (perform-eq-ok (e d) message work d d' h) (kw d there)

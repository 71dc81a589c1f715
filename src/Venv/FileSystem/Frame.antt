-- ===== src/Venv/FileSystem/Frame.antt =====
-- What an action on a disk leaves as it was.
use cpex.Prelude.{
  ◌++◌, ◌≡◌, refl, ◌∙◌, ap, Bool, true, false, not, String, Option, none, some, List, [], ◌∷◌, any,
  filter, lookup, lookup-insert, lookup-remove, arith, ◌==◌, subst, eq_iff, Bool-cases, inl, inr,
}
use cpex.HostError.{HostError}
use cpex.Result.{Result, ok, err}
use cpex.Venv.FileSystem.{
  parents, Disk, Io, ◌>>=◌, pure, go_on, perform, is_within, is_dir, read_file, path_exists,
  put_file, delete_file, make_dir, delete_tree,
}

-- A successful sequence has a successful first part.
pub go_on-eq-ok {ℓ κ} :
    {A : Type ℓ} {B : Type κ} (first : Result A × Disk) (next : A → Io B) {b : B} {d' : Disk}
    → go_on first next ≡ (ok b, d')
    → (a : A) × (d : Disk) × (first ≡ (ok a, d)) × (next a d ≡ (ok b, d'))
go_on-eq-ok (err e, d) next h = cc
go_on-eq-ok (ok a, d) next h = (a, d, refl, h)

-- An operation that succeeds had no error, and its work is done.
pub perform-eq-ok :
    (e : Option String) (message : String → HostError) (work : Disk → Disk) (d d' : Disk)
    → perform e message work d ≡ (ok tt, d')
    → d' ≡ work d
perform-eq-ok none message work d d' h = ground arith
perform-eq-ok (some e) message work d d' h = cc

-- The files that are not touched are as they were, and what was there but among the touched is there.
pub record Frame (touched : String → Bool) (d d' : Disk) : Type 0 where
  pub files : (p : String) → touched p ≡ false → read_file p d' ≡ read_file p d
  pub dirs : (p : String) → touched p ≡ false → is_dir p d ≡ true → is_dir p d' ≡ true

pub Frame-refl : (touched : String → Bool) (d : Disk) → Frame touched d d
Frame-refl touched d = record { files = λ p u. refl; dirs = λ p u h. h }

pub Frame-trans :
    {touched : String → Bool} {d d' d'' : Disk}
    → Frame touched d d'
    → Frame touched d' d''
    → Frame touched d d''
Frame-trans f g = record {
  files = λ p u. g.files p u ∙ f.files p u;
  dirs = λ p u h. g.dirs p u (f.dirs p u h);
}

pub Frame-weaken :
    {few many : String → Bool} {d d' : Disk}
    → ((p : String) → many p ≡ false → few p ≡ false)
    → Frame few d d'
    → Frame many d d'
Frame-weaken fewer f = record {
  files = λ p u. f.files p (fewer p u);
  dirs = λ p u h. f.dirs p (fewer p u) h;
}

pub put_file-Frame :
    (path text : String) (d : Disk) → Frame (λ p. p == path) d (put_file path text d)
unfolding put_file read_file is_dir
put_file-Frame path text d = record {
  files = λ p u. ground (arith, lookup-insert path p text d.files, eq_iff p path, eq_iff path p);
  dirs = λ p u h. h;
}

pub read_file-put_file :
    (path text : String) (d : Disk) → read_file path (put_file path text d) ≡ some text
unfolding put_file read_file
read_file-put_file path text d =
    ground (arith, lookup-insert path path text d.files, eq_iff path path)

pub read_file-delete_file : (path : String) (d : Disk) → read_file path (delete_file path d) ≡ none
unfolding delete_file read_file
read_file-delete_file path d = ground (arith, lookup-remove path path d.files, eq_iff path path)

pub path_exists-absent :
    (path : String) (d : Disk) → path_exists path d ≡ false → read_file path d ≡ none
unfolding path_exists
path_exists-absent path d h = ground arith

pub delete_file-Frame : (path : String) (d : Disk) → Frame (λ p. p == path) d (delete_file path d)
unfolding delete_file read_file is_dir
delete_file-Frame path d = record {
  files = λ p u. ground (arith, lookup-remove path p d.files, eq_iff p path, eq_iff path p);
  dirs = λ p u h. h;
}

any-append :
    (p : String) (made dirs : List String)
    → any (λ q. q == p) dirs ≡ true
    → any (λ q. q == p) (made ++ dirs) ≡ true
any-append p [] dirs h = h
any-append p (q ∷ made) dirs h = ground (arith, any-append p made dirs h)

is_dir-make_dir :
    (p path : String) (d : Disk) → is_dir p d ≡ true → is_dir p (make_dir path d) ≡ true
unfolding make_dir is_dir
is_dir-make_dir p path d h = any-append p (path ∷ parents "" path) d.dirs h

pub make_dir-Frame : (path : String) (d : Disk) → Frame (λ p. false) d (make_dir path d)
unfolding make_dir read_file is_dir
make_dir-Frame path d = record { files = λ p u. refl; dirs = λ p u h. is_dir-make_dir p path d h }

lookup-filter :
    (keep : String → Bool) (p : String) (files : List (String × String))
    → keep p ≡ true
    → lookup p (filter (λ f. keep f.0) files) ≡ lookup p files
unfolding lookup
lookup-filter keep p [] k = refl
lookup-filter keep p ((q, text) ∷ files) k = elim (Bool-cases (q == p)) [
  | inl e ↦ let kept : keep q ≡ true = ap keep ((eq_iff q p).0 e) ∙ k in rw kept (rw e refl)
  | inr e ↦ elim (Bool-cases (keep q)) [
    | inl t ↦ rw (t, e) (lookup-filter keep p files k)
    | inr f ↦ rw (f, e) (lookup-filter keep p files k)
  ]
]

any-filter :
    (keep : String → Bool) (p : String) (dirs : List String)
    → keep p ≡ true
    → any (λ q. q == p) dirs ≡ true
    → any (λ q. q == p) (filter keep dirs) ≡ true
any-filter keep p [] k h = h
any-filter keep p (q ∷ dirs) k h = elim (Bool-cases (q == p)) [
  | inl e ↦ rw ((eq_iff q p).0 e) (rw k (ground (arith, eq_iff p p)))
  | inr e ↦ ground (arith, any-filter keep p dirs k)
]

pub delete_tree-Frame : (path : String) (d : Disk) → Frame (is_within path) d (delete_tree path d)
unfolding delete_tree read_file is_dir
delete_tree-Frame path d = record {
  files = λ p u. lookup-filter (λ q. not (is_within path q)) p d.files (ap not u);
  dirs = λ p u h. any-filter (λ q. not (is_within path q)) p d.dirs (ap not u) h;
}

pub path_exists-put_file :
    (p path text : String) (d : Disk)
    → path_exists p d ≡ true
    → path_exists p (put_file path text d) ≡ true
unfolding path_exists is_dir read_file put_file
path_exists-put_file p path text d h = ground (arith, lookup-insert path p text d.files)

pub path_exists-make_dir :
    (p path : String) (d : Disk) → path_exists p d ≡ true → path_exists p (make_dir path d) ≡ true
unfolding path_exists read_file make_dir
path_exists-make_dir p path d h = elim (Bool-cases (is_dir p d)) [
  | inl there ↦ rw (is_dir-make_dir p path d there) refl
  | inr not_there ↦ ground arith
]

-- A successful action touches no other files.
abbrev pub Touches {ℓ} : {A : Type ℓ} → (String → Bool) → Io A → Type ℓ
Touches {A = A} touched action = (d d' : Disk) (a : A) → action d ≡ (ok a, d') → Frame touched d d'

pub Touches-pure {ℓ} : {A : Type ℓ} (touched : String → Bool) (a : A) → Touches touched (pure a)
Touches-pure touched a d d' b h =
    subst (λ x. Frame touched d x) (ap (λ x. x.1) h) (Frame-refl touched d)

pub Touches-bind {ℓ κ} :
    {A : Type ℓ} {B : Type κ} (touched : String → Bool) (first : Io A) (next : A → Io B)
    → Touches touched first
    → ((a : A) → Touches touched (next a))
    → Touches touched (first >>= next)
Touches-bind touched first next tf tn d d'' b h =
    let (a, d', hf, hn) = go_on-eq-ok (first d) next h in
    Frame-trans (tf d d' a hf) (tn a d' d'' b hn)

pub Touches-weaken {ℓ} :
    {A : Type ℓ} {few many : String → Bool} {action : Io A}
    → ((p : String) → many p ≡ false → few p ≡ false)
    → Touches few action
    → Touches many action
Touches-weaken fewer tf d d' a h = Frame-weaken fewer (tf d d' a h)

pub Touches-perform :
    (touched : String → Bool) (e : Disk → Option String) (message : String → HostError)
    (work : Disk → Disk)
    → ((d : Disk) → Frame touched d (work d))
    → Touches touched (λ d. perform (e d) message work d)
Touches-perform touched e message work fw d d' done h =
    rw (perform-eq-ok (e d) message work d d' h) (fw d)

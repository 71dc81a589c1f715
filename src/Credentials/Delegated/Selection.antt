-- ===== src/Credentials/Delegated/Selection.antt =====
-- Which delegated token is picked in crates/cpex-hosts-python/src/credentials.rs, and when the pick
-- depends on the order in which the map of tokens is iterated.
use Prim.Native.Nat.{Ordering}
use cpex.Prelude.{
  any, ◌≡◌, ◌≢◌, refl, sym, ◌∙◌, ap, subst, ◌⊎◌, inl, inr, true, false, Bool-cases, String, Option,
  none, some, List, [], ◌∷◌, filter, arith, eq_iff,
}
use cpex.Prelude.Order.{
  IsPreorder, compare_ℕ-IsPreorder, then_with-IsPreorder, comap-IsPreorder, option-IsPreorder,
  list-IsPreorder, compare_text-IsPreorder, compare_text-TellsApart, option-TellsApart,
  list-TellsApart, In, in-filter, in_of_filter, sort_by, sort_by-IsLeast, IsLeast,
}
use cpex.Ppe.{DelegationMode}
use cpex.Credentials.Delegated.{Candidate, first, is_for, mode_rank, compare_keys, pick_delegated}

pub compare_keys-IsPreorder : IsPreorder compare_keys
unfolding compare_keys
compare_keys-IsPreorder =
    then_with-IsPreorder (comap-IsPreorder compare_ℕ-IsPreorder (λ c. mode_rank c.0.mode)) (
      then_with-IsPreorder
        (comap-IsPreorder (option-IsPreorder compare_text-IsPreorder) (λ c. c.0.subject_id))
        (comap-IsPreorder (list-IsPreorder compare_text-IsPreorder) (λ c. c.0.scopes)))

-- A token of the map for the audience asked for, which no other such token comes before.
pub record IsPick (tokens : List Candidate) (audience : Option String) (c : Candidate)
    : Type 0 where
  pub member : In c tokens
  pub suits : is_for audience c ≡ true
  pub leads :
      (d : Candidate) → In d tokens → is_for audience d ≡ true → compare_keys c d ≢ Ordering.gt

head_of_sorted :
    (cs : List Candidate) (c : Candidate)
    → first (sort_by compare_keys cs) ≡ some c
    → IsLeast compare_keys-IsPreorder c cs
unfolding sort_by
head_of_sorted [] c h = cc
head_of_sorted (x ∷ xs) c h =
    let (y, ys, e, least) = sort_by-IsLeast compare_keys-IsPreorder x xs in
    let same : y ≡ c = ground (arith, ap first e) in
    subst (λ z. IsLeast compare_keys-IsPreorder z (x ∷ xs)) same least

head_missing :
    (cs : List Candidate) (d : Candidate) → first (sort_by compare_keys cs) ≡ none → In d cs → ⊥
head_missing [] d h m = m
head_missing (x ∷ xs) d h m =
    let (y, ys, e, least) = sort_by-IsLeast compare_keys-IsPreorder x xs in
    ground (arith, ap first e)

pub picked_or_none :
    (tokens : List Candidate) (audience : Option String)
    → ((c : Candidate) → pick_delegated tokens audience ≡ some c → IsPick tokens audience c)
      × (pick_delegated tokens audience ≡ none
          → (d : Candidate) → In d tokens
          → is_for audience d ≡ false)
unfolding pick_delegated
picked_or_none tokens audience = (
  λ c h.
      let l = head_of_sorted (filter (is_for audience) tokens) c h in
      let (member, suits) = in_of_filter (is_for audience) c tokens l.member in
      record {
        member = member;
        suits = suits;
        leads = λ d m s. l.least d (in-filter (is_for audience) d tokens m s);
      },
  λ h d m. elim (Bool-cases (is_for audience d)) [
    | inl s ↦ absurd (
        head_missing (filter (is_for audience) tokens) d h
          (in-filter (is_for audience) d tokens m s))
    | inr s ↦ s
  ],
)

any_none :
    (audience : Option String) (tokens : List Candidate)
    → ((d : Candidate) → In d tokens → is_for audience d ≡ false)
    → any (is_for audience) tokens ≡ false
any_none audience [] h = refl
any_none audience (c ∷ cs) h = rw (h c (inl refl)) (any_none audience cs (λ d m. h d (inr m)))

-- What a pick is, and what it means that there is none.
abbrev pub Picks : List Candidate → Option String → Option Candidate → Type 0
Picks tokens audience (some c) = IsPick tokens audience c
Picks tokens audience none = any (is_for audience) tokens ≡ false

Picks-of :
    (tokens : List Candidate) (audience : Option String) (pick : Option Candidate)
    → pick_delegated tokens audience ≡ pick
    → Picks tokens audience pick
Picks-of tokens audience (some c) h = (picked_or_none tokens audience).0 c h
Picks-of tokens audience none h = any_none audience tokens ((picked_or_none tokens audience).1 h)

-- A pick is a token of the map for the audience asked for, on the key and on the token, and no
-- other such token comes before it; where nothing is picked, no token is for that audience.
pub pick_delegated-IsPick :
    (tokens : List Candidate) (audience : Option String)
    → Picks tokens audience (pick_delegated tokens audience)
pick_delegated-IsPick tokens audience =
    Picks-of tokens audience (pick_delegated tokens audience) refl

-- The modes that the host reasons about.
abbrev pub IsListed : DelegationMode → Type 0
IsListed m = (m ≡ DelegationMode.on_behalf_of_user) ⊎ (m ≡ DelegationMode.as_this_workload)

-- A map has one token for a key.
abbrev pub IsMap : List Candidate → Type 0
IsMap tokens = (c d : Candidate) → In c tokens → In d tokens → c.0 ≡ d.0 → c ≡ d

mode_eq : (m n : DelegationMode) → IsListed m → IsListed n → mode_rank m ≡ mode_rank n → m ≡ n
unfolding mode_rank
mode_eq m n (inl a) (inl b) h = a ∙ sym b
mode_eq m n (inl a) (inr b) h = ground arith
mode_eq m n (inr a) (inl b) h = ground arith
mode_eq m n (inr a) (inr b) h = a ∙ sym b

pub key_eq :
    (audience : String) (c d : Candidate)
    → IsListed c.0.mode
    → IsListed d.0.mode
    → is_for (some audience) c ≡ true
    → is_for (some audience) d ≡ true
    → compare_keys c d ≡ Ordering.eq
    → c.0 ≡ d.0
unfolding compare_keys
key_eq audience (k, t) (l, u) lk ll s r e = ground (
  arith,
  mode_eq k.mode l.mode lk ll,
  option-TellsApart compare_text-TellsApart k.subject_id l.subject_id,
  list-TellsApart compare_text-TellsApart k.scopes l.scopes,
  eq_iff k.audience audience,
  eq_iff l.audience audience,
)

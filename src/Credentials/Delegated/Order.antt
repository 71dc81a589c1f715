-- ===== src/Credentials/Delegated/Order.antt =====
-- Whether the pick of crates/cpex-hosts-python/src/credentials.rs depends on the order in which the
-- map of delegated tokens is iterated.
use Prim.Native.Nat.{Ordering}
use cpex.Prelude.{◌≡◌, refl, String, none, some, [], ◌∷◌, arith}
use cpex.Prelude.Order.{opposite, sort_by, insert_by}
use cpex.Ppe.{DelegationKey, RawDelegatedToken}
use cpex.Credentials.Delegated.{Candidate, compare_keys, pick_delegated}
use cpex.Credentials.Delegated.Selection.{compare_keys-IsPreorder}

abbrev pub for_audience : DelegationKey → String → DelegationKey
for_audience key audience = record key { audience = audience }

self_eq : (c : Candidate) → compare_keys c c ≡ Ordering.eq
self_eq c =
    let f : compare_keys c c ≡ opposite (compare_keys c c) = compare_keys-IsPreorder.flip c c in
    ground arith

audience_ignored :
    (key : DelegationKey) (a b : String) (t u : RawDelegatedToken)
    → compare_keys (for_audience key a, t) (for_audience key b, u) ≡ Ordering.eq
unfolding compare_keys
audience_ignored key a b t u = self_eq (key, t)

-- Where the payload names no audience, two tokens whose keys differ in the audience alone are
-- picked by the order of iteration: each order gives its own first token.
pub unscoped_pick_by_order :
    (key : DelegationKey) (a b : String) (t u : RawDelegatedToken)
    → (pick_delegated ((for_audience key a, t) ∷ (for_audience key b, u) ∷ []) none
        ≡ some (for_audience key a, t))
      × (pick_delegated ((for_audience key b, u) ∷ (for_audience key a, t) ∷ []) none
          ≡ some (for_audience key b, u))
unfolding pick_delegated sort_by
unscoped_pick_by_order key a b t u = (
  rw (audience_ignored key a b t u, insert_by) refl,
  rw (audience_ignored key b a u t, insert_by) refl,
)

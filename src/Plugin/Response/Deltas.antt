-- ===== src/Plugin/Response/Deltas.antt =====
-- `apply_context_deltas` of crates/cpex-hosts-python/src/plugin.rs against a union of maps.
use cpex.Prelude.{
  ◌≡◌, refl, ap, sym, ◌∙◌, String, Option, none, some, lookup, insert, lookup-insert, ◌==◌, eq_iff,
  Bool-cases, inl, inr,
}
use cpex.Json.{
  Value, object, Fields, end, field, get, entries, member, null, bool, number, string, array,
}
use cpex.Ppe.{Object}
use cpex.Plugin.Task.{PluginContext}
use cpex.Plugin.Response.{insert_all, merge, member_of, apply_context_deltas}

-- The keys of a JSON object are different.
abbrev pub HasUniqueKeys : Fields → Type 0
HasUniqueKeys end = Unit
HasUniqueKeys (field k v fs) = (get k fs ≡ none) × HasUniqueKeys fs

-- What a map holds after what was returned is put over it.
abbrev pub over {ℓ} : {A : Type ℓ} → Option A → Option A → Option A
over none old = old
over (some new) old = some new

insert_all-lookup :
    (k : String) (fs : Fields) (state : Object)
    → HasUniqueKeys fs
    → lookup k (insert_all (entries fs) state) ≡ over (get k fs) (lookup k state)
unfolding get
insert_all-lookup k end state unique = refl
insert_all-lookup k (field j v fs) state (fresh, unique) =
    insert_all-lookup k fs (insert j v state) unique ∙ elim (Bool-cases (j == k)) [
      | inl e ↦
          let absent : get k fs ≡ none = ap (λ i. get i fs) (sym ((eq_iff j k).0 e)) ∙ fresh in
          rw (lookup-insert j k v state, e, absent) refl
      | inr e ↦ rw (lookup-insert j k v state, e) refl
    ]

-- The keys of what was returned, if it is an object.
abbrev pub UniqueIn : Option Value → Type 0
UniqueIn (some (object fs)) = HasUniqueKeys fs
UniqueIn _ = Unit

-- What was returned under a key; anything but an object has none.
abbrev pub returned : Option Value → String → Option Value
returned (some (object fs)) key = get key fs
returned _ key = none

merge-lookup :
    (k : String) (v : Option Value) (state : Object)
    → UniqueIn v
    → lookup k (merge v state) ≡ over (returned v k) (lookup k state)
merge-lookup k none state unique = refl
merge-lookup k (some (object fs)) state unique = insert_all-lookup k fs state unique
merge-lookup k (some null) state unique = refl
merge-lookup k (some (bool b)) state unique = refl
merge-lookup k (some (number n)) state unique = refl
merge-lookup k (some (string t)) state unique = refl
merge-lookup k (some (array vs)) state unique = refl

-- Under every key, the states of the context hold what the worker returned, and else what they held: `state` of the
-- returned context for the plugin's own state, and `state` of its `global_context` for the shared one. The keys of
-- the returned objects are different, as those of a JSON object are.
pub apply_context_deltas-over :
    (response : Value) (ctx : PluginContext) (key : String)
    → UniqueIn (member_of "state" (member "context" response))
    → UniqueIn (member_of "state" (member_of "global_context" (member "context" response)))
    → (lookup key (apply_context_deltas response ctx).local_state
        ≡ over
            (returned (member_of "state" (member "context" response)) key)
            (lookup key ctx.local_state))
      × (lookup key (apply_context_deltas response ctx).global_state
          ≡ over
              (returned
                (member_of "state" (member_of "global_context" (member "context" response)))
                key)
              (lookup key ctx.global_state))
unfolding apply_context_deltas
apply_context_deltas-over response ctx key unique unique' = (
  merge-lookup key (member_of "state" (member "context" response)) ctx.local_state unique,
  merge-lookup key (member_of "state" (member_of "global_context" (member "context" response)))
      ctx.global_state unique',
)

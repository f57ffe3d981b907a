-- ===== src/Workflow/Registry/Laws.antt =====
-- The active versions of the registry, and what one call does to them.
use brain_inspired_agent.Prelude.{
  String, ◌≡◌, refl, sym, ap, ◌∙◌, subst, Bool, true, false, ◌≢◌, Option, none, some, str_eq,
  eq_iff, arith, if◌then◌else◌, Bool-cases, Option-cases, inl, inr, lookup, insert, lookup-insert,
  Result, ok, raise, Result-cases,
}
use brain_inspired_agent.Prelude.Pairs.{
  PairDict, find_pair, put_pair, find-put, same_pair, same_pair_eq, same_pair_refl,
}
use brain_inspired_agent.Workflow.Validator.{Definition, WorkflowValidator, validate}
use brain_inspired_agent.Workflow.Registry.{
  WorkflowStatus, active, deprecated, is_active, WorkflowDefinition, Registry, RegistryError,
  not_found, empty, key_of, keys_of, new_item, with_status, register, deprecate, switch, activate,
  after,
}

abbrev pub option_status : Option WorkflowDefinition → Bool
option_status none = false
option_status (some item) = is_active item.status

-- The version of this key is registered and active.
abbrev pub active_at : String × String → PairDict WorkflowDefinition → Bool
active_at key definitions = option_status (find_pair key definitions)

-- The active keys are of their workflow and of active versions, and every active version has its key there.
pub record IsRegistry (r : Registry) : Type 0 where
  pub pointed :
      (id : String) (key : String × String)
      → lookup id r.active_keys ≡ some key
      → (key.0 ≡ id) × (active_at key r.definitions ≡ true)
  pub only :
      (key : String × String)
      → active_at key r.definitions ≡ true
      → lookup key.0 r.active_keys ≡ some key

active_at-put :
    (key other : String × String) (item : WorkflowDefinition)
    (definitions : PairDict WorkflowDefinition)
    → active_at other (put_pair key item definitions)
      ≡ (if same_pair key other then is_active item.status else active_at other definitions)
active_at-put key other item definitions = ground (arith, find-put key other item definitions)

pub empty-IsRegistry : (w : WorkflowValidator) → IsRegistry (empty w)
unfolding find_pair lookup
empty-IsRegistry w = record {
  pointed = λ id key h. absurd (ground (arith, h));
  only = λ key h. absurd (ground (arith, h));
}

-- A new version that is not active changes nothing for the active ones.
put-IsRegistry :
    (r : Registry) (key : String × String) (item : WorkflowDefinition)
    → IsRegistry r
    → find_pair key r.definitions ≡ none
    → is_active item.status ≡ false
    → IsRegistry (record r { definitions = put_pair key item r.definitions })
put-IsRegistry r key item v n s =
    let same : (o : String × String)
        → active_at o (put_pair key item r.definitions) ≡ active_at o r.definitions =
      λ o. ground (
        arith,
        active_at-put key o item r.definitions,
        n,
        s,
        same_pair_eq key o,
        ap (λ k. active_at k r.definitions) {x = key} {y = o},
      ) in
    record {
      pointed = λ id k h. ((v.pointed id k h).0, same k ∙ (v.pointed id k h).1);
      only = λ k h. v.only k (sym (same k) ∙ h);
    }

-- A property of what `activate` gives, on each of its branches.
pub activate_elim :
    (id version : String) (r : Registry)
    (P : Result RegistryError (WorkflowDefinition × Registry) → Type 0)
    → P (raise not_found)
    → ((item : WorkflowDefinition)
        → find_pair (id, version) r.definitions ≡ some item
        → P (ok (item, r)))
    → ((item : WorkflowDefinition)
        → find_pair (id, version) r.definitions ≡ some item
        → P (switch (id, version) item r))
    → P (activate id version r)
unfolding activate
activate_elim id version r P missing same moved =
    elim (Option-cases (find_pair (id, version) r.definitions)) [
      | inl n ↦ subst P (sym (ground (arith, n))) missing
      | inr (item, n) ↦ elim (Bool-cases (is_active item.status)) [
        | inl a ↦ subst P (sym (ground (arith, n, a))) (same item n)
        | inr a ↦ subst P (sym (ground (arith, n, a))) (moved item n)
      ]
    ]

pub register-IsRegistry :
    (d : Definition) (status : WorkflowStatus) (r : Registry)
    → IsRegistry r
    → IsRegistry (after r (register d status r))
unfolding register
register-IsRegistry d status r v =
    elim (Result-cases (validate r.validator d (some (keys_of r.definitions)))) [
      | inr (x, f) ↦ rw f v
      | inl (w, f) ↦ elim (Option-cases (find_pair (key_of w) r.definitions)) [
        | inr (item, g) ↦ rw (f, g) v
        | inl g ↦ elim (Bool-cases (is_active status)) [
          | inl a ↦ rw (f, g, a) v
          | inr a ↦ rw (f, g, a) (put-IsRegistry r (key_of w) (new_item d status w) v g a)
        ]
      ]
    ]

-- The state that `switch` leaves.
abbrev pub switched :
    String × String → WorkflowDefinition → PairDict WorkflowDefinition → Registry → Registry
switched key item definitions r = record r {
  definitions = put_pair key (with_status item active) definitions;
  active_keys = insert key.0 key r.active_keys;
}

-- Before the new version is put, no version of the workflow is active, and the others are as they were.
pub record IsCleared (key : String × String) (r : Registry)
    (definitions : PairDict WorkflowDefinition) : Type 0 where
  none_active : (k : String × String) → k.0 ≡ key.0 → active_at k definitions ≡ false
  others : (k : String × String) → k.0 ≢ key.0 → active_at k definitions ≡ active_at k r.definitions

pub switched-IsRegistry :
    (key : String × String) (item : WorkflowDefinition) (definitions : PairDict WorkflowDefinition)
    (r : Registry)
    → IsRegistry r
    → IsCleared key r definitions
    → IsRegistry (switched key item definitions r)
switched-IsRegistry key item definitions r v c =
    let put = λ (o : String × String). active_at-put key o (with_status item active) definitions in
    record {
      pointed = λ id k h.
          let found = lookup-insert key.0 id key r.active_keys in
          elim (Bool-cases (str_eq key.0 id)) [
            | inl e ↦
                let same : key ≡ k = ground (arith, found, h, e) in
                (
                  ap (λ t. t.0) (sym same) ∙ (eq_iff key.0 id).0 e,
                  ground (arith, put k, same, same_pair_refl key, ap (same_pair key) same),
                )
            | inr e ↦
                let (p, a) = v.pointed id k (ground (arith, found, h, e)) in
                let apart : k.0 ≢ key.0 = λ q. ground (arith, e, eq_iff key.0 id, p, q) in
                (p, ground (arith, put k, c.others k apart, a))
          ];
      only = λ k h.
          let found = lookup-insert key.0 k.0 key r.active_keys in
          elim (Bool-cases (str_eq key.0 k.0)) [
            | inl e ↦
                let same : key ≡ k =
                  same_pair_eq key k
                    (ground (arith, put k, h, c.none_active k (sym ((eq_iff key.0 k.0).0 e)))) in
                ground (arith, found, e, same)
            | inr e ↦
                let apart : k.0 ≢ key.0 = λ q. ground (arith, e, eq_iff key.0 k.0, q) in
                ground (arith, found, e, v.only k, put k, h, c.others k apart)
          ];
    }

pub deprecate-IsCleared :
    (key : String × String) (r : Registry) (definitions : PairDict WorkflowDefinition)
    → IsRegistry r
    → deprecate (lookup key.0 r.active_keys) r.definitions ≡ ok definitions
    → IsCleared key r definitions
unfolding deprecate
deprecate-IsCleared key r definitions v e = elim (Option-cases (lookup key.0 r.active_keys)) [
  | inl n ↦
      let same : r.definitions ≡ definitions = ground (arith, e, n) in
      subst (IsCleared key r) same (record {
        none_active = λ k q. ground (arith, v.only k, n, ap (λ t. lookup t r.active_keys) q);
        others = λ k q. refl;
      })
  | inr (previous, n) ↦ elim (Option-cases (find_pair previous r.definitions)) [
    | inl m ↦ absurd (ground (arith, e, n, m))
    | inr (item, m) ↦
        let same : put_pair previous (with_status item deprecated) r.definitions ≡ definitions =
          ground (arith, e, n, m) in
        let put = λ (o : String × String).
          active_at-put previous o (with_status item deprecated) r.definitions in
        let p = (v.pointed key.0 previous n).0 in
        subst (IsCleared key r) same (record {
          none_active = λ k q. ground (
            arith,
            put k,
            v.only k,
            n,
            ap (λ t. lookup t r.active_keys) q,
            same_pair_refl k,
            ap (λ t. same_pair t k) {x = previous} {y = k},
          );
          others = λ k q. ground (
            arith,
            put k,
            q,
            p,
            same_pair_eq previous k,
            ap (λ (t : String × String). t.0) {x = previous} {y = k},
          );
        })
  ]
]

-- ===== src/Planning/Grants/Attempts.antt =====
-- The attempts that the grants authorize.
use brain_inspired_agent.Prelude.{
  ℕ, suc, ◌+◌, ◌<◌, String, ◌≡◌, refl, sym, ap, ◌∙◌, subst, Bool, true, ◌&&◌, some, List, [], ◌∷◌,
  ◌++◌, length, ◌==◌, str_eq, eq_iff, arith, if◌then◌else◌, Bool-cases, inl, inr, All, find?_holds,
}
use brain_inspired_agent.Planning.Validation.{PlanDocument}
use brain_inspired_agent.Planning.Grants.{
  ExecutionGrant, GrantAttempt, Store, find_grant, numbers_of, highest, higher, expected_attempt,
  new_attempt, Call, call, calls,
}
use brain_inspired_agent.Planning.Grants.Step.{Continues, Authorizes, Steps, call-Steps}

-- The attempt is of the task of a grant, before the grant expires.
abbrev pub IsBacked : List ExecutionGrant → GrantAttempt → Type 0
IsBacked grants a =
    (g : ExecutionGrant) × (find_grant a.grant_id grants ≡ some g)
    × (a.task_id ≡ g.task_id)
    × (a.authorized_at < g.expires_at)

-- The numbers count up by one from after `n`.
abbrev pub counts : ℕ → List ℕ → Bool
counts n [] = true
counts n (k ∷ ks) = k == suc n && counts (suc n) ks

highest-counts :
    (n k : ℕ) (ks : List ℕ)
    → counts n (k ∷ ks) ≡ true
    → highest (k ∷ ks) ≡ some (n + length (k ∷ ks))
highest-counts n k [] h = ground (arith, h)
highest-counts n k (j ∷ ks) h =
    let rest = highest-counts (suc n) j ks (ground (arith, h)) in
    let first : k ≡ suc n = ground (arith, h) in ap (higher k) rest ∙ ground (arith, first)

counts-snoc :
    (n a : ℕ) (ks : List ℕ)
    → counts n ks ≡ true
    → a ≡ suc (n + length ks)
    → counts n (ks ++ a ∷ []) ≡ true
counts-snoc n a [] h e = ground (arith, e)
counts-snoc n a (k ∷ ks) h e =
    let rest = counts-snoc (suc n) a ks (ground (arith, h)) (omega (arith, e)) in
    ground (arith, h, rest)

counts-next : (ks : List ℕ) → counts 0 ks ≡ true → expected_attempt (highest ks) ≡ suc (length ks)
counts-next [] h = refl
counts-next (k ∷ ks) h = ap expected_attempt (highest-counts 0 k ks h) ∙ omega arith

pub numbers-snoc :
    (id : String) (attempts : List GrantAttempt) (a : GrantAttempt)
    → numbers_of id (attempts ++ a ∷ []) ≡ (
        if str_eq a.grant_id id
        then numbers_of id attempts ++ a.attempt ∷ []
        else numbers_of id attempts)
numbers-snoc id [] a = ground arith
numbers-snoc id (x ∷ attempts) a = ground (arith, numbers-snoc id attempts a)

All-IsBacked :
    (before now : List ExecutionGrant) (attempts : List GrantAttempt)
    → Continues before now
    → All (IsBacked before) attempts
    → All (IsBacked now) attempts
All-IsBacked before now [] c h = tt
All-IsBacked before now (a ∷ attempts) c h =
    let (g, f, task, time) = h.0 in
    let (g', f', task', time', kept) = c a.grant_id g f in
    (
      (g', f', task ∙ sym task', subst (λ k. a.authorized_at < k) (sym time') time),
      All-IsBacked before now attempts c h.1,
    )

All-snoc {ℓ κ} :
    {A : Type ℓ} (P : A → Type κ) (xs : List A) (x : A) → All P xs → P x → All P (xs ++ x ∷ [])
All-snoc P [] x h p = (p, tt)
All-snoc P (y ∷ xs) x h p = (h.0, All-snoc P xs x h.1 p)

-- A store whose attempts are all backed and numbered without a gap.
abbrev pub IsSound : Store → Type 0
IsSound db =
    All (IsBacked db.grants) db.attempts
    × ((id : String) → counts 0 (numbers_of id db.attempts) ≡ true)

grant_id-find :
    (id : String) (grants : List ExecutionGrant) (g : ExecutionGrant)
    → find_grant id grants ≡ some g
    → g.grant_id ≡ id
grant_id-find id grants g f =
    (eq_iff g.grant_id id).0 (find?_holds (λ x. str_eq x.grant_id id) grants g f)

Authorizes-IsSound : (db db' : Store) → Authorizes db db' → IsSound db → IsSound db'
Authorizes-IsSound db db' z v =
    let a = new_attempt z.grant z.attempt z.at_time in
    let same = grant_id-find z.grant_id db.grants z.grant z.found in
    let backed : IsBacked db.grants a =
      (z.grant, ap (λ k. find_grant k db.grants) same ∙ z.found, refl, z.in_time) in
    (
      subst (λ gs. All (IsBacked gs) db'.attempts) z.grants_same
          (subst (All (IsBacked db.grants)) z.added
            (All-snoc (IsBacked db.grants) db.attempts a v.0 backed)),
      λ id.
          subst (λ xs. counts 0 (numbers_of id xs) ≡ true) z.added
            (elim (Bool-cases (str_eq z.grant.grant_id id)) [
              | inl e ↦
                  let here : z.grant_id ≡ id = sym same ∙ (eq_iff z.grant.grant_id id).0 e in
                  let number : z.attempt ≡ suc (length (numbers_of id db.attempts)) =
                    z.next
                    ∙ (ap (λ k. expected_attempt (highest (numbers_of k db.attempts))) here
                        ∙ counts-next (numbers_of id db.attempts) (v.1 id)) in
                  let grown : numbers_of id (db.attempts ++ a ∷ [])
                      ≡ numbers_of id db.attempts ++ z.attempt ∷ [] =
                    numbers-snoc id db.attempts a ∙ rw e refl in
                  ap (counts 0) grown
                  ∙ counts-snoc 0 z.attempt (numbers_of id db.attempts) (v.1 id)
                      (omega (arith, number))
              | inr e ↦
                  let kept : numbers_of id (db.attempts ++ a ∷ []) ≡ numbers_of id db.attempts =
                    numbers-snoc id db.attempts a ∙ rw e refl in
                  ap (counts 0) kept ∙ v.1 id
            ]),
    )

Steps-IsSound : (db db' : Store) → Steps db db' → IsSound db → IsSound db'
Steps-IsSound db db' (inl (same, c)) v = (
  subst (All (IsBacked db'.grants)) same (All-IsBacked db.grants db'.grants db.attempts c v.0),
  λ id. subst (λ xs. counts 0 (numbers_of id xs) ≡ true) same (v.1 id),
)
Steps-IsSound db db' (inr z) v = Authorizes-IsSound db db' z v

pub calls-IsSound :
    (digest_of : PlanDocument → String) (cs : List Call) (db : Store)
    → IsSound db
    → IsSound (calls digest_of cs db)
unfolding calls
calls-IsSound digest_of [] db v = v
calls-IsSound digest_of (c ∷ cs) db v =
    calls-IsSound digest_of cs (call digest_of c db)
      (Steps-IsSound db (call digest_of c db) (call-Steps digest_of c db) v)

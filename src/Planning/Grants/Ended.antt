-- ===== src/Planning/Grants/Ended.antt =====
-- The grants over any calls: what they authorize, and what an ended one authorizes no more.
use brain_inspired_agent.Prelude.{
  String, ◌≡◌, refl, sym, ap, ◌∙◌, true, false, some, List, [], ◌∷◌, ◌++◌, str_eq, eq_iff, arith,
  All, Bool-cases, inl, inr, find?_holds,
}
use brain_inspired_agent.Planning.Validation.{PlanDocument}
use brain_inspired_agent.Planning.Grants.{
  ExecutionGrant, Store, find_grant, numbers_of, new_attempt, is_active, Call, call, calls, empty,
}
use brain_inspired_agent.Planning.Grants.Step.{Steps, call-Steps}
use brain_inspired_agent.Planning.Grants.Attempts.{IsBacked, counts, numbers-snoc, calls-IsSound}

-- The grant is as it was, and so are the numbers of its attempts.
abbrev Stays : String → ExecutionGrant → Store → Store → Type 0
Stays id g db db' =
    (find_grant id db'.grants ≡ some g) × (numbers_of id db'.attempts ≡ numbers_of id db.attempts)

Steps-Stays :
    (id : String) (g : ExecutionGrant) (db db' : Store)
    → Steps db db'
    → find_grant id db.grants ≡ some g
    → is_active g.status ≡ false
    → Stays id g db db'
Steps-Stays id g db db' (inl (same, c)) f e =
    let (g', f', task, time, kept) = c id g f in
    (f' ∙ ap some (kept e), ap (numbers_of id) (sym same))
Steps-Stays id g db db' (inr z) f e =
    let other : str_eq z.grant.grant_id id ≡ false =
      elim (Bool-cases (str_eq z.grant.grant_id id)) [
        | inr h ↦ h
        | inl h ↦
            let named =
              (eq_iff z.grant.grant_id z.grant_id).0
                (find?_holds (λ x. str_eq x.grant_id z.grant_id) db.grants z.grant z.found) in
            let here : z.grant_id ≡ id = sym named ∙ (eq_iff z.grant.grant_id id).0 h in
            let mine : find_grant id db.grants ≡ some z.grant =
              ap (λ k. find_grant k db.grants) (sym here) ∙ z.found in
            let same : g ≡ z.grant = ground (arith, f, mine) in
            absurd
              (ground (arith, e, z.is_open, ap (λ (x : ExecutionGrant). is_active x.status) same))
      ] in
    let kept : numbers_of id (db.attempts ++ new_attempt z.grant z.attempt z.at_time ∷ [])
        ≡ numbers_of id db.attempts =
      numbers-snoc id db.attempts (new_attempt z.grant z.attempt z.at_time) ∙ rw other refl in
    (ap (find_grant id) (sym z.grants_same) ∙ f, ap (numbers_of id) (sym z.added) ∙ kept)

-- A grant that has ended stays as it is through any calls, and no attempt is authorized under it.
pub ended_grant_lem :
    (digest_of : PlanDocument → String) (cs : List Call) (db : Store) (id : String)
    (g : ExecutionGrant)
    → find_grant id db.grants ≡ some g
    → is_active g.status ≡ false
    → (find_grant id (calls digest_of cs db).grants ≡ some g)
      × (numbers_of id (calls digest_of cs db).attempts ≡ numbers_of id db.attempts)
unfolding calls
ended_grant_lem digest_of [] db id g f e = (f, refl)
ended_grant_lem digest_of (c ∷ cs) db id g f e =
    let (f', same) = Steps-Stays id g db (call digest_of c db) (call-Steps digest_of c db) f e in
    let (f'', same') = ended_grant_lem digest_of cs (call digest_of c db) id g f' e in
    (f'', same' ∙ same)

-- After any calls on empty tables, every authorized attempt is of the task of its grant and before the
-- time at which the grant expires, and the attempts of every grant are numbered from one without a gap,
-- in the order in which they were authorized.
pub authorized_attempts_lem :
    (digest_of : PlanDocument → String) (cs : List Call)
    → All (IsBacked (calls digest_of cs empty).grants) (calls digest_of cs empty).attempts
      × ((id : String) → counts 0 (numbers_of id (calls digest_of cs empty).attempts) ≡ true)
authorized_attempts_lem digest_of cs = calls-IsSound digest_of cs empty (tt, λ id. refl)

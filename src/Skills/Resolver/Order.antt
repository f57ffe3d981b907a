-- ===== src/Skills/Resolver/Order.antt =====
-- The order of the sort keys is transitive.
use brain_inspired_agent.Prelude.{
  ℕ, ◌≡◌, refl, ap, ◌∙◌, Bool, true, false, ◌&&◌, ◌||◌, List, [], ◌∷◌, arith,
}
use brain_inspired_agent.Prelude.Texts.{codes}
use brain_inspired_agent.Skills.Registry.{InstalledSkill}
use brain_inspired_agent.Skills.Resolver.{
  tuple_lt, tuple_eq, version_of, before_by_name, before_by_version, limits_of, before,
}

tuple_lt_trans :
    (xs ys zs : List ℕ) → tuple_lt xs ys ≡ true → tuple_lt ys zs ≡ true → tuple_lt xs zs ≡ true
tuple_lt_trans [] [] zs h k = absurd (ground (arith, h))
tuple_lt_trans [] (y ∷ ys) [] h k = absurd (ground (arith, k))
tuple_lt_trans [] (y ∷ ys) (z ∷ zs) h k = refl
tuple_lt_trans (x ∷ xs) [] zs h k = absurd (ground (arith, h))
tuple_lt_trans (x ∷ xs) (y ∷ ys) [] h k = absurd (ground (arith, k))
tuple_lt_trans (x ∷ xs) (y ∷ ys) (z ∷ zs) h k = ground (arith, h, k, tuple_lt_trans xs ys zs)

tuple_eq_lem : (xs ys : List ℕ) → tuple_eq xs ys ≡ true → xs ≡ ys
tuple_eq_lem [] [] h = refl
tuple_eq_lem [] (y ∷ ys) h = absurd (ground (arith, h))
tuple_eq_lem (x ∷ xs) [] h = absurd (ground (arith, h))
tuple_eq_lem (x ∷ xs) (y ∷ ys) h =
    let first : x ≡ y = ground (arith, h) in
    let rest : xs ≡ ys = tuple_eq_lem xs ys (ground (arith, h)) in
    ap (λ t. t ∷ xs) first ∙ ap (◌∷◌ y) rest

-- A comparison by tuples and then by a transitive rest is transitive.
then_trans :
    (us vs ws : List ℕ) (r1 r2 r3 : Bool)
    → (r1 ≡ true → r2 ≡ true → r3 ≡ true)
    → (tuple_lt us vs || (tuple_eq us vs && r1)) ≡ true
    → (tuple_lt vs ws || (tuple_eq vs ws && r2)) ≡ true
    → (tuple_lt us ws || (tuple_eq us ws && r3)) ≡ true
then_trans us vs ws r1 r2 r3 r h k = ground (
  arith,
  h,
  k,
  r,
  tuple_lt_trans us vs ws,
  tuple_eq_lem us vs,
  tuple_eq_lem vs ws,
  ap (λ t. tuple_lt t ws) {x = us} {y = vs},
  ap (λ t. tuple_lt us t) {x = vs} {y = ws},
  ap (λ t. tuple_eq t ws) {x = us} {y = vs},
)

by_name_trans :
    (a b c : InstalledSkill)
    → before_by_name a b ≡ true
    → before_by_name b c ≡ true
    → before_by_name a c ≡ true
by_name_trans a b c =
    then_trans (codes a.manifest.skill_id) (codes b.manifest.skill_id) (codes c.manifest.skill_id) _
      _ _
      (tuple_lt_trans (codes a.manifest.digest) (codes b.manifest.digest) (codes c.manifest.digest))

-- The same with the tuples compared the other way round.
then_trans_back :
    (us vs ws : List ℕ) (r1 r2 r3 : Bool)
    → (r1 ≡ true → r2 ≡ true → r3 ≡ true)
    → (tuple_lt vs us || (tuple_eq vs us && r1)) ≡ true
    → (tuple_lt ws vs || (tuple_eq ws vs && r2)) ≡ true
    → (tuple_lt ws us || (tuple_eq ws us && r3)) ≡ true
then_trans_back us vs ws r1 r2 r3 r h k = then_trans ws vs us r2 r1 r3 (λ p q. r q p) k h

by_version_trans :
    (a b c : InstalledSkill)
    → before_by_version a b ≡ true
    → before_by_version b c ≡ true
    → before_by_version a c ≡ true
by_version_trans a b c =
    then_trans_back (version_of a) (version_of b) (version_of c) _ _ _ (by_name_trans a b c)

pub before_trans :
    (a b c : InstalledSkill) → before a b ≡ true → before b c ≡ true → before a c ≡ true
unfolding before
before_trans a b c =
    then_trans (limits_of a) (limits_of b) (limits_of c) _ _ _ (by_version_trans a b c)

tuple_lt_irrefl : (xs : List ℕ) → tuple_lt xs xs ≡ false
tuple_lt_irrefl [] = refl
tuple_lt_irrefl (x ∷ xs) = ground (arith, tuple_lt_irrefl xs)

pub before_irrefl : (a : InstalledSkill) → before a a ≡ false
unfolding before
before_irrefl a = ground (
  arith,
  tuple_lt_irrefl (limits_of a),
  tuple_lt_irrefl (version_of a),
  tuple_lt_irrefl (codes a.manifest.skill_id),
  tuple_lt_irrefl (codes a.manifest.digest),
)

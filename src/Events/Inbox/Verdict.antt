-- ===== src/Events/Inbox/Verdict.antt =====
-- `consume` against its specification: the verdict that the handler, the classifier of errors
-- and the number of attempts left determine, with no table, clock or identifier in it.
use brain_inspired_agent.Prelude.{
  ℕ, zero, suc, String, ◌≡◌, Bool, true, false, none, some, List, [], ◌∷◌, ◌++◌, Result, ok, raise,
}
use brain_inspired_agent.Events.Inbox.{
  Message, Row, Status, done, dead_letter, DeadLetter, State, ConsumptionResult, processed,
  dead_lettered, InboxError, select,
}

-- Applied by this attempt with this new domain state, or abandoned after this many attempts.
pub data Verdict (D : Type 0) : Type 0 where
  applied : ℕ → D → Verdict D
  abandoned : ℕ → Verdict D

module _ {D E : Type 0} (retryable : E → Bool) (handler : ℕ → D → Result E D) where
  -- `left` attempts may be made after the `failed` that have failed.
  unfoldable pub verdict : ℕ → ℕ → D → Verdict D
  verdict zero failed d = abandoned failed
  verdict (suc left) failed d = elim (handler (suc failed) d) [
    | ok d' ↦ applied (suc failed) d'
    | raise e ↦ elim (retryable e) [
      | true ↦ verdict left (suc failed) d
      | false ↦ abandoned (suc failed)
    ]
  ]

-- The message's row is there, its own, with this status and number of attempts.
pub record HasRow (m : Message) (rows : List Row) (status : Status) (attempt : ℕ) : Type 0 where
  pub row : Row
  pub found : select m rows ≡ some row
  pub own : row.msg_id ≡ m.msg_id
  pub has_status : row.status ≡ status
  pub has_attempt : row.attempt ≡ attempt

-- What a call of `consume` has done, by the verdict: an applied message has changed the domain
-- once and left a completed row, with no dead letter; an abandoned one has left the domain as it
-- was, a dead-letter row and exactly one dead letter more.
abbrev pub Settles :
    {D : Type 0}
    → Message
    → State D
    → Verdict D
    → Result InboxError ConsumptionResult × State D
    → Type 0
Settles m s (applied a d) (r, s') =
    (r ≡ ok (record { outcome = processed; attempts = a; error_id = none }))
    × (s'.domain ≡ d)
    × (s'.dead_letters ≡ s.dead_letters)
    × HasRow m s'.rows done a
Settles m s (abandoned a) (r, s') =
    (error : String) × (letter : DeadLetter) × (r
      ≡ ok (record { outcome = dead_lettered; attempts = a; error_id = some error }))
    × (s'.domain ≡ s.domain)
    × (s'.dead_letters ≡ s.dead_letters ++ letter ∷ [])
    × (letter.msg_id ≡ m.msg_id)
    × (letter.error_id ≡ error)
    × HasRow m s'.rows dead_letter a

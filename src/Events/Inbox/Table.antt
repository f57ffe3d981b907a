-- ===== src/Events/Inbox/Table.antt =====
-- The queries and writes of the inbox table, as seen through the query for one message.
use brain_inspired_agent.Prelude.{
  ℕ, ◌≡◌, refl, true, false, Option, none, some, List, [], ◌∷◌, ◌++◌, arith, str_eq, eq_iff,
  eq_refl, if◌then◌else◌, any,
}
use brain_inspired_agent.Events.Inbox.{
  Message, Row, same_key, matches, select, update_rows, upsert, fresh_row, ensured,
}

-- The row that the query finds, if any, is the message's own, not another message's with the
-- same deduplication key.
abbrev pub IsOwn : Message → Option Row → Type 0
IsOwn m none = Unit
IsOwn m (some r) = r.msg_id ≡ m.msg_id

-- A change of a row that keeps its two keys.
abbrev pub KeepsKeys : (Row → Row) → Type 0
KeepsKeys f = (r : Row) → ((f r).msg_id ≡ r.msg_id) × ((f r).dedup_key ≡ r.dedup_key)

abbrev change_found : Message → (Row → Row) → Option Row → Option Row
change_found m f none = none
change_found m f (some r) = some (if str_eq r.msg_id m.msg_id then f r else r)

select-update_rows :
    (m : Message) (f : Row → Row) (rows : List Row)
    → KeepsKeys f
    → select m (update_rows m.msg_id f rows) ≡ change_found m f (select m rows)
unfolding select update_rows
select-update_rows m f [] k = refl
select-update_rows m f (r ∷ rows) k =
    ground (arith, k r, select-update_rows m f rows k, eq_iff r.msg_id m.msg_id)

-- An update by the message's id reaches the row that the query finds.
pub select-update_own :
    (m : Message) (f : Row → Row) (rows : List Row) (r : Row)
    → KeepsKeys f
    → select m rows ≡ some r
    → r.msg_id ≡ m.msg_id
    → select m (update_rows m.msg_id f rows) ≡ some (f r)
select-update_own m f rows r k h e =
    ground (arith, select-update_rows m f rows k, eq_iff r.msg_id m.msg_id)

pub select-append :
    (m : Message) (rows : List Row) (r : Row)
    → select m rows ≡ none
    → matches m r ≡ true
    → select m (rows ++ r ∷ []) ≡ some r
unfolding select
select-append m [] r h e = rw e
select-append m (x ∷ rows) r h e = ground (arith, select-append m rows r)

no_id_of_none :
    (m : Message) (rows : List Row)
    → select m rows ≡ none
    → any (λ r. str_eq r.msg_id m.msg_id) rows ≡ false
unfolding select
no_id_of_none m [] h = refl
no_id_of_none m (x ∷ rows) h = ground (arith, no_id_of_none m rows)

no_key_of_none :
    (m : Message) (rows : List Row)
    → select m rows ≡ none
    → any (λ r. same_key r.dedup_key m.dedup_key) rows ≡ false
unfolding select
no_key_of_none m [] h = refl
no_key_of_none m (x ∷ rows) h = ground (arith, no_key_of_none m rows)

some_id_of_own :
    (m : Message) (rows : List Row) (r : Row)
    → select m rows ≡ some r
    → r.msg_id ≡ m.msg_id
    → any (λ r. str_eq r.msg_id m.msg_id) rows ≡ true
unfolding select
some_id_of_own m [] r h e = cc
some_id_of_own m (x ∷ rows) r h e =
    ground (arith, some_id_of_own m rows r, eq_iff x.msg_id m.msg_id)

-- What the query finds after an insert-or-update for the message.
abbrev pub stored : Row → (Row → Row) → Option Row → Row
stored new f none = new
stored new f (some r) = f r

-- The insert-or-update of a message whose row, if any, is its own never violates a key.
pub upsert_own :
    (m : Message) (new : Row) (f : Row → Row) (rows : List Row)
    → KeepsKeys f
    → new.msg_id ≡ m.msg_id
    → new.dedup_key ≡ m.dedup_key
    → IsOwn m (select m rows)
    → (rows' : List Row) × (upsert new f rows ≡ some rows')
      × (select m rows' ≡ some (stored new f (select m rows)))
unfolding upsert
upsert_own m new f rows k hid hkey own = go (select m rows) refl own
  where
    go :
        (o : Option Row)
        → select m rows ≡ o
        → IsOwn m o
        → (rows' : List Row) × (upsert new f rows ≡ some rows')
          × (select m rows' ≡ some (stored new f o))
    go none e own = (
      rows ++ new ∷ [],
      rw (hid, hkey, no_id_of_none m rows e, no_key_of_none m rows e) refl,
      select-append m rows new e (ground (arith, eq_iff new.msg_id m.msg_id)),
    )
    go (some r) e own = (
      update_rows m.msg_id f rows,
      rw (hid, some_id_of_own m rows r e own) refl,
      select-update_own m f rows r k e own,
    )

-- After the query and the insert the message has a row of its own.
pub ensured_own :
    (m : Message) (now : ℕ) (rows : List Row)
    → IsOwn m (select m rows)
    → (r : Row) × (select m (ensured m now (select m rows) rows) ≡ some r) × (r.msg_id ≡ m.msg_id)
unfolding ensured
ensured_own m now rows own = go (select m rows) refl own
  where
    go :
        (o : Option Row)
        → select m rows ≡ o
        → IsOwn m o
        → (r : Row) × (select m (ensured m now o rows) ≡ some r) × (r.msg_id ≡ m.msg_id)
    go none e own = (
      fresh_row m now,
      select-append m rows (fresh_row m now) e (rw (eq_refl m.msg_id) refl),
      refl,
    )
    go (some r) e own = (r, e, own)

-- ===== src/Simple/Entries.antt =====
-- The entry list as a map from ids.
use stv_renew.Prelude.{◌≡◌, ◌≢◌, ◌⊎◌, String, List, [], ◌∷◌, ◌++◌, none, some, arith}
use stv_renew.Prelude.Table
use stv_renew.Simple.{Entry, entry_key, find_entry, set_entry}

-- An entry found under an id has that id.
pub find_entry-id :
    (id : String) (es : List Entry) (e : Entry) → find_entry id es ≡ some e → e.task.task_id ≡ id
unfolding find_entry
find_entry-id = Table.find-key entry_key

pub find_entry_self :
    (id : String) (es : List Entry) (e : Entry)
    → find_entry id es ≡ some e
    → find_entry e.task.task_id es ≡ some e
unfolding find_entry
find_entry_self = Table.find_self entry_key

pub find_entry-set_entry_same :
    (id : String) (e x : Entry) (es : List Entry)
    → e.task.task_id ≡ id
    → find_entry id es ≡ some x
    → find_entry id (set_entry e es) ≡ some e
unfolding find_entry set_entry
find_entry-set_entry_same = Table.find-set_at_same entry_key

pub find_entry-set_entry_other :
    (id : String) (e : Entry) (es : List Entry)
    → e.task.task_id ≢ id
    → find_entry id (set_entry e es) ≡ find_entry id es
unfolding find_entry set_entry
find_entry-set_entry_other = Table.find-set_at_other entry_key

pub find_entry-append :
    (id : String) (es : List Entry) (e x : Entry)
    → find_entry id es ≡ some x
    → find_entry id (es ++ e ∷ []) ≡ some x
unfolding find_entry
find_entry-append id es e x h = ground (arith, Table.find-append entry_key id es e)

-- Where an entry found after a write, or after an append, comes from.
pub found_after :
    (id : String) (e x : Entry) (es : List Entry)
    → find_entry id (set_entry e es) ≡ some x
    → ((e.task.task_id ≡ id) × (x ≡ e)) ⊎ (find_entry id es ≡ some x)
unfolding find_entry set_entry
found_after = Table.found_after_set entry_key

pub found_pushed :
    (id : String) (es : List Entry) (e x : Entry)
    → find_entry id (es ++ e ∷ []) ≡ some x
    → ((e.task.task_id ≡ id) × (x ≡ e)) ⊎ (find_entry id es ≡ some x)
unfolding find_entry
found_pushed = Table.found_after_append entry_key

-- No two entries have one id.
abbrev pub Distinct : List Entry → Type 0
Distinct [] = Unit {0}
Distinct (e ∷ es) = (find_entry e.task.task_id es ≡ none) × Distinct es

Distinct-Table : (es : List Entry) → Distinct es → Table.Distinct entry_key es
unfolding find_entry
Distinct-Table [] d = tt
Distinct-Table (e ∷ es) d = (d.0, Distinct-Table es d.1)

Table-Distinct : (es : List Entry) → Table.Distinct entry_key es → Distinct es
unfolding find_entry
Table-Distinct [] d = tt
Table-Distinct (e ∷ es) d = (d.0, Table-Distinct es d.1)

pub set_entry-Distinct : (e : Entry) (es : List Entry) → Distinct es → Distinct (set_entry e es)
unfolding set_entry
set_entry-Distinct e es d =
    Table-Distinct _ (Table.set_at-Distinct entry_key e es (Distinct-Table es d))

pub append-Distinct :
    (es : List Entry) (e : Entry)
    → Distinct es
    → find_entry e.task.task_id es ≡ none
    → Distinct (es ++ e ∷ [])
unfolding find_entry
append-Distinct es e d h =
    Table-Distinct _ (Table.append-Distinct entry_key es e (Distinct-Table es d) h)

-- ===== src/RowEventFlat/Published.antt =====
-- packages/rust/src/row_event_flat.rs: the flat record tells the event.
use dirsql.Prelude.{◌≡◌, refl, Option, none, some, Text, codes, text_eq, if◌then◌else◌}
use dirsql.Value.{Row}
use dirsql.Differ.{RowEvent, insert, update, delete, error}
use dirsql.RowEventFlat.{FlatRowEvent, flatten_row_event}

-- What a binding can read off: the event's kind is told by the action alone, and its parts by the fields.
read_insert : {F : Type 0} → Option Text → Option (Row F) → Text → Option (RowEvent F)
read_insert (some table) (some row) file_path = some (insert table row file_path)
read_insert _ _ file_path = none

read_update :
    {F : Type 0} → Option Text → Option (Row F) → Option (Row F) → Text → Option (RowEvent F)
read_update (some table) (some old_row) (some row) file_path =
    some (update table old_row row file_path)
read_update _ _ _ file_path = none

read_delete : {F : Type 0} → Option Text → Option (Row F) → Text → Option (RowEvent F)
read_delete (some table) (some row) file_path = some (delete table row file_path)
read_delete _ _ file_path = none

read_error : {F : Type 0} → Option Text → Option Text → Text → Option (RowEvent F)
read_error table (some message) file_path = some (error table file_path message)
read_error table none file_path = none

pub read_event : {F : Type 0} → FlatRowEvent F → Option (RowEvent F)
unfolding read_insert read_update read_delete read_error
read_event f =
    if text_eq f.action (codes "insert")
    then read_insert f.table f.row f.file_path
    else if text_eq f.action (codes "update")
    then read_update f.table f.old_row f.row f.file_path
    else if text_eq f.action (codes "delete")
    then read_delete f.table f.row f.file_path
    else if text_eq f.action (codes "error")
    then read_error f.table f.error f.file_path
    else none

-- Flattening an event loses nothing: a reader that goes by the action and the filled fields gets
-- the event back.
pub read_event-flatten_row_event :
    {F : Type 0} (event : RowEvent F) → read_event (flatten_row_event event) ≡ some event
unfolding read_event flatten_row_event
read_event-flatten_row_event (insert table row file_path) = refl
read_event-flatten_row_event (update table old_row new_row file_path) = refl
read_event-flatten_row_event (delete table row file_path) = refl
read_event-flatten_row_event (error table file_path message) = refl

-- ===== src/RowEventFlat.antt =====
-- packages/rust/src/row_event_flat.rs: the flat record of a row event that the bindings publish. A
-- path is its lossy text.
pub mod Published
use dirsql.Prelude.{Option, none, some, Text, codes}
use dirsql.Value.{Row}
use dirsql.Differ.{RowEvent, insert, update, delete, error}

pub record FlatRowEvent (F : Type 0) : Type 0 where
  pub table : Option Text
  pub action : Text
  pub row : Option (Row F)
  pub old_row : Option (Row F)
  pub error : Option Text
  pub file_path : Text

pub flatten_row_event : {F : Type 0} → RowEvent F → FlatRowEvent F
flatten_row_event (insert table row file_path) = record {
  table = some table;
  action = codes "insert";
  row = some row;
  old_row = none;
  error = none;
  file_path = file_path;
}
flatten_row_event (update table old_row new_row file_path) = record {
  table = some table;
  action = codes "update";
  row = some new_row;
  old_row = some old_row;
  error = none;
  file_path = file_path;
}
flatten_row_event (delete table row file_path) = record {
  table = some table;
  action = codes "delete";
  row = some row;
  old_row = none;
  error = none;
  file_path = file_path;
}
flatten_row_event (error table file_path message) = record {
  table = table;
  action = codes "error";
  row = none;
  old_row = none;
  error = some message;
  file_path = file_path;
}

-- ===== src/Lib.antt =====
-- dirsql answers SQL queries over the files of a directory. This library models the parts of
-- packages/rust/src that compute without the operating system, SQLite or a parser of a third party,
-- and proves what they promise.
--
-- How the parts meet. A table of the program holds rows that a parser, a command or a plugin makes
-- from files. Infer (infer.rs) chooses the columns of a table from its rows of JSON; Json (lib.rs,
-- json_to_value) turns their values into the cells of Value (db.rs). When a file changes, Differ
-- (differ.rs) compares its old and new rows and gives the events that watchers get, and
-- RowEventFlat (row_event_flat.rs) is the form of an event in the bindings. Freshness
-- (freshness.rs) decides which files a query reads again. RowStream (row_stream.rs) holds the rows
-- of a scan in the chunks in which they came, addressed by position. A statement that names a
-- directory is scanned by TableRefs (table_refs.rs) for its quoted tables, whose names are written
-- and read by SqlLiteral (sql_literal.rs), and get the names of CaseAlias (table_refs.rs,
-- case_alias) where SQLite would confuse them; Params (params.rs) binds its placeholders. SQLite
-- reads such a table through the plan and the cursor of VtabScaffold (vtab_scaffold.rs), unless
-- ScanProgram (db.rs, scanned_columns) finds that the statement only reads its columns. A path in
-- it is a glob as bash reads it: Brace (brace.rs) expands its braces, PosixClass (posix_class.rs)
-- and CollatingSymbol (collating_symbol.rs) rewrite its brackets, GlobUnescape (glob_unescape.rs)
-- reads the parts without a pattern, and PathGlob (scanner.rs) is the automaton by which the walk
-- of a directory enters what a glob can reach. Watcher (watcher.rs) makes file events of what the
-- operating system reports and chooses the directories to watch; Events (lib.rs) sees an event
-- through symlinked directories and applies events in batches, and Reconcile (db.rs,
-- reconcile_rows) decides which stored rows of a file a batch deletes, updates and inserts, and
-- Reconcile.Apply runs the statements that do it. Listing (listing.rs) reads the entries of a
-- directory in chunks and orders them by name. Functions (functions.rs) computes SQL functions by a
-- worker process: Wire is what is sent and read, and Worker its calls and the collect pass that
-- batches those of a statement. Commands (command.rs) fills and quotes the arguments of a command,
-- and OnFile (on_file.rs) hands the files of a table to the invocations of its program. CliTable
-- (cli/table.rs) prints result rows. Prelude holds what the modules share, and Tests the runs on
-- small inputs.
--
-- How code is written here. Text is the list of its code points, a byte offset counts their bytes
-- in UTF-8. A HashMap is an association list; where the iteration order could matter, a row is its
-- entries in any order. Floating-point numbers are a parameter F with its equality. A loop with an
-- index is recursion on the text behind the index, or takes a count of the characters to pass over.
-- An error or a failing expect is a value: none, or err. Integers of 64 bits are saturated or
-- checked where the code does so; the i128 arithmetic of a range cannot overflow and is that of the
-- integers.
--
-- Fuel. The lexer (TableRefs.Lexer) takes one unit for each character, brace expansion twice the
-- length of the pattern and one, the loop of a bracket one for each character, and each is proved
-- to be enough. The loop that watches a tree takes one more than there are directories to watch.
-- The digits of a number take the number itself.
--
-- What is assumed. Freshness.Disk states what the operating system does to a file's times: a write
-- leaves a change time, a 64-bit number, that is at most two seconds before the write. The debug
-- form of a row is a parameter of Differ, which identifies rows by it as the code does. Of
-- serde_json only the text of a value is used, as a parameter of CliTable, and of the glob library
-- only the match of a pattern against one name, as a parameter of PathGlob; PosixClass.Set.Read
-- reads a bracket by the syntax which that library documents. The debug form is a parameter of
-- Reconcile too. The file system and the watching of a directory are parameters of Watcher and
-- Events, and a transaction can begin where it is said so, and a source's lookup key is one of
-- VtabScaffold, whose rows are those of the finished stream. The transport of a worker, JSON's
-- parser and printer and base64 are parameters of Functions. The statements on a table are an
-- interface of Reconcile.Apply with the laws that SQLite documents; a table whose rowid is also a
-- column is left aside there.
--
-- What is not modelled: the other SQL statements of db.rs, the registration and the row cache of
-- virtual tables (vtab.rs and its kin), the threads and scans of lib.rs, watcher.rs and scanner.rs,
-- the routing of an event to its tables, which is a parameter of Events, configuration, the running
-- of commands, the prompt and the server of the command line, and the bindings, which call SQLite,
-- the operating system or third-party libraries throughout; the waiting in row_stream.rs; the
-- parsing of documents in infer.rs.
pub mod Prelude
pub mod Value
pub mod Json
pub mod RowStream
pub mod Differ
pub mod RowEventFlat
pub mod Freshness
pub mod SqlLiteral
pub mod CaseAlias
pub mod TableRefs
pub mod Params
pub mod Infer
pub mod Brace
pub mod CollatingSymbol
pub mod PosixClass
pub mod GlobUnescape
pub mod PathGlob
pub mod CliTable
pub mod VtabScaffold
pub mod Reconcile
pub mod Watcher
pub mod Events
pub mod Listing
pub mod Functions
pub mod Commands
pub mod OnFile
pub mod ScanProgram
pub mod Tests

-- ===== src/EventStore.antt =====
-- internal/eventstore/store.go and jsonl.go: events as lines of JSON, one file for each tenant and
-- day. A file is the list of its lines, a line the event that encoding/json reads from it, `none`
-- if it reads none, its length, and whether it has its newline: the last line may lack it, after a
-- write that has failed. The root holds the store's own files, and reading them does not
-- fail but for a line that is too long; the context is not cancelled. The mutex makes each operation
-- one step.
pub mod Scan
pub mod Stream
pub mod AppendOnly
use agent_transponder.Prelude.{
  ℕ, suc, String, ◌==◌, str_append, Bool, true, false, ◌&&◌, ◌||◌, not, Option, none, some, List,
  [], ◌∷◌, ◌++◌, leb, add_line, any, take, length, if◌then◌else◌,
}
use agent_transponder.Prelude.Int.{ℤ, pos, negsuc, ltb_ℤ, leb_ℤ, pos_part}
use agent_transponder.Prelude.Maps.{Map, lookup, insert}
use agent_transponder.Prelude.Result.{Result, ok, err}
use agent_transponder.Types.Event.{Event, EventType, Time, is_zero, after, before}
use agent_transponder.Types.Tenant.{TenantError, validate_tenant_id}

pub record QueryFilter : Type 0 where
  pub after_time : Time
  pub before_time : Time
  pub session_id : String
  pub agent_id : String
  pub tenant_id : String
  pub types : List EventType
  pub limit : ℤ

pub record StoredLine : Type 0 where
  pub content : Option Event
  pub size : ℕ
  pub terminated : Bool

-- The files by their paths, and the writers by their buckets: whether a writer has failed.
-- bufio.Writer keeps its first error, and every later write returns it.
pub record JsonlStore : Type 0 where
  pub files : Map (List StoredLine)
  pub writers : Map Bool

-- What the operating system and the encoder do to one call of Append. A write, of the buffer or of
-- an event that is longer than the buffer, may fail after a part of the line is in the file.
pub data StoreFault : Type 0 where
  store_works open_fails encode_fails : StoreFault
  buffer_fails write_out_fails : Option StoredLine → StoreFault

pub data StoreError : Type 0 where
  bad_tenant : TenantError → StoreError
  no_writer marshal_event write_event flush_file : StoreError

-- t.UTC().Format("2006-01-02"), filepath.Join, json.Marshal followed by json.Unmarshal, and what is
-- read from the bytes of two lines in one.
pub record Storage : Type 0 where
  pub date : Time → String
  pub join : String → String → String
  pub encoded : Event → StoredLine
  pub glue : StoredLine → StoredLine → StoredLine

-- scanner.Buffer(…, 1024*1024): a longer line ends the scan with an error.
abbrev pub max_event_line : ℕ
max_event_line = 1_048_576

-- The events found, and whether the scan failed.
pub record Found : Type 0 where
  pub events : List Event
  pub failed : Bool

abbrev pub matches_types : Event → List EventType → Bool
matches_types event [] = true
matches_types event (t ∷ types) = any (λ u. event.type == u) (t ∷ types)

unfoldable pub matches_filter : Event → QueryFilter → Bool
matches_filter event f =
    if not (f.session_id == "") && not (event.session_id == f.session_id)
    then false
    else if not (f.agent_id == "") && not (event.agent_id == f.agent_id)
    then false
    else if not (f.tenant_id == "") && not (event.tenant_id == f.tenant_id)
    then false
    else if not (is_zero f.after_time) && not (after event.timestamp f.after_time)
    then false
    else if not (is_zero f.before_time) && not (before event.timestamp f.before_time)
    then false
    else matches_types event f.types

-- The results so far stay when a line is too long; a line that is no event is skipped.
unfoldable pub scan_file : QueryFilter → List StoredLine → Found
scan_file f [] = record { events = []; failed = false }
scan_file f (line ∷ lines) =
    let rest = scan_file f lines in
    if leb max_event_line line.size
    then record { events = []; failed = true }
    else elim line.content [
      | none ↦ rest
      | some event ↦
          if matches_filter event f then record rest { events = event ∷ rest.events } else rest
    ]

-- The walk over the files: a file whose scan fails ends it, and so does the limit.
unfoldable pub walk : QueryFilter → List Event → Map (List StoredLine) → Found
walk f results [] = record { events = results; failed = false }
walk f results ((path, lines) ∷ files) =
    let found = scan_file f lines in
    let results' = results ++ found.events in
    let rest = walk f results' files in
    if found.failed
    then record { events = results; failed = true }
    else if ltb_ℤ (pos 0) f.limit && leb_ℤ f.limit (pos (length results'))
    then record { events = take (pos_part f.limit) results'; failed = false }
    else rest

-- `files`: the store's files in the order in which fs.WalkDir finds them. Every Append has flushed
-- its line, so that there is nothing to flush.
unfoldable pub query : QueryFilter → Map (List StoredLine) → Found
query f files = walk f [] files

module _ (lib : Storage) where
  abbrev pub bucket_key : String → Time → String
  bucket_key tenant_id t = lib.join tenant_id (lib.date t)

  abbrev pub path_of : String → String
  path_of bucket = str_append bucket ".jsonl"

  -- The lines of a file, none before it is created.
  unfoldable pub lines_of : String → Map (List StoredLine) → List StoredLine
  lines_of path files = elim (lookup path files) [ none ↦ [] | some lines ↦ lines ]

  -- Whether the bucket's writer has failed before, `none` if it cannot be opened.
  unfoldable pub get_writer : Bool → String → JsonlStore → JsonlStore × Option Bool
  get_writer opens bucket s = elim (lookup bucket s.writers) [
    | some writer_failed ↦ (s, some writer_failed)
    | none ↦
        if opens
        then (
          record s {
            files = insert (path_of bucket) (lines_of (path_of bucket) s.files) s.files;
            writers = insert bucket false s.writers;
          },
          some false,
        )
        else (s, none)
  ]

  -- The bytes of a line at the end of a file.
  abbrev pub added : List StoredLine → StoredLine → List StoredLine
  added =
      add_line (λ (l : StoredLine). l.terminated)
        (λ x y. record (lib.glue x y) { terminated = y.terminated })

  unfoldable pub put_line : String → StoredLine → JsonlStore → JsonlStore
  put_line bucket line s = record s {
    files = insert (path_of bucket) (added (lines_of (path_of bucket) s.files) line) s.files;
  }

  -- The part of a line that a failed write leaves.
  unfoldable pub leave : Option StoredLine → String → JsonlStore → JsonlStore
  leave none bucket s = s
  leave (some part) bucket s = put_line bucket (record part { terminated = false }) s

  unfoldable pub fail_writer :
      Option StoredLine → String → StoreError → JsonlStore → JsonlStore × Result StoreError String
  fail_writer part bucket e s =
      (record (leave part bucket s) { writers = insert bucket true s.writers }, err e)

  abbrev pub line_of : Event → StoredLine
  line_of event = record (lib.encoded event) { terminated = true }

  -- The writes of Append, with the writer at hand.
  unfoldable pub write_line :
      StoreFault → String → Event → Bool → JsonlStore → JsonlStore × Result StoreError String
  write_line encode_fails bucket event writer_failed s = (s, err marshal_event)
  write_line (buffer_fails part) bucket event writer_failed s =
      if writer_failed then (s, err write_event) else fail_writer part bucket write_event s
  write_line (write_out_fails part) bucket event writer_failed s =
      if writer_failed then (s, err write_event) else fail_writer part bucket flush_file s
  write_line _ bucket event writer_failed s =
      if writer_failed
      then (s, err write_event)
      else (put_line bucket (line_of event) s, ok (str_append bucket (str_append ":" event.id)))

  abbrev pub opens : StoreFault → Bool
  opens open_fails = false
  opens _ = true

  unfoldable pub append_to :
      StoreFault → String → Event → JsonlStore × Option Bool → JsonlStore × Result StoreError String
  append_to fault bucket event (s, none) = (s, err no_writer)
  append_to fault bucket event (s, some writer_failed) =
      write_line fault bucket event writer_failed s

  -- Append, after the check of the tenant.
  unfoldable pub append_checked :
      StoreFault → Event → Option TenantError → JsonlStore → JsonlStore × Result StoreError String
  append_checked fault event (some e) s = (s, err (bad_tenant e))
  append_checked fault event none s =
      let bucket = bucket_key event.tenant_id event.timestamp in
      append_to fault bucket event (get_writer (opens fault) bucket s)

  unfoldable pub append : StoreFault → Event → JsonlStore → JsonlStore × Result StoreError String
  append fault event s = append_checked fault event (validate_tenant_id event.tenant_id) s

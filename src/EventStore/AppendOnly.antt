-- ===== src/EventStore/AppendOnly.antt =====
-- internal/eventstore/jsonl.go: the lines that Append adds.
use agent_transponder.Prelude.{
  ◌≡◌, refl, ◌∙◌, ◌⊎◌, false, subst, String, ◌==◌, str_append, eq_iff, Bool, Bool-cases, if_ind,
  inl, inr, Option, none, some, Option-cases, List, arith, if◌then◌else◌,
}
use agent_transponder.Prelude.Maps.{Map, lookup, insert, lookup-insert}
use agent_transponder.Prelude.Result.{Result, ok, err}
use agent_transponder.Types.Event.{Event}
use agent_transponder.Types.Tenant.{TenantError, validate_tenant_id}
use agent_transponder.EventStore.{
  StoredLine, JsonlStore, StoreFault, StoreError, Storage, store_works, open_fails, encode_fails,
  buffer_fails, write_out_fails, write_event, flush_file, lines_of, added, put_line, leave,
  fail_writer, line_of, get_writer, write_line, append_to, append_checked, append, opens,
  bucket_key, path_of,
}

-- The part of the line that a fault leaves.
abbrev pub part_of : StoreFault → Option StoredLine
part_of (buffer_fails part) = part
part_of (write_out_fails part) = part
part_of _ = none

module _ (lib : Storage) where
  -- These bytes at the end of this file, and the other files as they were.
  abbrev pub Grown : String → StoredLine → JsonlStore → JsonlStore → Type 0
  Grown bucket line s s' =
      (path : String)
      → lines_of lib path s'.files ≡ (
          if path == path_of lib bucket
          then added lib (lines_of lib path s.files) line
          else lines_of lib path s.files)

  abbrev pub Same : JsonlStore → JsonlStore → Type 0
  Same s s' = (path : String) → lines_of lib path s'.files ≡ lines_of lib path s.files

  -- The event's line; or an error, and nothing, or the part of a line that the fault leaves.
  abbrev pub IsAppended :
      StoreFault → String → Event → JsonlStore → JsonlStore × Result StoreError String → Type 0
  IsAppended fault bucket event s (s', ok key) =
      (key ≡ str_append bucket (str_append ":" event.id)) × Grown bucket (line_of lib event) s s'
  IsAppended fault bucket event s (s', err e) =
      Same s s'
      ⊎ ((part : StoredLine) × (part_of fault ≡ some part)
          × Grown bucket (record part { terminated = false }) s s')

  lines_of-insert :
      (k path : String) (lines : List StoredLine) (files : Map (List StoredLine))
      → lines_of lib path (insert k lines files)
        ≡ (if path == k then lines else lines_of lib path files)
  unfolding lines_of
  lines_of-insert k path lines files = ground (arith, lookup-insert k path lines files)

  put_line-Grown :
      (bucket : String) (line : StoredLine) (s : JsonlStore)
      → Grown bucket line s (put_line lib bucket line s)
  unfolding put_line
  put_line-Grown bucket line s path = ground (
    arith,
    lines_of-insert (path_of lib bucket) path
        (added lib (lines_of lib (path_of lib bucket) s.files) line) s.files,
    eq_iff path (path_of lib bucket),
  )

  written :
      (fault : StoreFault) (bucket : String) (event : Event) (failed : Bool) (s : JsonlStore)
      → IsAppended fault bucket event s (write_line lib store_works bucket event failed s)
  unfolding write_line
  written fault bucket event failed s =
      if_ind (IsAppended fault bucket event s) failed (λ _. inl (λ path. refl))
        (λ _. (refl, put_line-Grown bucket (line_of lib event) s))

  failed-IsAppended :
      (fault : StoreFault) (part : Option StoredLine) (bucket : String) (event : Event)
      (e : StoreError) (s : JsonlStore)
      → part_of fault ≡ part
      → IsAppended fault bucket event s (fail_writer lib part bucket e s)
  unfolding fail_writer leave put_line
  failed-IsAppended fault none bucket event e s is = inl (λ path. refl)
  failed-IsAppended fault (some part) bucket event e s is =
      inr (part, is, put_line-Grown bucket (record part { terminated = false }) s)

  write_line-IsAppended :
      (fault : StoreFault) (bucket : String) (event : Event) (failed : Bool) (s : JsonlStore)
      → IsAppended fault bucket event s (write_line lib fault bucket event failed s)
  unfolding write_line
  write_line-IsAppended encode_fails bucket event failed s = inl (λ path. refl)
  write_line-IsAppended (buffer_fails part) bucket event failed s =
      if_ind (IsAppended (buffer_fails part) bucket event s) failed (λ _. inl (λ path. refl))
        (λ _. failed-IsAppended (buffer_fails part) part bucket event write_event s refl)
  write_line-IsAppended (write_out_fails part) bucket event failed s =
      if_ind (IsAppended (write_out_fails part) bucket event s) failed (λ _. inl (λ path. refl))
        (λ _. failed-IsAppended (write_out_fails part) part bucket event flush_file s refl)
  write_line-IsAppended open_fails bucket event failed s = written open_fails bucket event failed s
  write_line-IsAppended store_works bucket event failed s =
      written store_works bucket event failed s

  get_writer_keeps :
      (can_open : Bool) (bucket path : String) (s : JsonlStore)
      → lines_of lib path (get_writer lib can_open bucket s).0.files ≡ lines_of lib path s.files
  unfolding get_writer
  get_writer_keeps can_open bucket path s =
      let created =
        lines_of-insert (path_of lib bucket) path (lines_of lib (path_of lib bucket) s.files)
          s.files in
      elim (Option-cases (lookup bucket s.writers)) [
        | inl missing ↦ elim (Bool-cases can_open) [
          | inl opened ↦ ground (arith, missing, opened, created, eq_iff path (path_of lib bucket))
          | inr refused ↦ ground (arith, missing, refused)
        ]
        | inr (writer_failed, there) ↦ ground (arith, there)
      ]

  Grown-frame :
      (bucket : String) (line : StoredLine) (s s₁ s' : JsonlStore)
      → Same s s₁
      → Grown bucket line s₁ s'
      → Grown bucket line s s'
  Grown-frame bucket line s s₁ s' same h path =
      subst
        (λ l.
          lines_of lib path s'.files ≡ (if path == path_of lib bucket then added lib l line else l))
        (same path) (h path)

  IsAppended-frame :
      (fault : StoreFault) (bucket : String) (event : Event) (s s₁ : JsonlStore)
      (r : JsonlStore × Result StoreError String)
      → Same s s₁
      → IsAppended fault bucket event s₁ r
      → IsAppended fault bucket event s r
  IsAppended-frame fault bucket event s s₁ (s', ok key) same (named, h) =
      (named, Grown-frame bucket (line_of lib event) s s₁ s' same h)
  IsAppended-frame fault bucket event s s₁ (s', err e) same (inl h) =
      inl (λ path. h path ∙ same path)
  IsAppended-frame fault bucket event s s₁ (s', err e) same (inr (part, is, h)) =
      inr (part, is, Grown-frame bucket (record part { terminated = false }) s s₁ s' same h)

  append_to-IsAppended :
      (fault : StoreFault) (bucket : String) (event : Event) (s : JsonlStore)
      (r : JsonlStore × Option Bool)
      → Same s r.0
      → IsAppended fault bucket event s (append_to lib fault bucket event r)
  unfolding append_to
  append_to-IsAppended fault bucket event s (s₁, none) same = inl same
  append_to-IsAppended fault bucket event s (s₁, some failed) same =
      IsAppended-frame fault bucket event s s₁ (write_line lib fault bucket event failed s₁) same
        (write_line-IsAppended fault bucket event failed s₁)

  append_checked-IsAppended :
      (fault : StoreFault) (event : Event) (check : Option TenantError) (s : JsonlStore)
      → IsAppended fault
          (bucket_key lib event.tenant_id event.timestamp)
          event
          s
          (append_checked lib fault event check s)
  unfolding append_checked
  append_checked-IsAppended fault event (some e) s = inl (λ path. refl)
  append_checked-IsAppended fault event none s =
      let bucket = bucket_key lib event.tenant_id event.timestamp in
      append_to-IsAppended fault bucket event s (get_writer lib (opens lib fault) bucket s)
        (λ path. get_writer_keeps (opens lib fault) bucket path s)

  -- Append either succeeds, returns the bucket and the ID, and puts the event's line at the end of
  -- the file of its tenant and day; or it fails, and leaves every file as it was, or, if a write
  -- has failed, puts there the part of the line that this write has left, without a newline. What
  -- is put at the end of a file whose last line lacks its newline continues that line. No other
  -- file, and no earlier line, is touched.
  pub append-IsAppended :
      (fault : StoreFault) (event : Event) (s : JsonlStore)
      → IsAppended fault
          (bucket_key lib event.tenant_id event.timestamp)
          event
          s
          (append lib fault event s)
  unfolding append
  append-IsAppended fault event s =
      append_checked-IsAppended fault event (validate_tenant_id event.tenant_id) s

-- ===== src/Exporter/Counts.antt =====
-- cmd/exporter/main.go: what the exporter counts, against the lines that were written.
use agent_transponder.Prelude.{
  ℕ, suc, ◌+◌, ◌≤◌, ◌<◌, ◌≡◌, refl, sym, ap, ap₂, ◌∙◌, String, ◌==◌, eq_iff, Bool, true, false, not,
  ◌&&◌, Option, none, some, List, [], ◌∷◌, ◌++◌, length, length-append, append_assoc, append_nil,
  All, eqb, get_or, if◌then◌else◌, arith,
}
use agent_transponder.Prelude.Maps.{Map, lookup, get_or-insert}
use agent_transponder.Analyzer.Reader.{newline, carriage_return, read_lines}
use agent_transponder.Analyzer.Resumed.{read_lines-step}
use agent_transponder.Exporter.{
  max_token, ends_with, drop_last, token, fits_buffer, scan_tokens, scan_bytes, count_nonempty,
  WalkEntry, count_lines, StoreCounts, add_to, tenant_of, count_file, walk_store,
}

-- What a line holds before its newline: something, without a newline, and no carriage return last.
pub record IsLine (body : List ℕ) : Type 0 where
  pub some_bytes : 1 ≤ length body
  pub one_line : All (λ c. eqb c newline ≡ false) body
  pub no_return : ends_with carriage_return body ≡ false
  pub short : length body < max_token

-- The bytes of a file with these lines.
abbrev pub joined : List (List ℕ) → List ℕ
joined [] = []
joined (body ∷ bodies) = (body ++ newline ∷ []) ++ joined bodies

read_lines-body :
    (line body rest : List ℕ)
    → All (λ c. eqb c newline ≡ false) body
    → read_lines line (body ++ newline ∷ rest) ≡ (line ++ body ++ newline ∷ []) ∷ read_lines [] rest
read_lines-body line [] rest h =
    read_lines-step line rest newline
    ∙ ap (λ l. (l ++ newline ∷ []) ∷ read_lines [] rest) (sym (append_nil line))
read_lines-body line (c ∷ body) rest h =
    read_lines-step line (body ++ newline ∷ rest) c
    ∙ ap
        (λ (b : Bool).
          if b
          then (line ++ c ∷ []) ∷ read_lines [] (body ++ newline ∷ rest)
          else read_lines (line ++ c ∷ []) (body ++ newline ∷ rest))
        h.0
    ∙ read_lines-body (line ++ c ∷ []) body rest h.1
    ∙ ap (λ l. (l ++ newline ∷ []) ∷ read_lines [] rest) (append_assoc line (c ∷ []) body)

ends_with-snoc : (c : ℕ) (body : List ℕ) → ends_with c (body ++ c ∷ []) ≡ true
unfolding ends_with
ends_with-snoc c [] = ground arith
ends_with-snoc c (b ∷ []) = ground arith
ends_with-snoc c (b ∷ d ∷ body) = ends_with-snoc c (d ∷ body)

drop_last-snoc : (c : ℕ) (body : List ℕ) → drop_last (body ++ c ∷ []) ≡ body
unfolding drop_last
drop_last-snoc c [] = refl
drop_last-snoc c (b ∷ []) = refl
drop_last-snoc c (b ∷ d ∷ body) = ap (λ l. b ∷ l) (drop_last-snoc c (d ∷ body))

token-line : (body : List ℕ) → IsLine body → token (body ++ newline ∷ []) ≡ body
unfolding token
token-line body h =
    let line = body ++ newline ∷ [] in
    let cut : (if ends_with newline line then drop_last line else line) ≡ body =
      ap (λ (b : Bool). if b then drop_last line else line) (ends_with-snoc newline body)
      ∙ drop_last-snoc newline body in
    ap (λ l. if ends_with carriage_return l then drop_last l else l) cut
    ∙ ap (λ (b : Bool). if b then drop_last body else body) h.no_return

fits_buffer-line : (body : List ℕ) → IsLine body → fits_buffer (body ++ newline ∷ []) ≡ true
unfolding fits_buffer
fits_buffer-line body h =
    ground (arith, ends_with-snoc newline body, length-append body (newline ∷ []), h.short)

-- The scanner gives back the lines.
pub scan_bytes-joined :
    (bodies : List (List ℕ)) → All IsLine bodies → scan_bytes (joined bodies) ≡ (bodies, false)
unfolding scan_bytes scan_tokens read_lines
scan_bytes-joined [] h = refl
scan_bytes-joined (body ∷ bodies) h =
    let rest = joined bodies in
    let line = body ++ newline ∷ [] in
    let lines : read_lines [] (joined (body ∷ bodies)) ≡ line ∷ read_lines [] rest =
      ap (read_lines []) (append_assoc body (newline ∷ []) rest)
      ∙ read_lines-body [] body rest h.0.one_line in
    let later = scan_bytes rest in
    ap scan_tokens lines
    ∙ ap (λ (b : Bool). if b then (token line ∷ later.0, later.1) else ([], true))
        (fits_buffer-line body h.0)
    ∙ ap₂ (λ (t : List ℕ) (r : List (List ℕ) × Bool). (t ∷ r.0, r.1)) (token-line body h.0)
        (scan_bytes-joined bodies h.1)

count_nonempty-lines :
    (bodies : List (List ℕ)) → All IsLine bodies → count_nonempty bodies ≡ length bodies
unfolding count_nonempty
count_nonempty-lines [] h = refl
count_nonempty-lines ([] ∷ bodies) h = absurd (omega (arith, h.0.some_bytes))
count_nonempty-lines ((c ∷ body) ∷ bodies) h = ap suc (count_nonempty-lines bodies h.1)

-- countLines counts the lines that were written.
pub count_lines-joined :
    (bodies : List (List ℕ))
    → All IsLine bodies
    → count_lines (some (joined bodies)) ≡ some (length bodies, length (joined bodies))
unfolding count_lines
count_lines-joined bodies h =
    ap
      (λ (r : List (List ℕ) × Bool).
        if r.1 then none else some (count_nonempty r.0, length (joined bodies)))
      (scan_bytes-joined bodies h)
    ∙ ap (λ n. some (n, length (joined bodies))) (count_nonempty-lines bodies h)

pub count_lines-none : count_lines none ≡ none
unfolding count_lines
count_lines-none = refl

-- What the files of a tenant add to it, up to an error of the walk.
abbrev pub counted : (ℕ × ℕ → ℕ) → Option (ℕ × ℕ) → ℕ
counted part none = 0
counted part (some r) = part r

abbrev pub tally : (ℕ × ℕ → ℕ) → String → List WalkEntry → ℕ
tally part tenant [] = 0
tally part tenant (e ∷ entries) =
    let later = tally part tenant entries in
    if e.failed
    then 0
    else (if not e.is_dir && e.ext == ".jsonl" && tenant == tenant_of e.dir
        then counted part (count_lines e.bytes)
        else 0)
      + later

abbrev pub value : String → Map ℕ → ℕ
value k m = get_or 0 (lookup k m)

value-add_to :
    (k k' : String) (n : ℕ) (m : Map ℕ)
    → value k' (add_to k n m) ≡ value k' m + (if k' == k then n else 0)
unfolding add_to
value-add_to k k' n m = ground (
  arith,
  get_or-insert 0 k k' (get_or 0 (lookup k m) + n) m,
  eq_iff k' k,
  λ (e : k' ≡ k). ap (λ x. value x m) e,
)

-- What a file adds to a tenant.
count_file-value :
    (tenant k : String) (r : Option (ℕ × ℕ)) (c : StoreCounts)
    → (value k (count_file tenant r c).tenant_events
        ≡ value k c.tenant_events + (if k == tenant then counted (λ p. p.0) r else 0))
      × (value k (count_file tenant r c).tenant_bytes
          ≡ value k c.tenant_bytes + (if k == tenant then counted (λ p. p.1) r else 0))
unfolding count_file
count_file-value tenant k none c = (ground arith, ground arith)
count_file-value tenant k (some (n, size)) c =
    (value-add_to tenant k n c.tenant_events, value-add_to tenant k size c.tenant_bytes)

-- The walk adds to each tenant the lines, and the bytes, of the files of its directory.
pub walk_store-tally :
    (k : String) (entries : List WalkEntry) (c : StoreCounts)
    → (value k (walk_store entries c).tenant_events
        ≡ value k c.tenant_events + tally (λ p. p.0) k entries)
      × (value k (walk_store entries c).tenant_bytes
          ≡ value k c.tenant_bytes + tally (λ p. p.1) k entries)
unfolding walk_store
walk_store-tally k [] c = (omega arith, omega arith)
walk_store-tally k (e ∷ entries) c =
    let r = count_lines e.bytes in
    let tenant = tenant_of e.dir in
    let one = count_file-value tenant k r c in
    let skipped = walk_store-tally k entries c in
    let more = walk_store-tally k entries (count_file tenant r c) in
    (ground (arith, one.0, skipped.0, more.0), ground (arith, one.1, skipped.1, more.1))

-- ===== src/Diff.antt =====
-- diff.go: edits, the lines that a list of edits keeps, and the three-way comparison of
-- `diff3Iterator` on the edits from the base to either side.
pub mod Script
pub mod Ranges
pub mod Chunks
use go_repo_dojo.Base.{
  ℕ, zero, suc, ◌+◌, ◌-◌, Bool, true, false, not, ◌&&◌, ◌||◌, Option, none, some, List, [], ◌∷◌,
  ◌++◌, ◌==◌, ltb, if◌then◌else◌,
}

pub data EditKind : Type 0 where
  edit_eql edit_ins edit_del : EditKind

pub record Edit : Type 0 where
  pub kind : EditKind
  pub old_line_num : ℕ
  pub new_line_num : ℕ

unfoldable pub is_eql : EditKind → Bool
is_eql edit_eql = true
is_eql edit_ins = false
is_eql edit_del = false

-- `get` on the cache that holds all edits: where a line of the old text stands in the new one.
unfoldable pub get_match : ℕ → List Edit → Option ℕ
unfolding is_eql
get_match old_line [] = none
get_match old_line (e ∷ es) =
    let rest = get_match old_line es in
    if is_eql e.kind
    then (if ltb e.old_line_num old_line
        then rest
        else if e.old_line_num == old_line
        then some e.new_line_num
        else none)
    else rest

is_some : Option ℕ → Bool
is_some none = false
is_some (some n) = true

unfoldable pub contains_line : ℕ → List Edit → Bool
unfolding is_some get_match
contains_line old_line es = is_some (get_match old_line es)

pub record MyersDiffRange : Type 0 where
  pub del_start : ℕ
  pub del_end : ℕ
  pub ins_start : ℕ
  pub ins_end : ℕ

-- Equal lines from a pair of lines on, for this many rounds.
equal_edits : ℕ → ℕ → ℕ → List Edit
equal_edits zero oi ni = []
equal_edits (suc n) oi ni =
    record { kind = edit_eql; old_line_num = oi; new_line_num = ni }
    ∷ equal_edits n (suc oi) (suc ni)

deletions : ℕ → ℕ → List Edit
deletions zero oi = []
deletions (suc n) oi =
    record { kind = edit_del; old_line_num = oi; new_line_num = 0 } ∷ deletions n (suc oi)

insertions : ℕ → ℕ → List Edit
insertions zero ni = []
insertions (suc n) ni =
    record { kind = edit_ins; old_line_num = 0; new_line_num = ni } ∷ insertions n (suc ni)

smaller : ℕ → ℕ → ℕ
smaller a b = if ltb a b then a else b

-- What `next` appends to the cache for a range, from the ends of the range before it.
unfoldable pub range_edits : ℕ → ℕ → MyersDiffRange → List Edit
unfolding equal_edits deletions insertions smaller
range_edits x y r =
    equal_edits (smaller (r.del_start - x) (r.ins_start - y)) x y
    ++ (deletions (r.del_end - r.del_start) r.del_start
        ++ insertions (r.ins_end - r.ins_start) r.ins_start)

-- The cache behind the last range: equal lines up to the shorter end; with no range it stays empty.
unfoldable pub all_edits : ℕ → ℕ → ℕ → ℕ → List MyersDiffRange → List Edit
unfolding range_edits
all_edits n m x y [] = []
all_edits n m x y (r ∷ []) =
    range_edits x y r ++ equal_edits (smaller (n - r.del_end) (m - r.ins_end)) r.del_end r.ins_end
all_edits n m x y (r ∷ r' ∷ rs) = range_edits x y r ++ all_edits n m r.del_end r.ins_end (r' ∷ rs)

pub record Diff3Range : Type 0 where
  pub begin : ℕ
  pub end : ℕ

pub data Diff3ChunkKind : Type 0 where
  diff3_clean diff3_conflict : Diff3ChunkKind

pub record Diff3Chunk : Type 0 where
  pub kind : Diff3ChunkKind
  pub o_range : Option Diff3Range
  pub a_range : Option Diff3Range
  pub b_range : Option Diff3Range

pub record Diff3Iterator : Type 0 where
  pub line_count_o : ℕ
  pub line_count_a : ℕ
  pub line_count_b : ℕ
  pub line_o : ℕ
  pub line_a : ℕ
  pub line_b : ℕ
  pub edits_a : List Edit
  pub edits_b : List Edit
  pub finished : Bool

unfoldable pub new_diff3_range : ℕ → ℕ → Option Diff3Range
new_diff3_range begin end =
    if ltb begin end then some (record { begin = begin; end = end }) else none

clean_chunk : Option Diff3Range → Option Diff3Chunk
clean_chunk none = none
clean_chunk (some r) =
    some (record { kind = diff3_clean; o_range = some r; a_range = none; b_range = none })

unfoldable pub new_diff3_chunk :
    Option Diff3Range → Option Diff3Range → Option Diff3Range → Bool → Option Diff3Chunk
unfolding clean_chunk
new_diff3_chunk o a b match =
    if match
    then clean_chunk o
    else some (record { kind = diff3_conflict; o_range = o; a_range = a; b_range = b })

unfoldable pub in_bounds : Diff3Iterator → ℕ → Bool
in_bounds d i =
    ltb (d.line_o + i) d.line_count_o
    || (ltb (d.line_a + i) d.line_count_a || ltb (d.line_b + i) d.line_count_b)

same_line : Option ℕ → ℕ → Bool
same_line none n = false
same_line (some r) n = r == n

unfoldable pub is_match : Diff3Iterator → List Edit → ℕ → ℕ → Bool
unfolding same_line get_match
is_match d es offset i = same_line (get_match (d.line_o + i) es) (offset + i)

unfoldable pub both_match : Diff3Iterator → ℕ → Bool
unfolding is_match
both_match d i = is_match d d.edits_a d.line_a i && is_match d d.edits_b d.line_b i

-- The first index at which a line is not matched on both sides, or the bounds end. The fuel is what is
-- left of the three texts, and the index leaves the bounds with it.
unfoldable pub find_mismatch : ℕ → Diff3Iterator → ℕ → ℕ
unfolding in_bounds both_match
find_mismatch zero d i = i
find_mismatch (suc fuel) d i =
    let rest = find_mismatch fuel d (i + 1) in if in_bounds d i && both_match d i then rest else i

-- The next line of the base that both sides keep, or the end of the base, after as many rounds.
unfoldable pub find_match : ℕ → Diff3Iterator → ℕ → ℕ
unfolding contains_line
find_match zero d o = o
find_match (suc fuel) d o =
    let rest = find_match fuel d (o + 1) in
    if contains_line o d.edits_a && contains_line o d.edits_b then o else rest

unfoldable pub lines_left : Diff3Iterator → ℕ
lines_left d =
    (d.line_count_o - d.line_o) + ((d.line_count_a - d.line_a) + (d.line_count_b - d.line_b))

unfoldable pub chunk_to : Diff3Iterator → ℕ → ℕ → ℕ → Bool → Option Diff3Chunk
unfolding new_diff3_chunk new_diff3_range
chunk_to d o a b match =
    new_diff3_chunk (new_diff3_range d.line_o o) (new_diff3_range d.line_a a)
      (new_diff3_range d.line_b b) match

unfoldable pub move_to : Diff3Iterator → ℕ → ℕ → ℕ → Diff3Iterator
move_to d o a b = record d { line_o = o; line_a = a; line_b = b }

unfoldable pub final_chunk : Diff3Iterator → ℕ → Option Diff3Chunk × Diff3Iterator
unfolding chunk_to
final_chunk d i = (
  chunk_to d d.line_count_o d.line_count_a d.line_count_b (ltb 0 i),
  record d { finished = true },
)

-- A conflict up to the lines that match the base's line `o` again.
unfoldable pub conflict_to :
    Diff3Iterator → ℕ → Option ℕ → Option ℕ → Option Diff3Chunk × Diff3Iterator
unfolding chunk_to move_to final_chunk
conflict_to d o (some a) (some b) = (chunk_to d o a b false, move_to d o a b)
conflict_to d o none b = final_chunk d 0
conflict_to d o (some a) none = final_chunk d 0

-- The chunk from the index of the first mismatch and the next line that matches.
unfoldable pub chunk_at : Diff3Iterator → ℕ → ℕ → Option Diff3Chunk × Diff3Iterator
unfolding in_bounds conflict_to chunk_to move_to final_chunk
chunk_at d i o =
    if in_bounds d i
    then (if i == 0 then conflict_to d o (get_match o d.edits_a) (get_match o d.edits_b) else (
      chunk_to d (d.line_o + i) (d.line_a + i) (d.line_b + i) true,
      move_to d (d.line_o + i) (d.line_a + i) (d.line_b + i),
    ))
    else final_chunk d i

unfoldable pub next_chunk : Diff3Iterator → Option Diff3Chunk × Diff3Iterator
unfolding find_mismatch find_match lines_left chunk_at
next_chunk d =
    if d.finished
    then (none, d)
    else chunk_at d (find_mismatch (lines_left d) d 0)
        (find_match (d.line_count_o - d.line_o) d d.line_o)

pub collect_chunk :
    (Diff3Iterator → Option (List Diff3Chunk))
    → Option Diff3Chunk × Diff3Iterator
    → Option (List Diff3Chunk)
collect_chunk loop (none, d) = some []
collect_chunk loop (some c, d) = elim (loop d) [ none ↦ none | some cs ↦ some (c ∷ cs) ]

-- `next` until it returns nil; `none` means that the fuel ran out.
unfoldable pub all_chunks : ℕ → Diff3Iterator → Option (List Diff3Chunk)
unfolding collect_chunk next_chunk
all_chunks zero d = none
all_chunks (suc fuel) d = collect_chunk (all_chunks fuel) (next_chunk d)

unfoldable pub new_diff3_iterator : ℕ → ℕ → ℕ → List Edit → List Edit → Diff3Iterator
new_diff3_iterator n_o n_a n_b edits_a edits_b = record {
  line_count_o = n_o;
  line_count_a = n_a;
  line_count_b = n_b;
  line_o = 0;
  line_a = 0;
  line_b = 0;
  edits_a = edits_a;
  edits_b = edits_b;
  finished = false;
}

-- ===== src/Tests/Diffs.antt =====
-- Edits and the three-way comparison on small texts.
use go_repo_dojo.Base.{zero, suc, ◌≡◌, refl, some, none, List, [], ◌∷◌, Bytes, codes, arith}
use go_repo_dojo.Diff.{
  Edit, MyersDiffRange, all_edits, diff3_clean, diff3_conflict, Diff3Chunk, new_diff3_iterator,
  all_chunks, get_match,
}
use go_repo_dojo.Diff.Script.{IsScript}
use go_repo_dojo.Diff.Ranges.{IsRun, IsRanges, all_edits-IsScript}
use go_repo_dojo.Diff.Chunks.{Cuts, all_chunks-Cuts}

abbrev base_text : List Bytes
base_text = codes "a" ∷ codes "b" ∷ codes "c" ∷ []

abbrev target_text : List Bytes
target_text = codes "a" ∷ codes "x" ∷ codes "c" ∷ []

abbrev source_text : List Bytes
source_text = codes "a" ∷ codes "b" ∷ codes "c" ∷ codes "d" ∷ []

abbrev changed_line : MyersDiffRange
changed_line = record { del_start = 1; del_end = 2; ins_start = 1; ins_end = 2 }

abbrev added_line : MyersDiffRange
added_line = record { del_start = 3; del_end = 3; ins_start = 3; ins_end = 4 }

target_edits : List Edit
target_edits = all_edits 3 3 0 0 (changed_line ∷ [])

source_edits : List Edit
source_edits = all_edits 3 4 0 0 (added_line ∷ [])

first_line : IsRun base_text target_text 0 0 1
first_line zero lt = (codes "a", refl, refl)
first_line (suc j) lt = absurd (omega arith)

last_line : IsRun base_text target_text 2 2 1
last_line zero lt = (codes "c", refl, refl)
last_line (suc j) lt = absurd (omega arith)

three_lines : IsRun base_text source_text 0 0 3
three_lines zero lt = (codes "a", refl, refl)
three_lines (suc zero) lt = (codes "b", refl, refl)
three_lines (suc (suc zero)) lt = (codes "c", refl, refl)
three_lines (suc (suc (suc j))) lt = absurd (omega arith)

no_lines : IsRun base_text source_text 3 4 0
no_lines j lt = absurd (omega arith)

target-IsRanges : IsRanges base_text target_text 0 0 (changed_line ∷ [])
target-IsRanges = (
  1,
  (
    refl,
    (
      refl,
      (
        first_line,
        (omega arith, (omega arith, (omega arith, (omega arith, (1, (refl, (refl, last_line))))))),
      ),
    ),
  ),
)

source-IsRanges : IsRanges base_text source_text 0 0 (added_line ∷ [])
source-IsRanges = (
  3,
  (
    refl,
    (
      refl,
      (
        three_lines,
        (omega arith, (omega arith, (omega arith, (omega arith, (0, (refl, (refl, no_lines))))))),
      ),
    ),
  ),
)

all_edits-IsScript_example :
    IsScript base_text target_text 0 0 (all_edits 3 3 0 0 (changed_line ∷ []))
all_edits-IsScript_example =
    all_edits-IsScript base_text target_text changed_line [] target-IsRanges

source-IsScript : IsScript base_text source_text 0 0 source_edits
unfolding source_edits
source-IsScript = all_edits-IsScript base_text source_text added_line [] source-IsRanges

target-IsScript : IsScript base_text target_text 0 0 target_edits
unfolding target_edits
target-IsScript = all_edits-IsScript base_text target_text changed_line [] target-IsRanges

all_chunks-Cuts_example :
    (cs : List Diff3Chunk) × ((all_chunks 12 (new_diff3_iterator 3 3 4 target_edits source_edits)
        ≡ some cs)
      × Cuts base_text target_text source_text target_edits source_edits 0 0 0 cs)
all_chunks-Cuts_example =
    all_chunks-Cuts base_text target_text source_text target_edits source_edits 11 target-IsScript
      source-IsScript (omega arith)

-- A clean line, a conflict, a clean line, and the line that only one side has.
four_chunks :
    all_chunks 12 (new_diff3_iterator 3 3 4 target_edits source_edits)
    ≡ some (
        record {
          kind = diff3_clean;
          o_range = some (record { begin = 0; end = 1 });
          a_range = none;
          b_range = none;
        }
        ∷ record {
          kind = diff3_conflict;
          o_range = some (record { begin = 1; end = 2 });
          a_range = some (record { begin = 1; end = 2 });
          b_range = some (record { begin = 1; end = 2 });
        }
        ∷ record {
          kind = diff3_clean;
          o_range = some (record { begin = 2; end = 3 });
          a_range = none;
          b_range = none;
        }
        ∷ record {
          kind = diff3_conflict;
          o_range = none;
          a_range = none;
          b_range = some (record { begin = 3; end = 4 });
        }
        ∷ [])
unfolding all_chunks new_diff3_iterator target_edits source_edits all_edits get_match
four_chunks = refl

-- ===== src/Delta/Caching.antt =====
-- pack.go: `initCache`, which reads what a delta copies from its base. Freeing the base's own cache
-- afterwards is left out, since nothing reads it again.
pub mod Waiting
pub mod Copies
pub mod Filled
use go_repo_dojo.Base.{
  ℕ, zero, suc, ◌+◌, ◌-◌, Bool, true, false, ◌&&◌, ◌||◌, Option, none, some, List, [], ◌∷◌, ◌++◌,
  ◌==◌, ltb, if◌then◌else◌, Bytes, take, Result, ok, err, ◌>>=◌,
}
use go_repo_dojo.Readers.{ReaderOps, fill}
use go_repo_dojo.Delta.{DeltaChunkKind, delta_add_new, delta_copy_from_base, DeltaChunk, Chunks}

-- A chunk of the other kind at its index.
pub record CopyRef : Type 0 where
  pub idx : ℕ
  pub chunk : DeltaChunk

ref_of : DeltaChunkKind → ℕ → DeltaChunk → List CopyRef
ref_of delta_add_new i c = []
ref_of delta_copy_from_base i c = record { idx = i; chunk = c } ∷ []

pub copy_refs : ℕ → Chunks → List CopyRef
unfolding ref_of
copy_refs i [] = []
copy_refs i ((c, d) ∷ cs) = ref_of c.kind i c ++ copy_refs (suc i) cs

-- By offset, and the larger one first.
ref_less : DeltaChunk → DeltaChunk → Bool
ref_less a b = if a.offset == b.offset then ltb b.size a.size else ltb a.offset b.offset

insert_ref : CopyRef → List CopyRef → List CopyRef
unfolding ref_less
insert_ref r [] = r ∷ []
insert_ref r (q ∷ qs) =
    let rest = insert_ref r qs in if ref_less q.chunk r.chunk then q ∷ rest else r ∷ q ∷ qs

pub sort_refs : List CopyRef → List CopyRef
unfolding insert_ref
sort_refs [] = []
sort_refs (r ∷ rs) = insert_ref r (sort_refs rs)

pub data_at : ℕ → Chunks → Option Bytes
data_at i [] = none
data_at zero ((c, d) ∷ cs) = d
data_at (suc i) ((c, d) ∷ cs) = data_at i cs

pub set_data : ℕ → Bytes → Chunks → Chunks
set_data i b [] = []
set_data zero b ((c, d) ∷ cs) = (c, some b) ∷ cs
set_data (suc i) b ((c, d) ∷ cs) = (c, d) ∷ set_data i b cs

-- `data != nil && len(data) > 0`
pub is_cached : Option Bytes → Bool
is_cached none = false
is_cached (some []) = false
is_cached (some (x ∷ b)) = true

-- The subset optimisation: the bytes of the one before, cut to the size. The one before has its bytes
-- by then, so the case without any, where Go stops, is not met.
pub cut_from : Option CopyRef → DeltaChunk → Chunks → Option Bytes
cut_from none c cs = none
cut_from (some p) c cs =
    if p.chunk.offset == c.offset && ltb c.size p.chunk.size
    then (elim (data_at p.idx cs) [ none ↦ none | some b ↦ some (take c.size b) ])
    else none

module _ (R : ReaderOps) where
  skip_to : ℕ → R.State → Result R.State
  skip_to offset s =
      if ltb (R.position s) offset then R.skip_bytes (offset - R.position s) s else ok s

  -- Reads a chunk of the base.
  read_copy : DeltaChunk → R.State → Result (Bytes × R.State)
  unfolding skip_to
  read_copy c s = do s' ← R.reset s; s'' ← skip_to c.offset s'; fill R.read c.size c.size s'' []

  pub cache_copy : Option Bytes → CopyRef → Chunks → R.State → Result (Chunks × R.State)
  unfolding read_copy
  cache_copy (some b) r cs s = ok (set_data r.idx b cs, s)
  cache_copy none r cs s = do (b, s') ← read_copy r.chunk s; ok (set_data r.idx b cs, s')

  cache_loop : Option CopyRef → List CopyRef → Chunks → R.State → Result (Chunks × R.State)
  unfolding cache_copy is_cached cut_from
  cache_loop prev [] cs s = ok (cs, s)
  cache_loop prev (r ∷ rs) cs s = do
    (cs', s') ←
        (if is_cached (data_at r.idx cs)
          then ok (cs, s)
          else cache_copy (cut_from prev r.chunk cs) r cs s)
    cache_loop (some r) rs cs' s'

  unfoldable pub init_cache : Chunks → R.State → Result (Chunks × R.State)
  unfolding cache_loop copy_refs sort_refs data_at set_data
  init_cache cs s = cache_loop none (sort_refs (copy_refs 0 cs)) cs s

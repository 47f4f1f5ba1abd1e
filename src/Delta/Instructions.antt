-- ===== src/Delta/Instructions.antt =====
-- The format of the instructions, and that `initDelta` reads it.
pub mod Copies
pub mod RoundTrip
use go_repo_dojo.Base.{
  ℕ, zero, suc, ◌+◌, ◌-◌, ◌*◌, ◌/◌, ◌%◌, ◌^◌, ◌≤◌, ◌<◌, ◌≡◌, ◌⊎◌, List, [], ◌∷◌, ◌++◌, Bool, true,
  false, if◌then◌else◌, ◌==◌, Bytes, length, take, drop,
}
use go_repo_dojo.Pack.{size_bytes}

-- Put these bytes, or this part of the base.
pub data DeltaInstruction : Type 0 where
  insert_data : Bytes → DeltaInstruction
  copy_base : ℕ → ℕ → DeltaInstruction

-- The seven bytes of a copy, of the offset and of the size.
abbrev pub copy_bytes : ℕ → ℕ → Bytes
copy_bytes o n =
    o % 256
    ∷ o / 2 ^ 8 % 256
    ∷ o / 2 ^ 16 % 256
    ∷ o / 2 ^ 24
    ∷ n % 256
    ∷ n / 2 ^ 8 % 256
    ∷ n / 2 ^ 16
    ∷ []

-- A byte that is 0 is left out, and its bit is clear.
abbrev pub flag : ℕ → ℕ
flag v = if v == 0 then 0 else 1

unfoldable pub present : Bytes → Bytes
present [] = []
present (v ∷ vs) = if v == 0 then present vs else v ∷ present vs

unfoldable pub flags : Bytes → ℕ
flags [] = 0
flags (v ∷ vs) = flag v + 2 * flags vs

unfoldable pub encode : DeltaInstruction → Bytes
encode (insert_data d) = length d ∷ d
encode (copy_base o n) = (128 + flags (copy_bytes o n)) ∷ present (copy_bytes o n)

unfoldable pub encode_all : List DeltaInstruction → Bytes
encode_all [] = []
encode_all (i ∷ is) = encode i ++ encode_all is

-- A size, seven bits a byte.
unfoldable pub var_size : ℕ → Bytes
var_size n = if n == 0 then 0 ∷ [] else size_bytes n n

unfoldable pub encode_delta : ℕ → ℕ → List DeltaInstruction → Bytes
encode_delta base_size recon_size is = var_size base_size ++ (var_size recon_size ++ encode_all is)

-- What an instruction puts into the object.
unfoldable pub apply_instruction : Bytes → DeltaInstruction → Bytes
apply_instruction base (insert_data d) = d
apply_instruction base (copy_base o n) = take n (drop o base)

unfoldable pub apply_all : Bytes → List DeltaInstruction → Bytes
apply_all base [] = []
apply_all base (i ∷ is) = apply_instruction base i ++ apply_all base is

-- The format has room for it, and a copy lies in the base.
unfoldable pub HasRoom : Bytes → DeltaInstruction → Type 0
HasRoom base (insert_data d) = (0 < length d) × (length d < 128)
HasRoom base (copy_base o n) = (0 < n) × (n < 2 ^ 24) × (o < 2 ^ 32) × (o + n ≤ length base)

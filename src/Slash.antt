-- ===== src/Slash.antt =====
-- `path.Clean`, `path.Dir` and `path.Base` of Go's standard library.
use go_repo_dojo.Base.{
  ℕ, suc, Bool, false, ◌||◌, Option, none, some, List, [], ◌∷◌, ◌==◌, if◌then◌else◌, Bytes,
  bytes_eq, codes, take, drop,
}
use go_repo_dojo.Text.{last_index, split, join, trim_right}

-- A `..` takes the last part away, if there is one; at the root it does nothing. The parts are in
-- reverse.
up : Bool → List Bytes → List Bytes
up rooted [] = if rooted then [] else codes ".." ∷ []
up rooted (o ∷ os) = if bytes_eq o (codes "..") then codes ".." ∷ o ∷ os else os

resolve : Bool → List Bytes → List Bytes → List Bytes
unfolding up
resolve rooted out [] = out
resolve rooted out (e ∷ es) =
    let skipped = resolve rooted out es in
    let gone_up = resolve rooted (up rooted out) es in
    let kept = resolve rooted (e ∷ out) es in
    if bytes_eq e [] || bytes_eq e (codes ".")
    then skipped
    else if bytes_eq e (codes "..")
    then gone_up
    else kept

reversed : List Bytes → List Bytes → List Bytes
reversed acc [] = acc
reversed acc (x ∷ xs) = reversed (x ∷ acc) xs

is_rooted : Bytes → Bool
is_rooted [] = false
is_rooted (c ∷ s) = c == 47

or_dot : Bytes → Bytes
or_dot [] = codes "."
or_dot (c ∷ s) = c ∷ s

unfoldable pub path_clean : Bytes → Bytes
unfolding resolve reversed is_rooted or_dot
path_clean p =
    let parts = join (reversed [] (resolve (is_rooted p) [] (split p 47))) 47 in
    if is_rooted p then 47 ∷ parts else or_dot parts

up_to_slash : Option ℕ → Bytes → Bytes
up_to_slash none p = []
up_to_slash (some i) p = take (suc i) p

unfoldable pub path_dir : Bytes → Bytes
unfolding path_clean up_to_slash
path_dir p = path_clean (up_to_slash (last_index p 47) p)

behind_slash : Option ℕ → Bytes → Bytes
behind_slash none p = p
behind_slash (some i) p = drop (suc i) p

last_part : Bytes → Bytes
unfolding behind_slash
last_part [] = codes "/"
last_part (c ∷ s) = behind_slash (last_index (c ∷ s) 47) (c ∷ s)

unfoldable pub path_base : Bytes → Bytes
unfolding last_part
path_base [] = codes "."
path_base (c ∷ s) = last_part (trim_right (λ b. b == 47) (c ∷ s))

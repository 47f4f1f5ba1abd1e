-- ===== src/ReceivePack/Checks.antt =====
-- net_server_receive_pack.go: what `applyRefUpdate` checks before it changes anything. The writer is
-- the list of the bytes written to it. The change itself, of the working directory and of the ref,
-- is not part of it.
use go_repo_dojo.Base.{
  ℕ, Bool, true, false, ◌&&◌, ◌||◌, Option, none, some, [], ◌∷◌, ◌++◌, if◌then◌else◌, Bytes, codes,
  bytes_eq, drop, Result, ok, err,
}
use go_repo_dojo.Text.{has_prefix}
use go_repo_dojo.Text
use go_repo_dojo.Hash.{Hash, is_null, hash_equal}
use go_repo_dojo.Pkt.{send_sideband}
use go_repo_dojo.Ref.{validate_ref_name}
use go_repo_dojo.Repo.{Repo, new_object}
use go_repo_dojo.Merge.{get_descendent}
use go_repo_dojo.ReceivePack.{
  ReceivePack, RefUpdate, DenyPolicy, deny_unconfigured, deny_ignore, deny_warn, deny_refuse,
  deny_update_instead,
}

-- The message that ends the update, or go on, with `shouldUpdateWorktree`.
pub data Verdict : Type 0 where
  refused : Bytes → Verdict
  allowed : Bool → Verdict

unfoldable pub write_receive_message : Bytes → Bytes → Bytes → Bytes
write_receive_message w prefix msg = send_sideband w 2 (prefix ++ (msg ++ (b'\n' ∷ [])))

unfoldable pub write_receive_warning : Bytes → Bytes → Bytes
write_receive_warning w msg = write_receive_message w (codes "warning: ") msg

unfoldable pub write_receive_error : Bytes → Bytes → Bytes
write_receive_error w msg = write_receive_message w (codes "error: ") msg

abbrev pub deny_current_branch_msg : Bytes
deny_current_branch_msg =
    codes "By default, updating the current branch in a non-bare repository\n"
    ++ (codes "is denied, because it will make the index and work tree inconsistent\n"
        ++ (codes "with what you pushed, and will require 'git reset --hard' to match\n"
            ++ (codes "the work tree to HEAD.\n\n"
                ++ (codes "You can set the 'receive.denyCurrentBranch' configuration variable\n"
                    ++ (codes
                          "to 'ignore' or 'warn' in the remote repository to allow pushing into\n"
                        ++ (codes
                              "its current branch; however, this is not recommended unless you\n"
                            ++ (codes
                                  "arranged to update its work tree to match what you pushed in some\n"
                                ++ (codes "other way.\n\n"
                                    ++ (codes
                                          "To squelch this message and still keep the default behaviour, set\n"
                                        ++ codes
                                            "'receive.denyCurrentBranch' configuration variable to 'refuse'.")))))))))

abbrev pub deny_delete_current_msg : Bytes
deny_delete_current_msg =
    codes "By default, deleting the current branch is denied, because the next\n"
    ++ (codes "'git clone' won't result in any file checked out, causing confusion.\n\n"
        ++ (codes "You can set 'receive.denyDeleteCurrent' configuration variable to\n"
            ++ (codes "'warn' or 'ignore' in the remote repository to allow deleting the\n"
                ++ (codes "current branch, with or without a warning message.\n\n"
                    ++ codes "To squelch this message, you can set it to 'refuse'."))))

after_refs : Bytes → Bytes
after_refs name = if has_prefix name (codes "refs/") then drop 5 name else []

negate : Bool → Bool
negate true = false
negate false = true

unfoldable pub is_funny : RefUpdate → Bool
unfolding after_refs negate
is_funny u =
    negate (has_prefix u.ref_name (codes "refs/"))
    || negate (validate_ref_name (after_refs u.ref_name))
    || (negate (is_null u.new_oid) && negate (Text.contains (after_refs u.ref_name) (codes "/")))

-- `rp.headName != "" && name == rp.headName`
unfoldable pub is_current : ReceivePack → Bytes → Bool
unfolding negate
is_current rp name = negate (bytes_eq rp.head_name []) && bytes_eq name rp.head_name

refuse_current : Bytes → Bytes → Bytes
refuse_current name w =
    write_receive_error w (codes "refusing to update checked out branch: " ++ name)

abbrev checked_out : Bytes
checked_out = codes "branch is currently checked out"

current_policy : DenyPolicy → Bytes → Bytes → Bytes × Verdict
current_policy deny_ignore name w = (w, allowed false)
current_policy deny_warn name w =
    (write_receive_warning w (codes "updating the current branch"), allowed false)
current_policy deny_refuse name w = (refuse_current name w, refused checked_out)
current_policy deny_unconfigured name w =
    (write_receive_error (refuse_current name w) deny_current_branch_msg, refused checked_out)
current_policy deny_update_instead name w = (w, allowed true)

unfoldable pub check_current : ReceivePack → RefUpdate → Bytes → Bytes × Verdict
unfolding current_policy refuse_current
check_current rp u w =
    if is_current rp u.ref_name
    then current_policy rp.deny_current_branch u.ref_name w
    else (w, allowed false)

unfoldable pub check_object : Repo → RefUpdate → Bytes → Bool → Bytes × Verdict
check_object repo u w worktree =
    if is_null u.new_oid then (w, allowed worktree) else elim (new_object repo u.new_oid false) [
      | ok o ↦ (w, allowed worktree)
      | err e ↦ (w, refused (codes "bad pack"))
    ]

refuse_delete : Bytes → Bytes → Bytes × Verdict
refuse_delete name w = (
  write_receive_error w (codes "refusing to delete the current branch: " ++ name),
  refused (codes "deletion of the current branch prohibited"),
)

delete_policy : DenyPolicy → Bytes → Bytes → Bool → Bytes × Verdict
unfolding refuse_delete
delete_policy deny_ignore name w worktree = (w, allowed worktree)
delete_policy deny_warn name w worktree =
    (write_receive_warning w (codes "deleting the current branch"), allowed worktree)
delete_policy deny_refuse name w worktree = refuse_delete name w
delete_policy deny_update_instead name w worktree = refuse_delete name w
delete_policy deny_unconfigured name w worktree =
    refuse_delete name (write_receive_error w deny_delete_current_msg)

unfoldable pub check_delete : ReceivePack → RefUpdate → Bytes → Bool → Bytes × Verdict
unfolding negate delete_policy refuse_delete
check_delete rp u w worktree =
    if negate (is_null u.old_oid) && is_null u.new_oid
    then (if rp.deny_deletes && has_prefix u.ref_name (codes "refs/heads/")
        then (
          write_receive_error w (codes "denying ref deletion for " ++ u.ref_name),
          refused (codes "deletion prohibited"),
        )
        else if is_current rp u.ref_name
        then delete_policy rp.deny_delete_current u.ref_name w worktree
        else (w, allowed worktree))
    else (w, allowed worktree)

unfoldable pub only_forward : ReceivePack → RefUpdate → Bool
unfolding negate
only_forward rp u =
    rp.deny_non_fast_forwards
    && negate (is_null u.new_oid)
    && negate (is_null u.old_oid)
    && has_prefix u.ref_name (codes "refs/heads/")

-- What `getDescendent` says of the old and the new commit; `none` is a search that ran out of fuel.
unfoldable pub judge_descendent :
    RefUpdate → Bytes → Bool → Option (Result Hash) → Option (Bytes × Verdict)
judge_descendent u w worktree none = none
judge_descendent u w worktree (some (err e)) = some (w, refused (codes "bad ref"))
judge_descendent u w worktree (some (ok d)) =
    if hash_equal (some d) (some u.new_oid)
    then some (w, allowed worktree)
    else some (
      write_receive_error w
          (codes "denying non-fast-forward " ++ (u.ref_name ++ codes " (you should pull first)")),
      refused (codes "non-fast-forward"),
    )

unfoldable pub check_forward :
    ℕ → Repo → ReceivePack → RefUpdate → Bytes → Bool → Option (Bytes × Verdict)
check_forward fuel repo rp u w worktree =
    if only_forward rp u
    then judge_descendent u w worktree (get_descendent repo u.old_oid u.new_oid fuel)
    else some (w, allowed worktree)

-- `if shouldUpdateWorktree { if rp.isBare { … } }`
unfoldable pub check_bare : ReceivePack → Bytes → Bool → Bytes × Verdict
check_bare rp w worktree =
    if worktree && rp.is_bare
    then (w, refused (codes "denyCurrentBranch = updateInstead needs a worktree"))
    else (w, allowed worktree)

-- A return ends the function; otherwise the next check is made.
unfoldable pub go_on :
    Bytes × Verdict → (Bytes → Bool → Option (Bytes × Verdict)) → Option (Bytes × Verdict)
go_on (w, refused msg) next = some (w, refused msg)
go_on (w, allowed worktree) next = next w worktree

unfoldable pub go_on_maybe :
    Option (Bytes × Verdict) → (Bytes → Bool → Option (Bytes × Verdict)) → Option (Bytes × Verdict)
unfolding go_on
go_on_maybe none next = none
go_on_maybe (some v) next = go_on v next

-- The checks from one of them on, in their order.
unfoldable pub from_forward :
    ℕ → Repo → ReceivePack → RefUpdate → Bytes → Bool → Option (Bytes × Verdict)
from_forward fuel repo rp u w worktree =
    go_on_maybe (check_forward fuel repo rp u w worktree) (λ w' t'. some (check_bare rp w' t'))

unfoldable pub from_delete :
    ℕ → Repo → ReceivePack → RefUpdate → Bytes → Bool → Option (Bytes × Verdict)
from_delete fuel repo rp u w worktree =
    go_on (check_delete rp u w worktree) (from_forward fuel repo rp u)

unfoldable pub from_object :
    ℕ → Repo → ReceivePack → RefUpdate → Bytes → Bool → Option (Bytes × Verdict)
from_object fuel repo rp u w worktree =
    go_on (check_object repo u w worktree) (from_delete fuel repo rp u)

unfoldable pub check_ref_update :
    ℕ → Repo → ReceivePack → RefUpdate → Bytes → Option (Bytes × Verdict)
check_ref_update fuel repo rp u w =
    if is_funny u
    then some (
      write_receive_error w
          (codes "refusing to update funny ref '" ++ (u.ref_name ++ codes "' remotely")),
      refused (codes "funny refname"),
    )
    else go_on (check_current rp u w) (from_object fuel repo rp u)

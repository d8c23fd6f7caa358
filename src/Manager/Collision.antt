-- ===== src/Manager/Collision.antt =====
-- The hash of a repository is that of its address and its revision written one after the other, with
-- nothing between them.
use Prim.Native.String.{◌++◌ as ◌+++◌}
use text.Mathlib.TextLemmas.{append_assoc}
use crossform.Common.{String, ◌≡◌, none, arith}
use crossform.Common.Dict.{lookup, lookup-put_self}
use crossform.Common.Outcome.{ok}
use crossform.Repo.Config.{config_of}
use crossform.Repo.State.{new_repo}
use crossform.Manager.State.{Manager, get_repo, on_update}

-- Whatever the hash function, when the first characters `b` of a revision `b ++ v` may as well be the
-- last of the address, a module for the address `a ++ b` and the revision `v` is answered with the
-- repository that was created for the address `a` and the revision `b ++ v`.
pub get_repo-collides :
    {R : Type 0} (md5_hex : String → String) (a b v : String) (m : Manager R)
    → lookup (md5_hex (a +++ (b +++ v))) m.repos ≡ none
    → get_repo md5_hex (a +++ b) v (on_update (config_of md5_hex a (b +++ v)) m)
      ≡ ok (new_repo (config_of md5_hex a (b +++ v)))
unfolding get_repo on_update
get_repo-collides md5_hex a b v m fresh =
    let h = md5_hex (a +++ (b +++ v)) in
    rw (append_assoc a b v)
      (ground (arith, lookup-put_self h (new_repo (config_of md5_hex a (b +++ v))) m.repos))

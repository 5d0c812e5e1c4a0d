-- ===== src/Group/Tests.antt =====
-- A concrete group: crates/vaultex-crypto/src/group.rs.
use vaultex.Base.{
  ◌≡◌, ◌≢◌, refl, ap, arith, false, List, [], ◌∷◌, Bytes, replicate, get_or, bytes_eq,
}
use vaultex.Group.{GroupInfo, contains, is_member, other_members}
use vaultex.Group.Calls.{
  Call, adds, removes, asks, run, set_run, members_of, run_refines, recipients,
}
use vaultex.Group.Members.{NoDuplicates}

abbrev alice : Bytes
alice = 97 ∷ []

abbrev bob : Bytes
bob = 98 ∷ []

abbrev carol : Bytes
carol = 99 ∷ []

abbrev family : GroupInfo
family = record {
  group_id = replicate 32 1;
  name = [];
  members = alice ∷ bob ∷ [];
  created_at = 1700000000;
  created_by = alice;
}

bob≢carol : bob ≢ carol
bob≢carol e = absurd (ground (arith, ap (λ l. get_or l 0 0) e))

once : NoDuplicates family.members
unfolding contains bytes_eq
once = (refl, (refl, tt))

no_carol : is_member family carol ≡ false
unfolding is_member contains bytes_eq
no_carol = refl

abbrev id : Bytes
id = replicate 32 171

abbrev some_calls : List Call
some_calls = adds carol ∷ removes bob ∷ asks bob ∷ adds carol ∷ []

run_refines_example :
    ((run some_calls family).0 ≡ (set_run some_calls (members_of family)).0)
    × (members_of (run some_calls family).1 ≡ (set_run some_calls (members_of family)).1)
run_refines_example = run_refines some_calls family

recipients_example :
    let last = (run some_calls family).1 in
    NoDuplicates (other_members last bob)
    × (contains (other_members last bob) bob ≡ false)
    × (contains (other_members last bob) carol ≡ is_member last carol)
recipients_example = recipients some_calls family bob carol once bob≢carol

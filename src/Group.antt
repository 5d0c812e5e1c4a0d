-- ===== src/Group.antt =====
-- crates/vaultex-crypto/src/group.rs: the members of a group. A `String` is its bytes, and a call
-- that changes a group gives the group after it.
pub mod Members
pub mod MemberSet
pub mod Calls
pub mod Id
mod Tests
use vaultex.Base.{
  ℕ, Bool, true, false, not, ◌||◌, ltb, ◌==◌, if◌then◌else◌, List, [], ◌∷◌, ◌++◌, Option, Bytes,
  text, bytes_eq, length,
}
use vaultex.Errors.{Result, ok, ◌>>=◌, ◌>>◌, ok_or, reject_if, init_failed, ratchet_error}
use vaultex.Crates.Sodium.{Sodium}
use vaultex.Crates.Encoding.{Hex}

-- 32 bytes.
abbrev pub GroupId : Type 0
GroupId = Bytes

-- `bytes` is what `randombytes(32)` draws.
unfoldable pub generate : Sodium → Bytes → Result GroupId
generate na bytes = do reject_if (not na.init) init_failed; ok bytes

module _ (hex : Hex) where
  unfoldable pub to_hex : GroupId → Bytes
  to_hex id = hex.encode id

  unfoldable pub from_hex : Bytes → Result GroupId
  from_hex hex_str = do
    bytes ← ok_or (hex.decode hex_str) (ratchet_error (text "invalid hex for group ID"))
    reject_if (not (length bytes == 32)) (ratchet_error (text "group ID must be 32 bytes"))
    ok bytes

pub record GroupInfo : Type 0 where
  pub group_id : GroupId
  pub name : Bytes
  pub members : List Bytes
  pub created_at : ℕ
  pub created_by : Bytes

-- `Vec::contains`, and `iter().any(|m| m == key)`.
unfoldable pub contains : List Bytes → Bytes → Bool
contains [] key = false
contains (m ∷ ms) key = bytes_eq m key || contains ms key

-- `Vec::retain(|m| m != key)`, and `iter().filter(|m| m != key)`.
unfoldable pub without : List Bytes → Bytes → List Bytes
without [] key = []
without (m ∷ ms) key = let rest = without ms key in if bytes_eq m key then rest else m ∷ rest

abbrev pub push : List Bytes → Bytes → List Bytes
push ms key = ms ++ key ∷ []

abbrev pub set_members : GroupInfo → List Bytes → GroupInfo
set_members self members = record {
  group_id = self.group_id;
  name = self.name;
  members = members;
  created_at = self.created_at;
  created_by = self.created_by;
}

-- `created_at` is the clock's value.
unfoldable pub new : Sodium → Bytes → ℕ → Bytes → Bytes → List Bytes → Result GroupInfo
unfolding generate
new na draw created_at name creator_identity_hex member_identity_hexes = do
  group_id ← generate na draw
  let members = member_identity_hexes
  let all =
      if not (contains members creator_identity_hex)
      then push members creator_identity_hex
      else members
  let group : GroupInfo = record {
    group_id = group_id;
    name = name;
    members = all;
    created_at = created_at;
    created_by = creator_identity_hex;
  }
  ok group

unfoldable pub add_member : GroupInfo → Bytes → Bool × GroupInfo
add_member self identity_key_hex =
    if contains self.members identity_key_hex
    then (false, self)
    else (true, set_members self (push self.members identity_key_hex))

unfoldable pub remove_member : GroupInfo → Bytes → Bool × GroupInfo
remove_member self identity_key_hex =
    let before = length self.members in
    let members = without self.members identity_key_hex in
    (ltb (length members) before, set_members self members)

unfoldable pub is_member : GroupInfo → Bytes → Bool
is_member self identity_key_hex = contains self.members identity_key_hex

unfoldable pub other_members : GroupInfo → Bytes → List Bytes
other_members self self_identity_hex = without self.members self_identity_hex

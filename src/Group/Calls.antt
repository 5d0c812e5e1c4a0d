-- ===== src/Group/Calls.antt =====
-- Any calls of the methods of crates/vaultex-crypto/src/group.rs on one group, one after the other.
use mathlib.Core.Quot
use mathlib.Core.Quot.{Quot, Quot-set}
use vaultex.Base.{
  ◌≡◌, ◌≢◌, refl, sym, ap, ap₂, ◌∙◌, Bool, true, false, not, ◌||◌, inl, inr, List, [], ◌∷◌, Bytes,
  bytes_eq, Bool-cases,
}
use vaultex.Group.{GroupInfo, contains, add_member, remove_member, is_member, other_members}
use vaultex.Group.Members.{
  NoDuplicates, NoDuplicates-add_remove, NoDuplicates-without, other_members_lem,
  length-without_test,
}
use vaultex.Group.MemberSet.{
  bytes_eq_cases, MemberSet, has, insert, delete, contains-push, contains-without, contains-except,
}

pub data Call : Type 0 where
  adds : Bytes → Call
  removes : Bytes → Call
  asks : Bytes → Call

unfoldable pub call : Call → GroupInfo → Bool × GroupInfo
call (adds k) g = add_member g k
call (removes k) g = remove_member g k
call (asks k) g = (is_member g k, g)

-- The answers, and the group after the calls.
unfoldable pub run : List Call → GroupInfo → List Bool × GroupInfo
run [] g = ([], g)
run (c ∷ cs) g = let (a, g') = call c g in let (rest, last) = run cs g' in (a ∷ rest, last)

-- What a set of members answers: an addition says whether the key is new, a removal whether it was
-- there.
unfoldable pub set_call : Call → MemberSet → Bool × MemberSet
set_call (adds k) s = (not (has s k), insert k s)
set_call (removes k) s = (has s k, delete k s)
set_call (asks k) s = (has s k, s)

unfoldable pub set_run : List Call → MemberSet → List Bool × MemberSet
set_run [] s = ([], s)
set_run (c ∷ cs) s =
    let (a, s') = set_call c s in let (rest, last) = set_run cs s' in (a ∷ rest, last)

unfoldable pub members_of : GroupInfo → MemberSet
members_of g = Quot.mk g.members

absorbs :
    (ms : List Bytes) (k j : Bytes)
    → contains ms k ≡ true
    → contains ms j ≡ bytes_eq k j || contains ms j
absorbs ms k j h =
    bytes_eq_cases (λ b. contains ms j ≡ b || contains ms j) k j (λ e. ap (contains ms) (sym e) ∙ h)
      (λ _. refl)

add_refines :
    (g : GroupInfo) (k : Bytes)
    → let (added, g') = add_member g k in
      (added ≡ not (has (members_of g) k)) × (members_of g' ≡ insert k (members_of g))
unfolding add_member members_of has insert contains
add_refines g k = elim (Bool-cases (contains g.members k)) [
  | inl there ↦ rw there (refl, Quot.sound (λ j. absorbs g.members k j there))
  | inr missing ↦ rw missing (refl, Quot.sound (λ j. contains-push g.members k j))
]

remove_refines :
    (g : GroupInfo) (k : Bytes)
    → let (removed, g') = remove_member g k in
      (removed ≡ has (members_of g) k) × (members_of g' ≡ delete k (members_of g))
unfolding remove_member members_of has delete is_member
remove_refines g k = (
  length-without_test g.members k,
  Quot.sound (λ j. contains-without g.members k j ∙ sym (contains-except g.members k j)),
)

is_member-has : (g : GroupInfo) (k : Bytes) → is_member g k ≡ has (members_of g) k
unfolding is_member has members_of
is_member-has g k = refl

NoDuplicates-other_members :
    (g : GroupInfo) (self : Bytes) → NoDuplicates g.members → NoDuplicates (other_members g self)
unfolding other_members
NoDuplicates-other_members g self n = NoDuplicates-without g.members self n

call_refines :
    (c : Call) (g : GroupInfo)
    → ((call c g).0 ≡ (set_call c (members_of g)).0)
      × (members_of (call c g).1 ≡ (set_call c (members_of g)).1)
unfolding call set_call
call_refines (adds k) g = add_refines g k
call_refines (removes k) g = remove_refines g k
call_refines (asks k) g = (is_member-has g k, refl)

-- No sequence of additions, removals and questions tells a group from the set of its members: the
-- answers are those of the set, and the members after the calls are the set's.
pub run_refines :
    (cs : List Call) (g : GroupInfo)
    → ((run cs g).0 ≡ (set_run cs (members_of g)).0)
      × (members_of (run cs g).1 ≡ (set_run cs (members_of g)).1)
unfolding run set_run
run_refines [] g = (refl, refl)
run_refines (c ∷ cs) g =
    let (answer, members) = call_refines c g in
    let (answers, last) = run_refines cs (call c g).1 in
    (
      ap₂ (λ a rest. a ∷ rest) answer (answers ∙ ap (λ s. (set_run cs s).0) members),
      last ∙ ap (λ s. (set_run cs s).1) members,
    )

call-NoDuplicates :
    (c : Call) (g : GroupInfo) → NoDuplicates g.members → NoDuplicates (call c g).1.members
unfolding call
call-NoDuplicates (adds k) g n = (NoDuplicates-add_remove g k n).0
call-NoDuplicates (removes k) g n = (NoDuplicates-add_remove g k n).1
call-NoDuplicates (asks k) g n = n

run-NoDuplicates :
    (cs : List Call) (g : GroupInfo) → NoDuplicates g.members → NoDuplicates (run cs g).1.members
unfolding run
run-NoDuplicates [] g n = n
run-NoDuplicates (c ∷ cs) g n = run-NoDuplicates cs (call c g).1 (call-NoDuplicates c g n)

-- After any additions and removals on a group that lists nobody twice, a message of a member goes to
-- each other member once and to nobody else: the recipients are listed without repetition, the sender
-- is not among them, and anybody else is exactly if they are a member.
pub recipients :
    (cs : List Call) (g : GroupInfo) (self other : Bytes)
    → NoDuplicates g.members
    → self ≢ other
    → let last = (run cs g).1 in
      NoDuplicates (other_members last self)
      × (contains (other_members last self) self ≡ false)
      × (contains (other_members last self) other ≡ is_member last other)
recipients cs g self other n apart =
    let last = (run cs g).1 in
    let (sender, others) = other_members_lem last self other apart in
    (NoDuplicates-other_members last self (run-NoDuplicates cs g n), sender, others)

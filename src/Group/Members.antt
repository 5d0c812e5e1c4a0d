-- ===== src/Group/Members.antt =====
-- The member list as a set: crates/vaultex-crypto/src/group.rs.
use vaultex.Base.{
  ℕ, ◌≤◌, ◌<◌, ◌≡◌, ◌≢◌, refl, sym, ap, ◌∙◌, arith, true, false, not, ◌||◌, ltb, inl, inr, List, [],
  ◌∷◌, Bytes, bytes_eq, bytes_eq→eq, bytes_eq_refl, bytes_eq_ne, length, Bool-cases, le→ltb, lt→ltb,
}
use vaultex.Errors.{ok}
use vaultex.Crates.Sodium.{Sodium}
use vaultex.Group.{
  GroupInfo, contains, without, push, generate, new, add_member, remove_member, is_member,
  other_members,
}

-- No member is listed twice.
abbrev pub NoDuplicates : List Bytes → Type 0
NoDuplicates [] = Unit
NoDuplicates (m ∷ ms) = (contains ms m ≡ false) × NoDuplicates ms

pub contains-push_self : (ms : List Bytes) (k : Bytes) → contains (push ms k) k ≡ true
unfolding contains
contains-push_self [] k = rw (bytes_eq_refl k)
contains-push_self (m ∷ ms) k = ground (arith, contains-push_self ms k)

pub contains-push_ne :
    (ms : List Bytes) (k other : Bytes) → k ≢ other → contains (push ms k) other ≡ contains ms other
unfolding contains
contains-push_ne [] k other h = rw (bytes_eq_ne k other h)
contains-push_ne (m ∷ ms) k other h = rw (contains-push_ne ms k other h)

pub contains-without_self : (ms : List Bytes) (k : Bytes) → contains (without ms k) k ≡ false
unfolding contains without
contains-without_self [] k = refl
contains-without_self (m ∷ ms) k = ground (arith, contains-without_self ms k)

pub contains-without_ne :
    (ms : List Bytes) (k other : Bytes)
    → k ≢ other
    → contains (without ms k) other ≡ contains ms other
unfolding contains without
contains-without_ne [] k other h = refl
contains-without_ne (m ∷ ms) k other h = elim (Bool-cases (bytes_eq m k)) [
  | inl same ↦
      let at : m ≡ k = bytes_eq→eq m k same in
      let off : bytes_eq m other ≡ false = bytes_eq_ne m other (λ e. h (sym at ∙ e)) in
      rw (same, off) (contains-without_ne ms k other h)
  | inr differs ↦ rw differs (ap (λ b. bytes_eq m other || b) (contains-without_ne ms k other h))
]

without_all : (ms : List Bytes) (k : Bytes) → contains ms k ≡ false → without ms k ≡ ms
unfolding contains without
without_all [] k h = refl
without_all (m ∷ ms) k h = ground (arith, without_all ms k)

length-without : (ms : List Bytes) (k : Bytes) → length (without ms k) ≤ length ms
unfolding without
length-without [] k = omega arith
length-without (m ∷ ms) k = ground (arith, length-without ms k)

length-without_lt :
    (ms : List Bytes) (k : Bytes) → contains ms k ≡ true → length (without ms k) < length ms
unfolding contains without
length-without_lt [] k h = ground arith
length-without_lt (m ∷ ms) k h = ground (arith, length-without ms k, length-without_lt ms k)

NoDuplicates-push :
    (ms : List Bytes) (k : Bytes)
    → NoDuplicates ms
    → contains ms k ≡ false
    → NoDuplicates (push ms k)
unfolding contains
NoDuplicates-push [] k n h = (refl, tt)
NoDuplicates-push (m ∷ ms) k (once, more) h =
    let apart : k ≢ m = λ e. absurd (ground (arith, h, bytes_eq_ne m k, e, bytes_eq_refl k)) in
    let absent : contains ms k ≡ false = ground (arith, h) in
    (contains-push_ne ms k m apart ∙ once, NoDuplicates-push ms k more absent)

-- Nobody is added by taking somebody out.
contains-without-false :
    (ms : List Bytes) (k other : Bytes)
    → contains ms other ≡ false
    → contains (without ms k) other ≡ false
unfolding contains without
contains-without-false [] k other h = refl
contains-without-false (m ∷ ms) k other h = ground (arith, contains-without-false ms k other)

pub NoDuplicates-without :
    (ms : List Bytes) (k : Bytes) → NoDuplicates ms → NoDuplicates (without ms k)
unfolding without
NoDuplicates-without [] k n = tt
NoDuplicates-without (m ∷ ms) k (once, more) = elim (Bool-cases (bytes_eq m k)) [
  | inl same ↦ rw same (NoDuplicates-without ms k more)
  | inr differs ↦ rw differs (contains-without-false ms k m once, NoDuplicates-without ms k more)
]

-- Adding makes the key a member and touches nobody else; the answer says whether it was new.
pub add_member_lem :
    (g : GroupInfo) (k other : Bytes)
    → k ≢ other
    → let (added, g') = add_member g k in
      (added ≡ not (is_member g k))
      × (is_member g' k ≡ true)
      × (is_member g' other ≡ is_member g other)
unfolding add_member is_member
add_member_lem g k other h = elim (Bool-cases (contains g.members k)) [
  | inl there ↦ rw there (refl, there, refl)
  | inr missing ↦
      rw missing (refl, contains-push_self g.members k, contains-push_ne g.members k other h)
]

-- The list gets shorter exactly where the key was in it.
pub length-without_test :
    (ms : List Bytes) (k : Bytes) → ltb (length (without ms k)) (length ms) ≡ contains ms k
length-without_test ms k = elim (Bool-cases (contains ms k)) [
  | inl there ↦
      lt→ltb (length (without ms k)) (length ms) (length-without_lt ms k there) ∙ sym there
  | inr missing ↦
      ap (λ l. ltb (length l) (length ms)) (without_all ms k missing)
      ∙ le→ltb (length ms) (length ms) (omega arith)
      ∙ sym missing
]

-- Removing takes the key out, every time that it is listed, and touches nobody else; the answer says
-- whether it was a member.
pub remove_member_lem :
    (g : GroupInfo) (k other : Bytes)
    → k ≢ other
    → let (removed, g') = remove_member g k in
      (removed ≡ is_member g k)
      × (is_member g' k ≡ false)
      × (is_member g' other ≡ is_member g other)
unfolding remove_member is_member
remove_member_lem g k other h = (
  length-without_test g.members k,
  contains-without_self g.members k,
  contains-without_ne g.members k other h,
)

-- Adding and removing keep the member list free of duplicates.
pub NoDuplicates-add_remove :
    (g : GroupInfo) (k : Bytes)
    → NoDuplicates g.members
    → NoDuplicates (add_member g k).1.members × NoDuplicates (remove_member g k).1.members
unfolding add_member remove_member
NoDuplicates-add_remove g k n = (
  (elim (Bool-cases (contains g.members k)) [
    | inl there ↦ rw there n
    | inr missing ↦ rw missing (NoDuplicates-push g.members k n missing)
  ]),
  NoDuplicates-without g.members k n,
)

abbrev made : Bytes → Bytes → Bytes → ℕ → List Bytes → GroupInfo
made draw name creator now members = record {
  group_id = draw;
  name = name;
  members = members;
  created_at = now;
  created_by = creator;
}

-- With the library initialised, a group is made, with its creator and every initial member, each once
-- where the list had each once, and it records the creator.
pub new_lem :
    (na : Sodium) (draw name creator : Bytes) (now : ℕ) (initial : List Bytes)
    → na.init ≡ true
    → NoDuplicates initial
    → (g : GroupInfo) × (new na draw now name creator initial ≡ ok g)
      × (g.created_by ≡ creator)
      × NoDuplicates g.members
      × (is_member g creator ≡ true)
unfolding new is_member generate
new_lem na draw name creator now initial ready n = elim (Bool-cases (contains initial creator)) [
  | inl there ↦ (made draw name creator now initial, ground (arith, ready, there), refl, n, there)
  | inr missing ↦ (
    made draw name creator now (push initial creator),
    ground (arith, ready, missing),
    refl,
    NoDuplicates-push initial creator n missing,
    contains-push_self initial creator,
  )
]

-- A message to a group is encrypted for the members other than the sender, each of them.
pub other_members_lem :
    (g : GroupInfo) (self other : Bytes)
    → self ≢ other
    → (contains (other_members g self) self ≡ false)
      × (contains (other_members g self) other ≡ is_member g other)
unfolding other_members is_member
other_members_lem g self other h =
    (contains-without_self g.members self, contains-without_ne g.members self other h)

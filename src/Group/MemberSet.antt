-- ===== src/Group/MemberSet.antt =====
-- What a group of crates/vaultex-crypto/src/group.rs is to its users: a set of members. The order of the
-- list, and how often it names somebody, are forgotten.
use mathlib.Core.Quot
use mathlib.Core.Quot.{Quot, Quot-set}
use mathlib.Core.Bool.{Bool-set}
use vaultex.Base.{
  ◌≡◌, ◌≢◌, refl, sym, ap, ◌∙◌, arith, Bool, true, false, not, if◌then◌else◌, ◌&&◌, ◌||◌, inl, inr,
  List, [], ◌∷◌, Bytes, bytes_eq, bytes_eq→eq, bytes_eq_refl, bytes_eq_ne, Bool-cases,
}
use vaultex.Group.{contains, without, push}
use vaultex.Group.Members.{
  contains-push_self, contains-push_ne, contains-without_self, contains-without_ne,
}

abbrev pub SameMembers : List Bytes → List Bytes → Type 0
SameMembers xs ys = (k : Bytes) → contains xs k ≡ contains ys k

abbrev pub MemberSet : Type 0
MemberSet = Quot SameMembers

unfoldable pub has : MemberSet → Bytes → Bool
has s k = Quot.lift Bool-set (λ ms. contains ms k) (λ xs ys h. h k) s

pub bytes_eq_cases :
    (P : Bool → Type 0) (k j : Bytes) → (k ≡ j → P true) → (k ≢ j → P false) → P (bytes_eq k j)
bytes_eq_cases P k j same other = elim (Bool-cases (bytes_eq k j)) [
  | inl e ↦ rw e (same (bytes_eq→eq k j e))
  | inr e ↦ rw e (other (λ at. ground (arith, e, bytes_eq_refl k, ap (bytes_eq k) at)))
]

pub contains-push :
    (ms : List Bytes) (k j : Bytes) → contains (push ms k) j ≡ bytes_eq k j || contains ms j
contains-push ms k j =
    bytes_eq_cases (λ b. contains (push ms k) j ≡ b || contains ms j) k j
      (λ e. ap (contains (push ms k)) (sym e) ∙ contains-push_self ms k)
      (λ h. contains-push_ne ms k j h)

pub contains-without :
    (ms : List Bytes) (k j : Bytes)
    → contains (without ms k) j ≡ not (bytes_eq k j) && contains ms j
contains-without ms k j =
    bytes_eq_cases (λ b. contains (without ms k) j ≡ not b && contains ms j) k j
      (λ e. ap (contains (without ms k)) (sym e) ∙ contains-without_self ms k)
      (λ h. contains-without_ne ms k j h)

unfoldable pub insert : Bytes → MemberSet → MemberSet
unfolding contains
insert k =
    Quot.lift Quot-set (λ ms. Quot.mk (k ∷ ms))
      (λ xs ys h. Quot.sound (λ j. ap (λ b. bytes_eq k j || b) (h j)))

unfoldable pub except : Bytes → List Bytes → List Bytes
except k [] = []
except k (m ∷ ms) = let rest = except k ms in if bytes_eq k m then rest else m ∷ rest

not_&&_absorb : (b c : Bool) → not b && c ≡ not b && (b || c)
not_&&_absorb true c = refl
not_&&_absorb false c = refl

pub contains-except :
    (ms : List Bytes) (k j : Bytes) → contains (except k ms) j ≡ not (bytes_eq k j) && contains ms j
unfolding contains except
contains-except [] k j = ground arith
contains-except (m ∷ ms) k j = elim (Bool-cases (bytes_eq k m)) [
  | inl same ↦
      let at : m ≡ k = sym (bytes_eq→eq k m same) in
      rw same (contains-except ms k j)
      ∙ not_&&_absorb (bytes_eq k j) (contains ms j)
      ∙ ap (λ x. not (bytes_eq k j) && (bytes_eq x j || contains ms j)) (sym at)
  | inr differs ↦
      let apart_from : k ≡ j → bytes_eq m j ≡ false = λ e.
        bytes_eq_ne m j
          (λ at. ground (arith, differs, bytes_eq_refl k, ap (bytes_eq k) (e ∙ sym at))) in
      rw differs (
        ap (λ b. bytes_eq m j || b) (contains-except ms k j)
        ∙ bytes_eq_cases
            (λ b.
              bytes_eq m j || (not b && contains ms j) ≡ not b && (bytes_eq m j || contains ms j))
            k j (λ e. ap (λ b. b || false) (apart_from e) ∙ refl) (λ _. refl))
]

unfoldable pub delete : Bytes → MemberSet → MemberSet
delete k =
    Quot.lift Quot-set (λ ms. Quot.mk (except k ms))
      (λ xs ys h. Quot.sound (λ j.
        contains-except xs k j
        ∙ ap (λ b. not (bytes_eq k j) && b) (h j)
        ∙ sym (contains-except ys k j)))

-- The answers of a set after an insertion and a deletion.
pub has-insert : (k j : Bytes) (s : MemberSet) → has (insert k s) j ≡ bytes_eq k j || has s j
unfolding has insert contains
has-insert k j = Quot.ind (λ s. Bool-set _ _) (λ ms. refl)

pub has-delete : (k j : Bytes) (s : MemberSet) → has (delete k s) j ≡ not (bytes_eq k j) && has s j
unfolding has delete
has-delete k j = Quot.ind (λ s. Bool-set _ _) (λ ms. contains-except ms k j)

-- ===== src/Crates/Codec.antt =====
-- A concrete serializer: fields one after the other, each with its length in front. It stands in for
-- serde_json where a theorem is applied to concrete values.
use vaultex.Base.{
  ℕ, zero, suc, ◌==◌, if◌then◌else◌, List, ◌≡◌, refl, ap, ◌∙◌, Option, none, some, [], ◌∷◌, ◌++◌,
  Bytes, length, take, drop, take-append, drop-append,
}
use vaultex.Errors.{Either, ok, err}
use vaultex.Crates.Encoding.{Json, JsonLaws}

pub record Codec (A : Type 0) : Type 0 where
  -- The value in front of the rest.
  pub enc : A → Bytes → Bytes
  pub dec : Bytes → Option (A × Bytes)
  pub dec-enc : (a : A) (rest : Bytes) → dec (enc a rest) ≡ some (a, rest)

abbrev pub dec_num : Bytes → Option (ℕ × Bytes)
dec_num [] = none
dec_num (n ∷ rest) = some (n, rest)

abbrev pub num : Codec ℕ
num = record { enc = λ n rest. n ∷ rest; dec = dec_num; dec-enc = λ n rest. refl }

abbrev pub dec_str : Bytes → Option (Bytes × Bytes)
dec_str [] = none
dec_str (n ∷ rest) = some (take n rest, drop n rest)

pub dec-str : (s rest : Bytes) → dec_str (length s ∷ s ++ rest) ≡ some (s, rest)
dec-str s rest = rw (take-append s rest, drop-append s rest)

abbrev pub str : Codec Bytes
str = record { enc = λ s rest. length s ∷ s ++ rest; dec = dec_str; dec-enc = dec-str }

module _ {A B : Type 0} (c : Codec A) (d : Codec B) where
  abbrev pub beside : A → Option (B × Bytes) → Option ((A × B) × Bytes)
  beside a none = none
  beside a (some (b, more)) = some ((a, b), more)

  abbrev pub dec_second : Option (A × Bytes) → Option ((A × B) × Bytes)
  dec_second none = none
  dec_second (some (a, rest)) = beside a (d.dec rest)

  pub dec-both :
      (p : A × B) (rest : Bytes) → dec_second (c.dec (c.enc p.0 (d.enc p.1 rest))) ≡ some (p, rest)
  dec-both p rest =
      ap dec_second (c.dec-enc p.0 (d.enc p.1 rest)) ∙ ap (beside p.0) (d.dec-enc p.1 rest)

  abbrev pub both : Codec (A × B)
  both = record {
    enc = λ p rest. c.enc p.0 (d.enc p.1 rest);
    dec = λ bytes. dec_second (c.dec bytes);
    dec-enc = dec-both;
  }

module _ {A : Type 0} (c : Codec A) where
  abbrev pub enc_opt : Option A → Bytes → Bytes
  enc_opt none rest = 0 ∷ rest
  enc_opt (some a) rest = 1 ∷ c.enc a rest

  abbrev pub present : Option (A × Bytes) → Option (Option A × Bytes)
  present none = none
  present (some (a, more)) = some (some a, more)

  abbrev pub dec_opt : Bytes → Option (Option A × Bytes)
  dec_opt [] = none
  dec_opt (n ∷ rest) = if n == 0 then some (none, rest) else present (c.dec rest)

  pub dec-opt : (o : Option A) (rest : Bytes) → dec_opt (enc_opt o rest) ≡ some (o, rest)
  dec-opt none rest = refl
  dec-opt (some a) rest = ap present (c.dec-enc a rest)

  abbrev pub opt : Codec (Option A)
  opt = record { enc = enc_opt; dec = dec_opt; dec-enc = dec-opt }

  abbrev pub enc_items : List A → Bytes → Bytes
  enc_items [] rest = rest
  enc_items (a ∷ l) rest = c.enc a (enc_items l rest)

  abbrev pub dec_items : ℕ → Bytes → Option (List A × Bytes)
  dec_items zero bytes = some ([], bytes)
  dec_items (suc n) bytes = elim (c.dec bytes) [
    | none ↦ none
    | some (a, more) ↦ elim (dec_items n more) [ none ↦ none | some (l, last) ↦ some (a ∷ l, last) ]
  ]

  pub dec-items :
      (l : List A) (rest : Bytes) → dec_items (length l) (enc_items l rest) ≡ some (l, rest)
  dec-items [] rest = refl
  dec-items (a ∷ l) rest = rw (c.dec-enc a (enc_items l rest), dec-items l rest)

  abbrev pub dec_list : Bytes → Option (List A × Bytes)
  dec_list [] = none
  dec_list (n ∷ bytes) = dec_items n bytes

  abbrev pub list : Codec (List A)
  list = record { enc = λ l rest. length l ∷ enc_items l rest; dec = dec_list; dec-enc = dec-items }

-- A type by the parts of its values.
module _ {A B : Type 0} (c : Codec B) (parts : A → B) (whole : B → A) where
  abbrev pub first_of : Option (B × Bytes) → Either Bytes A
  first_of none = err []
  first_of (some (b, rest)) = ok (whole b)

  abbrev pub json_of : Json A
  json_of = record {
    to_vec = λ a. ok (c.enc (parts a) []);
    from_slice = λ bytes. first_of (c.dec bytes);
  }

  pub json_of-JsonLaws : ((a : A) → whole (parts a) ≡ a) → JsonLaws A json_of
  json_of-JsonLaws back = record {
    from_slice-to_vec =
        λ a. (c.enc (parts a) [], refl, (rw (c.dec-enc (parts a) []) (ap ok (back a))));
  }

-- ===== src/Tests/Codec.antt =====
-- A codec for the stored state, with which a machine can be given for the tests: numbers, each text and
-- list after its length.
use Prim.Native.Char.{Char, char, code, IsLt}
use Prim.Native.Nat.{compare, Ordering}
use schelk.Base.{
  ℕ, zero, suc, ◌≡◌, refl, ap, ◌∙◌, Bool, true, false, List, [], ◌∷◌, Option, none, some,
}
use schelk.Base.Text.{String}
use schelk.Machine.{AppState}

-- What is put before a rest is got back, with the rest.
record Codec (A : Type 0) : Type 0 where
  put : A → List ℕ → List ℕ
  get : List ℕ → Option (A × List ℕ)
  got : (a : A) (rest : List ℕ) → get (put a rest) ≡ some (a, rest)

module _ {A B : Type 0} where
  abbrev after : Option A → (A → Option B) → Option B
  after none f = none
  after (some a) f = f a

  after-some : (o : Option A) (a : A) (f : A → Option B) → o ≡ some a → after o f ≡ f a
  after-some o a f e = ap (λ x. after x f) e

abbrev get_number : List ℕ → Option (ℕ × List ℕ)
get_number [] = none
get_number (n ∷ rest) = some (n, rest)

abbrev number : Codec ℕ
number = record { put = λ n rest. n ∷ rest; get = get_number; got = λ n rest. refl }

module _ {A B : Type 0} (c : Codec A) (d : Codec B) where
  abbrev put_pair : A × B → List ℕ → List ℕ
  put_pair p rest = c.put p.0 (d.put p.1 rest)

  abbrev get_pair : List ℕ → Option ((A × B) × List ℕ)
  get_pair codes = after (c.get codes) (λ x. after (d.get x.1) (λ y. some ((x.0, y.0), y.1)))

  pair_got : (p : A × B) (rest : List ℕ) → get_pair (put_pair p rest) ≡ some (p, rest)
  pair_got p rest =
      after-some (c.get (put_pair p rest)) (p.0, d.put p.1 rest)
        (λ x. after (d.get x.1) (λ y. some ((x.0, y.0), y.1))) (c.got p.0 (d.put p.1 rest))
      ∙ after-some (d.get (d.put p.1 rest)) (p.1, rest) (λ y. some ((p.0, y.0), y.1))
          (d.got p.1 rest)

  abbrev pair : Codec (A × B)
  pair = record { put = put_pair; get = get_pair; got = pair_got }

-- By a map to what can be coded, which has a partial inverse.
module _ {A B : Type 0} (c : Codec B) (to : A → B) (from : B → Option A)
    (back : (a : A) → from (to a) ≡ some a) where
  abbrev get_by : List ℕ → Option (A × List ℕ)
  get_by codes = after (c.get codes) (λ x. after (from x.0) (λ a. some (a, x.1)))

  by_got : (a : A) (rest : List ℕ) → get_by (c.put (to a) rest) ≡ some (a, rest)
  by_got a rest =
      after-some (c.get (c.put (to a) rest)) (to a, rest)
        (λ x. after (from x.0) (λ b. some (b, x.1))) (c.got (to a) rest)
      ∙ after-some (from (to a)) a (λ b. some (b, rest)) (back a)

  abbrev by : Codec A
  by = record { put = λ a rest. c.put (to a) rest; get = get_by; got = by_got }

abbrev bool_number : Bool → ℕ
bool_number false = 0
bool_number true = 1

abbrev number_bool : ℕ → Option Bool
number_bool zero = some false
number_bool (suc n) = some true

bool_back : (b : Bool) → number_bool (bool_number b) ≡ some b
bool_back false = refl
bool_back true = refl

abbrev bool : Codec Bool
bool = by number bool_number number_bool bool_back

-- Whether a number is that of a character: `IsScalar` is `Scalar` of three comparisons.
abbrev BothLt : Ordering → Ordering → Type 0
BothLt Ordering.lt o = IsLt o
BothLt Ordering.eq o = ⊥
BothLt Ordering.gt o = ⊥

abbrev Scalar : Ordering → Ordering → Ordering → Type 0
Scalar Ordering.lt o p = Unit
Scalar Ordering.eq o p = BothLt o p
Scalar Ordering.gt o p = BothLt o p

abbrev both_lt? : (o p : Ordering) → Option (BothLt o p)
both_lt? Ordering.lt Ordering.lt = some tt
both_lt? Ordering.lt Ordering.eq = none
both_lt? Ordering.lt Ordering.gt = none
both_lt? Ordering.eq p = none
both_lt? Ordering.gt p = none

abbrev scalar? : (o p q : Ordering) → Option (Scalar o p q)
scalar? Ordering.lt p q = some tt
scalar? Ordering.eq p q = both_lt? p q
scalar? Ordering.gt p q = both_lt? p q

both_lt_found : (o p : Ordering) (h : BothLt o p) → both_lt? o p ≡ some h
both_lt_found Ordering.lt Ordering.lt h = refl
both_lt_found Ordering.lt Ordering.eq h = absurd h
both_lt_found Ordering.lt Ordering.gt h = absurd h
both_lt_found Ordering.eq p h = absurd h
both_lt_found Ordering.gt p h = absurd h

scalar_found : (o p q : Ordering) (h : Scalar o p q) → scalar? o p q ≡ some h
scalar_found Ordering.lt p q h = refl
scalar_found Ordering.eq p q h = both_lt_found p q h
scalar_found Ordering.gt p q h = both_lt_found p q h

abbrev to_char : ℕ → Option Char
to_char n =
    after (scalar? (compare n 55296) (compare 57343 n) (compare n 1114112)) (λ h. some (char n h))

char_back : (c : Char) → to_char (code c) ≡ some c
char_back (char n h) =
    after-some (scalar? (compare n 55296) (compare 57343 n) (compare n 1114112)) h
      (λ k. some (char n k))
      (scalar_found (compare n 55296) (compare 57343 n) (compare n 1114112) h)

-- A text, ended by a 0; each character is put as its number after a 1.
abbrev put_text : String → List ℕ → List ℕ
put_text String.[] rest = 0 ∷ rest
put_text (String.◌∷◌ c s) rest = 1 ∷ code c ∷ put_text s rest

abbrev get_text : List ℕ → Option (String × List ℕ)
get_text [] = none
get_text (zero ∷ rest) = some (String.[], rest)
get_text (suc n ∷ []) = none
get_text (suc n ∷ k ∷ rest) =
    after (to_char k) (λ c. after (get_text rest) (λ x. some (String.◌∷◌ c x.0, x.1)))

text_got : (s : String) (rest : List ℕ) → get_text (put_text s rest) ≡ some (s, rest)
text_got String.[] rest = refl
text_got (String.◌∷◌ c s) rest =
    after-some (to_char (code c)) c
      (λ d. after (get_text (put_text s rest)) (λ x. some (String.◌∷◌ d x.0, x.1))) (char_back c)
    ∙ after-some (get_text (put_text s rest)) (s, rest) (λ x. some (String.◌∷◌ c x.0, x.1))
        (text_got s rest)

abbrev text : Codec String
text = record { put = put_text; get = get_text; got = text_got }

abbrev put_numbers : List ℕ → List ℕ → List ℕ
put_numbers [] rest = 0 ∷ rest
put_numbers (n ∷ ns) rest = 1 ∷ n ∷ put_numbers ns rest

abbrev get_numbers : List ℕ → Option (List ℕ × List ℕ)
get_numbers [] = none
get_numbers (zero ∷ rest) = some ([], rest)
get_numbers (suc n ∷ []) = none
get_numbers (suc n ∷ k ∷ rest) = after (get_numbers rest) (λ x. some (k ∷ x.0, x.1))

numbers_got : (ns rest : List ℕ) → get_numbers (put_numbers ns rest) ≡ some (ns, rest)
numbers_got [] rest = refl
numbers_got (n ∷ ns) rest =
    after-some (get_numbers (put_numbers ns rest)) (ns, rest) (λ x. some (n ∷ x.0, x.1))
      (numbers_got ns rest)

abbrev numbers : Codec (List ℕ)
numbers = record { put = put_numbers; get = get_numbers; got = numbers_got }

module _ {A : Type 0} (c : Codec A) where
  abbrev put_option : Option A → List ℕ → List ℕ
  put_option none rest = 0 ∷ rest
  put_option (some a) rest = 1 ∷ c.put a rest

  abbrev get_option : List ℕ → Option (Option A × List ℕ)
  get_option [] = none
  get_option (zero ∷ rest) = some (none, rest)
  get_option (suc n ∷ rest) = after (c.get rest) (λ x. some (some x.0, x.1))

  option_got : (o : Option A) (rest : List ℕ) → get_option (put_option o rest) ≡ some (o, rest)
  option_got none rest = refl
  option_got (some a) rest =
      after-some (c.get (c.put a rest)) (a, rest) (λ x. some (some x.0, x.1)) (c.got a rest)

  abbrev option : Codec (Option A)
  option = record { put = put_option; get = get_option; got = option_got }

abbrev Fields : Type 0
Fields =
    (String × (String × (String × (String × String))))
    × (Option String × (ℕ × (List ℕ × (String × (Bool × Option ℕ)))))

abbrev fields : Codec Fields
fields =
    pair (pair text (pair text (pair text (pair text text))))
      (pair (option text) (pair number (pair numbers (pair text (pair bool (option number))))))

abbrev to_fields : AppState → Fields
to_fields s = (
  (s.virgin, (s.scratch, (s.ramdisk, (s.mount_point, s.fstype)))),
  (
    s.mount_options,
    (s.granularity, (s.virgin_superblock_hash, (s.dm_era_name, (s.is_mounted, s.current_era)))),
  ),
)

abbrev from_fields : Fields → AppState
from_fields
      (
        (virgin, (scratch, (ramdisk, (mount_point, fstype)))),
        (options, (granularity, (hash, (name, (on, era))))),
      ) =
    record {
      virgin = virgin;
      scratch = scratch;
      ramdisk = ramdisk;
      mount_point = mount_point;
      fstype = fstype;
      mount_options = options;
      granularity = granularity;
      virgin_superblock_hash = hash;
      dm_era_name = name;
      is_mounted = on;
      current_era = era;
    }

abbrev state_codec : Codec AppState
state_codec = by fields to_fields (λ x. some (from_fields x)) (λ s. refl)

pub to_json : AppState → List ℕ
to_json s = state_codec.put s []

pub from_json : List ℕ → Option AppState
from_json codes = after (state_codec.get codes) (λ x. some x.0)

pub json_back : (s : AppState) → from_json (to_json s) ≡ some s
unfolding to_json from_json
json_back s =
    after-some (state_codec.get (to_json s)) (s, []) (λ x. some x.0) (state_codec.got s [])

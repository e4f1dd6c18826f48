-- ===== src/Wire/Sample.antt =====
-- JSON values that meet the laws of `Json`, for the examples. Printing is done by a constructor.
use infinity_wasm_bridge.Prelude.{
  ℤ, pos, negsuc, ℕ, ◌<◌, ◌^◌, String, ◌≡◌, refl, Bool, true, false, Option, none, some, List, [],
  ◌∷◌, Result, ok, err, ◌==◌, string_eq, if◌then◌else◌, ltb, arith, ap,
}
use infinity_wasm_bridge.Wire.Json.{Json, field}

mutual
  pub data Tree : Type 0 where
    nil : Tree
    flag : Bool → Tree
    num : ℕ → Tree
    neg : ℕ → Tree
    str : String → Tree
    arr : Elements → Tree
    obj : Entries → Tree

  pub data Elements : Type 0 where
    nothing : Elements
    element : Tree → Elements → Elements

  pub data Entries : Type 0 where
    end : Entries
    entry : String → Tree → Entries → Entries

pub data Printed : Type 0 where
  text : Tree → Printed
  broken : Printed

abbrev pub entries : List (String × Tree) → Entries
entries [] = end
entries ((k, v) ∷ fs) = entry k v (entries fs)

abbrev pub elements : List Tree → Elements
elements [] = nothing
elements (v ∷ vs) = element v (elements vs)

abbrev pub find : Entries → String → Option Tree
find end k = none
find (entry i v es) k = if i == k then some v else find es k

abbrev pub member : Tree → String → Option Tree
member (obj es) k = find es k
member _ k = none

abbrev pub is_nil : Tree → Bool
is_nil nil = true
is_nil _ = false

abbrev pub to_bool : Tree → Option Bool
to_bool (flag b) = some b
to_bool _ = none

abbrev pub to_num : Tree → Option ℕ
to_num (num n) = if ltb n (2 ^ 64) then some n else none
to_num _ = none

abbrev pub signed : ℤ → Tree
signed (pos n) = num n
signed (negsuc n) = neg n

abbrev pub to_str : Tree → Option String
to_str (str s) = some s
to_str _ = none

abbrev pub trees_of : Elements → List Tree
trees_of nothing = []
trees_of (element v vs) = v ∷ trees_of vs

abbrev pub to_array : Tree → Option (List Tree)
to_array (arr vs) = some (trees_of vs)
to_array _ = none

pub trees_of-elements : (vs : List Tree) → trees_of (elements vs) ≡ vs
trees_of-elements [] = refl
trees_of-elements (v ∷ vs) = ap (λ rest. v ∷ rest) (trees_of-elements vs)

abbrev pub parse : Printed → Result String Tree
parse (text v) = ok v
parse broken = err "expected value at line 1 column 1"

pub find-entries : (fs : List (String × Tree)) (k : String) → find (entries fs) k ≡ field fs k
unfolding field
find-entries [] k = refl
find-entries ((i, v) ∷ fs) k = ground (arith, find-entries fs k)

pub eq-nil : (v : Tree) → is_nil v ≡ true → v ≡ nil
eq-nil nil e = refl
eq-nil v e = cc

pub to_num-num : (n : ℕ) → n < 2 ^ 64 → to_num (num n) ≡ some n
to_num-num n h = ground arith

pub to_num-lt : (v : Tree) (n : ℕ) → to_num v ≡ some n → n < 2 ^ 64
to_num-lt (num m) n e = ground arith
to_num-lt v n e = cc

abbrev pub trees : Json
trees = record {
  Value = Tree;
  Text = Printed;
  null = nil;
  bool = flag;
  u64 = num;
  i64 = signed;
  string = str;
  array = λ vs. arr (elements vs);
  object = λ fs. obj (entries fs);
  get = member;
  is_null = is_nil;
  as_bool = to_bool;
  as_u64 = to_num;
  as_str = to_str;
  as_array = to_array;
  to_string = λ v. ok (text v);
  from_str = parse;
  get-object = λ fs k d. find-entries fs k;
  is_null-null = refl;
  eq-null_of_is_null = eq-nil;
  is_null-bool = λ b. refl;
  is_null-u64 = λ n. refl;
  is_null-string = λ s. refl;
  as_bool-bool = λ b. refl;
  as_u64-u64 = to_num-num;
  as_u64-lt = to_num-lt;
  i64-pos = λ n. refl;
  as_str-string = λ s. refl;
  as_array-array = λ vs. ap some (trees_of-elements vs);
  prints = λ v. (text v, refl, refl);
}

-- ===== src/MapReduce/Samples.antt =====
-- A host for the map and reduce tasks: numbers in unary, and values with a mark before each character.
use Prim.Native.Char.{Char, char, code, nul}
use Prim.Native.String.append
use Prim.Native.String.{String, [], ◌∷◌, ◌++◌, len}
use text.Mathlib.TextLemmas.{append-nil, append_assoc}
use distribution_system.Prelude.{
  ℕ, zero, suc, ◌≡◌, ◌≢◌, refl, sym, ◌∙◌, ap, true, false, List, [] as nil, ◌∷◌ as cons, ◌==◌,
  if◌then◌else◌, arith,
}
use distribution_system.MapReduce.Types.{KeyValue}
use distribution_system.MapReduce.Host.{Host, reduce_name}
use distribution_system.MapReduce.Names.{IsHost}
use distribution_system.MapReduce.Partition.{appended}
use distribution_system.MapReduce.Grouping.{IsJson}

abbrev mark : Char
mark = char 120 tt

abbrev unary : ℕ → String
unary zero = []
unary (suc n) = mark ∷ unary n

unary_injective : (m n : ℕ) → unary m ≡ unary n → m ≡ n
unary_injective zero zero h = refl
unary_injective zero (suc n) h = cc
unary_injective (suc m) zero h = cc
unary_injective (suc m) (suc n) h = ap suc (unary_injective m n (cc))

-- A text with a mark before each character, up to two other characters, and then `rest`.
abbrev put_text : String → String → String
put_text [] rest = nul ∷ (nul ∷ rest)
put_text (c ∷ s) rest = mark ∷ (c ∷ put_text s rest)

abbrev push : Char → List String → List String
push c nil = nil
push c (cons s texts) = cons (c ∷ s) texts

abbrev get_texts : String → List String
get_texts [] = nil
get_texts (m ∷ []) = nil
get_texts (m ∷ (c ∷ s)) =
    let rest = get_texts s in if code m == 120 then push c rest else cons [] rest

get_texts-put : (s rest : String) → get_texts (put_text s rest) ≡ cons s (get_texts rest)
get_texts-put [] rest = refl
get_texts-put (c ∷ s) rest = ap (push c) (get_texts-put s rest)

put_text-append : (s rest u : String) → (put_text s rest ++ u) ≡ put_text s (rest ++ u)
put_text-append [] rest u =
    append.cons nul (nul ∷ rest) u ∙ ap (λ t. nul ∷ t) (append.cons nul rest u)
put_text-append (c ∷ s) rest u =
    append.cons mark (c ∷ put_text s rest) u
    ∙ ap (λ t. mark ∷ t)
        (append.cons c (put_text s rest) u ∙ ap (λ t. c ∷ t) (put_text-append s rest u))

abbrev put_value : KeyValue → String
put_value kv = put_text kv.key (put_text kv.value [])

abbrev pairs : List String → List KeyValue
pairs nil = nil
pairs (cons key nil) = nil
pairs (cons key (cons value rest)) = cons (record { key = key; value = value }) (pairs rest)

abbrev pub marks : Host
marks = record {
  itoa = unary;
  sum32 = len;
  sort_strings = λ names. names;
  can_create = λ name. true;
  encode = put_value;
  decode = λ s. (pairs (get_texts s), false);
}

pub marks-IsHost : IsHost marks
marks-IsHost = record { itoa_injective = unary_injective; creates = λ name. refl }

abbrev put_values : List KeyValue → String
put_values nil = []
put_values (cons kv kvs) = put_value kv ++ put_values kvs

appended-put_values :
    (s : String) (kvs : List KeyValue) → appended marks s kvs ≡ (s ++ put_values kvs)
unfolding appended
appended-put_values s nil = sym (append-nil s)
appended-put_values s (cons kv kvs) =
    appended-put_values (s ++ put_value kv) kvs ∙ append_assoc s (put_value kv) (put_values kvs)

get_texts-put_value :
    (kv : KeyValue) (rest : String)
    → get_texts (put_value kv ++ rest) ≡ cons kv.key (cons kv.value (get_texts rest))
get_texts-put_value kv rest =
    ap get_texts (
      put_text-append kv.key (put_text kv.value []) rest
      ∙ ap (put_text kv.key)
          (put_text-append kv.value [] rest ∙ ap (put_text kv.value) (append.nil rest)))
    ∙ get_texts-put kv.key (put_text kv.value rest)
    ∙ ap (cons kv.key) (get_texts-put kv.value rest)

pairs-put_values : (kvs : List KeyValue) → pairs (get_texts (put_values kvs)) ≡ kvs
pairs-put_values nil = refl
pairs-put_values (cons kv kvs) =
    ap pairs (get_texts-put_value kv (put_values kvs)) ∙ ap (cons kv) (pairs-put_values kvs)

pub marks-IsJson : IsJson marks
marks-IsJson = record {
  decode-appended = λ kvs.
      ap (λ s. (pairs (get_texts s), false))
        (appended-put_values [] kvs ∙ append.nil (put_values kvs))
      ∙ ap (λ v. (v, false)) (pairs-put_values kvs);
}

-- The number of the first character.
abbrev head_code : String → ℕ
head_code [] = 0
head_code (c ∷ s) = code c

pub input-reduce_name : (j : ℕ) → reduce_name marks "job" 0 j ≢ "input"
unfolding reduce_name
input-reduce_name j h =
    let tail = "job" ++ "-" ++ unary 0 ++ "-" ++ unary j in
    let e : code (char 109 tt) ≡ code (char 105 tt) =
      ap head_code (sym (append.cons (char 109 tt) "rtmp." tail) ∙ h) in
    omega arith
